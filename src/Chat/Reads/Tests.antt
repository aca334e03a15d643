-- ===== src/Chat/Reads/Tests.antt =====
-- A read of the conversation 5, where the message 8 replies to 7, which is hidden from user 1.
use nestjs_chat.Base.{◌≡◌, refl, subst, true, ◌&&◌, ◌==◌, none, some, [], ◌∷◌, if◌then◌else◌, arith}
use nestjs_chat.Action.{ok}
use nestjs_chat.Chat.InMemory.{hi}
use nestjs_chat.Chat.Message.{text}
use nestjs_chat.Chat.Postgres.Entities.{message_from_domain}
use nestjs_chat.Pagination.{PaginationOptions, whole, create_result}
use nestjs_chat.Chat.Ports.{MessageReadDto}
use nestjs_chat.Chat.Reads.{MessageRow, ReadDatabase, get_user_conversation_message_list}
use nestjs_chat.Chat.Reads.Masking.{
  ReadDatabaseLaws, AllJoined, all_masked, get_user_conversation_message_list_masked,
}

abbrev answer_row : MessageRow
answer_row = record {
  message = record (message_from_domain hi) { id = 8; reply_to_message_id = some 7 };
  sender = none;
  reply_to_message = some (message_from_domain hi, none);
}

abbrev fixed : ReadDatabase (Unit {0})
fixed = record {
  find_messages = λ c u p t. ok (answer_row ∷ [], 1);
  find_deleted = λ u ids t. ok (if u == 1 then record { user_id = 1; message_id = 7 } ∷ [] else []);
  find_conversation = λ c u t. ok none;
}

fixed_laws : ReadDatabaseLaws fixed
fixed_laws = record {
  is_hidden = λ t u i. (u == 1) && (7 == i);
  deleted_found = λ u i ids t ds h listed. ground arith;
  rows_found = λ c u p t rows count h.
      let same : answer_row ∷ [] ≡ rows = ground arith in subst AllJoined same (refl, tt);
}

abbrev first_page : PaginationOptions
first_page = record { page = whole 1; page_size = 15; offset = whole 0; limit = 15 }

abbrev answer_dto : MessageReadDto
answer_dto = record {
  id = 8;
  content = hi.content;
  type = text;
  sender_id = 11;
  created_at = 2;
  edited_at = none;
  deleted_at = none;
  reply_to_message_id = some 7;
  reply_to = some (record {
    id = 7;
    content = none;
    type = text;
    sender_id = 11;
    created_at = 2;
    deleted_at = some 9;
  });
  client_message_id = none;
}

get_user_conversation_message_list_masked_example :
    all_masked (λ i. (1 == 1) && (7 == i)) (answer_dto ∷ []) ≡ true
unfolding get_user_conversation_message_list create_result fixed_laws
get_user_conversation_message_list_masked_example =
    get_user_conversation_message_list_masked fixed_laws 9 5 1 first_page tt refl
