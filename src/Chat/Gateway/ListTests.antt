-- ===== src/Chat/Gateway/ListTests.antt =====
-- Runs of the gateway's lists: the message 8 replies to 7, which is hidden from user 1.
use nestjs_chat.Base.{◌≡◌, refl, subst, true, false, ◌==◌, none, some, [], ◌∷◌, arith}
use nestjs_chat.Action.{ok}
use nestjs_chat.Pagination.{PageMeta, PaginatedResult, whole}
use nestjs_chat.Chat.InMemory.{Store, in_memory_reads, world, user_of}
use nestjs_chat.Chat.Message.{text}
use nestjs_chat.Chat.Conversation.{direct}
use nestjs_chat.Chat.Ports.{
  MessageReadDto, ConversationReadDto, ConversationListsPort, UserListsPort,
}
use nestjs_chat.Chat.Reads.Masking.{all_masked}
use nestjs_chat.Chat.Gateway.Preview.{get_user_conversation}
use nestjs_chat.Chat.Gateway.MessageList.{
  GetConversationMessageListRequest, UserConversationMessageItem, ws_message_list,
}
use nestjs_chat.Chat.Gateway.ConversationList.{GetUserConversationListRequest, ws_conversation_list}
use nestjs_chat.Chat.Gateway.Listing.{all_shown, ws_message_list_shown}
use nestjs_chat.Chat.Gateway.OwnName.{ws_conversation_list-own_name, without_filter}

abbrev meta : PageMeta
meta = record {
  page = whole 1;
  page_size = 15;
  total = 1;
  total_pages = 1;
  has_next = false;
  has_previous = false;
}

abbrev answer_dto : MessageReadDto
answer_dto = record {
  id = 8;
  content = 121 ∷ [];
  type = text;
  sender_id = 2;
  created_at = 4;
  edited_at = none;
  deleted_at = none;
  reply_to_message_id = some 7;
  reply_to = some (record {
    id = 7;
    content = none;
    type = text;
    sender_id = 1;
    created_at = 2;
    deleted_at = some 9;
  });
  client_message_id = none;
}

abbrev message_page : PaginatedResult MessageReadDto
message_page = record { items = answer_dto ∷ []; meta = meta }

abbrev listed_conversation : ConversationReadDto
listed_conversation = record {
  id = 5;
  type = direct;
  identifier = some 50;
  title = none;
  picture = none;
  created_at = 1;
  updated_at = 1;
  members = [];
  last_message = none;
  not_seen_count = 0;
}

-- the conversation 5 is listed when nothing is searched for
abbrev list_port : ConversationListsPort Store
list_port = record {
  get_user_conversation_list = λ u options s. ok (record {
    items = elim options.filter_user_ids [ [] ↦ listed_conversation ∷ [] | i ∷ ids ↦ [] ];
    meta = meta;
  });
  get_user_conversation_message_list = λ c u p s. ok message_page;
}

-- a search finds user 1
abbrev list_users : UserListsPort Store
list_users = record {
  get_users_by_ids = λ ids s. ok (user_of 1 ∷ user_of 2 ∷ []);
  get_user_ids_by_name_or_username = λ t s. ok (1 ∷ []);
  get_blocked_users_ids = λ u ids s. ok [];
}

abbrev list_request : GetConversationMessageListRequest
list_request = record { conversation_id = 5; page = none; page_size = none }

abbrev shown_item : UserConversationMessageItem
shown_item = record {
  id = 8;
  content = some (121 ∷ []);
  created_at = 4;
  edited_at = none;
  deleted_at = none;
  seen = false;
  user = some (2, some (66 ∷ []));
  reply_to_message_id = some 7;
  reply_to = some (record {
    id = 7;
    content = none;
    created_at = 2;
    sender_id = 1;
    user = some (1, some (65 ∷ []));
  });
  client_message_id = none;
}

ws_message_list_shown_example : all_shown (λ i. 7 == i) (shown_item ∷ []) ≡ true
unfolding ws_message_list get_user_conversation
ws_message_list_shown_example =
    ws_message_list_shown in_memory_reads list_port list_users (λ i. 7 == i) list_request 1 world
      (λ result read_.
        let same : message_page ≡ result = ground arith in
        subst (λ (r : PaginatedResult MessageReadDto). all_masked (λ i. 7 == i) r.items ≡ true) same
          refl)
      refl

-- a search for "A" by user 1
abbrev search_request : GetUserConversationListRequest
search_request = record { target_user_id = none; filter = 65 ∷ []; page = none; page_size = none }

ws_conversation_list-own_name_example :
    ws_conversation_list list_port list_users search_request 1 world
    ≡ ws_conversation_list list_port list_users (without_filter search_request) 1 world
ws_conversation_list-own_name_example =
    ws_conversation_list-own_name list_port list_users search_request 1 world 65 [] (1 ∷ []) refl
      refl refl refl
