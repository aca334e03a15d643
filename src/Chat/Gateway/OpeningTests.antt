-- ===== src/Chat/Gateway/OpeningTests.antt =====
-- Runs of the gateway that open a conversation.
use nestjs_chat.Base.{ℕ, ◌≡◌, ◌≢◌, refl, false, none, some, [], ◌∷◌}
use nestjs_chat.Exceptions.{database}
use nestjs_chat.Action.{World, ok, err}
use nestjs_chat.Chat.Message.{ChatEvent, create, validate_client_message_id}
use nestjs_chat.Chat.Conversation.{Stamp, ConversationEntity, create_direct, add_member}
use nestjs_chat.Chat.InMemory.{
  in_memory, in_memory_reads, in_memory_users, in_memory_users_laws, world, user_of,
}
use nestjs_chat.Chat.Ports.{ConversationReadRepositoryPort}
use nestjs_chat.Chat.Commands.CreateDirect.{Readings, create_direct_conversation}
use nestjs_chat.Chat.Commands.CreateMessage.{
  create_message, idempotent_hit, reply_message, send_new,
}
use nestjs_chat.Chat.Postgres.InMemory.{Rows, in_lists}
use nestjs_chat.Chat.Postgres.InMemoryLaws.{in_lists_laws}
use nestjs_chat.Chat.Postgres.Repository.{
  postgres, get_conversation_by_id, save_conversation, for_each, save_message, save_message_run,
  save_message_failed,
}
use nestjs_chat.Chat.Postgres.Sample.{rows}
use nestjs_chat.Chat.Gateway.Conversations.{
  CreateConversationRequest, ws_create_direct_conversation, open_conversation,
}
use nestjs_chat.Chat.Gateway.Opening.{IsAsked, IsOpened, ws_create_direct_conversation-visible}
use nestjs_chat.Chat.Gateway.Undone.{ws_create_direct_conversation-undone}

abbrev stamp : ℕ → Stamp
stamp i = record { id = i; created_at = 1; updated_at = 1 }

abbrev readings : Readings
readings = record {
  conversation = stamp 20;
  first = stamp 21;
  second = stamp 22;
  identifier = 50;
  joined = 2;
  joined' = 3;
}

-- "yo", to user 3
abbrev request : CreateConversationRequest
request = record { target_user_id = 3; content = 121 ∷ 111 ∷ [] }

ws_create_direct_conversation-visible_example :
    IsOpened in_memory in_memory_reads in_memory_users readings 30 4 request 1 world
      (ws_create_direct_conversation in_memory in_memory_reads in_memory_users readings 30 4 request
        1 world).1
unfolding ws_create_direct_conversation open_conversation create_direct_conversation create_direct
    add_member create_message idempotent_hit reply_message send_new create
    validate_client_message_id
ws_create_direct_conversation-visible_example =
    ws_create_direct_conversation-visible in_memory in_memory_reads in_memory_users readings 30 4
      request 1 world in_memory_users_laws refl

-- the rows of a database that refuses a message with the identifier 0
abbrev stored : World Rows ChatEvent
stored = record { store = rows; published = [] }

abbrev no_reads : ConversationReadRepositoryPort Rows
no_reads = record {
  conversation_exists = λ u t s. ok false;
  get_user_conversation_by_id = λ i u s. ok none;
}

abbrev is_asked : IsAsked in_memory_users 1 3 rows
is_asked = record {
  current = user_of 1;
  target = user_of 3;
  status = record { is_blocker = false; is_blocked = false };
  current_read = refl;
  target_read = refl;
  status_read = refl;
  unblocked = refl;
}

ws_create_direct_conversation-undone_example :
    ((ws_create_direct_conversation
        (postgres in_lists)
        no_reads
        in_memory_users
        readings
        0
        4
        request
        1
        stored).0
      ≡ err (database 22000))
    × ((c : ConversationEntity)
        → get_conversation_by_id in_lists 20
            (ws_create_direct_conversation
              (postgres in_lists)
              no_reads
              in_memory_users
              readings
              0
              4
              request
              1
              stored).1.store
          ≢ ok (some c))
unfolding create_direct_conversation create_direct add_member create_message idempotent_hit
    reply_message send_new create validate_client_message_id save_conversation for_each
    get_conversation_by_id save_message save_message_run save_message_failed
    nestjs_chat.Chat.Postgres.Repository.delete_conversation
ws_create_direct_conversation-undone_example =
    ws_create_direct_conversation-undone in_lists_laws no_reads in_memory_users readings 0 4 request
      1 stored _ _ _ (database 22000) is_asked refl refl refl
