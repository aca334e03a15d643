-- ===== src/Chat/Rooms/Tests.antt =====
-- Who hears of what on the repository in memory.
use nestjs_chat.Base.{◌≡◌, true, some, []}
use nestjs_chat.Chat.Message.{MessageDeletedDomainEvent, everyone}
use nestjs_chat.Chat.InMemory.{in_memory, world}
use nestjs_chat.Chat.Rooms.{handle_message_deleted}
use nestjs_chat.Chat.Rooms.Laws.{heard_by, handle_message_deleted_rooms}

abbrev delete_event : MessageDeletedDomainEvent
delete_event = record {
  message_id = 7;
  conversation_id = 5;
  scope = everyone;
  actor_user_id = 1;
  deleted_for_user_ids = [];
  deleted_at = some 9;
}

handle_message_deleted_rooms_example :
    heard_by 2 (handle_message_deleted in_memory delete_event world.store) ≡ true
handle_message_deleted_rooms_example =
    handle_message_deleted_rooms in_memory delete_event world.store 2
