-- ===== src/Chat/Gateway/Tests.antt =====
-- Runs of the gateway on messages: user 1 is the member 11 of conversation 5, with user 2.
use nestjs_chat.Base.{
  ℕ, ◌≡◌, refl, true, false, ◌&&◌, ◌||◌, not, ◌==◌, none, some, List, [], ◌∷◌, any, includes,
  get_or, trim,
}
use nestjs_chat.Action.{ok}
use nestjs_chat.Chat.Message.{MessageCreatedDomainEvent, edit, create, validate_client_message_id}
use nestjs_chat.Chat.Conversation.{mark_as_read, update_found}
use nestjs_chat.Chat.InMemory.{
  member_of, in_memory, in_memory_reads, in_memory_users, world, user_of, two_members,
}
use nestjs_chat.Chat.Ports.{LoadedMessage, ConversationReadDto, ConversationMemberReadDto}
use nestjs_chat.Chat.Commands.CreateMessage.{
  create_message, idempotent_hit, reply_message, send_new,
}
use nestjs_chat.Chat.Commands.MarkAsRead.{mark_conversation_as_read, IsMarkedBy}
use nestjs_chat.Chat.Rooms.{Emission, message_seen}
use nestjs_chat.Chat.Rooms.Laws.{heard_by}
use nestjs_chat.Chat.Gateway.Preview.{get_user_conversation, is_dto_of}
use nestjs_chat.Chat.Gateway.Messages.{
  CreateMessageRequest, CreatedMessage, EditMessageRequest, MarkMessageSeenRequest,
  ws_create_message, ws_edit_message, ws_mark_message_as_seen, own_conversation,
}
use nestjs_chat.Chat.Gateway.Arrival.{handle_message_created}
use nestjs_chat.Chat.Gateway.Changing.{IsOwn, ws_edit_message_sound}
use nestjs_chat.Chat.Commands.EditMessage.{edit_message, IsEditedBy}
use nestjs_chat.Chat.Gateway.Access.{ws_mark_message_as_seen_sound, heard_in}
use nestjs_chat.Chat.Gateway.Sending.{IsSentBy, ws_create_message_sound}
use nestjs_chat.Chat.Gateway.Hearing.{IsResolved, handle_message_created_rooms}

-- "yo", in the conversation 5, from user 1
abbrev message_request : CreateMessageRequest
message_request = record {
  conversation_id = 5;
  content = 121 ∷ 111 ∷ [];
  reply_to_message_id = some 7;
  client_message_id = none;
}

abbrev message_response : CreatedMessage
message_response = record {
  id = 30;
  created_at = 4;
  seen = false;
  user_id = 1;
  user_name = 65 ∷ 32 ∷ 110 ∷ 117 ∷ 108 ∷ 108 ∷ [];
  content = 121 ∷ 111 ∷ [];
  reply_to_message_id = some 7;
  reply_to = some (record {
    id = 7;
    content = some (104 ∷ 105 ∷ []);
    created_at = 2;
    sender_id = 1;
    user = some (1, 65 ∷ 32 ∷ 110 ∷ 117 ∷ 108 ∷ 108 ∷ []);
  });
  client_message_id = none;
}

ws_create_message_sound_example :
    IsSentBy in_memory in_memory_reads in_memory_users 30 4 message_request 1 world message_response
      (ws_create_message in_memory in_memory_reads in_memory_users 30 4 message_request 1 world).1
unfolding ws_create_message get_user_conversation create_message idempotent_hit reply_message
    send_new create validate_client_message_id
ws_create_message_sound_example =
    ws_create_message_sound in_memory in_memory_reads in_memory_users 30 4 message_request 1 world
      refl

abbrev seen_request : MarkMessageSeenRequest
seen_request = record { conversation_id = 5; message_id = 7 }

abbrev edit_request : EditMessageRequest
edit_request = record { message_id = 7; conversation_id = 5; content = 104 ∷ [] }

ws_edit_message_sound_example :
    IsOwn in_memory in_memory_reads in_memory_users 5 1 world.store
    × (l : LoadedMessage) × IsEditedBy in_memory 9
        (record { message_id = 7; conversation_id = 5; user_id = 1; content = 104 ∷ [] })
        world
        l
        (ws_edit_message in_memory in_memory_reads in_memory_users 9 edit_request 1 world).1
    × (7 ≡ l.message.id)
    × ((104 ∷ []) ≡ l.message.content)
    × (9 ≡ get_or l.message.edited_at l.message.updated_at)
unfolding ws_edit_message own_conversation get_user_conversation edit_message edit trim
ws_edit_message_sound_example =
    ws_edit_message_sound in_memory in_memory_reads in_memory_users 9 edit_request 1 world
      {response = record { id = 7; content = 104 ∷ []; edited_at = 9 }} refl

-- the conversation 5, without its members
abbrev member_less : ConversationReadDto
member_less = record {
  id = 5;
  type = two_members.type;
  identifier = none;
  title = none;
  picture = none;
  created_at = 1;
  updated_at = 1;
  members = [];
  last_message = none;
  not_seen_count = 0;
}

abbrev dto : (id user_id : ℕ) → ConversationMemberReadDto
dto id user_id = record {
  id = id;
  user_id = user_id;
  last_seen_message_id = none;
  last_seen_message = none;
  last_message_id = none;
}

-- the two members, as they are read
abbrev read_conversation : ConversationReadDto
read_conversation = record member_less { identifier = some 50; members = dto 11 1 ∷ dto 12 2 ∷ [] }

abbrev seen_emissions : List Emission
seen_emissions = record { rooms = 1 ∷ 2 ∷ []; event = message_seen 5 7 } ∷ []

ws_mark_message_as_seen_sound_example :
    (c : ConversationReadDto) × (in_memory_reads.get_user_conversation_by_id 5 1 world.store
      ≡ ok (some c))
    × (any (is_dto_of 1) c.members ≡ true)
    × IsMarkedBy in_memory 9
        (record { conversation_id = c.id; user_id = 1; message_id = 7 })
        world
        (ws_mark_message_as_seen in_memory in_memory_reads in_memory_users 9 seen_request 1 world).1
    × ((u : ℕ) → heard_in u seen_emissions ≡ any (is_dto_of u) c.members)
unfolding ws_mark_message_as_seen own_conversation get_user_conversation mark_conversation_as_read
    mark_as_read update_found
ws_mark_message_as_seen_sound_example =
    ws_mark_message_as_seen_sound in_memory in_memory_reads in_memory_users 9 seen_request 1 world
      refl

-- the event of "yo", hidden from user 2
abbrev created_event : MessageCreatedDomainEvent
created_event = record {
  message_id = 30;
  conversation_id = 5;
  sender_id = 11;
  content = 121 ∷ 111 ∷ [];
  deleted_for_user_ids = 2 ∷ [];
  created_at = 4;
  reply_to_message_id = none;
  client_message_id = none;
}

abbrev is_resolved : IsResolved in_memory in_memory_reads in_memory_users created_event world.store
is_resolved = record {
  conversation = two_members;
  sender = member_of 11 1;
  dto = read_conversation;
  target_member = dto 12 2;
  current = user_of 1;
  target = user_of 2;
  known = refl;
  sent_by = refl;
  dto_read = refl;
  other = refl;
  current_read = refl;
  target_read = refl;
}

handle_message_created_rooms_example :
    heard_by 2
      (handle_message_created in_memory in_memory_reads in_memory_users created_event world.store)
    ≡ ((1 == 2) || ((2 == 2) && not (includes 2 (2 ∷ []))))
handle_message_created_rooms_example =
    handle_message_created_rooms in_memory in_memory_reads in_memory_users created_event world.store
      2 is_resolved
