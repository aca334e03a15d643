-- ===== src/Chat/Commands/Tests.antt =====
-- Runs of the chat commands on the repository in memory: user 1 is the member 11 of conversation 5.
use nestjs_chat.Base.{ℕ, ◌≡◌, refl, true, false, none, some, [], ◌∷◌, trim}
use nestjs_chat.Action.{ok}
use nestjs_chat.Chat.Message.{
  MessageEntity, everyone, text, create, edit, delete_for_everyone, validate_client_message_id,
}
use nestjs_chat.Chat.Conversation.{
  direct, ConversationEntity, user_ids, IsValid, Stamp, create_direct, add_member,
}
use nestjs_chat.Chat.InMemory.{
  in_memory, in_memory_reads, in_memory_users, in_memory_laws, load, hi, world,
}
use nestjs_chat.Chat.Ports.{LoadedMessage}
use nestjs_chat.Chat.Commands.EditMessage.{
  EditMessageCommand, edit_message, IsEditedBy, edit_message_sound,
}
use nestjs_chat.Chat.Commands.DeleteMessage.{
  DeleteMessageCommand, remove, delete_message, IsDeletedBy, delete_message_sound,
}
use nestjs_chat.Chat.Commands.MarkAsRead.{MarkConversationAsReadCommand}
use nestjs_chat.Chat.Commands.CreateDirect.{
  CreateDirectConversationCommand, Readings, create_direct_conversation, conversation_of,
  IsOpenedBy, create_direct_conversation_sound, create_direct_conversation_outcome,
}
use nestjs_chat.Chat.Commands.CreateMessage.{
  CreateMessageCommand, create_message, idempotent_hit, reply_message, send_new,
}
use nestjs_chat.Chat.Commands.CreateMessage.Sound.{IsCreatedBy, create_message_sound}
use nestjs_chat.Chat.Commands.CreateMessage.Idempotent.{create_message_again}

abbrev edit_command : EditMessageCommand
edit_command = record { message_id = 7; conversation_id = 5; user_id = 1; content = 104 ∷ [] }

abbrev edited_hi : MessageEntity
edited_hi = record hi { content = 104 ∷ []; edited_at = some 9; updated_at = 9 }

edit_message_sound_example :
    IsEditedBy in_memory 9 edit_command world
      (load edited_hi)
      (edit_message in_memory 9 edit_command world).1
unfolding edit_message edit trim
edit_message_sound_example = edit_message_sound in_memory 9 edit_command world refl

abbrev delete_command : DeleteMessageCommand
delete_command = record { message_id = 7; conversation_id = 5; user_id = 1; scope = everyone }

abbrev deleted_hi : MessageEntity
deleted_hi = record hi { deleted_at = some 9; updated_at = 9 }

delete_message_sound_example :
    IsDeletedBy in_memory 9 delete_command world
      (load deleted_hi)
      (delete_message in_memory 9 delete_command world).1
unfolding delete_message remove delete_for_everyone
delete_message_sound_example = delete_message_sound in_memory 9 delete_command world refl

abbrev read_command : MarkConversationAsReadCommand
read_command = record { conversation_id = 5; user_id = 2; message_id = 7 }

abbrev direct_command : CreateDirectConversationCommand
direct_command = record { user_id = 1; target_user_id = 3 }

abbrev stamp : ℕ → Stamp
stamp i = record { id = i; created_at = 8; updated_at = 8 }

abbrev readings : Readings
readings = record {
  conversation = stamp 6;
  first = stamp 13;
  second = stamp 14;
  identifier = 60;
  joined = 9;
  joined' = 9;
}

create_direct_conversation_sound_example :
    IsOpenedBy in_memory in_memory_reads in_memory_users readings direct_command world
      (conversation_of readings direct_command)
      (create_direct_conversation in_memory in_memory_reads in_memory_users readings direct_command
        world).1
unfolding create_direct_conversation create_direct add_member
create_direct_conversation_sound_example =
    create_direct_conversation_sound in_memory in_memory_reads in_memory_users readings
      direct_command world refl

create_direct_conversation_outcome_example :
    (c : ConversationEntity) × (c.type ≡ direct)
    × (user_ids c.members ≡ 1 ∷ 3 ∷ [])
    × IsValid c
    × (create_direct_conversation in_memory in_memory_reads in_memory_users readings direct_command
          world
        ≡ (
          ok c,
          record world {
            store = record world.store { conversations = c ∷ world.store.conversations };
          },
        ))
create_direct_conversation_outcome_example =
    create_direct_conversation_outcome in_memory in_memory_reads in_memory_users readings
      direct_command world true false false refl refl refl

-- "yo", in reply to "hi", as "c1" of the client's
abbrev send_command : CreateMessageCommand
send_command = record {
  content = 121 ∷ 111 ∷ [];
  type = text;
  sender_id = 2;
  conversation_id = 5;
  deleted_for_user_ids = [];
  reply_to_message_id = some 7;
  client_message_id = some (99 ∷ 49 ∷ []);
}

abbrev yo : MessageEntity
yo = record {
  id = 8;
  created_at = 9;
  updated_at = 9;
  content = 121 ∷ 111 ∷ [];
  type = text;
  sender_id = 12;
  conversation_id = 5;
  deleted_for_user_ids = [];
  deleted_at = none;
  edited_at = none;
  reply_to_message_id = some 7;
  client_message_id = some (99 ∷ 49 ∷ []);
}

abbrev sent : LoadedMessage
sent = record { message = yo; reply_to_message = some hi }

create_message_sound_example :
    IsCreatedBy in_memory 8 9 send_command world sent
      (create_message in_memory 8 9 send_command world).1
unfolding create_message idempotent_hit send_new reply_message create validate_client_message_id
    trim
create_message_sound_example = create_message_sound in_memory 8 9 send_command world refl

create_message_again_example :
    (l' : LoadedMessage) × (create_message in_memory 88 99 send_command
        (create_message in_memory 8 9 send_command world).1
      ≡ (ok l', (create_message in_memory 8 9 send_command world).1))
    × (l'.message.id ≡ 8)
unfolding create_message idempotent_hit send_new reply_message create validate_client_message_id
    trim
create_message_again_example =
    create_message_again in_memory 8 9 88 99 send_command world {l = sent} (99 ∷ 49 ∷ [])
      in_memory_laws refl (λ e. cc) refl refl
