-- ===== src/Chat/Rooms.antt =====
-- The event handlers of src/modules/chat/presentation/ws/events/handlers for edited and deleted
-- messages: which rooms hear of them, by the server's broadcast of base-ws.gateway.ts. A room
-- `user-<id>` is the user's identifier, and socket.io's emission is what is returned.
pub mod Laws
mod Tests
use nestjs_chat.Base.{ℕ, Bool, Option, none, some, List, [], ◌∷◌, includes, Text, if◌then◌else◌}
use nestjs_chat.Action.{Result, Read, ok, err}
use nestjs_chat.Chat.Message.{
  MessageDeleteScope, me, everyone, MessageEditedDomainEvent, MessageDeletedDomainEvent,
}
use nestjs_chat.Chat.Conversation.{ConversationEntity, ConversationMemberEntity}
use nestjs_chat.Chat.Ports.{ConversationRepositoryPort}

-- ConversationCreated, with the last message and the name of its user
pub record ConversationCreated : Type 0 where
  pub id : ℕ
  pub name : Text
  pub avatar : Option Text
  pub username : Text
  pub not_seen_count : ℕ
  pub message_id : ℕ
  pub content : Text
  pub created_at : ℕ
  pub seen : Bool
  pub user_id : ℕ
  pub user_name : Text

pub record UserMessageCreatedUser : Type 0 where
  pub id : ℕ
  pub username : Text
  pub name : Text
  pub avatar : Option Text

-- UserMessageCreatedReplyTo, with what is shown of its user
pub record ReplyTo (U : Type 0) : Type 0 where
  pub id : ℕ
  pub content : Option Text
  pub created_at : ℕ
  pub sender_id : ℕ
  pub user : Option U

-- UserMessageCreated; the conversation has the name, the avatar and the username of the sender
pub record UserMessageCreated : Type 0 where
  pub id : ℕ
  pub content : Text
  pub seen : Bool
  pub created_at : ℕ
  pub conversation_id : ℕ
  pub user : UserMessageCreatedUser
  pub reply_to_message_id : Option ℕ
  pub reply_to : Option (ReplyTo UserMessageCreatedUser)
  pub client_message_id : Option Text

-- The events of src/modules/chat/presentation/ws/events.
pub data WsEvent : Type 0 where
  user_message_deleted :
      (id conversation_id : ℕ) (scope : MessageDeleteScope) (deleted_at : Option ℕ) → WsEvent
  user_message_edited : (id conversation_id : ℕ) (content : Text) (edited_at : ℕ) → WsEvent
  conversation_created : ConversationCreated → WsEvent
  message_seen : (conversation_id message_id : ℕ) → WsEvent
  user_message_created : UserMessageCreated → WsEvent
  user_blocked user_unblocked : (blocker_id blocked_id : ℕ) → WsEvent

pub record Emission : Type 0 where
  pub rooms : List ℕ
  pub event : WsEvent

-- `serverBroadcast`: nothing is emitted to no room
abbrev pub server_broadcast : List ℕ → WsEvent → Option Emission
server_broadcast [] event = none
server_broadcast (room ∷ rooms) event = some (record { rooms = room ∷ rooms; event = event })

-- the loop over the members
abbrev pub rooms_of : (deleted_for : List ℕ) → List ConversationMemberEntity → List ℕ
rooms_of deleted_for [] = []
rooms_of deleted_for (m ∷ members) =
    let rest = rooms_of deleted_for members in
    if includes m.user_id deleted_for then rest else m.user_id ∷ rest

module _ {S : Type 0} (repo : ConversationRepositoryPort S) where
  -- the `try` around the conversation, whose `catch` returns
  abbrev pub members_of : ℕ → S → Option (List ConversationMemberEntity)
  members_of conversation_id s = elim (repo.get_conversation_by_id conversation_id s) [
    | ok found ↦ elim found [ none ↦ none | some c ↦ some c.members ]
    | err e ↦ none
  ]

  unfoldable pub handle_message_edited : MessageEditedDomainEvent → S → Option Emission
  handle_message_edited event s = elim (members_of event.conversation_id s) [
    | none ↦ none
    | some members ↦
        server_broadcast (rooms_of event.deleted_for_user_ids members)
          (user_message_edited event.message_id event.conversation_id event.content event.edited_at)
  ]

  abbrev pub deleted_rooms : MessageDeletedDomainEvent → S → Option (List ℕ)
  deleted_rooms event s = elim event.scope [
    | me ↦ some (event.actor_user_id ∷ [])
    | everyone ↦ elim (members_of event.conversation_id s) [
      | none ↦ none
      | some members ↦ some (rooms_of event.deleted_for_user_ids members)
    ]
  ]

  unfoldable pub handle_message_deleted : MessageDeletedDomainEvent → S → Option Emission
  handle_message_deleted event s = elim (deleted_rooms event s) [
    | none ↦ none
    | some rooms ↦
        server_broadcast rooms
          (user_message_deleted event.message_id event.conversation_id event.scope event.deleted_at)
  ]
