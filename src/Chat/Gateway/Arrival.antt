-- ===== src/Chat/Gateway/Arrival.antt =====
-- message-created.ws-handler.ts, user-blocked.ws-handler.ts and user-unblocked.ws-handler.ts.
use nestjs_chat.Base.{
  ℕ, Bool, false, Option, none, some, List, [], ◌∷◌, ◌++◌, ◌==◌, if◌then◌else◌, find, includes,
  change,
}
use nestjs_chat.Action.{Result, ok, err}
use nestjs_chat.Chat.Message.{MessageCreatedDomainEvent}
use nestjs_chat.Chat.Conversation.{ConversationEntity, ConversationMemberEntity}
use nestjs_chat.Chat.Ports.{
  ChatUser, ConversationRepositoryPort, ConversationReadRepositoryPort, UserIntegrationPort,
}
use nestjs_chat.Chat.Rooms.{
  WsEvent, user_message_created, user_blocked, user_unblocked, Emission, ReplyTo,
  UserMessageCreatedUser, server_broadcast,
}
use nestjs_chat.Chat.Gateway.Preview.{
  full_name, reply_view, parent_user, is_dto_of_other, get_user_conversation,
}

-- a result that is not an exception
abbrev pub result : {A : Type 0} → Result A → Option A
result (ok a) = some a
result (err e) = none

infixl 5 ◌>>=◌
abbrev pub ◌>>=◌ : {A B : Type 0} → Option A → (A → Option B) → Option B
none >>= f = none
some a >>= f = f a

abbrev pub has_member_id : ℕ → ConversationMemberEntity → Bool
has_member_id i m = m.id == i

abbrev pub shown : ChatUser → UserMessageCreatedUser
shown u = record { id = u.id; username = u.username; name = full_name u; avatar = u.avatar }

abbrev pub arrival_rooms : (target_id sender_id : ℕ) → List ℕ → List ℕ
arrival_rooms target_id sender_id hidden =
    (if includes target_id hidden then [] else target_id ∷ []) ++ sender_id ∷ []

-- the event, of the sender
abbrev pub arrival_event :
    MessageCreatedDomainEvent
    → (conversation_id : ℕ) → ChatUser
    → Option (ReplyTo UserMessageCreatedUser)
    → WsEvent
arrival_event event conversation_id current reply = user_message_created (record {
  id = event.message_id;
  content = event.content;
  seen = false;
  created_at = event.created_at;
  conversation_id = conversation_id;
  user = shown current;
  reply_to_message_id = event.reply_to_message_id;
  reply_to = reply;
  client_message_id = event.client_message_id;
})

module _ {S : Type 0} (repo : ConversationRepositoryPort S)
    (reads : ConversationReadRepositoryPort S) (users : UserIntegrationPort S) where
  -- the `try` around the reply, whose `catch` leaves it out
  abbrev pub arrival_reply :
      Option ℕ
      → ConversationEntity
      → (current target : ChatUser) → S
      → Option (ReplyTo UserMessageCreatedUser)
  arrival_reply none c current target s = none
  arrival_reply (some i) c current target s = do
    found ← result (repo.get_message_by_id i s)
    parent ← found
    let parent_user_id =
        change (λ (m : ConversationMemberEntity). m.user_id)
          (find (has_member_id parent.message.sender_id) c.members)
    user ← result (parent_user users current target parent_user_id s)
    some (reply_view shown parent.message parent_user_id user)

  -- each `catch` of the handler returns
  unfoldable pub handle_message_created : MessageCreatedDomainEvent → S → Option Emission
  unfolding get_user_conversation
  handle_message_created event s = do
    found ← result (repo.get_conversation_by_id event.conversation_id s)
    c ← found
    sender ← find (has_member_id event.sender_id) c.members
    conversation ← result (get_user_conversation reads event.conversation_id sender.user_id s)
    target_member ← find (is_dto_of_other sender.user_id) conversation.members
    current ← result (users.get_user_by_id sender.user_id s)
    target ← result (users.get_user_by_id target_member.user_id s)
    server_broadcast (arrival_rooms target.id current.id event.deleted_for_user_ids) (
        arrival_event event conversation.id current
          (arrival_reply event.reply_to_message_id c current target s))

-- both users hear of a block, and of its end
unfoldable pub handle_user_blocked : (blocker_id blocked_id : ℕ) → Option Emission
handle_user_blocked blocker_id blocked_id =
    server_broadcast (blocked_id ∷ blocker_id ∷ []) (user_blocked blocker_id blocked_id)

unfoldable pub handle_user_unblocked : (unblocker_id unblocked_id : ℕ) → Option Emission
handle_user_unblocked unblocker_id unblocked_id =
    server_broadcast (unblocked_id ∷ unblocker_id ∷ []) (user_unblocked unblocker_id unblocked_id)
