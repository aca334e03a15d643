-- ===== src/Chat/Gateway/Hearing.antt =====
-- Who hears of a created message, and what is shown of the message that it replies to.
use nestjs_chat.Base.{
  ℕ, ◌≡◌, not, ◌&&◌, ◌||◌, ◌==◌, none, some, arith, inl, inr, find, includes, Text, Option-cases,
  change,
}
use nestjs_chat.Action.{ok}
use nestjs_chat.Action.Inversion.{Result-cases, found_cases}
use nestjs_chat.Chat.Message.{MessageCreatedDomainEvent}
use nestjs_chat.Chat.Conversation.{ConversationEntity, ConversationMemberEntity}
use nestjs_chat.Chat.Ports.{
  ChatUser, LoadedMessage, ConversationReadDto, ConversationMemberReadDto,
  ConversationRepositoryPort, ConversationReadRepositoryPort, UserIntegrationPort,
}
use nestjs_chat.Chat.Rooms.{ReplyTo, UserMessageCreatedUser}
use nestjs_chat.Chat.Rooms.Laws.{heard_by}
use nestjs_chat.Chat.Gateway.Preview.{is_dto_of_other, get_user_conversation, parent_user}
use nestjs_chat.Chat.Gateway.Arrival.{
  has_member_id, arrival_reply, handle_message_created, handle_user_blocked, handle_user_unblocked,
}

-- Both users hear of a block and of its end, and nobody else does.
pub handle_user_blocked_rooms :
    (blocker_id blocked_id u : ℕ)
    → (heard_by u (handle_user_blocked blocker_id blocked_id)
        ≡ ((blocker_id == u) || (blocked_id == u)))
      × (heard_by u (handle_user_unblocked blocker_id blocked_id)
          ≡ ((blocker_id == u) || (blocked_id == u)))
unfolding handle_user_blocked handle_user_unblocked
handle_user_blocked_rooms blocker_id blocked_id u = (ground arith, ground arith)

-- The reads of the handler that succeed.
pub record IsResolved {S : Type 0} (repo : ConversationRepositoryPort S)
    (reads : ConversationReadRepositoryPort S) (users : UserIntegrationPort S)
    (event : MessageCreatedDomainEvent) (s : S) : Type 0 where
  pub conversation : ConversationEntity
  pub sender : ConversationMemberEntity
  pub dto : ConversationReadDto
  pub target_member : ConversationMemberReadDto
  pub current : ChatUser
  pub target : ChatUser
  pub known : repo.get_conversation_by_id event.conversation_id s ≡ ok (some conversation)
  pub sent_by : find (has_member_id event.sender_id) conversation.members ≡ some sender
  pub dto_read :
      reads.get_user_conversation_by_id event.conversation_id sender.user_id s ≡ ok (some dto)
  pub other : find (is_dto_of_other sender.user_id) dto.members ≡ some target_member
  pub current_read : users.get_user_by_id sender.user_id s ≡ ok current
  pub target_read : users.get_user_by_id target_member.user_id s ≡ ok target

module _ {S : Type 0} (repo : ConversationRepositoryPort S)
    (reads : ConversationReadRepositoryPort S) (users : UserIntegrationPort S) where
  -- Where the conversation, its members and both users are found, a created message is heard by the
  -- sender, and by the other member's user unless it is hidden from that user; by nobody else. It does
  -- not matter what becomes of the message that it replies to.
  pub handle_message_created_rooms :
      (event : MessageCreatedDomainEvent) (s : S) (u : ℕ) (r : IsResolved repo reads users event s)
      → heard_by u (handle_message_created repo reads users event s) ≡ (
          (r.current.id == u)
          || ((r.target.id == u) && not (includes r.target.id event.deleted_for_user_ids)))
  unfolding handle_message_created get_user_conversation
  handle_message_created_rooms event s u r =
      ground (arith, r.known, r.sent_by, r.dto_read, r.other, r.current_read, r.target_read)

  -- A text that is shown of the message replied to is the text of a message that was found under the
  -- identifier, and that is not deleted for everyone.
  pub arrival_reply_content :
      (i : ℕ) (c : ConversationEntity) (current target : ChatUser) (s : S)
      (r : ReplyTo UserMessageCreatedUser) (content : Text)
      → arrival_reply repo reads users (some i) c current target s ≡ some r
      → r.content ≡ some content
      → (parent : LoadedMessage) × (repo.get_message_by_id i s ≡ ok (some parent))
        × (parent.message.deleted_at ≡ none)
        × (content ≡ parent.message.content)
  arrival_reply_content i c current target s r content h shown =
      elim (found_cases (repo.get_message_by_id i s)) [
        | inr missing ↦ absurd (ground arith)
        | inl (parent, found) ↦
            elim (Result-cases (
              parent_user users current target
                (change (λ (m : ConversationMemberEntity). m.user_id)
                  (find (has_member_id parent.message.sender_id) c.members))
                s)) [
                  | inr failed ↦ absurd (ground arith)
                  | inl (user, resolved) ↦ elim (Option-cases parent.message.deleted_at) [
                    | inr (at, deleted) ↦ absurd (ground arith)
                    | inl kept ↦ (parent, found, kept, ground arith)
                  ]
                ]
      ]
