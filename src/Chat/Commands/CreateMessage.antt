-- ===== src/Chat/Commands/CreateMessage.antt =====
-- create-message.handler.ts. `execute` is cut at its two `if`s: the search for an earlier message
-- with the client's identifier, and the checks of the message that is replied to.
pub mod Sound
pub mod Idempotent
use nestjs_chat.Base.{
  ℕ, Bool, not, ◌==◌, Option, none, some, List, find, includes, is_some, Text, text_eq, trim,
  is_blank, if◌then◌else◌,
}
use nestjs_chat.Exceptions.{
  domain, conversation_not_found, message_not_found, not_message_owner, chat_domain_error,
  idempotency_conflict,
}
use nestjs_chat.Action.{Action, ◌>>=◌, ◌>>◌, read, write, require, lift, pure, throw_if, commit}
use nestjs_chat.Chat.Message.{MessageEntity, MessageType, ChatEvent, create}
use nestjs_chat.Chat.Conversation.{ConversationMemberEntity, is_user}
use nestjs_chat.Chat.Ports.{LoadedMessage, ConversationRepositoryPort}

-- `senderId` is the sender's user.
pub record CreateMessageCommand : Type 0 where
  pub content : Text
  pub type : MessageType
  pub sender_id : ℕ
  pub conversation_id : ℕ
  pub deleted_for_user_ids : List ℕ
  pub reply_to_message_id : Option ℕ
  pub client_message_id : Option Text

-- `savedMessage.loadReplyToMessage(replyMessage)`, if there is one
abbrev pub load_reply_to_message : Option LoadedMessage → LoadedMessage → LoadedMessage
load_reply_to_message none saved = saved
load_reply_to_message (some r) saved = record saved { reply_to_message = some r.message }

module _ {S : Type 0} (repo : ConversationRepositoryPort S) where
  -- `if (clientMessageId) { … }`: the message to return early
  unfoldable pub idempotent_hit :
      CreateMessageCommand
      → (member_id : ℕ) → Option Text
      → Action S ChatEvent (Option LoadedMessage)
  idempotent_hit cmd member_id none = pure none
  idempotent_hit cmd member_id (some client) = if is_blank client then pure none else do
    existing ←
        read (repo.get_message_by_client_message_id cmd.conversation_id member_id (trim client))
    elim existing [
      | none ↦ pure none
      | some m ↦ do
        throw_if (not (text_eq m.message.content cmd.content)) (domain (idempotency_conflict none))
        pure (some m)
    ]

  -- `if (replyToMessageId) { … }`
  unfoldable pub reply_message :
      CreateMessageCommand → Option ℕ → Action S ChatEvent (Option LoadedMessage)
  reply_message cmd none = pure none
  reply_message cmd (some reply_id) = do
    found ← read (repo.get_message_by_id reply_id)
    reply ← require found (domain (message_not_found (some "Replied message not found")))
    throw_if (not (reply.message.conversation_id == cmd.conversation_id))
        (domain (chat_domain_error "Replied message does not belong to this conversation"))
    throw_if (is_some reply.message.deleted_at)
        (domain (chat_domain_error "Cannot reply to a deleted message"))
    throw_if (includes cmd.sender_id reply.message.deleted_for_user_ids)
        (domain (message_not_found (some "Replied message not found")))
    pure (some reply)

  -- the rest of `execute`, after the early return
  unfoldable pub send_new :
      (id now : ℕ)
      → CreateMessageCommand
      → ConversationMemberEntity
      → Action S ChatEvent LoadedMessage
  send_new id now cmd member = do
    reply ← reply_message cmd cmd.reply_to_message_id
    message ← lift (
        create id now cmd.content cmd.type member.id cmd.conversation_id cmd.deleted_for_user_ids
          cmd.reply_to_message_id cmd.client_message_id)
    saved ← write (repo.save_message message.0)
    commit message.1
    pure (load_reply_to_message reply saved)

  unfoldable pub create_message :
      (id now : ℕ) → CreateMessageCommand → Action S ChatEvent LoadedMessage
  create_message id now cmd = do
    found ← read (repo.get_conversation_by_id cmd.conversation_id)
    conversation ← require found (domain (conversation_not_found none))
    member ←
        require (find (is_user cmd.sender_id) conversation.members)
          (domain (not_message_owner (some "User is not a member of the conversation")))
    hit ← idempotent_hit cmd member.id cmd.client_message_id
    elim hit [ some existing ↦ pure existing | none ↦ send_new id now cmd member ]
