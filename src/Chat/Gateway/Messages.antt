-- ===== src/Chat/Gateway/Messages.antt =====
-- The gateway's handlers of messages: `createMessage`, `editMessage`, `deleteMessage` and
-- `markMessageAsSeen`.
use nestjs_chat.Base.{
  ℕ, Bool, false, not, Option, none, some, List, [], ◌∷◌, Text, if◌then◌else◌, find, any, get_or,
  change, ◌==◌,
}
use nestjs_chat.Exceptions.{ws}
use nestjs_chat.Action.{Action, ◌>>=◌, ◌>>◌, read, require, pure, throw_if}
use nestjs_chat.Chat.Message.{MessageEntity, MessageDeleteScope, ChatEvent, text}
use nestjs_chat.Chat.Ports.{
  ChatUser, BlockStatus, LoadedMessage, ConversationReadDto, ConversationMemberReadDto,
  ConversationRepositoryPort, ConversationReadRepositoryPort, UserIntegrationPort,
}
use nestjs_chat.Chat.Commands.CreateMessage.{CreateMessageCommand, create_message}
use nestjs_chat.Chat.Commands.EditMessage.{edit_message}
use nestjs_chat.Chat.Commands.DeleteMessage.{delete_message}
use nestjs_chat.Chat.Commands.MarkAsRead.{mark_conversation_as_read}
use nestjs_chat.Chat.Rooms.{message_seen, Emission, ReplyTo}
use nestjs_chat.Chat.Gateway.Preview.{
  full_name, reply_view, parent_user, broadcast, is_dto_of, is_dto_of_other, get_user_conversation,
}

pub record CreateMessageRequest : Type 0 where
  pub conversation_id : ℕ
  pub content : Text
  pub reply_to_message_id : Option ℕ
  pub client_message_id : Option Text

pub record CreatedMessage : Type 0 where
  pub id : ℕ
  pub created_at : ℕ
  pub seen : Bool
  pub user_id : ℕ
  pub user_name : Text
  pub content : Text
  pub reply_to_message_id : Option ℕ
  pub reply_to : Option (ReplyTo (ℕ × Text))
  pub client_message_id : Option Text

pub record EditMessageRequest : Type 0 where
  pub message_id : ℕ
  pub conversation_id : ℕ
  pub content : Text

pub record EditMessageResponse : Type 0 where
  pub id : ℕ
  pub content : Text
  pub edited_at : ℕ

pub record DeleteMessageRequest : Type 0 where
  pub message_id : ℕ
  pub conversation_id : ℕ
  pub scope : MessageDeleteScope

pub record DeleteMessageResponse : Type 0 where
  pub id : ℕ
  pub conversation_id : ℕ
  pub scope : MessageDeleteScope

pub record MarkMessageSeenRequest : Type 0 where
  pub conversation_id : ℕ
  pub message_id : ℕ

-- `conversation.members.find((m) => m.id === parentMsg.senderId)`, and its user
abbrev pub has_dto_id : ℕ → ConversationMemberReadDto → Bool
has_dto_id i m = m.id == i

abbrev pub parent_user_id : MessageEntity → List ConversationMemberReadDto → Option ℕ
parent_user_id parent members =
    change (λ (m : ConversationMemberReadDto). m.user_id)
      (find (has_dto_id parent.sender_id) members)

abbrev pub named : ChatUser → ℕ × Text
named u = (u.id, full_name u)

-- the message that the new one replies to, if both are given
abbrev pub parent_of : LoadedMessage → Option MessageEntity
parent_of l = elim l.message.reply_to_message_id [ none ↦ none | some i ↦ l.reply_to_message ]

abbrev pub user_ids_of : List ConversationMemberReadDto → List ℕ
user_ids_of [] = []
user_ids_of (m ∷ members) = m.user_id ∷ user_ids_of members

-- the command that `createMessage` executes
abbrev pub message_command :
    CreateMessageRequest
    → (auth_user_id conversation_id target_id : ℕ) → BlockStatus
    → CreateMessageCommand
message_command request auth_user_id conversation_id target_id status = record {
  content = request.content;
  type = text;
  sender_id = auth_user_id;
  conversation_id = conversation_id;
  deleted_for_user_ids = if status.is_blocked then target_id ∷ [] else [];
  reply_to_message_id = request.reply_to_message_id;
  client_message_id = request.client_message_id;
}

module _ {S : Type 0} (repo : ConversationRepositoryPort S)
    (reads : ConversationReadRepositoryPort S) (users : UserIntegrationPort S) where
  abbrev pub reply_preview :
      ConversationReadDto
      → (current target : ChatUser) → Option MessageEntity
      → Action S ChatEvent (Option (ReplyTo (ℕ × Text)))
  reply_preview conversation current target none = pure none
  reply_preview conversation current target (some parent) = do
    user ← read (parent_user users current target (parent_user_id parent conversation.members))
    pure (some (reply_view named parent (parent_user_id parent conversation.members) user))

  -- the users and the blocks are read one after the other
  unfoldable pub ws_create_message :
      (id now : ℕ) → CreateMessageRequest → (auth_user_id : ℕ) → Action S ChatEvent CreatedMessage
  unfolding get_user_conversation
  ws_create_message id now request auth_user_id = do
    conversation ← read (get_user_conversation reads request.conversation_id auth_user_id)
    target_member ←
        require (find (is_dto_of_other auth_user_id) conversation.members)
          (ws "Conversation not found")
    current ← read (users.get_user_by_id auth_user_id)
    target ← read (users.get_user_by_id target_member.user_id)
    status ← read (users.get_block_status auth_user_id target_member.user_id)
    throw_if status.is_blocker (ws "You need to unblock the user before sending a message.")
    l ←
        create_message repo id now
          (message_command request auth_user_id conversation.id target.id status)
    reply ← reply_preview conversation current target (parent_of l)
    pure (record {
      id = l.message.id;
      created_at = l.message.created_at;
      seen = false;
      user_id = current.id;
      user_name = full_name current;
      content = l.message.content;
      reply_to_message_id = l.message.reply_to_message_id;
      reply_to = reply;
      client_message_id = l.message.client_message_id;
    })

  -- the check that three handlers begin with
  unfoldable pub own_conversation :
      (conversation_id auth_user_id : ℕ) → Action S ChatEvent ConversationReadDto
  unfolding get_user_conversation
  own_conversation conversation_id auth_user_id = do
    conversation ← read (get_user_conversation reads conversation_id auth_user_id)
    throw_if (not (any (is_dto_of auth_user_id) conversation.members))
        (ws "Conversation not found or access denied")
    pure conversation

  unfoldable pub ws_edit_message :
      ℕ → EditMessageRequest → (auth_user_id : ℕ) → Action S ChatEvent EditMessageResponse
  unfolding own_conversation
  ws_edit_message now request auth_user_id = do
    own_conversation request.conversation_id auth_user_id
    edited ← edit_message repo now (record {
      message_id = request.message_id;
      conversation_id = request.conversation_id;
      user_id = auth_user_id;
      content = request.content;
    })
    pure (record {
      id = edited.message.id;
      content = edited.message.content;
      edited_at = get_or edited.message.edited_at edited.message.updated_at;
    })

  unfoldable pub ws_delete_message :
      ℕ → DeleteMessageRequest → (auth_user_id : ℕ) → Action S ChatEvent DeleteMessageResponse
  unfolding own_conversation
  ws_delete_message now request auth_user_id = do
    own_conversation request.conversation_id auth_user_id
    deleted ← delete_message repo now (record {
      message_id = request.message_id;
      conversation_id = request.conversation_id;
      user_id = auth_user_id;
      scope = request.scope;
    })
    pure (record {
      id = deleted.message.id;
      conversation_id = request.conversation_id;
      scope = request.scope;
    })

  unfoldable pub ws_mark_message_as_seen :
      ℕ → MarkMessageSeenRequest → (auth_user_id : ℕ) → Action S ChatEvent (List Emission)
  unfolding own_conversation
  ws_mark_message_as_seen now request auth_user_id = do
    conversation ← own_conversation request.conversation_id auth_user_id
    mark_conversation_as_read repo now (record {
      conversation_id = conversation.id;
      user_id = auth_user_id;
      message_id = request.message_id;
    })
    pure (
        broadcast (user_ids_of conversation.members)
          (message_seen conversation.id request.message_id))
