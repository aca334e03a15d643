-- ===== src/Chat/Gateway/Conversations.antt =====
-- `createDirectConversation` of the gateway.
use nestjs_chat.Base.{
  ℕ, Bool, true, false, Option, none, List, [], ◌∷◌, ◌++◌, Text, if◌then◌else◌, includes,
}
use nestjs_chat.Exceptions.{ws}
use nestjs_chat.Action.{Action, ◌>>=◌, ◌>>◌, read, pure, throw, throw_if, catch_error}
use nestjs_chat.Chat.Message.{ChatEvent, text}
use nestjs_chat.Chat.Conversation.{ConversationEntity}
use nestjs_chat.Chat.Ports.{
  ChatUser, BlockStatus, LoadedMessage, ConversationRepositoryPort, ConversationReadRepositoryPort,
  UserIntegrationPort,
}
use nestjs_chat.Chat.Commands.CreateDirect.{Readings, create_direct_conversation}
use nestjs_chat.Chat.Commands.CreateMessage.{CreateMessageCommand, create_message}
use nestjs_chat.Chat.Commands.MarkAsRead.{delete_conversation}
use nestjs_chat.Chat.Rooms.{WsEvent, conversation_created, Emission}
use nestjs_chat.Chat.Gateway.Preview.{full_name, broadcast}

pub record CreateConversationRequest : Type 0 where
  pub target_user_id : ℕ
  pub content : Text

-- the response, with its `chat`
pub record CreatedConversation : Type 0 where
  pub id : ℕ
  pub username : Option ℕ
  pub created_at : ℕ
  pub avatar : Option Text
  pub name : Text
  pub message_id : ℕ
  pub seen : Bool
  pub content : Text
  pub user_id : ℕ
  pub user_name : Text

-- the event, of the user that the conversation is shown by
abbrev pub created_event :
    (shown sender : ChatUser) (not_seen_count : ℕ) (seen : Bool) → LoadedMessage → WsEvent
created_event shown sender not_seen_count seen l = conversation_created (record {
  id = l.message.conversation_id;
  name = full_name shown;
  avatar = shown.avatar;
  username = shown.username;
  not_seen_count = not_seen_count;
  message_id = l.message.id;
  content = l.message.content;
  created_at = l.message.created_at;
  seen = seen;
  user_id = sender.id;
  user_name = full_name sender;
})

abbrev pub created_broadcasts : (current target : ChatUser) → LoadedMessage → List Emission
created_broadcasts current target l =
    (if includes target.id l.message.deleted_for_user_ids
      then []
      else broadcast (target.id ∷ []) (created_event current current 1 false l))
    ++ broadcast (current.id ∷ []) (created_event target current 0 true l)

abbrev pub created_response :
    (current target : ChatUser) → ConversationEntity → LoadedMessage → CreatedConversation
created_response current target conversation l = record {
  id = conversation.id;
  username = conversation.identifier;
  created_at = l.message.created_at;
  avatar = conversation.picture;
  name = full_name target;
  message_id = l.message.id;
  seen = false;
  content = l.message.content;
  user_id = current.id;
  user_name = full_name current;
}

-- the command for the first message
abbrev pub first_message :
    CreateConversationRequest
    → (current target : ChatUser) → BlockStatus
    → (conversation_id : ℕ) → CreateMessageCommand
first_message request current target status conversation_id = record {
  content = request.content;
  type = text;
  sender_id = current.id;
  conversation_id = conversation_id;
  deleted_for_user_ids = if status.is_blocked then target.id ∷ [] else [];
  reply_to_message_id = none;
  client_message_id = none;
}

module _ {S : Type 0} (repo : ConversationRepositoryPort S)
    (reads : ConversationReadRepositoryPort S) (users : UserIntegrationPort S) where
  -- the two commands: a conversation whose first message fails is deleted
  unfoldable pub open_conversation :
      Readings
      → (id now : ℕ) → CreateConversationRequest
      → (current target : ChatUser) → BlockStatus
      → Action S ChatEvent (ConversationEntity × LoadedMessage)
  open_conversation r id now request current target status = do
    conversation ←
        create_direct_conversation repo reads users r
          (record { user_id = current.id; target_user_id = request.target_user_id })
    message ←
        catch_error
          (create_message repo id now (first_message request current target status conversation.id))
          (λ e. delete_conversation repo conversation.id >> throw e)
    pure (conversation, message)

  -- the users and the blocks are read one after the other
  unfoldable pub ws_create_direct_conversation :
      Readings
      → (id now : ℕ) → CreateConversationRequest
      → (auth_user_id : ℕ) → Action S ChatEvent (CreatedConversation × List Emission)
  unfolding open_conversation
  ws_create_direct_conversation r id now request auth_user_id = do
    current ← read (users.get_user_by_id auth_user_id)
    target ← read (users.get_user_by_id request.target_user_id)
    status ← read (users.get_block_status auth_user_id target.id)
    throw_if status.is_blocker (ws "You have blocked this user.")
    opened ← open_conversation r id now request current target status
    pure (
      created_response current target opened.0 opened.1,
      created_broadcasts current target opened.1,
    )
