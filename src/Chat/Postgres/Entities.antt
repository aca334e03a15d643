-- ===== src/Chat/Postgres/Entities.antt =====
-- message.entity.ts, conversation.entity.ts, conversation-member.entity.ts and
-- deleted-message.entity.ts of src/modules/chat/infrastructure/database/postgres/entities: the rows,
-- and the maps between them and the domain's entities. What a row has joined to it stands beside it.
use nestjs_chat.Base.{ℕ, Option, none, some, List, [], Text, map}
use nestjs_chat.Chat.Message.{MessageEntity, MessageType}
use nestjs_chat.Chat.Conversation.{ConversationEntity, ConversationMemberEntity, ConversationType}
use nestjs_chat.Chat.Ports.{LoadedMessage}

-- the column `text` is `content` here
pub record Message : Type 0 where
  pub id : ℕ
  pub content : Text
  pub type : MessageType
  pub sender_id : ℕ
  pub conversation_id : ℕ
  pub created_at : ℕ
  pub updated_at : ℕ
  pub edited_at : Option ℕ
  pub deleted_at : Option ℕ
  pub reply_to_message_id : Option ℕ
  pub client_message_id : Option Text

pub record ConversationMember : Type 0 where
  pub id : ℕ
  pub user_id : ℕ
  pub conversation_id : ℕ
  pub last_seen_message_id : Option ℕ
  pub last_message_id : Option ℕ
  pub created_at : ℕ
  pub updated_at : ℕ
  pub deleted_at : Option ℕ

pub record Conversation : Type 0 where
  pub id : ℕ
  pub title : Option Text
  pub picture : Option Text
  pub identifier : Option ℕ
  pub type : ConversationType
  pub created_at : ℕ
  pub updated_at : ℕ
  pub deleted_at : Option ℕ

pub record DeletedMessage : Type 0 where
  pub user_id : ℕ
  pub message_id : ℕ

-- `Message.fromDomain`: the users that the message is hidden from are rows of their own
abbrev pub message_from_domain : MessageEntity → Message
message_from_domain entity = record {
  id = entity.id;
  content = entity.content;
  type = entity.type;
  sender_id = entity.sender_id;
  conversation_id = entity.conversation_id;
  created_at = entity.created_at;
  updated_at = entity.updated_at;
  edited_at = entity.edited_at;
  deleted_at = entity.deleted_at;
  reply_to_message_id = entity.reply_to_message_id;
  client_message_id = entity.client_message_id;
}

abbrev pub message_entity : Message → MessageEntity
message_entity message = record {
  id = message.id;
  created_at = message.created_at;
  updated_at = message.updated_at;
  content = message.content;
  type = message.type;
  sender_id = message.sender_id;
  conversation_id = message.conversation_id;
  deleted_for_user_ids = [];
  deleted_at = message.deleted_at;
  edited_at = message.edited_at;
  reply_to_message_id = message.reply_to_message_id;
  client_message_id = message.client_message_id;
}

-- `message.reply_to_message`, through `Message.toDomain`
abbrev pub reply_entity : Option Message → Option MessageEntity
reply_entity none = none
reply_entity (some reply) = some (message_entity reply)

-- `Message.toDomain` of a row with the message that it replies to, where that is joined
abbrev pub message_to_domain : Message × Option Message → LoadedMessage
message_to_domain (message, reply) = record {
  message = message_entity message;
  reply_to_message = reply_entity reply;
}

abbrev pub member_from_domain : ConversationMemberEntity → ConversationMember
member_from_domain entity = record {
  id = entity.id;
  user_id = entity.user_id;
  conversation_id = entity.conversation_id;
  last_seen_message_id = entity.last_seen_message_id;
  last_message_id = entity.last_message_id;
  created_at = entity.created_at;
  updated_at = entity.updated_at;
  deleted_at = entity.deleted_at;
}

abbrev pub member_to_domain : ConversationMember → ConversationMemberEntity
member_to_domain member = record {
  id = member.id;
  created_at = member.created_at;
  updated_at = member.updated_at;
  user_id = member.user_id;
  conversation_id = member.conversation_id;
  last_seen_message_id = member.last_seen_message_id;
  last_message_id = member.last_message_id;
  deleted_at = member.deleted_at;
}

-- `Conversation.fromDomain`, of the conversation itself
abbrev pub conversation_from_domain : ConversationEntity → Conversation
conversation_from_domain entity = record {
  id = entity.id;
  title = entity.title;
  picture = entity.picture;
  identifier = entity.identifier;
  type = entity.type;
  created_at = entity.created_at;
  updated_at = entity.updated_at;
  deleted_at = entity.deleted_at;
}

-- `Conversation.toDomain` of a row with its members joined
abbrev pub conversation_to_domain : Conversation × List ConversationMember → ConversationEntity
conversation_to_domain (conversation, members) = record {
  id = conversation.id;
  created_at = conversation.created_at;
  updated_at = conversation.updated_at;
  title = conversation.title;
  picture = conversation.picture;
  identifier = conversation.identifier;
  type = conversation.type;
  deleted_at = conversation.deleted_at;
  members = map member_to_domain members;
  messages = [];
  last_message = none;
}
