-- ===== src/Chat/Ports.antt =====
-- src/modules/chat/application/ports: what the handlers ask of the database and of the user
-- context. `S` is whatever the implementations keep. A rejected promise is an exception.
use nestjs_chat.Base.{ℕ, ◌≡◌, Bool, ◌||◌, Option, some, List, Text, find}
use nestjs_chat.Action.{Read, Write, ok}
use nestjs_chat.Pagination.{PaginationOptions, PaginatedResult}
use nestjs_chat.Chat.Message.{MessageEntity, MessageType}
use nestjs_chat.Chat.Conversation.{
  ConversationEntity, ConversationMemberEntity, ConversationType, is_user,
}

-- A message with its transient property `replyToMessage`.
pub record LoadedMessage : Type 0 where
  pub message : MessageEntity
  pub reply_to_message : Option MessageEntity

pub record ConversationRepositoryPort (S : Type 0) : Type 0 where
  pub get_conversation_by_id : ℕ → Read S (Option ConversationEntity)
  -- the three writes that read back what they wrote give null when it is not there
  pub save_conversation : ConversationEntity → Write S (Option ConversationEntity)
  pub get_message_by_id : ℕ → Read S (Option LoadedMessage)
  pub get_message_by_client_message_id :
      (conversation_id sender_id : ℕ) → Text → Read S (Option LoadedMessage)
  pub save_message : MessageEntity → Write S LoadedMessage
  pub update_message : MessageEntity → Write S (Option LoadedMessage)
  pub save_message_deletion : MessageEntity → Write S (Option LoadedMessage)
  pub delete_conversation : ℕ → Write S Bool

-- What the handlers rely on between a write and the reads that follow it.
pub record ConversationRepositoryLaws {S : Type 0} (repo : ConversationRepositoryPort S)
    : Type 0 where
  -- what `saveMessage` returns is what is found under the client's identifier from then on
  pub found_after_save :
      (m : MessageEntity) (client : Text) (s : S) (l : LoadedMessage) (s' : S)
      → m.client_message_id ≡ some client
      → repo.save_message m s ≡ (ok l, s')
      → (l' : LoadedMessage) × (repo.get_message_by_client_message_id m.conversation_id m.sender_id
            client s'
          ≡ ok (some l'))
        × (l'.message.id ≡ l.message.id)
        × (l'.message.content ≡ l.message.content)
  -- saving a message removes no conversation and no member
  pub members_after_save :
      (m : MessageEntity) (s : S) (l : LoadedMessage) (s' : S) (i u : ℕ) (c : ConversationEntity)
      (member : ConversationMemberEntity)
      → repo.save_message m s ≡ (ok l, s')
      → repo.get_conversation_by_id i s ≡ ok (some c)
      → find (is_user u) c.members ≡ some member
      → (c' : ConversationEntity) × (member' : ConversationMemberEntity)
        × (repo.get_conversation_by_id i s' ≡ ok (some c'))
        × (find (is_user u) c'.members ≡ some member')
        × (member'.id ≡ member.id)

pub record QuotedMessageReadDto : Type 0 where
  pub id : ℕ
  pub content : Option Text
  pub type : MessageType
  pub sender_id : ℕ
  pub created_at : ℕ
  pub deleted_at : Option ℕ

pub record MessageReadDto : Type 0 where
  pub id : ℕ
  pub content : Text
  pub type : MessageType
  pub sender_id : ℕ
  pub created_at : ℕ
  pub edited_at : Option ℕ
  pub deleted_at : Option ℕ
  pub reply_to_message_id : Option ℕ
  pub reply_to : Option QuotedMessageReadDto
  pub client_message_id : Option Text

-- ConversationReadDto and its members; a time stands for `{ createdAt }`
pub record ConversationMemberReadDto : Type 0 where
  pub id : ℕ
  pub user_id : ℕ
  pub last_seen_message_id : Option ℕ
  pub last_seen_message : Option ℕ
  pub last_message_id : Option ℕ

pub record ConversationReadDto : Type 0 where
  pub id : ℕ
  pub type : ConversationType
  pub identifier : Option ℕ
  pub title : Option Text
  pub picture : Option Text
  pub created_at : ℕ
  pub updated_at : ℕ
  pub members : List ConversationMemberReadDto
  pub last_message : Option MessageReadDto
  pub not_seen_count : ℕ

pub record ConversationReadRepositoryPort (S : Type 0) : Type 0 where
  pub conversation_exists : (user_id target_user_id : ℕ) → Read S Bool
  pub get_user_conversation_by_id :
      (conversation_id user_id : ℕ) → Read S (Option ConversationReadDto)

-- what the users context gives can lack a name, whatever the port's type says
pub record ChatUser : Type 0 where
  pub id : ℕ
  pub username : Text
  pub first_name : Option Text
  pub last_name : Option Text
  pub avatar : Option Text

pub record BlockStatus : Type 0 where
  pub is_blocker : Bool
  pub is_blocked : Bool

pub record UserIntegrationPort (S : Type 0) : Type 0 where
  pub does_user_exist : ℕ → Read S Bool
  pub has_block_relation : ℕ → ℕ → Read S Bool
  pub get_user_by_id : ℕ → Read S ChatUser
  pub get_block_status : (user_id target_user_id : ℕ) → Read S BlockStatus

-- What the handlers rely on of the adapter to the users.
pub record UserIntegrationLaws {S : Type 0} (users : UserIntegrationPort S) : Type 0 where
  pub found_id : (i : ℕ) (s : S) (u : ChatUser) → users.get_user_by_id i s ≡ ok u → u.id ≡ i
  pub relation :
      (a b : ℕ) (s : S) (status : BlockStatus)
      → users.get_block_status a b s ≡ ok status
      → users.has_block_relation a b s ≡ ok (status.is_blocked || status.is_blocker)

-- the operations of the two ports that give lists; a filter of users that is empty filters nothing
pub record GetUserConversationListOptions : Type 0 where
  pub pagination : PaginationOptions
  pub filter_user_ids : List ℕ

pub record ConversationListsPort (S : Type 0) : Type 0 where
  pub get_user_conversation_list :
      (user_id : ℕ) → GetUserConversationListOptions → Read S (PaginatedResult ConversationReadDto)
  pub get_user_conversation_message_list :
      (conversation_id user_id : ℕ) → PaginationOptions → Read S (PaginatedResult MessageReadDto)

pub record UserListsPort (S : Type 0) : Type 0 where
  pub get_users_by_ids : List ℕ → Read S (List ChatUser)
  pub get_user_ids_by_name_or_username : Text → Read S (List ℕ)
  pub get_blocked_users_ids : (user_id : ℕ) → List ℕ → Read S (List ℕ)
