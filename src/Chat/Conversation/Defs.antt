-- ===== src/Chat/Conversation/Defs.antt =====
-- The definitions of conversation.model.ts and conversation-member.model.ts.
use nestjs_chat.Base.{
  ℕ, Bool, true, ◌&&◌, Option, none, some, List, [], ◌∷◌, ◌++◌, ◌==◌, leb, if◌then◌else◌, length,
  find, any, Text, is_id,
}
use nestjs_chat.Exceptions.{domain, plain, chat_domain_error}
use nestjs_chat.Action.{Result, ok, err}
use nestjs_chat.Chat.Message.{MessageEntity}

pub data ConversationType : Type 0 where
  direct : ConversationType

abbrev pub is_direct : ConversationType → Bool
is_direct direct = true

pub record ConversationMemberEntity : Type 0 where
  pub id : ℕ
  pub created_at : ℕ
  pub updated_at : ℕ
  pub user_id : ℕ
  pub conversation_id : ℕ
  pub last_seen_message_id : Option ℕ
  pub last_message_id : Option ℕ
  pub deleted_at : Option ℕ

-- What a `uuidv7()` and the two `new Date()` of a constructor call return.
pub record Stamp : Type 0 where
  pub id : ℕ
  pub created_at : ℕ
  pub updated_at : ℕ

-- `ConversationMemberEntity.create`
abbrev pub create_member : Stamp → (user_id conversation_id : ℕ) → ConversationMemberEntity
create_member s user_id conversation_id = record {
  id = s.id;
  created_at = s.created_at;
  updated_at = s.updated_at;
  user_id = user_id;
  conversation_id = conversation_id;
  last_seen_message_id = none;
  last_message_id = none;
  deleted_at = none;
}

abbrev pub update_last_seen_message : ℕ → ℕ → ConversationMemberEntity → ConversationMemberEntity
update_last_seen_message now message_id m = record m {
  last_seen_message_id = some message_id;
  updated_at = now;
}

abbrev pub update_last_message : ℕ → ℕ → ConversationMemberEntity → ConversationMemberEntity
update_last_message now message_id m = record m {
  last_message_id = some message_id;
  updated_at = now;
}

-- `softDelete` and `restore` of a member read the clock twice.
unfoldable pub soft_delete_member : ℕ → ℕ → ConversationMemberEntity → ConversationMemberEntity
soft_delete_member now later m = record m { deleted_at = some now; updated_at = later }

unfoldable pub restore_member : ℕ → ConversationMemberEntity → ConversationMemberEntity
restore_member now m = record m { deleted_at = none; updated_at = now }

pub record ConversationEntity : Type 0 where
  pub id : ℕ
  pub created_at : ℕ
  pub updated_at : ℕ
  pub title : Option Text
  pub picture : Option Text
  pub identifier : Option ℕ
  pub type : ConversationType
  pub deleted_at : Option ℕ
  pub members : List ConversationMemberEntity
  pub messages : List MessageEntity
  pub last_message : Option MessageEntity

-- `m.userId === userId`
abbrev pub is_user : ℕ → ConversationMemberEntity → Bool
is_user user_id m = m.user_id == user_id

unfoldable pub add_member :
    ℕ → ConversationMemberEntity → ConversationEntity → Result ConversationEntity
add_member now member c =
    if is_direct c.type && leb 2 (length c.members)
    then err (plain "Direct conversations can only have 2 members")
    else if any (is_user member.user_id) c.members
    then ok c
    else ok (record c { members = c.members ++ member ∷ []; updated_at = now })

unfoldable pub add_message : ℕ → MessageEntity → ConversationEntity → ConversationEntity
add_message now message c = record c {
  messages = c.messages ++ message ∷ [];
  last_message = some message;
  updated_at = now;
}

-- `new ConversationEntity(…)` in `createDirect`
abbrev pub empty_direct : Stamp → ℕ → ConversationEntity
empty_direct s identifier = record {
  id = s.id;
  created_at = s.created_at;
  updated_at = s.updated_at;
  title = none;
  picture = none;
  identifier = some identifier;
  type = direct;
  deleted_at = none;
  members = [];
  messages = [];
  last_message = none;
}

-- `ConversationEntity.createDirect`; `joined` and `joined'` are the times that `addMember` reads.
unfoldable pub create_direct :
    (s first second : Stamp)
    → (identifier joined joined' : ℕ) → (user_id target_user_id : ℕ) → Result ConversationEntity
unfolding add_member
create_direct s first second identifier joined joined' user_id target_user_id =
    elim (add_member joined (create_member first user_id s.id) (empty_direct s identifier)) [
      | ok c ↦ add_member joined' (create_member second target_user_id s.id) c
      | err e ↦ err e
    ]

-- A change of the member that `find` returns, which is the object in the list.
unfoldable pub update_found :
    ℕ
    → (ConversationMemberEntity → ConversationMemberEntity)
    → List ConversationMemberEntity
    → List ConversationMemberEntity
update_found user_id f [] = []
update_found user_id f (m ∷ ms) =
    let rest = update_found user_id f ms in if is_user user_id m then f m ∷ ms else m ∷ rest

unfoldable pub mark_as_read :
    ℕ → (user_id message_id : ℕ) → ConversationEntity → Result ConversationEntity
unfolding update_found
mark_as_read now user_id message_id c = elim (find (is_user user_id) c.members) [
  | none ↦ err (domain (chat_domain_error "User is not a member of the conversation"))
  | some member ↦
      if is_id member.last_seen_message_id message_id
      then ok c
      else ok (record c {
        members = update_found user_id (update_last_seen_message now message_id) c.members;
      })
]

unfoldable pub soft_delete : ℕ → ℕ → ConversationEntity → ConversationEntity
soft_delete now later c = record c { deleted_at = some now; updated_at = later }

unfoldable pub restore : ℕ → ConversationEntity → ConversationEntity
restore now c = record c { deleted_at = none; updated_at = now }
