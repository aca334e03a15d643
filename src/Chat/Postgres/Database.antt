-- ===== src/Chat/Postgres/Database.antt =====
-- What conversation-postgres.repository.ts calls of TypeORM and PostgreSQL: a parameter, with the
-- documented behaviour that the code relies on, in terms of a view of the tables by their keys.
use nestjs_chat.Base.{
  ℕ, ◌≡◌, ltb, Bool, true, false, not, ◌&&◌, ◌||◌, ◌==◌, Option, none, some, List, [], ◌∷◌, Text,
  text_eq, if◌then◌else◌, is_some, is_id, change,
}
use nestjs_chat.Action.{Read, Write}
use nestjs_chat.Chat.Postgres.Entities.{Message, Conversation, ConversationMember, DeletedMessage}

pub record ChatDatabase (T : Type 0) : Type 1 where
  -- a conversation that is not soft-deleted, with its members that are not
  pub find_conversation : ℕ → Read T (Option (Conversation × List ConversationMember))
  -- a message, with the one that it replies to
  pub find_message : ℕ → Read T (Option (Message × Option Message))
  pub find_message_by_client :
      (conversation_id sender_id : ℕ) → Text → Read T (Option (Message × Option Message))
  pub find_deleted : (message_id : ℕ) → Read T (List DeletedMessage)
  -- the members of a conversation that are not soft-deleted; and those with this last message
  pub find_members : (conversation_id : ℕ) → Read T (List ConversationMember)
  pub find_members_by_last : (conversation_id message_id : ℕ) → Read T (List ConversationMember)
  -- the latest message that is neither deleted nor hidden from the user
  pub find_latest : (conversation_id user_id : ℕ) → Read T (Option Message)
  -- `save`, of one entity
  pub save_conversation : Conversation → Write T Conversation
  pub save_member : ConversationMember → Write T ConversationMember
  pub save_message : Message → Write T Message
  -- rows of deleted_messages; the second is with `orIgnore`
  pub save_deleted : DeletedMessage → Write T DeletedMessage
  pub insert_deleted : List DeletedMessage → Write T (Unit {0})
  -- `update` of a message
  pub update_text :
      (id : ℕ) (text : Text) (edited_at : Option ℕ) (updated_at : ℕ) → Write T (Unit {0})
  pub update_deleted_at : (id : ℕ) (deleted_at : Option ℕ) (updated_at : ℕ) → Write T (Unit {0})
  -- `softDelete`, which returns the number of rows affected
  pub soft_delete_members : (conversation_id : ℕ) → Write T ℕ
  pub soft_delete_conversation : ℕ → Write T ℕ
  pub transaction : {A : Type 0} → Write T A → Write T A

-- The tables by their keys: members by conversation and user, which is a unique index; what stands
-- in deleted_messages, by user and message.
pub record Tables : Type 0 where
  pub conversation_at : ℕ → Option Conversation
  pub member_at : (conversation_id user_id : ℕ) → Option ConversationMember
  pub message_at : ℕ → Option Message
  pub hidden : (user_id message_id : ℕ) → Bool

-- a row that is not soft-deleted
abbrev pub live : Option ConversationMember → Option ConversationMember
live none = none
live (some m) = if is_some m.deleted_at then none else some m

abbrev pub has_last : (message_id : ℕ) → Option ConversationMember → Option ConversationMember
has_last i none = none
has_last i (some m) = if is_id m.last_message_id i then some m else none

abbrev pub is_of : (user_id : ℕ) → ConversationMember → Bool
is_of u m = m.user_id == u

abbrev pub user_ids_of : List ConversationMember → List ℕ
user_ids_of [] = []
user_ids_of (m ∷ ms) = m.user_id ∷ user_ids_of ms

abbrev pub hidden_from : List DeletedMessage → List ℕ
hidden_from [] = []
hidden_from (d ∷ ds) = d.user_id ∷ hidden_from ds

abbrev pub replied : Tables → Message → Option Message
replied v m = elim m.reply_to_message_id [ none ↦ none | some i ↦ v.message_at i ]

abbrev pub message_in : Tables → ℕ → Option (Message × Option Message)
message_in v i = elim (v.message_at i) [ none ↦ none | some m ↦ some (m, replied v m) ]

abbrev pub conversation_in : Tables → ℕ → Option Conversation
conversation_in v i = elim (v.conversation_at i) [
  | none ↦ none
  | some c ↦ if is_some c.deleted_at then none else some c
]

abbrev pub is_client : Text → Option Text → Bool
is_client client none = false
is_client client (some name) = text_eq name client

-- `conversation_id`, `sender_id` and `client_message_id` are these
abbrev pub is_sent_as : (conversation_id sender_id : ℕ) → Text → Message → Bool
is_sent_as c i client m =
    (m.conversation_id == c) && ((m.sender_id == i) && is_client client m.client_message_id)

-- in the conversation, not deleted for everyone, and not hidden from the user
abbrev pub is_visible : Tables → (conversation_id user_id message_id : ℕ) → Bool
is_visible v c u i = elim (v.message_at i) [
  | none ↦ false
  | some m ↦ (m.conversation_id == c) && (not (is_some m.deleted_at) && not (v.hidden u i))
]

abbrev pub sent_at : Tables → ℕ → ℕ
sent_at v i = elim (v.message_at i) [ none ↦ 0 | some m ↦ m.created_at ]

abbrev pub is_shown : Tables → (conversation_id user_id : ℕ) → Option ℕ → Bool
is_shown v c u none = true
is_shown v c u (some i) = is_visible v c u i

-- the message is visible to the user and newer than `last`
abbrev pub is_newer : Tables → (conversation_id user_id : ℕ) → Option ℕ → ℕ → Bool
is_newer v c u none i = is_visible v c u i
is_newer v c u (some j) i = is_visible v c u i && ltb (sent_at v j) (sent_at v i)

-- `last` is visible to the user, and no message that is visible is newer; nothing is visible where
-- there is no `last`.
abbrev pub IsLatest : Tables → (conversation_id user_id : ℕ) → Option ℕ → Type 0
IsLatest v c u last = (is_shown v c u last ≡ true) × ((i : ℕ) → is_newer v c u last i ≡ false)

-- What the writes make of the view.
abbrev pub put_message : Message → Tables → Tables
put_message m v = record v { message_at = λ i. if m.id == i then some m else v.message_at i }

abbrev pub put_member : ConversationMember → Tables → Tables
put_member m v = record v {
  member_at =
      λ c u. if (m.conversation_id == c) && (m.user_id == u) then some m else v.member_at c u;
}

abbrev pub hide : DeletedMessage → Tables → Tables
hide d v = record v { hidden = λ u i. ((d.user_id == u) && (d.message_id == i)) || v.hidden u i }

abbrev pub hide_all : List DeletedMessage → Tables → Tables
hide_all [] v = v
hide_all (d ∷ ds) v = hide_all ds (hide d v)

abbrev pub change_message : ℕ → (Message → Message) → Tables → Tables
change_message i f v = record v {
  message_at = λ j. if i == j then change f (v.message_at j) else v.message_at j;
}

abbrev pub with_text : Text → Option ℕ → ℕ → Message → Message
with_text text edited_at updated_at m = record m {
  content = text;
  edited_at = edited_at;
  updated_at = updated_at;
}

abbrev pub with_deleted_at : Option ℕ → ℕ → Message → Message
with_deleted_at deleted_at updated_at m = record m {
  deleted_at = deleted_at;
  updated_at = updated_at;
}

abbrev pub mark_members : (conversation_id now : ℕ) → Tables → Tables
mark_members c now v = record v {
  member_at = λ d u.
      if c == d
      then change (λ (m : ConversationMember). record m { deleted_at = some now }) (v.member_at d u)
      else v.member_at d u;
}

abbrev pub mark_conversation : (id now : ℕ) → Tables → Tables
mark_conversation i now v = record v {
  conversation_at = λ j.
      if i == j
      then change (λ (c : Conversation). record c { deleted_at = some now }) (v.conversation_at j)
      else v.conversation_at j;
}
