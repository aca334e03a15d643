-- ===== src/Chat/Postgres/Behaviour.antt =====
-- What the repository relies on of the database: each law is the documented effect of one call that
-- succeeds.
use nestjs_chat.Base.{
  ℕ, ◌≡◌, true, false, Option, none, some, List, [], Text, find, includes, IsNodup,
}
use nestjs_chat.Exceptions.{Exception}
use nestjs_chat.Action.{Write, ok, err}
use nestjs_chat.Chat.Postgres.Entities.{Message, Conversation, ConversationMember, DeletedMessage}
use nestjs_chat.Chat.Postgres.Database.{
  ChatDatabase, Tables, live, has_last, is_of, user_ids_of, hidden_from, message_in,
  conversation_in, is_sent_as, IsLatest, put_message, put_member, hide, hide_all, change_message,
  with_text, with_deleted_at, mark_members, mark_conversation,
}

abbrev pub id_of : Option Message → Option ℕ
id_of none = none
id_of (some m) = some m.id

-- the found conversation's row, and its members, by user
abbrev pub row_of : Option (Conversation × List ConversationMember) → Option Conversation
row_of none = none
row_of (some (c, ms)) = some c

abbrev pub members_in : Option (Conversation × List ConversationMember) → List ConversationMember
members_in none = []
members_in (some (c, ms)) = ms

pub record ChatDatabaseLaws {T : Type 0} (db : ChatDatabase T) : Type 1 where
  pub view : T → Tables
  -- reads
  pub conversation_found :
      (i : ℕ) (t : T) (o : Option (Conversation × List ConversationMember))
      → db.find_conversation i t ≡ ok o
      → row_of o ≡ conversation_in (view t) i
  pub conversation_members :
      (i u : ℕ) (t : T) (c : Conversation) (ms : List ConversationMember)
      → db.find_conversation i t ≡ ok (some (c, ms))
      → find (is_of u) ms ≡ live ((view t).member_at i u)
  pub message_found :
      (i : ℕ) (t : T) (o : Option (Message × Option Message))
      → db.find_message i t ≡ ok o
      → o ≡ message_in (view t) i
  pub client_found :
      (c i : ℕ) (client : Text) (t : T) (m : Message) (r : Option Message)
      → db.find_message_by_client c i client t ≡ ok (some (m, r))
      → (message_in (view t) m.id ≡ some (m, r)) × (is_sent_as c i client m ≡ true)
  pub client_missing :
      (c i : ℕ) (client : Text) (t : T) (j : ℕ) (m : Message)
      → db.find_message_by_client c i client t ≡ ok none
      → (view t).message_at j ≡ some m
      → is_sent_as c i client m ≡ false
  pub deleted_found :
      (i u : ℕ) (t : T) (ds : List DeletedMessage)
      → db.find_deleted i t ≡ ok ds
      → includes u (hidden_from ds) ≡ (view t).hidden u i
  pub members_found :
      (c u : ℕ) (t : T) (ms : List ConversationMember)
      → db.find_members c t ≡ ok ms
      → (find (is_of u) ms ≡ live ((view t).member_at c u)) × IsNodup (user_ids_of ms)
  pub members_found_by_last :
      (c i u : ℕ) (t : T) (ms : List ConversationMember)
      → db.find_members_by_last c i t ≡ ok ms
      → (find (is_of u) ms ≡ has_last i (live ((view t).member_at c u))) × IsNodup (user_ids_of ms)
  pub latest_found :
      (c u : ℕ) (t : T) (o : Option Message)
      → db.find_latest c u t ≡ ok o
      → IsLatest (view t) c u (id_of o)
  -- a row stands under its own keys
  pub member_key :
      (c u : ℕ) (t : T) (m : ConversationMember)
      → (view t).member_at c u ≡ some m
      → (m.conversation_id ≡ c) × (m.user_id ≡ u)
  pub message_key : (i : ℕ) (t : T) (m : Message) → (view t).message_at i ≡ some m → m.id ≡ i
  -- writes; `save` may set `updated_at` by itself, and leaves a column as it was whose field is
  -- undefined: `deleted_at` of a message, if it has a row already
  pub message_saved :
      (m r : Message) (t t' : T)
      → db.save_message m t ≡ (ok r, t')
      → (r ≡ record m { updated_at = r.updated_at })
        × (row : Message) × (row ≡ record r { deleted_at = row.deleted_at })
        × ((view t).message_at m.id ≡ none → row ≡ r)
        × (view t' ≡ put_message row (view t))
  -- messages_sender_id_client_message_id_uniq, which is on the conversation as well
  pub client_unique :
      (m r n : Message) (client : Text) (j : ℕ) (t t' : T)
      → db.save_message m t ≡ (ok r, t')
      → m.client_message_id ≡ some client
      → (view t').message_at j ≡ some n
      → n.conversation_id ≡ m.conversation_id
      → n.sender_id ≡ m.sender_id
      → n.client_message_id ≡ some client
      → j ≡ m.id
  -- of a member whose row stands under the keys already
  pub member_saved :
      (m r old : ConversationMember) (t t' : T)
      → db.save_member m t ≡ (ok r, t')
      → (view t).member_at m.conversation_id m.user_id ≡ some old
      → old.id ≡ m.id
      → (r ≡ record m { updated_at = r.updated_at }) × (view t' ≡ put_member r (view t))
  pub deleted_saved :
      (d r : DeletedMessage) (t t' : T)
      → db.save_deleted d t ≡ (ok r, t')
      → view t' ≡ hide d (view t)
  pub deleted_inserted :
      (ds : List DeletedMessage) (t t' : T)
      → db.insert_deleted ds t ≡ (ok tt, t')
      → view t' ≡ hide_all ds (view t)
  pub text_updated :
      (i : ℕ) (content : Text) (edited_at : Option ℕ) (updated_at : ℕ) (t t' : T)
      → db.update_text i content edited_at updated_at t ≡ (ok tt, t')
      → view t' ≡ change_message i (with_text content edited_at updated_at) (view t)
  pub deleted_at_updated :
      (i : ℕ) (deleted_at : Option ℕ) (updated_at : ℕ) (t t' : T)
      → db.update_deleted_at i deleted_at updated_at t ≡ (ok tt, t')
      → view t' ≡ change_message i (with_deleted_at deleted_at updated_at) (view t)
  pub members_deleted :
      (c n : ℕ) (t t' : T)
      → db.soft_delete_members c t ≡ (ok n, t')
      → (now : ℕ) × (view t' ≡ mark_members c now (view t))
  pub conversation_deleted :
      (i n : ℕ) (t t' : T)
      → db.soft_delete_conversation i t ≡ (ok n, t')
      → (now : ℕ) × (view t' ≡ mark_conversation i now (view t))
  -- a transaction that returns is what was run in it; one that fails is rolled back
  pub committed :
      {A : Type 0} (run : Write T A) (a : A) (t t' : T)
      → db.transaction run t ≡ (ok a, t')
      → run t ≡ (ok a, t')
  pub rolled_back :
      {A : Type 0} (run : Write T A) (e : Exception) (t : T)
      → (db.transaction run t).0 ≡ err e
      → (db.transaction run t).1 ≡ t

-- The reads answer: what a theorem needs that is about a read after a write.
pub record IsAvailable {T : Type 0} (db : ChatDatabase T) : Type 0 where
  pub answers_conversation :
      (i : ℕ) (t : T)
      → (o : Option (Conversation × List ConversationMember)) × (db.find_conversation i t ≡ ok o)
  pub answers_client :
      (c i : ℕ) (client : Text) (t : T)
      → (o : Option (Message × Option Message)) × (db.find_message_by_client c i client t ≡ ok o)
  pub answers_deleted : (i : ℕ) (t : T) → (ds : List DeletedMessage) × (db.find_deleted i t ≡ ok ds)
