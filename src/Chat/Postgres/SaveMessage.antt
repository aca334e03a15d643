-- ===== src/Chat/Postgres/SaveMessage.antt =====
-- What the transaction of `saveMessage` leaves in the tables.
use nestjs_chat.Base.{
  ℕ, ◌≡◌, refl, false, ◌&&◌, ◌||◌, ◌==◌, none, some, List, [], ◌∷◌, find, includes, is_some, Text,
  arith, map, inl, inr,
}
use nestjs_chat.Exceptions.{Exception}
use nestjs_chat.Action.{ok}
use nestjs_chat.Action.Store.{bind_ok}
use nestjs_chat.Action.Inversion.{run_cases, Result-cases}
use nestjs_chat.Chat.Message.{MessageEntity}
use nestjs_chat.Chat.Postgres.Entities.{
  Message, ConversationMember, DeletedMessage, message_from_domain,
}
use nestjs_chat.Chat.Postgres.Database.{
  ChatDatabase, Tables, is_of, live, put_message, hide, hide_all,
}
use nestjs_chat.Chat.Postgres.Behaviour.{ChatDatabaseLaws}
use nestjs_chat.Chat.Postgres.Repository.{
  for_each, deleted_row, deleted_rows, with_new_message, save_message_run, save_message_failed,
}
use nestjs_chat.Chat.Postgres.EachMember.{
  for_each-map, for_each-IsSaved, live_is_stored, save_changed, with_members_of,
}

-- Only the table of hidden messages differs.
abbrev pub with_hidden_of : Tables → Tables → Tables
with_hidden_of w v = record v { hidden = w.hidden }

pub hide_all_framed :
    (ds : List DeletedMessage) (v : Tables) → hide_all ds v ≡ with_hidden_of (hide_all ds v) v
hide_all_framed [] v = refl
hide_all_framed (d ∷ ds) v = ground (arith, hide_all_framed ds (hide d v))

pub hidden-hide_all :
    (i : ℕ) (us : List ℕ) (v : Tables) (u j : ℕ)
    → (hide_all (deleted_rows i us) v).hidden u j ≡ (((i == j) && includes u us) || v.hidden u j)
hidden-hide_all i [] v u j = ground arith
hidden-hide_all i (w ∷ us) v u j =
    ground (arith, hidden-hide_all i us (hide (deleted_row i w) v) u j)

-- The member's row after the message: only the time of the update is the database's.
abbrev pub HasNewMessage :
    (hidden : List ℕ) (sender_id message_id : ℕ) (old new : ConversationMember) → Type 0
HasNewMessage hidden sender_id message_id old new =
    new ≡ record (with_new_message hidden sender_id message_id old) { updated_at = new.updated_at }

-- the `catch` only reads
pub failed_keeps :
    {T : Type 0} (db : ChatDatabase T) (m : MessageEntity) (e : Exception) (t : T)
    → (save_message_failed db m e t).1 ≡ t
unfolding save_message_failed
failed_keeps db m e t = ground arith

module _ {T : Type 0} {db : ChatDatabase T} (laws : ChatDatabaseLaws db) where
  pub for_each_hidden :
      (ds : List DeletedMessage) (t t' : T)
      → for_each db.save_deleted ds t ≡ (ok tt, t')
      → laws.view t' ≡ hide_all ds (laws.view t)
  unfolding for_each
  for_each_hidden [] t t' h = ground arith
  for_each_hidden (d ∷ ds) t t' h =
      let (r, s, first, rest) =
        bind_ok (db.save_deleted d) (λ _. for_each db.save_deleted ds) t h in
      ground (arith, laws.deleted_saved d r t s first, for_each_hidden ds s t' rest)

  record IsFlow (entity : MessageEntity) (row : Message) (t t' : T) : Type 0 where
    members : List ConversationMember
    t1 : T
    t2 : T
    saved : db.save_message (message_from_domain entity) t ≡ (ok row, t1)
    hid :
        for_each db.save_deleted (deleted_rows row.id entity.deleted_for_user_ids) t1 ≡ (ok tt, t2)
    asked : db.find_members row.conversation_id t2 ≡ ok members
    looped :
        for_each db.save_member
          (map (with_new_message entity.deleted_for_user_ids entity.sender_id row.id) members)
          t2
        ≡ (ok tt, t')

  flow :
      (entity : MessageEntity) (row : Message) (t t' : T)
      → save_message_run db entity t ≡ (ok row, t')
      → IsFlow entity row t t'
  unfolding save_message_run
  flow entity row t t' h = elim (run_cases (db.save_message (message_from_domain entity) t)) [
    | inr failed ↦ absurd (ground arith)
    | inl (r, t1, saved) ↦
        elim (run_cases
          (for_each db.save_deleted (deleted_rows r.id entity.deleted_for_user_ids) t1)) [
            | inr failed ↦ absurd (ground arith)
            | inl (done_, t2, hid) ↦ elim (Result-cases (db.find_members r.conversation_id t2)) [
              | inr failed ↦ absurd (ground arith)
              | inl (members, asked) ↦
                  elim (run_cases (
                    for_each db.save_member
                      (map (with_new_message entity.deleted_for_user_ids entity.sender_id r.id)
                        members)
                      t2)) [
                        | inr failed ↦ absurd (ground arith)
                        | inl (done_', t3, looped) ↦
                            let same : r ≡ row = ground arith in
                            record {
                              members = members;
                              t1 = t1;
                              t2 = t2;
                              saved = ground arith;
                              hid = ground arith;
                              asked = ground arith;
                              looped = ground arith;
                            }
                      ]
            ]
          ]
  ]

  pub record IsRun (entity : MessageEntity) (row : Message) (t t' : T) : Type 0 where
    pub members : List ConversationMember
    pub row_eq : row ≡ record (message_from_domain entity) { updated_at = row.updated_at }
    -- the row that stands then
    pub kept : Message
    pub kept_eq : kept ≡ record row { deleted_at = kept.deleted_at }
    pub kept_new : (laws.view t).message_at entity.id ≡ none → kept ≡ row
    pub stored :
        laws.view t'
        ≡ with_members_of (laws.view t') (
            hide_all
              (deleted_rows entity.id entity.deleted_for_user_ids)
              (put_message kept (laws.view t)))
    -- no other message of the sender's in the conversation has the same identifier of the client's
    pub unique :
        (client : Text) (j : ℕ) (n : Message)
        → entity.client_message_id ≡ some client
        → (laws.view t').message_at j ≡ some n
        → n.conversation_id ≡ entity.conversation_id
        → n.sender_id ≡ entity.sender_id
        → n.client_message_id ≡ some client
        → j ≡ entity.id
    pub found :
        (u : ℕ) → find (is_of u) members ≡ live ((laws.view t).member_at entity.conversation_id u)
    pub others :
        (d u : ℕ)
        → ((d == entity.conversation_id) && is_some (find (is_of u) members)) ≡ false
        → (laws.view t').member_at d u ≡ (laws.view t).member_at d u
    pub listed :
        (u : ℕ) (m : ConversationMember)
        → find (is_of u) members ≡ some m
        → (r : ConversationMember) × ((laws.view t').member_at entity.conversation_id u ≡ some r)
          × HasNewMessage entity.deleted_for_user_ids entity.sender_id entity.id m r

  pub save_message_run_sound :
      (entity : MessageEntity) (row : Message) (t t' : T)
      → save_message_run db entity t ≡ (ok row, t')
      → IsRun entity row t t'
  save_message_run_sound entity row t t' h =
      let f = flow entity row t t' h in
      let (row_eq, kept, kept_eq, kept_new, put) =
        laws.message_saved (message_from_domain entity) row t f.t1 f.saved in
      let hides =
        for_each_hidden (deleted_rows row.id entity.deleted_for_user_ids) f.t1 f.t2 f.hid in
      let framed =
        hide_all_framed (deleted_rows row.id entity.deleted_for_user_ids) (laws.view f.t1) in
      let listed = λ (u : ℕ). laws.members_found row.conversation_id u f.t2 f.members f.asked in
      let looped =
        for_each-IsSaved laws row.conversation_id (laws.view f.t2)
          (λ (m : ConversationMember).
            db.save_member (with_new_message entity.deleted_for_user_ids entity.sender_id row.id m))
          (HasNewMessage entity.deleted_for_user_ids entity.sender_id row.id)
          (λ m b s s' frame stands ran.
            save_changed laws row.conversation_id m
              (with_new_message entity.deleted_for_user_ids entity.sender_id row.id m) b s s' stands
              refl refl refl ran)
          f.members f.t2 t' (listed 0).1
          (λ u m found. live_is_stored _ m (ground (arith, listed u))) refl
          (ground (
            arith,
            for_each-map db.save_member
                (with_new_message entity.deleted_for_user_ids entity.sender_id row.id) f.members
                f.t2,
            f.looped,
          )) in
      record {
        members = f.members;
        row_eq = row_eq;
        kept = kept;
        kept_eq = kept_eq;
        kept_new = kept_new;
        stored = ground (arith, looped.framed, hides, framed, put, row_eq);
        unique = λ client j n named stored place sender same.
            laws.client_unique (message_from_domain entity) row n client j t f.t1 f.saved named
              (ground (arith, stored, looped.framed, hides, framed)) place sender same;
        found = λ u. ground (arith, listed u, hides, framed, put, row_eq);
        others = λ d u other. ground (arith, looped.others d u, hides, framed, put, row_eq);
        listed = λ u m found. ground (arith, looped.listed u m found, row_eq);
      }
