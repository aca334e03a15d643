-- ===== src/Chat/Postgres/Deletion.antt =====
-- What the transactions of `saveMessage` and `saveMessageDeletion` make of the members' last message.
use nestjs_chat.Base.{
  ℕ, ◌≡◌, refl, sym, subst, false, ◌&&◌, ◌==◌, some, List, [], ◌∷◌, arith, inl, inr, is_id, is_some,
  Bool-cases, Option-cases, find,
}
use nestjs_chat.Action.{ok}
use nestjs_chat.Action.Inversion.{run_cases, Result-cases}
use nestjs_chat.Chat.Message.{MessageEntity}
use nestjs_chat.Chat.Postgres.Entities.{ConversationMember}
use nestjs_chat.Chat.Postgres.Database.{
  ChatDatabase, Tables, live, is_of, IsLatest, hide_all, put_member,
}
use nestjs_chat.Chat.Postgres.Behaviour.{ChatDatabaseLaws, id_of}
use nestjs_chat.Chat.Postgres.Repository.{
  for_each, deleted_rows, recompute, insert_hidden, save_message_deletion_run,
  save_message_deletion, reloaded,
}
use nestjs_chat.Chat.Postgres.EachMember.{
  for_each-IsSaved, found_is_listed, live_is_stored, save_changed, with_members_of,
}
use nestjs_chat.Chat.Postgres.LastMessage.{
  HasLatest, IsLatest-less, IsLatest-from_members, IsLatest-to_members, IsStored, marked,
  marked-IsLess, marked-members, shown-elsewhere, has_last_is_live,
}

reloaded-state : {T : Type 0} (db : ChatDatabase T) (i : ℕ) (t : T) → (reloaded db i t).1 ≡ t
unfolding reloaded
reloaded-state db i t = ground arith

module _ {T : Type 0} {db : ChatDatabase T} (laws : ChatDatabaseLaws db) where
  record IsFlow (entity : MessageEntity) (t t' : T) : Type 0 where
    members : List ConversationMember
    t2 : T
    view : laws.view t2 ≡ marked entity (laws.view t)
    asked : db.find_members_by_last entity.conversation_id entity.id t2 ≡ ok members
    looped : for_each (recompute db entity.conversation_id) members t2 ≡ (ok tt, t')

  inserted :
      (i : ℕ) (us : List ℕ) (t t' : T)
      → insert_hidden db i us t ≡ (ok tt, t')
      → laws.view t' ≡ hide_all (deleted_rows i us) (laws.view t)
  inserted i [] t t' h = ground arith
  inserted i (u ∷ us) t t' h = laws.deleted_inserted (deleted_rows i (u ∷ us)) t t' h

  flow :
      (entity : MessageEntity) (t t' : T)
      → save_message_deletion_run db entity t ≡ (ok tt, t')
      → IsFlow entity t t'
  unfolding save_message_deletion_run
  flow entity t t' h = elim (run_cases (insert_hidden db entity.id entity.deleted_for_user_ids t)) [
    | inr failed ↦ absurd (ground arith)
    | inl (done_, t1, hid) ↦
        let hides = inserted entity.id entity.deleted_for_user_ids t t1 hid in
        elim (run_cases (db.update_deleted_at entity.id entity.deleted_at entity.updated_at t1)) [
          | inr failed ↦ absurd (ground arith)
          | inl (done_', t2, mark) ↦
              let marks =
                laws.deleted_at_updated entity.id entity.deleted_at entity.updated_at t1 t2 mark in
              elim (Result-cases (db.find_members_by_last entity.conversation_id entity.id t2)) [
                | inr failed ↦ absurd (ground arith)
                | inl (members, asked) ↦ record {
                  members = members;
                  t2 = t2;
                  view = ground (arith, marks, hides);
                  asked = asked;
                  looped = ground arith;
                }
              ]
        ]
  ]

  -- one round: the member's last message is the latest of the tables
  round :
      (c : ℕ) (v : Tables) (m b : ConversationMember) (t t' : T)
      → laws.view t ≡ with_members_of (laws.view t) v
      → (laws.view t).member_at c m.user_id ≡ some m
      → recompute db c m t ≡ (ok b, t')
      → (r : ConversationMember) × (laws.view t' ≡ put_member r (laws.view t))
        × (r.conversation_id ≡ c)
        × (r.user_id ≡ m.user_id)
        × IsLatest v c m.user_id r.last_message_id
  round c v m b t t' framed stands h = elim (Result-cases (db.find_latest c m.user_id t)) [
    | inr failed ↦ absurd (ground arith)
    | inl (latest, found) ↦
        let is_latest = laws.latest_found c m.user_id t latest found in
        let (r, view, conversation, user, eq) =
          save_changed laws c m (record m { last_message_id = id_of latest }) b t t' stands refl
            refl refl (ground arith) in
        let same : id_of latest ≡ r.last_message_id = ground arith in
        (
          r,
          view,
          conversation,
          user,
          subst (λ last. IsLatest v c m.user_id last) same
              (IsLatest-from_members (laws.view t) v c m.user_id (id_of latest) framed is_latest),
        )
  ]

  deletion_run-HasLatest :
      (entity : MessageEntity) (t t' : T)
      → HasLatest (laws.view t)
      → IsStored (laws.view t) entity
      → save_message_deletion_run db entity t ≡ (ok tt, t')
      → HasLatest (laws.view t')
  deletion_run-HasLatest entity t t' had stored h =
      let f = flow entity t t' h in
      let listed = λ (u : ℕ).
        laws.members_found_by_last entity.conversation_id entity.id u f.t2 f.members f.asked in
      let looped =
        for_each-IsSaved laws entity.conversation_id (laws.view f.t2)
          (recompute db entity.conversation_id)
          (λ old new.
            IsLatest (laws.view f.t2) entity.conversation_id old.user_id new.last_message_id)
          (λ m b s s' framed stands ran.
            round entity.conversation_id (laws.view f.t2) m b s s' framed stands ran)
          f.members f.t2 t' (listed 0).1
          (λ u m found.
            live_is_stored _ m (has_last_is_live entity.id _ m (ground (arith, listed u))))
          refl f.looped in
      λ c u m joined.
        elim (Bool-cases ((c == entity.conversation_id) && is_some (find (is_of u) f.members))) [
          | inr other ↦
              let kept = looped.others c u other in
              let was : live ((laws.view t).member_at c u) ≡ some m =
                ground (arith, kept, f.view, marked-members entity (laws.view t)) in
              let latest = had c u m was in
              let apart : is_id m.last_message_id entity.id ≡ false =
                elim (Bool-cases (c == entity.conversation_id)) [
                  | inl here ↦ ground (arith, listed u, joined, kept)
                  | inr elsewhere ↦
                      shown-elsewhere (laws.view t) entity c u m.last_message_id stored elsewhere
                        latest.0
                ] in
              let marked_latest =
                IsLatest-less (laws.view t) (marked entity (laws.view t)) entity.id c u
                  m.last_message_id (marked-IsLess (laws.view t) entity c u stored) apart latest in
              IsLatest-to_members (laws.view t') (laws.view f.t2) c u m.last_message_id
                looped.framed
                (subst (λ w. IsLatest w c u m.last_message_id) (sym f.view) marked_latest)
          | inl here ↦ elim (Option-cases (find (is_of u) f.members)) [
            | inl missing ↦ absurd (ground arith)
            | inr (old, found) ↦
                let (r, stands, latest) = looped.listed u old found in
                let same : r ≡ m =
                  ground (arith, live_is_stored ((laws.view t').member_at c u) m joined) in
                let same_user = found_is_listed u f.members old found in
                IsLatest-to_members (laws.view t') (laws.view f.t2) c u m.last_message_id
                  looped.framed (ground (arith, latest.0), λ i. ground (arith, latest.1 i))
          ]
        ]

  -- `saveMessageDeletion` keeps, whatever it returns, that the last message of each member of each
  -- conversation is the latest one that is visible to the user, and none where nothing is visible:
  -- neither deleted for everyone nor hidden from the user. The message given is of the conversation
  -- of its row, and still has a deletion mark if the row has one.
  pub save_message_deletion-HasLatest :
      (entity : MessageEntity) (t : T)
      → HasLatest (laws.view t)
      → IsStored (laws.view t) entity
      → HasLatest (laws.view (save_message_deletion db entity t).1)
  unfolding save_message_deletion
  save_message_deletion-HasLatest entity t had stored =
      elim (run_cases (db.transaction (save_message_deletion_run db entity) t)) [
        | inr (e, s, failed) ↦
            let back : s ≡ t =
              ground (arith, laws.rolled_back (save_message_deletion_run db entity) e t) in
            let same : t ≡ (save_message_deletion db entity t).1 = ground arith in
            subst (λ x. HasLatest (laws.view x)) same had
        | inl (done_, s, committed) ↦
            let same : s ≡ (save_message_deletion db entity t).1 =
              ground (arith, reloaded-state db entity.id s) in
            subst (λ x. HasLatest (laws.view x)) same
              (deletion_run-HasLatest entity t s had stored (laws.committed _ done_ t s committed))
      ]
