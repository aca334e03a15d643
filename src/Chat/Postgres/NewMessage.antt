-- ===== src/Chat/Postgres/NewMessage.antt =====
-- What the transaction of `saveMessage` makes of the members' last message.
use nestjs_chat.Base.{
  ℕ, ◌≡◌, ◌≤◌, refl, subst, true, false, ◌&&◌, not, ◌==◌, Option, none, some, arith, inl, inr,
  includes, is_id, is_some, Bool-cases, Option-cases, find,
}
use nestjs_chat.Action.Inversion.{run_cases}
use nestjs_chat.Chat.Message.{MessageEntity}
use nestjs_chat.Chat.Postgres.Entities.{Message, message_from_domain}
use nestjs_chat.Chat.Postgres.Database.{
  ChatDatabase, Tables, is_of, is_visible, is_shown, IsLatest, hide_all, put_message,
}
use nestjs_chat.Chat.Postgres.Behaviour.{ChatDatabaseLaws}
use nestjs_chat.Chat.Postgres.Repository.{deleted_rows, save_message_run, save_message}
use nestjs_chat.Chat.Postgres.EachMember.{live_is_stored, found_is_listed}
use nestjs_chat.Chat.Postgres.SaveMessage.{
  hide_all_framed, hidden-hide_all, IsRun, save_message_run_sound, failed_keeps,
}
use nestjs_chat.Chat.Postgres.LastMessage.{HasLatest, IsLess, IsLatest-less, IsLatest-to_members}

-- The message has no row, is not deleted, and is not older than a message of the conversation.
pub record IsNew (v : Tables) (m : MessageEntity) : Type 0 where
  pub fresh : v.message_at m.id ≡ none
  pub unhidden : (u : ℕ) → v.hidden u m.id ≡ false
  pub undeleted : m.deleted_at ≡ none
  pub newest :
      (i : ℕ) (n : Message)
      → v.message_at i ≡ some n
      → n.conversation_id ≡ m.conversation_id
      → n.created_at ≤ m.created_at

-- the tables before the members are saved
abbrev sent : MessageEntity → Message → Tables → Tables
sent m row v = hide_all (deleted_rows m.id m.deleted_for_user_ids) (put_message row v)

module _ (v : Tables) (m : MessageEntity) (row : Message) (is_new : IsNew v m)
    (row_eq : row ≡ record (message_from_domain m) { updated_at = row.updated_at }) where
  -- where the message is not shown
  unshown-IsLess :
      (c u : ℕ)
      → ((c == m.conversation_id) && not (includes u m.deleted_for_user_ids)) ≡ false
      → IsLess v (sent m row v) m.id c u
  unshown-IsLess c u unshown =
      let hides = hide_all_framed (deleted_rows m.id m.deleted_for_user_ids) (put_message row v) in
      let hidden = λ (i : ℕ). hidden-hide_all m.id m.deleted_for_user_ids (put_message row v) u i in
      let gone : is_visible (sent m row v) c u m.id ≡ false =
        ground (arith, hidden m.id, hides, row_eq) in
      record {
        same = λ i other. ground (arith, hidden i, hides, row_eq);
        same_time = λ i other. ground (arith, hides, row_eq);
        fewer = λ visible. absurd (ground arith);
        fewer_time = λ visible. absurd (ground arith);
      }

  -- where it is
  shown-IsLatest :
      (u : ℕ)
      → includes u m.deleted_for_user_ids ≡ false
      → IsLatest (sent m row v) m.conversation_id u (some m.id)
  shown-IsLatest u shown =
      let hides = hide_all_framed (deleted_rows m.id m.deleted_for_user_ids) (put_message row v) in
      let hidden = λ (i : ℕ). hidden-hide_all m.id m.deleted_for_user_ids (put_message row v) u i in
      (
        ground (arith, hidden m.id, hides, row_eq, is_new.unhidden u, is_new.undeleted),
        λ i. elim (Option-cases (v.message_at i)) [
          | inl missing ↦ ground (arith, hides, row_eq, missing)
          | inr (n, stored) ↦ ground (arith, hides, row_eq, is_new.newest i n)
        ],
      )

  shown-old : (c u : ℕ) (last : Option ℕ) → is_shown v c u last ≡ true → is_id last m.id ≡ false
  shown-old c u none h = refl
  shown-old c u (some j) h = ground (arith, is_new.fresh)

  unshown-IsLatest :
      (c u : ℕ) (last : Option ℕ)
      → ((c == m.conversation_id) && not (includes u m.deleted_for_user_ids)) ≡ false
      → IsLatest v c u last
      → IsLatest (sent m row v) c u last
  unshown-IsLatest c u last unshown latest =
      IsLatest-less v (sent m row v) m.id c u last (unshown-IsLess c u unshown)
        (shown-old c u last latest.0) latest

module _ {T : Type 0} {db : ChatDatabase T} (laws : ChatDatabaseLaws db) where
  save_message_run-HasLatest :
      (m : MessageEntity) (row : Message) (t t' : T)
      → HasLatest (laws.view t)
      → IsNew (laws.view t) m
      → IsRun laws m row t t'
      → HasLatest (laws.view t')
  save_message_run-HasLatest m row t t' had is_new r c u mem joined =
      let stands_as_given = r.kept_new is_new.fresh in
      let kept_eq : r.kept ≡ record (message_from_domain m) { updated_at = r.kept.updated_at } =
        ground (arith, stands_as_given, r.row_eq) in
      elim (Bool-cases ((c == m.conversation_id) && is_some (find (is_of u) r.members))) [
        | inr other ↦
            let kept = r.others c u other in
            let unshown : ((c == m.conversation_id) && not (includes u m.deleted_for_user_ids))
                ≡ false =
              ground (arith, r.found u) in
            IsLatest-to_members (laws.view t') (sent m r.kept (laws.view t)) c u mem.last_message_id
              r.stored
              (unshown-IsLatest (laws.view t) m r.kept is_new kept_eq c u mem.last_message_id
                unshown (had c u mem (ground arith)))
        | inl here ↦ elim (Option-cases (find (is_of u) r.members)) [
          | inl missing ↦ absurd (ground arith)
          | inr (old, found) ↦
              let (changed, stands, new) = r.listed u old found in
              let same_user = found_is_listed u r.members old found in
              let same = live_is_stored ((laws.view t').member_at c u) mem joined in
              let latest = had c u old (ground (arith, r.found u)) in
              IsLatest-to_members (laws.view t') (sent m r.kept (laws.view t)) c u
                mem.last_message_id r.stored
                (elim (Bool-cases (includes u m.deleted_for_user_ids)) [
                  | inl hidden ↦
                      let last : old.last_message_id ≡ mem.last_message_id = ground arith in
                      subst (λ x. IsLatest (sent m r.kept (laws.view t)) c u x) last
                        (unshown-IsLatest (laws.view t) m r.kept is_new kept_eq c u
                          old.last_message_id (ground arith) latest)
                  | inr shown ↦
                      let last : some m.id ≡ mem.last_message_id = ground arith in
                      let place : m.conversation_id ≡ c = ground arith in
                      subst (λ x. IsLatest (sent m r.kept (laws.view t)) c u x) last
                        (subst (λ d. IsLatest (sent m r.kept (laws.view t)) d u (some m.id)) place
                          (shown-IsLatest (laws.view t) m r.kept is_new kept_eq u shown))
                ])
        ]
      ]

  -- `saveMessage` of a new message keeps, whatever it returns, that the last message of each member
  -- of each conversation is the latest one that is visible to the user. A new message has no row, is
  -- hidden from nobody before, is not deleted, and is not older than the messages of its
  -- conversation.
  pub save_message-HasLatest :
      (m : MessageEntity) (t : T)
      → HasLatest (laws.view t)
      → IsNew (laws.view t) m
      → HasLatest (laws.view (save_message db m t).1)
  unfolding save_message
  save_message-HasLatest m t had is_new =
      elim (run_cases (db.transaction (save_message_run db m) t)) [
        | inr (e, s, failed) ↦
            let back : s ≡ t = ground (arith, laws.rolled_back (save_message_run db m) e t) in
            let same : t ≡ (save_message db m t).1 = ground (arith, failed_keeps db m e s) in
            subst (λ x. HasLatest (laws.view x)) same had
        | inl (row, s, committed) ↦
            let same : s ≡ (save_message db m t).1 = ground arith in
            subst (λ x. HasLatest (laws.view x)) same
              (save_message_run-HasLatest m row t s had is_new
                (save_message_run_sound laws m row t s (laws.committed _ row t s committed)))
      ]
