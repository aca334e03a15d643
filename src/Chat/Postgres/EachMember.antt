-- ===== src/Chat/Postgres/EachMember.antt =====
-- A loop that saves members of one conversation, as `saveMessage` and `saveMessageDeletion` run.
use nestjs_chat.Base.{
  ℕ, ◌≡◌, refl, subst, true, false, ◌&&◌, ◌==◌, Option, none, some, List, [], ◌∷◌, find, includes,
  is_some, IsNodup, arith, map, Bool-cases, inl, inr,
}
use nestjs_chat.Action.{Write, ok}
use nestjs_chat.Action.Inversion.{run_cases}
use nestjs_chat.Action.Store.{bind_ok}
use nestjs_chat.Chat.Postgres.Entities.{ConversationMember}
use nestjs_chat.Chat.Postgres.Database.{ChatDatabase, Tables, live, is_of, user_ids_of, put_member}
use nestjs_chat.Chat.Postgres.Behaviour.{ChatDatabaseLaws}
use nestjs_chat.Chat.Postgres.Repository.{for_each}

pub for_each-map :
    {T A B C : Type 0} (step : B → Write T C) (f : A → B) (xs : List A) (t : T)
    → for_each step (map f xs) t ≡ for_each (λ x. step (f x)) xs t
unfolding for_each
for_each-map step f [] t = refl
for_each-map step f (x ∷ xs) t = elim (run_cases (step (f x) t)) [
  | inl (b, s, e) ↦ ground (arith, for_each-map step f xs s)
  | inr (error, s, e) ↦ ground arith
]

-- The one table that such a loop writes.
abbrev pub with_members_of : Tables → Tables → Tables
with_members_of w v = record v { member_at = w.member_at }

pub found_is_listed :
    (u : ℕ) (ms : List ConversationMember) (m : ConversationMember)
    → find (is_of u) ms ≡ some m
    → (m.user_id ≡ u) × (includes u (user_ids_of ms) ≡ true)
found_is_listed u [] m h = absurd (ground arith)
found_is_listed u (n ∷ ms) m h = elim (Bool-cases (n.user_id == u)) [
  | inl same ↦ (ground arith, ground arith)
  | inr other ↦ let (k, l) = found_is_listed u ms m (ground arith) in (k, ground arith)
]

not_listed :
    (u : ℕ) (ms : List ConversationMember)
    → includes u (user_ids_of ms) ≡ false
    → find (is_of u) ms ≡ none
not_listed u [] h = refl
not_listed u (m ∷ ms) h = ground (arith, not_listed u ms)

pub live_is_stored :
    (o : Option ConversationMember) (m : ConversationMember) → live o ≡ some m → o ≡ some m
live_is_stored none m h = absurd (ground arith)
live_is_stored (some n) m h = ground arith

pub live_deleted_at :
    (o : Option ConversationMember) (m : ConversationMember)
    → live o ≡ some m
    → is_some m.deleted_at ≡ false
live_deleted_at none m h = absurd (ground arith)
live_deleted_at (some n) m h = ground arith

-- `save` of a member that was read and then changed, but for its keys
pub save_changed :
    {T : Type 0} {db : ChatDatabase T} (laws : ChatDatabaseLaws db) (c : ℕ)
    (m changed r : ConversationMember) (t t' : T)
    → (laws.view t).member_at c m.user_id ≡ some m
    → changed.id ≡ m.id
    → changed.user_id ≡ m.user_id
    → changed.conversation_id ≡ m.conversation_id
    → db.save_member changed t ≡ (ok r, t')
    → (s : ConversationMember) × (laws.view t' ≡ put_member s (laws.view t))
      × (s.conversation_id ≡ c)
      × (s.user_id ≡ m.user_id)
      × (s ≡ record changed { updated_at = s.updated_at })
save_changed laws c m changed r t t' stands same_id same_user same_conversation h =
    let key = laws.member_key c m.user_id t m stands in
    let (r_eq, view) = laws.member_saved changed r m t t' h (ground (arith, key)) (ground arith) in
    (r, view, ground (arith, r_eq, key), ground (arith, r_eq), r_eq)

module _ {T B : Type 0} {db : ChatDatabase T} (laws : ChatDatabaseLaws db) (c : ℕ) (v : Tables)
    (step : ConversationMember → Write T B) (Saved : (old new : ConversationMember) → Type 0) where
  -- One round saves the member's row, under the row's keys.
  abbrev pub IsStep : Type 0
  IsStep =
      (m : ConversationMember) (b : B) (t t' : T)
      → laws.view t ≡ with_members_of (laws.view t) v
      → (laws.view t).member_at c m.user_id ≡ some m
      → step m t ≡ (ok b, t')
      → (r : ConversationMember) × (laws.view t' ≡ put_member r (laws.view t))
        × (r.conversation_id ≡ c)
        × (r.user_id ≡ m.user_id)
        × Saved m r

  pub record IsSaved (ms : List ConversationMember) (t t' : T) : Type 0 where
    pub framed : laws.view t' ≡ with_members_of (laws.view t') v
    pub others :
        (d u : ℕ)
        → ((d == c) && is_some (find (is_of u) ms)) ≡ false
        → (laws.view t').member_at d u ≡ (laws.view t).member_at d u
    pub listed :
        (u : ℕ) (m : ConversationMember)
        → find (is_of u) ms ≡ some m
        → (r : ConversationMember) × ((laws.view t').member_at c u ≡ some r) × Saved m r

  pub for_each-IsSaved :
      IsStep
      → (ms : List ConversationMember) (t t' : T) → IsNodup (user_ids_of ms)
      → ((u : ℕ) (m : ConversationMember)
          → find (is_of u) ms ≡ some m
          → (laws.view t).member_at c u ≡ some m)
      → laws.view t ≡ with_members_of (laws.view t) v
      → for_each step ms t ≡ (ok tt, t')
      → IsSaved ms t t'
  unfolding for_each
  for_each-IsSaved round [] t t' nodup stand framed h = record {
    framed = ground arith;
    others = λ d u other. ground arith;
    listed = λ u m found. absurd (ground arith);
  }
  for_each-IsSaved round (m ∷ ms) t t' nodup stand framed h =
      let (b, s, first, rest) = bind_ok (step m) (λ _. for_each step ms) t h in
      let (r, view, conversation, user, saved) =
        round m b t s framed (stand m.user_id m (ground arith)) first in
      let tail =
        for_each-IsSaved round ms s t' nodup.1
          (λ u n found. ground (arith, found_is_listed u ms n found, stand u n, view))
          (ground (arith, view)) rest in
      record {
        framed = tail.framed;
        others = λ d u other. ground (arith, tail.others d u, view);
        listed = λ u n found. elim (Bool-cases (m.user_id == u)) [
          | inr other ↦ tail.listed u n (ground arith)
          | inl same ↦
              let untouched = tail.others c u (ground (arith, not_listed u ms, nodup.0)) in
              let same_member : m ≡ n = ground arith in
              (r, ground (arith, untouched, view), subst (λ x. Saved x r) same_member saved)
        ];
      }
