-- ===== src/Chat/Postgres/Newest.antt =====
-- The rows that the database in lists finds.
use nestjs_chat.Base.{
  ℕ, ◌≡◌, refl, Bool, false, ◌==◌, Option, none, some, List, [], ◌∷◌, if◌then◌else◌, find, any,
  keep, arith, includes, IsNodup, Bool-cases, inl, inr,
}
use nestjs_chat.Chat.Postgres.Entities.{Message, ConversationMember, DeletedMessage}
use nestjs_chat.Chat.Postgres.Database.{is_of, user_ids_of, live, has_last, hidden_from}
use nestjs_chat.Chat.Postgres.InMemory.{
  has_key, is_at, is_hidden, is_other, newest, is_live, is_last,
}

includes-keep :
    (u : ℕ) (p : ConversationMember → Bool) (ms : List ConversationMember)
    → includes u (user_ids_of ms) ≡ false
    → includes u (user_ids_of (keep p ms)) ≡ false
includes-keep u p [] h = refl
includes-keep u p (m ∷ ms) h = ground (arith, includes-keep u p ms)

pub keep-IsNodup :
    (p : ConversationMember → Bool) (ms : List ConversationMember)
    → IsNodup (user_ids_of ms)
    → IsNodup (user_ids_of (keep p ms))
keep-IsNodup p [] h = tt
keep-IsNodup p (m ∷ ms) h = elim (Bool-cases (p m)) [
  | inl kept ↦ ground (arith, keep-IsNodup p ms h.1, includes-keep m.user_id p ms h.0)
  | inr dropped ↦ ground (arith, keep-IsNodup p ms h.1)
]

find-missing :
    (u : ℕ) (ms : List ConversationMember)
    → includes u (user_ids_of ms) ≡ false
    → find (is_of u) ms ≡ none
find-missing u [] h = refl
find-missing u (m ∷ ms) h = ground (arith, find-missing u ms)

abbrev restrict :
    (ConversationMember → Bool) → Option ConversationMember → Option ConversationMember
restrict p none = none
restrict p (some m) = if p m then some m else none

find-keep :
    (u : ℕ) (p : ConversationMember → Bool) (ms : List ConversationMember)
    → IsNodup (user_ids_of ms)
    → find (is_of u) (keep p ms) ≡ restrict p (find (is_of u) ms)
find-keep u p [] h = refl
find-keep u p (m ∷ ms) h = ground (
  arith,
  find-keep u p ms h.1,
  find-missing m.user_id (keep p ms),
  includes-keep m.user_id p ms h.0,
)

find-others :
    (u w : ℕ) (ms : List ConversationMember)
    → find (is_of u) (keep (is_other w) ms) ≡ (if w == u then none else find (is_of u) ms)
find-others u w [] = ground arith
find-others u w (m ∷ ms) = ground (arith, find-others u w ms)

includes-others :
    (w : ℕ) (ms : List ConversationMember) → includes w (user_ids_of (keep (is_other w) ms)) ≡ false
includes-others w [] = refl
includes-others w (m ∷ ms) = ground (arith, includes-others w ms)

newest-IsNodup : (c : ℕ) (ms : List ConversationMember) → IsNodup (user_ids_of (newest c ms))
newest-IsNodup c [] = tt
newest-IsNodup c (m ∷ ms) = ground (
  arith,
  newest-IsNodup c ms,
  includes-others m.user_id (newest c ms),
  keep-IsNodup (is_other m.user_id) (newest c ms),
)

find-newest :
    (c u : ℕ) (ms : List ConversationMember) → find (is_of u) (newest c ms) ≡ find (is_at c u) ms
find-newest c u [] = refl
find-newest c u (m ∷ ms) = ground (arith, find-newest c u ms, find-others u m.user_id (newest c ms))

pub find-live :
    (c u : ℕ) (ms : List ConversationMember)
    → find (is_of u) (keep is_live (newest c ms)) ≡ live (find (is_at c u) ms)
find-live c u ms =
    ground (arith, find-newest c u ms, find-keep u is_live (newest c ms) (newest-IsNodup c ms))

pub live-IsNodup :
    (c : ℕ) (ms : List ConversationMember) → IsNodup (user_ids_of (keep is_live (newest c ms)))
live-IsNodup c ms = keep-IsNodup is_live (newest c ms) (newest-IsNodup c ms)

pub find-last :
    (c i u : ℕ) (ms : List ConversationMember)
    → find (is_of u) (keep (is_last i) (keep is_live (newest c ms)))
      ≡ has_last i (live (find (is_at c u) ms))
find-last c i u ms = ground (
  arith,
  find-live c u ms,
  find-keep u (is_last i) (keep is_live (newest c ms)) (live-IsNodup c ms),
)

pub find-has_key :
    (i : ℕ) (ms : List Message) (m : Message) → find (has_key i) ms ≡ some m → m.id ≡ i
find-has_key i [] m h = absurd (ground arith)
find-has_key i (n ∷ ms) m h = ground (arith, find-has_key i ms m)

pub find-is_at :
    (c u : ℕ) (ms : List ConversationMember) (m : ConversationMember)
    → find (is_at c u) ms ≡ some m
    → (m.conversation_id ≡ c) × (m.user_id ≡ u)
find-is_at c u [] m h = absurd (ground arith)
find-is_at c u (n ∷ ms) m h = ground (arith, find-is_at c u ms m)

pub includes-deleted :
    (i u : ℕ) (ds : List DeletedMessage)
    → includes u (hidden_from (keep (λ (d : DeletedMessage). d.message_id == i) ds))
      ≡ any (is_hidden u i) ds
includes-deleted i u [] = refl
includes-deleted i u (d ∷ ds) = ground (arith, includes-deleted i u ds)
