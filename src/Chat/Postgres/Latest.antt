-- ===== src/Chat/Postgres/Latest.antt =====
-- The latest message that the database in lists finds.
use nestjs_chat.Base.{
  ℕ, ◌≡◌, refl, subst, true, false, ◌==◌, Option, none, some, List, [], ◌∷◌, find, arith,
  Option-cases, Bool-cases, inl, inr,
}
use nestjs_chat.Chat.Postgres.Entities.{Message}
use nestjs_chat.Chat.Postgres.Database.{Tables, is_newer, is_shown, IsLatest}
use nestjs_chat.Chat.Postgres.Behaviour.{id_of}
use nestjs_chat.Chat.Postgres.InMemory.{Rows, has_key, tables, newer, latest}
use nestjs_chat.Chat.Postgres.Newest.{find-has_key}

module _ (v : Tables) (keys : (i : ℕ) (m : Message) → v.message_at i ≡ some m → m.id ≡ i)
    (c u : ℕ) where
  newer_shown :
      (m : Message) (o : Option Message)
      → is_shown v c u (id_of o) ≡ true
      → is_shown v c u (id_of (newer v c u m o)) ≡ true
  newer_shown m none h = elim (Option-cases (v.message_at m.id)) [
    | inl missing ↦ ground arith
    | inr (n, found) ↦ let key = keys m.id n found in ground arith
  ]
  newer_shown m (some o) h = elim (Option-cases (v.message_at m.id)) [
    | inl missing ↦ ground arith
    | inr (n, found) ↦ let key = keys m.id n found in ground arith
  ]

  newer_newest :
      (m : Message) (o : Option Message) → is_newer v c u (id_of (newer v c u m o)) m.id ≡ false
  newer_newest m none = elim (Option-cases (v.message_at m.id)) [
    | inl missing ↦ ground arith
    | inr (n, found) ↦ let key = keys m.id n found in ground arith
  ]
  newer_newest m (some o) = elim (Option-cases (v.message_at m.id)) [
    | inl missing ↦ ground arith
    | inr (n, found) ↦ let key = keys m.id n found in ground arith
  ]

  newer_kept :
      (m : Message) (o : Option Message) (i : ℕ)
      → is_newer v c u (id_of o) i ≡ false
      → is_newer v c u (id_of (newer v c u m o)) i ≡ false
  newer_kept m none i h = elim (Option-cases (v.message_at m.id)) [
    | inl missing ↦ ground arith
    | inr (n, found) ↦ let key = keys m.id n found in ground arith
  ]
  newer_kept m (some o) i h = elim (Option-cases (v.message_at m.id)) [
    | inl missing ↦ ground arith
    | inr (n, found) ↦ let key = keys m.id n found in ground arith
  ]

  latest_shown : (ms : List Message) → is_shown v c u (id_of (latest v c u ms)) ≡ true
  latest_shown [] = refl
  latest_shown (m ∷ ms) = newer_shown m (latest v c u ms) (latest_shown ms)

  latest_newest :
      (ms : List Message) (i : ℕ) (n : Message)
      → find (has_key i) ms ≡ some n
      → is_newer v c u (id_of (latest v c u ms)) i ≡ false
  latest_newest [] i n h = absurd (ground arith)
  latest_newest (m ∷ ms) i n h = elim (Bool-cases (m.id == i)) [
    | inl same ↦
        let key : m.id ≡ i = ground arith in
        subst (λ j. is_newer v c u (id_of (newer v c u m (latest v c u ms))) j ≡ false) key
          (newer_newest m (latest v c u ms))
    | inr other ↦ newer_kept m (latest v c u ms) i (latest_newest ms i n (ground arith))
  ]

pub latest-IsLatest :
    (t : Rows) (c u : ℕ) → IsLatest (tables t) c u (id_of (latest (tables t) c u t.messages))
latest-IsLatest t c u = (
  latest_shown (tables t) (λ i m. find-has_key i t.messages m) c u t.messages,
  λ i. elim (Option-cases (find (has_key i) t.messages)) [
    | inr (n, found) ↦
        latest_newest (tables t) (λ j m. find-has_key j t.messages m) c u t.messages i n found
    | inl missing ↦ elim (Option-cases (id_of (latest (tables t) c u t.messages))) [
      | inl none_ ↦ ground arith
      | inr (j, some_) ↦ ground arith
    ]
  ],
)
