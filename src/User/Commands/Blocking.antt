-- ===== src/User/Commands/Blocking.antt =====
-- What blocking and unblocking have done when they return.
use nestjs_chat.Base.{ℕ, ◌≡◌, inl, inr, Bool, true, false, some, [], ◌∷◌, ◌++◌, arith}
use nestjs_chat.Exceptions.{Exception}
use nestjs_chat.Action.{World, ok, err}
use nestjs_chat.Action.Inversion.{found_cases, run_cases}
use nestjs_chat.User.Model.{UserEntity, UserEvent, user_blocked}
use nestjs_chat.User.Ports.{UserRepositoryPort}
use nestjs_chat.User.Commands.{block_user, unblock_user}

module _ {S : Type 0} (repo : UserRepositoryPort S) where
  abbrev pub IsKnown : ℕ → S → Type 0
  IsKnown i s = (u : UserEntity) × (repo.get_user_by_id i s ≡ ok (some u))

  -- what each answer of `block_user` means
  abbrev pub IsBlockOutcome : (a b : ℕ) (w : World S UserEvent) → Bool → World S UserEvent → Type 0
  IsBlockOutcome a b w true w' =
      IsKnown a w.store
      × IsKnown b w.store
      × (repo.get_block_status a b w.store ≡ ok false)
      × ((done : Bool) × (repo.block a b w.store ≡ (ok done, w'.store)))
      × (w'.published ≡ w.published ++ user_blocked a b ∷ [])
  IsBlockOutcome a b w false w' = (repo.get_block_status a b w.store ≡ ok true) × (w' ≡ w)

  block_user-outcome :
      (a b : ℕ) (w : World S UserEvent) (result done : Bool) {w' : World S UserEvent} (s : S)
      → IsKnown a w.store
      → IsKnown b w.store
      → repo.block a b w.store ≡ (ok done, s)
      → block_user repo a b w ≡ (ok result, w')
      → IsBlockOutcome a b w result w'
  unfolding block_user
  block_user-outcome a b w true done s (u, p) (v, q) stored h =
      ((u, p), (v, q), ground arith, (done, ground arith), ground arith)
  block_user-outcome a b w false done s (u, p) (v, q) stored h = ground arith

  block_user-already :
      (a b : ℕ) (w : World S UserEvent) (result : Bool) {w' : World S UserEvent} (e : Exception)
      (s : S)
      → IsKnown a w.store
      → IsKnown b w.store
      → repo.block a b w.store ≡ (err e, s)
      → block_user repo a b w ≡ (ok result, w')
      → IsBlockOutcome a b w result w'
  unfolding block_user
  block_user-already a b w true e s (u, p) (v, q) failed h = absurd (ground arith)
  block_user-already a b w false e s (u, p) (v, q) failed h = ground arith

  -- When `block_user` answers true, both users are known, no block was there, the repository has stored
  -- one, and exactly the event of that block is published. When it answers false, the block was there,
  -- and the world is as it was.
  pub block_user_sound :
      (a b : ℕ) (w : World S UserEvent) {result : Bool} {w' : World S UserEvent}
      → block_user repo a b w ≡ (ok result, w')
      → IsBlockOutcome a b w result w'
  unfolding block_user
  block_user_sound a b w {result} h = elim (found_cases (repo.get_user_by_id a w.store)) [
    | inr unknown ↦ absurd (ground arith)
    | inl known ↦ elim (found_cases (repo.get_user_by_id b w.store)) [
      | inr unknown ↦ absurd (ground arith)
      | inl known' ↦ elim (run_cases (repo.block a b w.store)) [
        | inl (done, s, stored) ↦ block_user-outcome a b w result done s known known' stored h
        | inr (e, s, failed) ↦ block_user-already a b w result e s known known' failed h
      ]
    ]
  ]

  -- If `block_user` or `unblock_user` throws, the world is as it was.
  pub blocking-err :
      (a b : ℕ) (w : World S UserEvent)
      → ((s : S) (e : Exception) → (repo.block a b s).0 ≡ err e → (repo.block a b s).1 ≡ s)
      → ((s : S) (e : Exception) → (repo.unblock a b s).0 ≡ err e → (repo.unblock a b s).1 ≡ s)
      → ((e : Exception) → (block_user repo a b w).0 ≡ err e → (block_user repo a b w).1 ≡ w)
        × ((e : Exception) → (unblock_user repo a b w).0 ≡ err e → (unblock_user repo a b w).1 ≡ w)
  unfolding block_user unblock_user
  blocking-err a b w p q = (λ e h. grind (arith, p w.store), λ e h. grind (arith, q w.store))
