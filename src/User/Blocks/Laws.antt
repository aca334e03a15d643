-- ===== src/User/Blocks/Laws.antt =====
-- What blocking does to the table, and what it cannot do a second time.
use nestjs_chat.Base.{ℕ, ◌≡◌, Bool, true, false, if◌then◌else◌, arith, inl, inr, ◌∙◌}
use nestjs_chat.Action.{World, ok, err}
use nestjs_chat.Action.Inversion.{run_cases}
use nestjs_chat.User.Model.{UserEvent}
use nestjs_chat.User.Ports.{UserRepositoryPort}
use nestjs_chat.User.Commands.{block_user, unblock_user}
use nestjs_chat.User.Commands.Blocking.{IsKnown}
use nestjs_chat.User.Blocks.{
  BlockTable, BlockTableLaws, same_pair, unique_violation, block, unblock, get_block_status,
  with_blocks,
}

module _ {T : Type 0} (table : BlockTable T) (laws : BlockTableLaws table) where
  -- On a table that keeps the laws, after `block` has answered, the block of the pair is found and
  -- every other pair is found as before. It answers false exactly if the block was there before.
  pub block_lem :
      (a b c d : ℕ) (t : T) {done : Bool} {t' : T}
      → block table a b t ≡ (ok done, t')
      → (get_block_status table c d t'
          ≡ (if same_pair a b c d then ok true else get_block_status table c d t))
        × (table.get_exists a b t ≡ ok (if done then false else true))
  unfolding block get_block_status
  block_lem a b c d t h = elim (run_cases (table.insert a b t)) [
    | inr failed ↦ ground arith
    | inl (u, s, e) ↦ ground (arith, laws.exists_insert a b c d t s e)
  ]

  -- On a table that keeps the laws, after `unblock` has answered, no block of the pair is found, and
  -- every other pair is found as before.
  pub unblock_lem :
      (a b c d : ℕ) (t : T) {done : Bool} {t' : T}
      → unblock table a b t ≡ (ok done, t')
      → get_block_status table c d t'
        ≡ (if same_pair a b c d then ok false else get_block_status table c d t)
  unfolding unblock get_block_status
  unblock_lem a b c d t h = elim (run_cases (table.soft_delete a b t)) [
    | inr failed ↦ absurd (ground arith)
    | inl (n, s, e) ↦ ground (arith, laws.exists_soft_delete a b c d n t s e)
  ]

  -- Once a block has been lifted, blocking the same user again is refused by the database: the
  -- soft-deleted row still holds the primary key. This is so for every block that was stored.
  pub block-unblock_fails :
      (a b : ℕ) (t : T) {done : Bool} {t' : T}
      → table.get_exists a b t ≡ ok true
      → unblock table a b t ≡ (ok done, t')
      → block table a b t' ≡ (err unique_violation, t')
  unfolding block unblock
  block-unblock_fails a b t stored h = elim (run_cases (table.soft_delete a b t)) [
    | inr failed ↦ absurd (ground arith)
    | inl (n, s, e) ↦
        let held = laws.holds_soft_delete a b a b n t s e ∙ laws.exists_holds a b t stored in
        let missing : table.get_exists a b s ≡ ok false =
          ground (arith, laws.exists_soft_delete a b a b n t s e) in
        ground (arith, missing, laws.insert_duplicate a b s held)
  ]

  -- On a table that keeps the laws, after `unblock_user` has lifted a block, `block_user` for the same
  -- two users, while both are known, throws the database's error for a duplicate key and changes
  -- nothing.
  pub block_user-unblock_user_fails :
      (repo : UserRepositoryPort T) (a b : ℕ) (w : World T UserEvent) {w' : World T UserEvent}
      → unblock_user (with_blocks table repo) a b w ≡ (ok true, w')
      → IsKnown (with_blocks table repo) a w'.store
      → IsKnown (with_blocks table repo) b w'.store
      → block_user (with_blocks table repo) a b w' ≡ (err unique_violation, w')
  unfolding unblock_user block_user get_block_status
  block_user-unblock_user_fails repo a b w {w'} h (u, p) (v, q) =
      elim (run_cases (unblock table a b w.store)) [
        | inr failed ↦ absurd (ground arith)
        | inl (done, s, e) ↦
            let stored : table.get_exists a b w.store ≡ ok true = ground arith in
            let same : w'.store ≡ s = ground arith in
            let lifted = unblock_lem a b a b w.store e in
            let gone : table.get_exists a b s ≡ ok false = ground (arith, lifted) in
            ground (arith, gone, block-unblock_fails a b w.store stored e)
      ]
