-- ===== src/User/Blocks.antt =====
-- The blocks of user-postgres.repository.ts (`block`, `unblock`, `getBlockStatus`) over the table of
-- user-block.entity.ts. The table is TypeORM's and PostgreSQL's: a parameter, with the documented
-- behaviour that the code relies on.
pub mod Laws
mod Tests
use nestjs_chat.Base.{ℕ, ◌≡◌, Bool, true, false, ◌&&◌, not, ◌==◌, if◌then◌else◌}
use nestjs_chat.Exceptions.{Exception, database}
use nestjs_chat.Action.{Result, ok, err, Read, Write}
use nestjs_chat.User.Ports.{UserRepositoryPort}

pub record BlockTable (T : Type 0) : Type 0 where
  -- `insert`
  pub insert : (blocker_id blocked_id : ℕ) → Write T (Unit {0})
  -- `softDelete`, which returns the number of rows affected
  pub soft_delete : (blocker_id blocked_id : ℕ) → Write T ℕ
  -- `getExists`, which leaves soft-deleted rows out
  pub get_exists : (blocker_id blocked_id : ℕ) → Read T Bool
  -- whether a row has this primary key, soft-deleted or not
  pub holds_key : (blocker_id blocked_id : ℕ) → T → Bool

abbrev pub same_pair : (a b c d : ℕ) → Bool
same_pair a b c d = (a == c) && (b == d)

-- 23505 is PostgreSQL's `unique_violation`.
abbrev pub unique_violation : Exception
unique_violation = database 23505

pub record BlockTableLaws {T : Type 0} (table : BlockTable T) : Type 0 where
  -- what is found is in the table
  pub exists_holds :
      (a b : ℕ) (t : T) → table.get_exists a b t ≡ ok true → table.holds_key a b t ≡ true
  -- the primary key (blocker_id, blocked_id) is unique among all rows
  pub insert_duplicate :
      (a b : ℕ) (t : T)
      → table.holds_key a b t ≡ true
      → table.insert a b t ≡ (err unique_violation, t)
  pub exists_insert :
      (a b c d : ℕ) (t t' : T)
      → table.insert a b t ≡ (ok tt, t')
      → table.get_exists c d t' ≡ (if same_pair a b c d then ok true else table.get_exists c d t)
  -- a soft deletion marks rows and removes none
  pub exists_soft_delete :
      (a b c d n : ℕ) (t t' : T)
      → table.soft_delete a b t ≡ (ok n, t')
      → table.get_exists c d t' ≡ (if same_pair a b c d then ok false else table.get_exists c d t)
  pub holds_soft_delete :
      (a b c d n : ℕ) (t t' : T)
      → table.soft_delete a b t ≡ (ok n, t')
      → table.holds_key c d t' ≡ table.holds_key c d t

module _ {T : Type 0} (table : BlockTable T) where
  -- One transaction, so a failed `insert` leaves the table as it was.
  unfoldable pub block : (blocker_id blocked_id : ℕ) → Write T Bool
  block a b t = elim (table.get_exists a b t) [
    | err e ↦ (err e, t)
    | ok true ↦ (ok false, t)
    | ok false ↦
        let (inserted, t') = table.insert a b t in
        elim inserted [ ok u ↦ (ok true, t') | err e ↦ (err e, t) ]
  ]

  unfoldable pub unblock : (blocker_id blocked_id : ℕ) → Write T Bool
  unblock a b t =
      let (affected, t') = table.soft_delete a b t in
      elim affected [ ok n ↦ (ok (not (n == 0)), t') | err e ↦ (err e, t') ]

  unfoldable pub get_block_status : (blocker_id blocked_id : ℕ) → Read T Bool
  get_block_status a b t = table.get_exists a b t

  -- A repository with these three methods.
  abbrev pub with_blocks : UserRepositoryPort T → UserRepositoryPort T
  with_blocks repo = record repo {
    block = block;
    unblock = unblock;
    get_block_status = get_block_status;
  }
