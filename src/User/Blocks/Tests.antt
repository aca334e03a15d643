-- ===== src/User/Blocks/Tests.antt =====
-- A table of blocks kept in a list, and runs of the repository on it.
use nestjs_chat.Base.{
  ℕ, ◌≡◌, refl, Bool, true, false, not, ◌&&◌, if◌then◌else◌, List, [], ◌∷◌, none, some, any, arith,
}
use nestjs_chat.Action.{ok, err}
use nestjs_chat.User.Model.{UserEntity, user_unblocked, user}
use nestjs_chat.User.Ports.{UserRepositoryPort}
use nestjs_chat.User.Commands.{block_user, unblock_user}
use nestjs_chat.User.Blocks.{
  BlockTable, BlockTableLaws, same_pair, unique_violation, unblock, get_block_status, with_blocks,
}
use nestjs_chat.User.Blocks.Laws.{block_user-unblock_user_fails}

record Row : Type 0 where
  blocker_id : ℕ
  blocked_id : ℕ
  is_deleted : Bool

abbrev is_row : (a b : ℕ) → Row → Bool
is_row a b r = same_pair r.blocker_id r.blocked_id a b

abbrev is_live : (a b : ℕ) → Row → Bool
is_live a b r = is_row a b r && not r.is_deleted

abbrev mark_deleted : (a b : ℕ) → List Row → List Row
mark_deleted a b [] = []
mark_deleted a b (r ∷ rows) =
    let rest = mark_deleted a b rows in
    if is_row a b r then record r { is_deleted = true } ∷ rest else r ∷ rest

abbrev rows_table : BlockTable (List Row)
rows_table = record {
  insert = λ a b rows.
      if any (is_row a b) rows
      then (err unique_violation, rows)
      else (ok tt, record { blocker_id = a; blocked_id = b; is_deleted = false } ∷ rows);
  soft_delete = λ a b rows. (ok (if any (is_live a b) rows then 1 else 0), mark_deleted a b rows);
  get_exists = λ a b rows. ok (any (is_live a b) rows);
  holds_key = λ a b rows. any (is_row a b) rows;
}

live_is_row :
    (a b : ℕ) (rows : List Row) → any (is_live a b) rows ≡ true → any (is_row a b) rows ≡ true
live_is_row a b [] h = cc
live_is_row a b (r ∷ rows) h = ground (arith, live_is_row a b rows)

live-mark_deleted :
    (a b c d : ℕ) (rows : List Row)
    → any (is_live c d) (mark_deleted a b rows)
      ≡ (if same_pair a b c d then false else any (is_live c d) rows)
live-mark_deleted a b c d [] = ground arith
live-mark_deleted a b c d (r ∷ rows) = ground (arith, live-mark_deleted a b c d rows)

row-mark_deleted :
    (a b c d : ℕ) (rows : List Row)
    → any (is_row c d) (mark_deleted a b rows) ≡ any (is_row c d) rows
row-mark_deleted a b c d [] = refl
row-mark_deleted a b c d (r ∷ rows) = ground (arith, row-mark_deleted a b c d rows)

rows_table_laws : BlockTableLaws rows_table
rows_table_laws = record {
  exists_holds = λ a b rows h. live_is_row a b rows (ground arith);
  insert_duplicate = λ a b rows h. ground arith;
  exists_insert = λ a b c d rows rows' h. ground arith;
  exists_soft_delete = λ a b c d n rows rows' h. ground (arith, live-mark_deleted a b c d rows);
  holds_soft_delete = λ a b c d n rows rows' h. ground (arith, row-mark_deleted a b c d rows);
}

abbrev blocked_rows : List Row
blocked_rows = record { blocker_id = 1; blocked_id = 2; is_deleted = false } ∷ []

abbrev lifted_rows : List Row
lifted_rows = record { blocker_id = 1; blocked_id = 2; is_deleted = true } ∷ []

abbrev someone : ℕ → UserEntity
someone i = record {
  id = i;
  created_at = 1;
  updated_at = 1;
  email = 97 ∷ [];
  username = 97 ∷ [];
  password = [];
  first_name = [];
  last_name = [];
  role = user;
  avatar = none;
  blocked_users = [];
  deleted_at = none;
}

-- every user is known; the blocks are replaced by those of the table
abbrev users : UserRepositoryPort (List Row)
users = record {
  save = λ u s. (ok u, s);
  get_user_by_id = λ i s. ok (some (someone i));
  email_exists = λ e s. ok false;
  username_exists = λ n s. ok false;
  block = λ a b s. (ok true, s);
  unblock = λ a b s. (ok true, s);
  get_block_status = λ a b s. ok false;
  delete = λ i s. (ok true, s);
}

block_user-unblock_user_fails_example :
    block_user
      (with_blocks rows_table users)
      1
      2
      (record { store = lifted_rows; published = user_unblocked 1 2 ∷ [] })
    ≡ (err unique_violation, record { store = lifted_rows; published = user_unblocked 1 2 ∷ [] })
unfolding unblock_user unblock get_block_status
block_user-unblock_user_fails_example =
    block_user-unblock_user_fails rows_table rows_table_laws users 1 2
      (record { store = blocked_rows; published = [] }) refl (someone 1, refl) (someone 2, refl)
