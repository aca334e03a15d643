-- ===== src/Auth/InMemory.antt =====
-- A table of refresh tokens kept in a list, and runs of the auth
-- commands on the repository over it.
use nestjs_chat.Base.{
  ℕ, ◌≡◌, ◌≢◌, refl, Bool, true, not, ◌&&◌, ◌||◌, ◌==◌, if◌then◌else◌, List, [], ◌∷◌, Option, none,
  some, any, find, arith, Bool-cases, inl, inr, is_some,
}
use nestjs_chat.Exceptions.{database}
use nestjs_chat.Action.{Result, ok, err}
use nestjs_chat.Auth.Token.{JwtService}
use nestjs_chat.Auth.Ports.{AuthUser, Services}
use nestjs_chat.Auth.Repository.{RefreshToken, TokenTable, TokenTableLaws, postgres}

abbrev is_key : (user_id identifier : ℕ) → RefreshToken → Bool
is_key u i r = (r.user_id == u) && (r.identifier == i)

abbrev is_visible : (with_deleted : Bool) → (user_id identifier : ℕ) → RefreshToken → Bool
is_visible d u i r = is_key u i r && (d || not (is_some r.deleted_at))

-- another row with the identifier, which is unique
abbrev is_conflict : RefreshToken → RefreshToken → Bool
is_conflict row r = (r.identifier == row.identifier) && not (r.id == row.id)

abbrev is_target : (user_id : ℕ) → Option ℕ → RefreshToken → Bool
is_target u none r = r.user_id == u
is_target u (some i) r = is_key u i r

abbrev mark_deleted : ℕ → Option ℕ → List RefreshToken → List RefreshToken
mark_deleted u i [] = []
mark_deleted u i (r ∷ rows) =
    let rest = mark_deleted u i rows in
    if is_target u i r then record r { deleted_at = some 99 } ∷ rest else r ∷ rest

abbrev rollback :
    List RefreshToken
    → Result (Unit {0}) × List RefreshToken
    → Result (Unit {0}) × List RefreshToken
rollback rows (ok u, rows') = (ok u, rows')
rollback rows (err e, rows') = (err e, rows)

abbrev pub rows_table : TokenTable (List RefreshToken)
rows_table = record {
  get_one = λ d u i rows. ok (find (is_visible d u i) rows);
  save = λ row rows.
      if any (is_conflict row) rows then (err (database 23505), rows) else (ok row, row ∷ rows);
  soft_delete = λ u i rows. (ok (if any (is_target u i) rows then 1 else 0), mark_deleted u i rows);
  transaction = λ run rows. rollback rows (run rows);
}

found_key :
    (d : Bool) (u i : ℕ) (rows : List RefreshToken) (row : RefreshToken)
    → find (is_visible d u i) rows ≡ some row
    → (row.user_id ≡ u) × (row.identifier ≡ i)
found_key d u i [] row h = cc
found_key d u i (r ∷ rows) row h = elim (Bool-cases (is_visible d u i r)) [
  | inl p ↦ ground (arith, p)
  | inr p ↦ found_key d u i rows row (ground (arith, p))
]

-- A row that is found stands in the way of another with its identifier.
found_conflicts :
    (u i : ℕ) (rows : List RefreshToken) (row r : RefreshToken)
    → find (is_visible true u i) rows ≡ some r
    → row.id ≢ r.id
    → row.identifier ≡ i
    → any (is_conflict row) rows ≡ true
found_conflicts u i [] row r h other same = cc
found_conflicts u i (q ∷ rows) row r h other same = elim (Bool-cases (is_visible true u i q)) [
  | inl p ↦ ground (arith, p)
  | inr p ↦ ground (arith, found_conflicts u i rows row r (ground (arith, p)) other same)
]

pub rows_table_laws : TokenTableLaws rows_table
rows_table_laws = record {
  one_key = λ d u i rows row h. found_key d u i rows row (ground arith);
  one_after_save = λ row saved rows rows' h. (row, ground arith, refl, refl);
  kept_by_save = λ row saved r u i rows rows' h other found.
      ground (arith, found_conflicts u i rows row r (ground arith) other);
  committed = λ run rows rows' h. ground arith;
  rolled_back = λ run rows e h. ground arith;
}

abbrev pub ann : AuthUser
ann = record { id = 1; role = 85 ∷ []; first_name = []; last_name = []; created_at = 2 }

-- a token is the text of nothing but "t"; what is verified is session 7 of user 1
abbrev pub jwt : JwtService
jwt = record {
  sign_async = λ claims options. ok (116 ∷ []);
  verify_async = λ token key. ok (record { sub = 1; jti = 7 });
}

abbrev pub services : Services (List RefreshToken)
services = record {
  jwt = jwt;
  conf = record {
    access_private_key = [];
    access_public_key = [];
    refresh_private_key = [];
    refresh_public_key = [];
  };
  repo = postgres rows_table;
  users = record {
    create_user = λ u s. (ok ann, s);
    validate_password = λ p q s. ok ann;
    get_user_by_id = λ i s. ok (some ann);
  };
  bcrypt = record { hash = λ t. ok t; compare = λ t h. ok true };
}

abbrev pub row_of : (id identifier : ℕ) → (deleted_at : Option ℕ) → RefreshToken
row_of id identifier deleted_at = record {
  id = id;
  user_id = 1;
  token = 114 ∷ [];
  identifier = identifier;
  created_at = 2;
  updated_at = 2;
  deleted_at = deleted_at;
}
