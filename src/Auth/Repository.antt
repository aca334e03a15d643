-- ===== src/Auth/Repository.antt =====
-- auth-postgres.repository.ts and refresh-token.entity.ts of the postgres entities. The table and
-- TypeORM's transactions are a parameter.
pub mod Laws
use nestjs_chat.Base.{ℕ, ◌≡◌, ◌≢◌, Bool, true, false, Option, none, some, Text, ltb}
use nestjs_chat.Exceptions.{Exception}
use nestjs_chat.Action.{Result, Read, Write, ok, err}
use nestjs_chat.Auth.Token.{RefreshTokenEntity}
use nestjs_chat.Auth.Ports.{AuthRepositoryPort}

-- A row of auth.refresh_tokens.
pub record RefreshToken : Type 0 where
  pub id : ℕ
  pub user_id : ℕ
  pub token : Text
  pub identifier : ℕ
  pub created_at : ℕ
  pub updated_at : ℕ
  pub deleted_at : Option ℕ

abbrev pub from_domain : RefreshTokenEntity → RefreshToken
from_domain entity = record {
  id = entity.id;
  user_id = entity.user_id;
  token = entity.token;
  identifier = entity.identifier;
  created_at = entity.created_at;
  updated_at = entity.updated_at;
  deleted_at = entity.deleted_at;
}

abbrev pub to_domain : RefreshToken → RefreshTokenEntity
to_domain row = record {
  id = row.id;
  created_at = row.created_at;
  updated_at = row.updated_at;
  user_id = row.user_id;
  token = row.token;
  identifier = row.identifier;
  deleted_at = row.deleted_at;
}

-- The table as TypeORM gives it.
pub record TokenTable (T : Type 0) : Type 0 where
  -- the row of this user and identifier, among those that are not deleted, or among all
  pub get_one : (with_deleted : Bool) → (user_id identifier : ℕ) → Read T (Option RefreshToken)
  pub save : RefreshToken → Write T RefreshToken
  -- soft deletion of a user's rows, of all or of those with an identifier: how many it has affected
  pub soft_delete : (user_id : ℕ) → (identifier : Option ℕ) → Write T ℕ
  pub transaction : Write T (Unit {0}) → Write T (Unit {0})

pub record TokenTableLaws {T : Type 0} (table : TokenTable T) : Type 0 where
  -- a row that is found has the user and the identifier that were asked for
  pub one_key :
      (d : Bool) (user_id identifier : ℕ) (t : T) (row : RefreshToken)
      → table.get_one d user_id identifier t ≡ ok (some row)
      → (row.user_id ≡ user_id) × (row.identifier ≡ identifier)
  -- a row that was saved is found, with the deletion mark it was given
  pub one_after_save :
      (row saved : RefreshToken) (t t' : T)
      → table.save row t ≡ (ok saved, t')
      → (r : RefreshToken) × (table.get_one true row.user_id row.identifier t' ≡ ok (some r))
        × (r.deleted_at ≡ row.deleted_at)
        × (r.id ≡ row.id)
  -- and saving a row with another primary key leaves it
  pub kept_by_save :
      (row saved r : RefreshToken) (user_id identifier : ℕ) (t t' : T)
      → table.save row t ≡ (ok saved, t')
      → row.id ≢ r.id
      → table.get_one true user_id identifier t ≡ ok (some r)
      → table.get_one true user_id identifier t' ≡ ok (some r)
  -- a transaction that returns is what was run in it; one that fails is rolled back
  pub committed :
      (run : Write T (Unit {0})) (t t' : T)
      → table.transaction run t ≡ (ok tt, t')
      → run t ≡ (ok tt, t')
  pub rolled_back :
      (run : Write T (Unit {0})) (t : T) (e : Exception)
      → (table.transaction run t).0 ≡ err e
      → (table.transaction run t).1 ≡ t

abbrev found_row : Result (Option RefreshToken) → Result (Option RefreshTokenEntity)
found_row (ok none) = ok none
found_row (ok (some row)) = ok (some (to_domain row))
found_row (err e) = err e

abbrev saved_row : {T : Type 0} → Result RefreshToken × T → Result RefreshTokenEntity × T
saved_row (ok row, t) = (ok (to_domain row), t)
saved_row (err e, t) = (err e, t)

abbrev any_affected : {T : Type 0} → Result ℕ × T → Result Bool × T
any_affected (ok affected, t) = (ok (ltb 0 affected), t)
any_affected (err e, t) = (err e, t)

abbrev then_save :
    {T : Type 0} → Result RefreshToken × T → (T → Result RefreshToken × T) → Result (Unit {0}) × T
then_save (err e, t) next = (err e, t)
then_save (ok saved, t) next =
    let (r, t') = next t in elim r [ ok saved' ↦ (ok tt, t') | err e ↦ (err e, t') ]

module _ {T : Type 0} (table : TokenTable T) where
  unfoldable pub save : RefreshTokenEntity → Write T RefreshTokenEntity
  save entity t = saved_row (table.save (from_domain entity) t)

  unfoldable pub get_refresh_token : (identifier user_id : ℕ) → Read T (Option RefreshTokenEntity)
  get_refresh_token identifier user_id t = found_row (table.get_one false user_id identifier t)

  unfoldable pub get_refresh_token_including_deleted :
      (identifier user_id : ℕ) → Read T (Option RefreshTokenEntity)
  get_refresh_token_including_deleted identifier user_id t =
      found_row (table.get_one true user_id identifier t)

  unfoldable pub rotate_refresh_token : RefreshTokenEntity × RefreshTokenEntity → Write T (Unit {0})
  rotate_refresh_token (old, new) =
      table.transaction
        (λ t. then_save (table.save (from_domain old) t) (table.save (from_domain new)))

  unfoldable pub revoke_refresh_token : (identifier user_id : ℕ) → Write T Bool
  revoke_refresh_token identifier user_id t =
      any_affected (table.soft_delete user_id (some identifier) t)

  unfoldable pub revoke_all_refresh_tokens : (user_id : ℕ) → Write T Bool
  revoke_all_refresh_tokens user_id t = any_affected (table.soft_delete user_id none t)

  abbrev pub postgres : AuthRepositoryPort T
  postgres = record {
    save = save;
    get_refresh_token_including_deleted = get_refresh_token_including_deleted;
    rotate_refresh_token = rotate_refresh_token;
    revoke_refresh_token = revoke_refresh_token;
    revoke_all_refresh_tokens = revoke_all_refresh_tokens;
  }
