-- ===== src/Auth/Ports.antt =====
-- src/modules/auth/application/ports and the services that the handlers call: `S` is whatever the
-- implementations keep. bcrypt is a parameter of which nothing is assumed.
use nestjs_chat.Base.{ℕ, ◌≡◌, ◌≢◌, Bool, Option, some, Text}
use nestjs_chat.Action.{Result, Read, Write, ok}
use nestjs_chat.Auth.Token.{RefreshTokenEntity, JwtService, AuthConfig}

pub record AuthRepositoryPort (S : Type 0) : Type 0 where
  pub save : RefreshTokenEntity → Write S RefreshTokenEntity
  pub get_refresh_token_including_deleted :
      (identifier user_id : ℕ) → Read S (Option RefreshTokenEntity)
  -- the old token, and the new one
  pub rotate_refresh_token : RefreshTokenEntity × RefreshTokenEntity → Write S (Unit {0})
  pub revoke_refresh_token : (identifier user_id : ℕ) → Write S Bool
  pub revoke_all_refresh_tokens : (user_id : ℕ) → Write S Bool

-- What the handlers rely on between a rotation and the reads that follow it.
pub record AuthRepositoryLaws {S : Type 0} (repo : AuthRepositoryPort S) : Type 0 where
  -- what is found has the identifier and the user that were asked for
  pub found_key :
      (identifier user_id : ℕ) (s : S) (t : RefreshTokenEntity)
      → repo.get_refresh_token_including_deleted identifier user_id s ≡ ok (some t)
      → (t.identifier ≡ identifier) × (t.user_id ≡ user_id)
  -- after a rotation to a row of its own, the old token is found, revoked when it was given so
  pub found_after_rotation :
      (old new : RefreshTokenEntity) (s s' : S)
      → repo.rotate_refresh_token (old, new) s ≡ (ok tt, s')
      → new.id ≢ old.id
      → (t : RefreshTokenEntity) × (repo.get_refresh_token_including_deleted old.identifier
            old.user_id s'
          ≡ ok (some t))
        × (t.deleted_at ≡ old.deleted_at)

pub record AuthUser : Type 0 where
  pub id : ℕ
  pub role : Text
  pub first_name : Text
  pub last_name : Text
  pub created_at : ℕ

pub record NewUser : Type 0 where
  pub email : Text
  pub username : Option Text
  pub password : Text
  pub first_name : Text
  pub last_name : Text
  pub avatar : Option Text
  pub role : Text

pub record UserIntegrationPort (S : Type 0) : Type 0 where
  pub create_user : NewUser → Write S AuthUser
  pub validate_password : (property password : Text) → Read S AuthUser
  pub get_user_by_id : ℕ → Read S (Option AuthUser)

pub record Bcrypt : Type 0 where
  pub hash : Text → Result Text
  pub compare : (plain hashed : Text) → Result Bool

-- What a handler is constructed with.
pub record Services (S : Type 0) : Type 0 where
  pub jwt : JwtService
  pub conf : AuthConfig
  pub repo : AuthRepositoryPort S
  pub users : UserIntegrationPort S
  pub bcrypt : Bcrypt
