-- ===== src/Auth/Token.antt =====
-- src/modules/auth/domain/models/refresh-token.entity.ts and application/services/token.service.ts.
-- The signing and checking of tokens is @nestjs/jwt's, a parameter. Identifiers are uuids, so the
-- checks for an empty user id or jti never fire, and stand here for the token's hash alone.
use nestjs_chat.Base.{ℕ, Option, none, some, Text, if◌then◌else◌, is_blank, String}
use nestjs_chat.Exceptions.{plain}
use nestjs_chat.Action.{Result, ok, err}

pub record RefreshTokenEntity : Type 0 where
  pub id : ℕ
  pub created_at : ℕ
  pub updated_at : ℕ
  pub user_id : ℕ
  pub token : Text
  pub identifier : ℕ
  pub deleted_at : Option ℕ

-- What the uuid and the clock give during one `create`.
pub record Readings : Type 0 where
  pub id : ℕ
  pub created_at : ℕ
  pub updated_at : ℕ

abbrev pub new_token :
    Readings → (user_id : ℕ) → (token_hash : Text) → (identifier : ℕ) → RefreshTokenEntity
new_token r user_id token_hash identifier = record {
  id = r.id;
  created_at = r.created_at;
  updated_at = r.updated_at;
  user_id = user_id;
  token = token_hash;
  identifier = identifier;
  deleted_at = none;
}

-- `RefreshTokenEntity.create`
unfoldable pub create :
    Readings → (user_id : ℕ) → (token_hash : Text) → (identifier : ℕ) → Result RefreshTokenEntity
create r user_id token_hash identifier =
    if is_blank token_hash
    then err (plain "Refresh token must have a token hash")
    else ok (new_token r user_id token_hash identifier)

abbrev pub revoke : (now later : ℕ) → RefreshTokenEntity → RefreshTokenEntity
revoke now later t = record t { deleted_at = some now; updated_at = later }

abbrev pub restore : ℕ → RefreshTokenEntity → RefreshTokenEntity
restore now t = record t { deleted_at = none; updated_at = now }

pub record Claims : Type 0 where
  pub sub : ℕ
  pub role : Option Text

pub record SignOptions : Type 0 where
  pub private_key : Text
  pub expires_in : String
  pub jwtid : Option ℕ

-- The payload of a refresh token that has been verified.
pub record RefreshTokenPayload : Type 0 where
  pub sub : ℕ
  pub jti : ℕ

-- @nestjs/jwt, of which nothing is assumed
pub record JwtService : Type 0 where
  pub sign_async : Claims → SignOptions → Result Text
  pub verify_async : Text → (public_key : Text) → Result RefreshTokenPayload

pub record AuthConfig : Type 0 where
  pub access_private_key : Text
  pub access_public_key : Text
  pub refresh_private_key : Text
  pub refresh_public_key : Text

pub record SignedRefreshToken : Type 0 where
  pub token : Text
  pub jti : ℕ

module _ (jwt : JwtService) (conf : AuthConfig) where
  unfoldable pub sign_access_token : (user_id : ℕ) → (role : Text) → Result Text
  sign_access_token user_id role =
      jwt.sign_async (record { sub = user_id; role = some role })
        (record { private_key = conf.access_private_key; expires_in = "1d"; jwtid = none })

  -- `jti` is the `uuidV4()`
  unfoldable pub sign_refresh_token : (jti user_id : ℕ) → Result SignedRefreshToken
  sign_refresh_token jti user_id =
      elim (jwt.sign_async (record { sub = user_id; role = none })
        (record { private_key = conf.refresh_private_key; expires_in = "7d"; jwtid = some jti })) [
          | ok token ↦ ok (record { token = token; jti = jti })
          | err e ↦ err e
        ]

  unfoldable pub verify_refresh_token : Text → Result RefreshTokenPayload
  verify_refresh_token token = jwt.verify_async token conf.refresh_public_key
