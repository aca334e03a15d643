-- ===== src/Auth/Signin.antt =====
-- signin.handler.ts. The token entity applies no event, so `commit()` publishes none.
pub mod Sound
use nestjs_chat.Base.{ℕ, Text, some}
use nestjs_chat.Exceptions.{Exception, domain, token_generation}
use nestjs_chat.Action.{Action, ok, err, ◌>>=◌, ◌>>◌, read, write, lift, pure, throw, catch}
use nestjs_chat.Auth.Token.{
  RefreshTokenEntity, Readings, create, sign_access_token, sign_refresh_token,
}
use nestjs_chat.Auth.Ports.{Services, AuthUser}

pub record SigninCommand : Type 0 where
  pub property : Text
  pub password : Text

pub record SigninResponse : Type 0 where
  pub id : ℕ
  pub first_name : Text
  pub last_name : Text
  pub created_at : ℕ
  pub access_token : Text
  pub refresh_token : Text

-- The draws of the uuids and of the clock: the token's jti, and the entity's readings.
pub record Draws : Type 0 where
  pub jti : ℕ
  pub entity : Readings

abbrev pub sign_in_again : Exception
sign_in_again = domain (token_generation (some "Failed to create token; please sign in again"))

module _ {S E : Type 0} (services : Services S) where
  open services use {jwt, conf, repo, users, bcrypt}

  unfoldable pub signin : Draws → SigninCommand → Action S E SigninResponse
  signin d command = do
    user ← read (users.validate_password command.property command.password)
    access ← lift (sign_access_token jwt conf user.id user.role)
    refresh ← lift (sign_refresh_token jwt conf d.jti user.id)
    hashed ← lift (bcrypt.hash refresh.token)
    session ← lift (create d.entity user.id hashed refresh.jti)
    saved ← catch (write (repo.save session)) (throw sign_in_again)
    pure (record {
      id = user.id;
      first_name = user.first_name;
      last_name = user.last_name;
      created_at = user.created_at;
      access_token = access;
      refresh_token = refresh.token;
    })
