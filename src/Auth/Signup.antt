-- ===== src/Auth/Signup.antt =====
-- signup.handler.ts, and the saga of auth.saga.ts that answers its failure.
pub mod Sound
mod Tests
use nestjs_chat.Base.{ℕ, Text, Option, none, some, List, [], ◌∷◌, String}
use nestjs_chat.Exceptions.{Exception}
use nestjs_chat.Action.{Action, ok, err, ◌>>=◌, ◌>>◌, write, lift, pure, throw, catch, commit}
use nestjs_chat.Auth.Token.{
  RefreshTokenEntity, Readings, create, sign_access_token, sign_refresh_token,
}
use nestjs_chat.Auth.Ports.{Services, AuthUser, NewUser}
use nestjs_chat.Auth.Signin.{Draws, sign_in_again}

pub record SignupCommand : Type 0 where
  pub email : Text
  pub password : Text
  pub first_name : Text
  pub last_name : Text

pub record SignupResponse : Type 0 where
  pub id : ℕ
  pub access_token : Text
  pub refresh_token : Text
  pub created_at : ℕ

-- SignupFailedEvent
pub data AuthEvent : Type 0 where
  signup_failed : (user_id : ℕ) → AuthEvent

-- DeleteUserCommand
pub data Command : Type 0 where
  delete_user : (user_id : ℕ) → Command

-- `AuthSaga.signupFailed`: the stream of commands for a stream of events
abbrev pub saga_signup_failed : List AuthEvent → List Command
saga_signup_failed [] = []
saga_signup_failed (signup_failed user_id ∷ events) =
    delete_user user_id ∷ saga_signup_failed events

-- 'USER'
abbrev pub user_role : Text
user_role = 85 ∷ 83 ∷ 69 ∷ 82 ∷ []

abbrev pub new_user : SignupCommand → NewUser
new_user command = record {
  email = command.email;
  username = none;
  password = command.password;
  first_name = command.first_name;
  last_name = command.last_name;
  avatar = none;
  role = user_role;
}

module _ {S : Type 0} (services : Services S) where
  open services use {jwt, conf, repo, users, bcrypt}

  -- from the first token on, once the user exists
  unfoldable pub open_session : Draws → AuthUser → Action S AuthEvent SignupResponse
  open_session d created = do
    access ← lift (sign_access_token jwt conf created.id user_role)
    refresh ← lift (sign_refresh_token jwt conf d.jti created.id)
    hashed ← lift (bcrypt.hash refresh.token)
    session ← lift (create d.entity created.id hashed refresh.jti)
    saved ←
        catch (write (repo.save session))
          do commit (signup_failed created.id ∷ []); throw sign_in_again
    pure (record {
      id = created.id;
      access_token = access;
      refresh_token = refresh.token;
      created_at = created.created_at;
    })

  unfoldable pub signup : Draws → SignupCommand → Action S AuthEvent SignupResponse
  signup d command = do
    created ← write (users.create_user (new_user command))
    open_session d created
