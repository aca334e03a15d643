-- ===== src/Auth/Signup/Tests.antt =====
-- Runs of signing in and of signing up on the table in memory.
use nestjs_chat.Base.{◌≡◌, refl, List, [], ◌∷◌, none, some, arith}
use nestjs_chat.Exceptions.{Exception, database, plain}
use nestjs_chat.Action.{World, ok, err}
use nestjs_chat.Auth.Token.{RefreshTokenEntity, create, sign_access_token, sign_refresh_token}
use nestjs_chat.Auth.Ports.{Services}
use nestjs_chat.Auth.Repository.{RefreshToken, save}
use nestjs_chat.Auth.InMemory.{ann, services, row_of, rows_table}
use nestjs_chat.Auth.Signin.{SigninCommand, Draws, signin, sign_in_again}
use nestjs_chat.Auth.Signin.Sound.{IsSignedIn, signin_sound}
use nestjs_chat.Auth.Signup.{
  SignupCommand, AuthEvent, signup_failed, delete_user, saga_signup_failed, signup, open_session,
}
use nestjs_chat.Auth.Signup.Sound.{
  IsSignedUp, signup_sound, IsFailedSignup, signup-err, signup_compensated, signup_uncompensated,
}

abbrev draws : Draws
draws = record { jti = 8; entity = record { id = 80; created_at = 9; updated_at = 9 } }

abbrev world : World (List RefreshToken) AuthEvent
world = record { store = []; published = [] }

-- another session holds the identifier that is drawn
abbrev taken : World (List RefreshToken) AuthEvent
taken = record { store = row_of 70 8 none ∷ []; published = [] }

abbrev signin_command : SigninCommand
signin_command = record { property = 97 ∷ []; password = 112 ∷ [] }

signin_sound_example :
    IsSignedIn services draws signin_command world
      (record {
        id = 1;
        first_name = [];
        last_name = [];
        created_at = 2;
        access_token = 116 ∷ [];
        refresh_token = 116 ∷ [];
      })
      (signin services draws signin_command world).1
unfolding signin sign_access_token sign_refresh_token create save
signin_sound_example = signin_sound services draws signin_command world refl

save-IsAtomic :
    (entity : RefreshTokenEntity) (rows : List RefreshToken) (e : Exception)
    → (save rows_table entity rows).0 ≡ err e
    → (save rows_table entity rows).1 ≡ rows
unfolding save
save-IsAtomic entity rows e h = ground arith

abbrev signup_command : SignupCommand
signup_command = record { email = 97 ∷ []; password = 112 ∷ []; first_name = []; last_name = [] }

signup_sound_example :
    IsSignedUp services draws signup_command world
      (record { id = 1; access_token = 116 ∷ []; refresh_token = 116 ∷ []; created_at = 2 })
      (signup services draws signup_command world).1
unfolding signup open_session sign_access_token sign_refresh_token create save
signup_sound_example = signup_sound services draws signup_command world refl

signup-err_example :
    IsFailedSignup services draws signup_command taken sign_in_again
      (record taken { published = signup_failed 1 ∷ [] })
unfolding signup open_session sign_access_token sign_refresh_token create save
signup-err_example = signup-err services save-IsAtomic draws signup_command taken refl

signup_compensated_example :
    ((signup services draws signup_command taken).0 ≡ err sign_in_again)
    × (saga_signup_failed (signup services draws signup_command taken).1.published
        ≡ delete_user 1 ∷ [])
unfolding sign_access_token sign_refresh_token save
signup_compensated_example =
    signup_compensated services draws signup_command taken.store ann taken.store taken.store
      (116 ∷ []) (record { token = 116 ∷ []; jti = 8 }) (116 ∷ []) (database 23505) refl refl refl
      refl refl refl

-- a signer without a key for refresh tokens
abbrev unsigned : Services (List RefreshToken)
unsigned = record services {
  jwt = record {
    sign_async = λ claims options. elim options.jwtid [
      | none ↦ ok (116 ∷ [])
      | some jti ↦ err (plain "secretOrPrivateKey must have a value")
    ];
    verify_async = services.jwt.verify_async;
  };
}

signup_uncompensated_example :
    ((signup unsigned draws signup_command world).0
      ≡ err (plain "secretOrPrivateKey must have a value"))
    × ((signup unsigned draws signup_command world).1.store ≡ [])
    × (saga_signup_failed (signup unsigned draws signup_command world).1.published ≡ [])
unfolding sign_refresh_token sign_access_token
signup_uncompensated_example =
    signup_uncompensated unsigned draws signup_command [] ann [] (116 ∷ [])
      (plain "secretOrPrivateKey must have a value") refl refl refl
