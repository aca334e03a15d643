-- ===== src/Auth/Tests.antt =====
-- Runs of the auth commands on the table in memory: user 1 has the session 7.
use nestjs_chat.Base.{◌≡◌, refl, true, false, List, [], ◌∷◌, none, some, arith}
use nestjs_chat.Action.{World, err}
use nestjs_chat.Auth.Token.{create, sign_access_token, sign_refresh_token, verify_refresh_token}
use nestjs_chat.Auth.Ports.{AuthRepositoryLaws}
use nestjs_chat.Auth.Repository.{
  RefreshToken, postgres, get_refresh_token_including_deleted, rotate_refresh_token,
  revoke_all_refresh_tokens, to_domain,
}
use nestjs_chat.Auth.Repository.Laws.{postgres_laws}
use nestjs_chat.Auth.InMemory.{rows_table, rows_table_laws, services, row_of}
use nestjs_chat.Auth.RefreshTokens.{
  Draws, RefreshTokensOutput, refresh_tokens, verified, rotate, reuse_detected,
}
use nestjs_chat.Auth.RefreshTokens.Sound.{IsRefreshed, refresh_tokens_sound}
use nestjs_chat.Auth.RefreshTokens.Replay.{refresh_tokens_again}
use nestjs_chat.Auth.Logout.{LogoutCommand, IsRevocation, logout_lem}
use nestjs_chat.Auth.Signup.{AuthEvent}

postgres_laws_example : AuthRepositoryLaws (postgres rows_table)
postgres_laws_example = postgres_laws rows_table_laws

abbrev draws : Draws
draws = record {
  jti = 8;
  entity = record { id = 80; created_at = 9; updated_at = 9 };
  now = 9;
  later = 9;
}

abbrev tokens : RefreshTokensOutput
tokens = record { access_token = 116 ∷ []; refresh_token = 116 ∷ [] }

abbrev live : World (List RefreshToken) AuthEvent
live = record { store = row_of 70 7 none ∷ []; published = [] }

refresh_tokens_sound_example :
    IsRefreshed services draws
      (114 ∷ [])
      live
      tokens
      (refresh_tokens services draws (114 ∷ []) live).1
unfolding refresh_tokens verified rotate sign_access_token sign_refresh_token verify_refresh_token
    create get_refresh_token_including_deleted rotate_refresh_token
refresh_tokens_sound_example = refresh_tokens_sound services draws (114 ∷ []) live refl

abbrev refreshed : World (List RefreshToken) AuthEvent
refreshed = record {
  store =
      record (row_of 80 8 none) { token = 116 ∷ []; created_at = 9; updated_at = 9 }
      ∷ record (row_of 70 7 (some 9)) { updated_at = 9 }
      ∷ row_of 70 7 none
      ∷ [];
  published = [];
}

abbrev ended : List RefreshToken
ended =
    record (row_of 80 8 (some 99)) { token = 116 ∷ []; created_at = 9; updated_at = 9 }
    ∷ record (row_of 70 7 (some 99)) { updated_at = 9 }
    ∷ row_of 70 7 (some 99)
    ∷ []

refresh_tokens_again_example :
    refresh_tokens services draws (114 ∷ []) refreshed
    ≡ (err reuse_detected, record refreshed { store = ended })
unfolding refresh_tokens verified rotate sign_access_token sign_refresh_token verify_refresh_token
    create get_refresh_token_including_deleted rotate_refresh_token revoke_all_refresh_tokens
refresh_tokens_again_example =
    refresh_tokens_again services (postgres_laws rows_table_laws) draws draws (114 ∷ []) live
      {out = tokens} {w' = refreshed} (record { sub = 1; jti = 7 }) (to_domain (row_of 70 7 none))
      true ended refl refl refl (λ e. ground arith) refl

abbrev logout_command : LogoutCommand
logout_command = record { user_id = 1; refresh_token = some (114 ∷ []); all_devices = false }

logout_lem_example : IsRevocation services logout_command live
logout_lem_example = logout_lem services logout_command live
