-- ===== src/Auth/Logout.antt =====
-- logout.handler.ts
use nestjs_chat.Base.{
  ℕ, ◌≡◌, ◌⊎◌, inl, inr, Bool, false, ◌||◌, Option, none, some, Text, is_blank, if◌then◌else◌,
  arith, Bool-cases, Option-cases,
}
use nestjs_chat.Action.{World, Action, ok, err, write}
use nestjs_chat.Action.Inversion.{Result-cases}
use nestjs_chat.Auth.Token.{RefreshTokenPayload, verify_refresh_token}
use nestjs_chat.Auth.Ports.{Services}

pub record LogoutCommand : Type 0 where
  pub user_id : ℕ
  pub refresh_token : Option Text
  pub all_devices : Bool

module _ {S : Type 0} (services : Services S) where
  open services use {jwt, conf, repo}

  -- The command asks to end one session alone: it has a genuine token of that session, and does not
  -- name all devices.
  pub record IsOneSession (command : LogoutCommand) : Type 0 where
    pub token : Text
    pub payload : RefreshTokenPayload
    pub given : command.refresh_token ≡ some token
    pub filled : is_blank token ≡ false
    pub genuine : verify_refresh_token jwt conf token ≡ ok payload
    pub not_all : command.all_devices ≡ false

module _ {S E : Type 0} (services : Services S) where
  open services use {jwt, conf, repo}

  -- the `try` and its `catch`, which is for the verification alone: the `return` does not await
  unfoldable pub logout_session : (user_id : ℕ) → Text → Action S E Bool
  logout_session user_id token = elim (verify_refresh_token jwt conf token) [
    | ok payload ↦ write (repo.revoke_refresh_token payload.jti user_id)
    | err e ↦ write (repo.revoke_all_refresh_tokens user_id)
  ]

  unfoldable pub logout : LogoutCommand → Action S E Bool
  logout command = elim command.refresh_token [
    | none ↦ write (repo.revoke_all_refresh_tokens command.user_id)
    | some token ↦
        if command.all_devices || is_blank token
        then write (repo.revoke_all_refresh_tokens command.user_id)
        else logout_session command.user_id token
  ]

  abbrev pub IsRevocation : LogoutCommand → World S E → Type 0
  IsRevocation command w =
      ((one : IsOneSession services command) × (logout command w
          ≡ write (repo.revoke_refresh_token one.payload.jti command.user_id) w))
      ⊎ ((¬ IsOneSession services command)
          × (logout command w ≡ write (repo.revoke_all_refresh_tokens command.user_id) w))

  filled_session :
      (command : LogoutCommand) (w : World S E) (token : Text)
      → command.refresh_token ≡ some token
      → is_blank token ≡ false
      → command.all_devices ≡ false
      → IsRevocation command w
  unfolding logout logout_session
  filled_session command w token given filled not_all =
      elim (Result-cases (verify_refresh_token jwt conf token)) [
        | inl (payload, genuine) ↦ inl (
          record {
            token = token;
            payload = payload;
            given = given;
            filled = filled;
            genuine = genuine;
            not_all = not_all;
          },
          ground arith,
        )
        | inr (e, forged) ↦
            inr ((λ one. absurd (ground (arith, one.given, one.genuine))), ground arith)
      ]

  -- A logout is one revocation for the user of the command, whose result it returns: of the session
  -- alone of a genuine token that was given, when all devices are not asked for, and of all the
  -- user's sessions in every other case.
  pub logout_lem : (command : LogoutCommand) (w : World S E) → IsRevocation command w
  unfolding logout
  logout_lem command w = elim (Option-cases command.refresh_token) [
    | inl missing ↦ inr ((λ one. absurd (ground (arith, one.given))), ground arith)
    | inr (token, given) ↦ elim (Bool-cases (is_blank token)) [
      | inl blank ↦ inr ((λ one. absurd (ground (arith, one.given, one.filled))), ground arith)
      | inr filled ↦ elim (Bool-cases command.all_devices) [
        | inl all ↦ inr ((λ one. absurd (ground (arith, one.not_all))), ground arith)
        | inr not_all ↦ filled_session command w token given filled not_all
      ]
    ]
  ]
