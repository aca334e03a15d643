-- ===== src/Auth/RefreshTokens.antt =====
-- refresh-tokens.handler.ts. The token entities apply no events, so the `commit()`s publish none.
pub mod Sound
pub mod Replay
use nestjs_chat.Base.{ℕ, Bool, not, Option, none, some, Text, is_some, if◌then◌else◌}
use nestjs_chat.Exceptions.{Exception, domain, invalid_refresh_token, token_generation}
use nestjs_chat.Action.{
  Action, Result, ok, err, ◌>>=◌, ◌>>◌, read, write, require, lift, pure, throw, throw_if, catch,
}
use nestjs_chat.Auth.Token.{
  RefreshTokenEntity, RefreshTokenPayload, Readings, create, revoke, sign_access_token,
  sign_refresh_token, verify_refresh_token,
}
use nestjs_chat.Auth.Ports.{Services}

pub record RefreshTokensOutput : Type 0 where
  pub access_token : Text
  pub refresh_token : Text

-- What the uuids and the clock give: the new jti, the new entity's readings, and the two times of
-- `revoke`.
pub record Draws : Type 0 where
  pub jti : ℕ
  pub entity : Readings
  pub now : ℕ
  pub later : ℕ

abbrev pub reuse_detected : Exception
reuse_detected =
    domain (invalid_refresh_token (some "Revoked token reuse detected; all sessions terminated"))

module _ {S : Type 0} (services : Services S) where
  open services use {jwt, conf}

  -- `try { payload = await verifyRefreshToken(…) } catch { throw … }`
  unfoldable pub verified : Text → Result RefreshTokenPayload
  verified token = elim (verify_refresh_token jwt conf token) [
    | ok payload ↦ ok payload
    | err e ↦ err (domain (invalid_refresh_token (some "Invalid refresh token signature")))
  ]

module _ {S E : Type 0} (services : Services S) where
  open services use {jwt, conf, repo, users, bcrypt}

  -- the branch of a token that was revoked before
  unfoldable pub terminate_sessions : (user_id : ℕ) → Action S E RefreshTokensOutput
  terminate_sessions user_id = do
    revoked ← write (repo.revoke_all_refresh_tokens user_id)
    throw reuse_detected

  -- from the check of the hash on
  unfoldable pub rotate :
      Draws → Text → RefreshTokenPayload → RefreshTokenEntity → Action S E RefreshTokensOutput
  rotate d token payload current = do
    valid ← lift (bcrypt.compare token current.token)
    throw_if (not valid) (domain (invalid_refresh_token none))
    found ← read (users.get_user_by_id payload.sub)
    user ← require found (domain (invalid_refresh_token (some "User not found")))
    access ← lift (sign_access_token jwt conf user.id user.role)
    refresh ← lift (sign_refresh_token jwt conf d.jti user.id)
    hashed ← lift (bcrypt.hash refresh.token)
    new ← lift (create d.entity user.id hashed refresh.jti)
    catch (write (repo.rotate_refresh_token (revoke d.now d.later current, new)))
        (throw (domain (token_generation (some "Failed to save new refresh token"))))
    pure (record { access_token = access; refresh_token = refresh.token })

  unfoldable pub refresh_tokens : Draws → Text → Action S E RefreshTokensOutput
  refresh_tokens d token = do
    payload ← lift (verified services token)
    found ← read (repo.get_refresh_token_including_deleted payload.jti payload.sub)
    current ← require found (domain (invalid_refresh_token none))
    if is_some current.deleted_at
        then terminate_sessions payload.sub
        else rotate d token payload current
