-- ===== src/Auth/RefreshTokens/Replay.antt =====
-- A refresh token that is presented a second time.
use nestjs_chat.Base.{ℕ, ◌≡◌, ◌≢◌, Bool, some, Text, arith}
use nestjs_chat.Action.{World, ok, err}
use nestjs_chat.Auth.Token.{RefreshTokenEntity, RefreshTokenPayload, revoke, verify_refresh_token}
use nestjs_chat.Auth.Ports.{Services, AuthRepositoryLaws}
use nestjs_chat.Auth.RefreshTokens.{
  RefreshTokensOutput, Draws, verified, terminate_sessions, refresh_tokens, reuse_detected,
}
use nestjs_chat.Auth.RefreshTokens.Sound.{refresh_tokens_sound, IsRefreshed}

module _ {S E : Type 0} (services : Services S) where
  open services use {jwt, conf, repo, users, bcrypt}

  -- When a genuine token's session is found revoked and the repository succeeds in revoking every
  -- session of the token's user, `refresh_tokens` fails with the error for a reused token, what is
  -- stored is what that revocation has left, and nothing is published.
  pub refresh_tokens-revoked :
      (d : Draws) (token : Text) (w : World S E) (payload : RefreshTokenPayload)
      (current : RefreshTokenEntity) (revoked_at : ℕ) (done : Bool) (s : S)
      → verify_refresh_token jwt conf token ≡ ok payload
      → repo.get_refresh_token_including_deleted payload.jti payload.sub w.store ≡ ok (some current)
      → current.deleted_at ≡ some revoked_at
      → repo.revoke_all_refresh_tokens payload.sub w.store ≡ (ok done, s)
      → refresh_tokens services d token w ≡ (err reuse_detected, record w { store = s })
  unfolding refresh_tokens terminate_sessions verified
  refresh_tokens-revoked d token w payload current revoked_at done s genuine found revoked ended =
      ground arith

  -- The session of a token that has been exchanged is found revoked.
  found_revoked :
      (laws : AuthRepositoryLaws repo) (d : Draws) (token : Text) (w : World S E)
      {out : RefreshTokensOutput} {w' : World S E} (payload : RefreshTokenPayload)
      (r : IsRefreshed services d token w out w')
      → verify_refresh_token jwt conf token ≡ ok payload
      → d.entity.id ≢ r.current.id
      → (t : RefreshTokenEntity) × (repo.get_refresh_token_including_deleted payload.jti payload.sub
            w'.store
          ≡ ok (some t))
        × (t.deleted_at ≡ some d.now)
  found_revoked laws d token w {out} {w'} payload r genuine fresh =
      let found : repo.get_refresh_token_including_deleted payload.jti payload.sub w.store
          ≡ ok (some r.current) =
        ground (arith, r.genuine, r.found) in
      let k = laws.found_key payload.jti payload.sub w.store r.current found in
      let (t, kept, revoked) =
        laws.found_after_rotation (revoke d.now d.later r.current) _ w.store w'.store
          r.rotated.stored fresh in
      (t, ground (arith, k.0, k.1, kept), revoked)

  -- A token is good for one refresh: after it has been exchanged, presenting it again, before
  -- anything else is stored, revokes every session of its user and fails with the error for a reused
  -- token. This is for a repository that keeps the port's laws, an identifier drawn for the new
  -- session that the old one does not have, and a revocation that succeeds.
  pub refresh_tokens_again :
      (laws : AuthRepositoryLaws repo) (d d' : Draws) (token : Text) (w : World S E)
      {out : RefreshTokensOutput} {w' : World S E} (payload : RefreshTokenPayload)
      (current : RefreshTokenEntity) (done : Bool) (s : S)
      → refresh_tokens services d token w ≡ (ok out, w')
      → verify_refresh_token jwt conf token ≡ ok payload
      → repo.get_refresh_token_including_deleted payload.jti payload.sub w.store ≡ ok (some current)
      → d.entity.id ≢ current.id
      → repo.revoke_all_refresh_tokens payload.sub w'.store ≡ (ok done, s)
      → refresh_tokens services d' token w' ≡ (err reuse_detected, record w' { store = s })
  refresh_tokens_again laws d d' token w {out} {w'} payload current done s first genuine found fresh
        ended =
      let r = refresh_tokens_sound services d token w first in
      let same : r.current ≡ current = ground (arith, r.genuine, r.found) in
      let (t, kept, revoked) =
        found_revoked laws d token w payload r genuine (ground (arith, same)) in
      refresh_tokens-revoked d' token w' payload t d.now done s genuine kept revoked ended
