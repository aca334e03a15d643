-- ===== src/Auth/RefreshTokens/Sound.antt =====
-- What has happened when `refresh_tokens` returns.
use nestjs_chat.Base.{◌≡◌, true, none, some, Text, arith, inl, inr, Option-cases}
use nestjs_chat.Action.{World, ok}
use nestjs_chat.Action.Inversion.{Result-cases, found_cases}
use nestjs_chat.Auth.Token.{
  RefreshTokenEntity, RefreshTokenPayload, SignedRefreshToken, create, new_token, revoke,
  sign_access_token, sign_refresh_token, verify_refresh_token,
}
use nestjs_chat.Auth.Ports.{Services, AuthUser}
use nestjs_chat.Auth.Sessions.{create_ok}
use nestjs_chat.Auth.RefreshTokens.{
  RefreshTokensOutput, Draws, verified, terminate_sessions, rotate, refresh_tokens,
}

module _ {S E : Type 0} (services : Services S) where
  open services use {jwt, conf, repo, users, bcrypt}

  -- The session of `current` has been exchanged for one of the same user.
  pub record IsRotated (d : Draws) (token : Text) (payload : RefreshTokenPayload)
      (current : RefreshTokenEntity) (w : World S E) (out : RefreshTokensOutput) (w' : World S E)
      : Type 0 where
    pub user : AuthUser
    pub signed : SignedRefreshToken
    pub hashed : Text
    pub matches : bcrypt.compare token current.token ≡ ok true
    pub known : users.get_user_by_id payload.sub w.store ≡ ok (some user)
    pub access : sign_access_token jwt conf user.id user.role ≡ ok out.access_token
    pub refresh : sign_refresh_token jwt conf d.jti user.id ≡ ok signed
    pub returned : out.refresh_token ≡ signed.token
    pub hashes : bcrypt.hash signed.token ≡ ok hashed
    pub stored :
        repo.rotate_refresh_token
          (revoke d.now d.later current, new_token d.entity user.id hashed signed.jti)
          w.store
        ≡ (ok tt, w'.store)
    pub silent : w'.published ≡ w.published

  rotate-IsRotated :
      (d : Draws) (token : Text) (payload : RefreshTokenPayload) (current : RefreshTokenEntity)
      (w : World S E) {out : RefreshTokensOutput} {w' : World S E} (user : AuthUser)
      (signed : SignedRefreshToken) (hashed : Text) (new : RefreshTokenEntity)
      → users.get_user_by_id payload.sub w.store ≡ ok (some user)
      → sign_refresh_token jwt conf d.jti user.id ≡ ok signed
      → bcrypt.hash signed.token ≡ ok hashed
      → create d.entity user.id hashed signed.jti ≡ ok new
      → new ≡ new_token d.entity user.id hashed signed.jti
      → rotate services d token payload current w ≡ (ok out, w')
      → IsRotated d token payload current w out w'
  unfolding rotate
  rotate-IsRotated d token payload current w user signed hashed new known refresh hashes made same
        h =
      record {
        user = user;
        signed = signed;
        hashed = hashed;
        matches = ground arith;
        known = known;
        access = ground arith;
        refresh = refresh;
        returned = ground arith;
        hashes = hashes;
        stored = ground arith;
        silent = ground arith;
      }

  rotate_sound :
      (d : Draws) (token : Text) (payload : RefreshTokenPayload) (current : RefreshTokenEntity)
      (w : World S E) {out : RefreshTokensOutput} {w' : World S E}
      → rotate services d token payload current w ≡ (ok out, w')
      → IsRotated d token payload current w out w'
  unfolding rotate
  rotate_sound d token payload current w h =
      elim (found_cases (users.get_user_by_id payload.sub w.store)) [
        | inr unknown ↦ absurd (ground arith)
        | inl (user, known) ↦ elim (Result-cases (sign_refresh_token jwt conf d.jti user.id)) [
          | inr unsigned ↦ absurd (ground arith)
          | inl (signed, refresh) ↦ elim (Result-cases (bcrypt.hash signed.token)) [
            | inr unhashed ↦ absurd (ground arith)
            | inl (hashed, hashes) ↦
                elim (Result-cases (create d.entity user.id hashed signed.jti)) [
                  | inr refused ↦ absurd (ground arith)
                  | inl (new, made) ↦
                      rotate-IsRotated d token payload current w user signed hashed new known
                        refresh hashes made (create_ok d.entity user.id hashed signed.jti made) h
                ]
          ]
        ]
      ]

  -- What the return of `refresh_tokens` shows.
  pub record IsRefreshed (d : Draws) (token : Text) (w : World S E) (out : RefreshTokensOutput)
      (w' : World S E) : Type 0 where
    pub payload : RefreshTokenPayload
    pub current : RefreshTokenEntity
    pub genuine : verify_refresh_token jwt conf token ≡ ok payload
    pub found :
        repo.get_refresh_token_including_deleted payload.jti payload.sub w.store ≡ ok (some current)
    pub live : current.deleted_at ≡ none
    pub rotated : IsRotated d token payload current w out w'

  -- Tokens are given only for a genuine refresh token whose session is stored and not revoked, whose
  -- hash matches, and whose user exists. The old session is then stored as revoked together with a
  -- new one of that user, whose identifier is that of the token that is returned and whose hash is
  -- its hash; and nothing else is stored.
  pub refresh_tokens_sound :
      (d : Draws) (token : Text) (w : World S E) {out : RefreshTokensOutput} {w' : World S E}
      → refresh_tokens services d token w ≡ (ok out, w')
      → IsRefreshed d token w out w'
  unfolding refresh_tokens terminate_sessions verified
  refresh_tokens_sound d token w h = elim (Result-cases (verify_refresh_token jwt conf token)) [
    | inr forged ↦ absurd (ground arith)
    | inl (payload, genuine) ↦
        elim (found_cases
          (repo.get_refresh_token_including_deleted payload.jti payload.sub w.store)) [
            | inr missing ↦ absurd (ground arith)
            | inl (current, found) ↦ elim (Option-cases current.deleted_at) [
              | inr revoked ↦ absurd (ground arith)
              | inl live ↦ record {
                payload = payload;
                current = current;
                genuine = genuine;
                found = found;
                live = live;
                rotated = rotate_sound d token payload current w (ground arith);
              }
            ]
          ]
  ]
