-- ===== src/Auth/Sessions.antt =====
-- What signing in and signing up share: a session that is opened.
use nestjs_chat.Base.{ℕ, ◌≡◌, Text, arith}
use nestjs_chat.Action.{ok}
use nestjs_chat.Auth.Token.{
  RefreshTokenEntity, SignedRefreshToken, Readings, create, new_token, sign_access_token,
  sign_refresh_token,
}
use nestjs_chat.Auth.Ports.{Services}

pub create_ok :
    (r : Readings) (u : ℕ) (hash : Text) (jti : ℕ) {t : RefreshTokenEntity}
    → create r u hash jti ≡ ok t
    → t ≡ new_token r u hash jti
unfolding create
create_ok r u hash jti h = ground arith

module _ {S : Type 0} (services : Services S) where
  open services use {jwt, conf, repo, bcrypt}

  -- A session of `user` has been stored: both tokens are the user's, and what is stored under the
  -- refresh token's identifier is that token's hash.
  pub record IsOpened (jti : ℕ) (entity : Readings) (user_id : ℕ) (role : Text)
      (access refresh : Text) (s s' : S) : Type 0 where
    pub signed : SignedRefreshToken
    pub hashed : Text
    pub saved : RefreshTokenEntity
    pub access_signed : sign_access_token jwt conf user_id role ≡ ok access
    pub refresh_signed : sign_refresh_token jwt conf jti user_id ≡ ok signed
    pub returned : refresh ≡ signed.token
    pub hashes : bcrypt.hash signed.token ≡ ok hashed
    pub stored : repo.save (new_token entity user_id hashed signed.jti) s ≡ (ok saved, s')
