-- ===== src/Auth/Signin/Sound.antt =====
-- What a sign-in has done when it returns, and when it fails.
use nestjs_chat.Base.{◌≡◌, arith, inl, inr}
use nestjs_chat.Exceptions.{Exception}
use nestjs_chat.Action.{World, ok, err, IsAtomic}
use nestjs_chat.Action.Inversion.{Result-cases, run_cases}
use nestjs_chat.Auth.Token.{create, sign_refresh_token}
use nestjs_chat.Auth.Ports.{Services, AuthUser}
use nestjs_chat.Auth.Sessions.{create_ok, IsOpened}
use nestjs_chat.Auth.Signin.{SigninCommand, SigninResponse, Draws, signin}

module _ {S E : Type 0} (services : Services S) where
  open services use {jwt, conf, repo, users, bcrypt}

  pub record IsSignedIn (d : Draws) (command : SigninCommand) (w : World S E) (out : SigninResponse)
      (w' : World S E) : Type 0 where
    pub user : AuthUser
    pub valid : users.validate_password command.property command.password w.store ≡ ok user
    pub shown : out.id ≡ user.id
    pub opened :
        IsOpened services d.jti d.entity user.id user.role out.access_token out.refresh_token
          w.store w'.store
    pub silent : w'.published ≡ w.published

  -- A sign-in that returns has been given the right password. It answers for the user whose password
  -- it is, with an access token for that user and role and a refresh token for that user, and has
  -- stored one new session, under the refresh token's identifier and with its hash.
  pub signin_sound :
      (d : Draws) (command : SigninCommand) (w : World S E) {out : SigninResponse} {w' : World S E}
      → signin services d command w ≡ (ok out, w')
      → IsSignedIn d command w out w'
  unfolding signin
  signin_sound d command w {out} {w'} h =
      elim (Result-cases (users.validate_password command.property command.password w.store)) [
        | inr refused ↦ absurd (ground arith)
        | inl (user, valid) ↦ elim (Result-cases (sign_refresh_token jwt conf d.jti user.id)) [
          | inr unsigned ↦ absurd (ground arith)
          | inl (signed, refresh) ↦ elim (Result-cases (bcrypt.hash signed.token)) [
            | inr unhashed ↦ absurd (ground arith)
            | inl (hashed, hashes) ↦
                elim (Result-cases (create d.entity user.id hashed signed.jti)) [
                  | inr unmade ↦ absurd (ground arith)
                  | inl (new, made) ↦
                      let same = create_ok d.entity user.id hashed signed.jti made in
                      elim (run_cases (repo.save new w.store)) [
                        | inr unsaved ↦ absurd (ground arith)
                        | inl (saved, s, stored) ↦ record {
                          user = user;
                          valid = valid;
                          shown = ground arith;
                          opened = record {
                            signed = signed;
                            hashed = hashed;
                            saved = saved;
                            access_signed = ground arith;
                            refresh_signed = refresh;
                            returned = ground arith;
                            hashes = hashes;
                            stored = ground arith;
                          };
                          silent = ground arith;
                        }
                      ]
                ]
          ]
        ]
      ]

  -- When a save that fails stores nothing, a sign-in that fails has changed nothing.
  pub signin-err :
      (atomic : IsAtomic repo.save) (d : Draws) (command : SigninCommand) (w : World S E)
      {e : Exception} {w' : World S E}
      → signin services d command w ≡ (err e, w')
      → w' ≡ w
  unfolding signin
  signin-err atomic d command w h = grind (arith, atomic)
