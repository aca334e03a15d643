-- ===== src/Auth/Signup/Sound.antt =====
-- What a sign-up has done when it returns, and each way in which it fails.
use nestjs_chat.Base.{Text, none, refl, is_blank, false, ◌≡◌, ◌⊎◌, inl, inr, [], ◌∷◌, ◌++◌, arith}
use nestjs_chat.Exceptions.{Exception}
use nestjs_chat.Action.{World, ok, err, IsAtomic}
use nestjs_chat.Action.Inversion.{Result-cases, run_cases}
use nestjs_chat.Auth.Token.{
  SignedRefreshToken, new_token, create, sign_access_token, sign_refresh_token,
}
use nestjs_chat.Auth.Ports.{Services, AuthUser, NewUser}
use nestjs_chat.Auth.Sessions.{create_ok, IsOpened}
use nestjs_chat.Auth.Signin.{Draws, sign_in_again}
use nestjs_chat.Auth.Signup.{
  SignupCommand, SignupResponse, AuthEvent, signup_failed, delete_user, saga_signup_failed,
  new_user, user_role, open_session, signup,
}

module _ {S : Type 0} (services : Services S) where
  open services use {jwt, conf, repo, users, bcrypt}

  pub record IsSignedUp (d : Draws) (command : SignupCommand) (w : World S AuthEvent)
      (out : SignupResponse) (w' : World S AuthEvent) : Type 0 where
    pub asked : NewUser
    pub created : AuthUser
    pub after : S
    pub of_command :
        (asked.email ≡ command.email)
        × (asked.password ≡ command.password)
        × (asked.first_name ≡ command.first_name)
        × (asked.last_name ≡ command.last_name)
    pub no_more : (asked.username ≡ none) × (asked.avatar ≡ none)
    -- 'USER', in code units
    pub as_user : asked.role ≡ 85 ∷ 83 ∷ 69 ∷ 82 ∷ []
    pub made : users.create_user asked w.store ≡ (ok created, after)
    pub shown : (out.id ≡ created.id) × (out.created_at ≡ created.created_at)
    pub opened :
        IsOpened services d.jti d.entity created.id asked.role out.access_token out.refresh_token
          after w'.store
    pub silent : w'.published ≡ w.published

  open_session_sound :
      (d : Draws) (created : AuthUser) (w : World S AuthEvent) {out : SignupResponse}
      {w' : World S AuthEvent}
      → open_session services d created w ≡ (ok out, w')
      → IsOpened services d.jti d.entity created.id user_role out.access_token out.refresh_token
          w.store w'.store
        × (out.id ≡ created.id)
        × (out.created_at ≡ created.created_at)
        × (w'.published ≡ w.published)
  unfolding open_session
  open_session_sound d created w h =
      elim (Result-cases (sign_refresh_token jwt conf d.jti created.id)) [
        | inr unsigned ↦ absurd (ground arith)
        | inl (signed, refresh) ↦ elim (Result-cases (bcrypt.hash signed.token)) [
          | inr unhashed ↦ absurd (ground arith)
          | inl (hashed, hashes) ↦
              elim (Result-cases (create d.entity created.id hashed signed.jti)) [
                | inr unmade ↦ absurd (ground arith)
                | inl (new, made) ↦
                    let same = create_ok d.entity created.id hashed signed.jti made in
                    elim (run_cases (repo.save new w.store)) [
                      | inr unsaved ↦ absurd (ground arith)
                      | inl (saved, s, stored) ↦ (
                        record {
                          signed = signed;
                          hashed = hashed;
                          saved = saved;
                          access_signed = ground arith;
                          refresh_signed = refresh;
                          returned = ground arith;
                          hashes = hashes;
                          stored = ground arith;
                        },
                        ground arith,
                        ground arith,
                        ground arith,
                      )
                    ]
              ]
        ]
      ]

  -- A sign-up that returns has created a user with the command's email, password, first and last name,
  -- no username, no avatar and the role USER, and answers with that user's identifier and time of
  -- creation, an access token for that user and role and a refresh token for that user. It has stored one
  -- session, under the refresh token's identifier and with its hash, and has published nothing.
  pub signup_sound :
      (d : Draws) (command : SignupCommand) (w : World S AuthEvent) {out : SignupResponse}
      {w' : World S AuthEvent}
      → signup services d command w ≡ (ok out, w')
      → IsSignedUp d command w out w'
  unfolding signup
  signup_sound d command w {out} {w'} h =
      elim (run_cases (users.create_user (new_user command) w.store)) [
        | inr refused ↦ absurd (ground arith)
        | inl (created, after, made) ↦
            let (opened, shown, shown_time, silent) =
              open_session_sound d created (record w { store = after }) {out = out} {w' = w'}
                (ground arith) in
            record {
              asked = new_user command;
              created = created;
              after = after;
              of_command = (refl, refl, refl, refl);
              no_more = (refl, refl);
              as_user = refl;
              made = made;
              shown = (shown, shown_time);
              opened = opened;
              silent = silent;
            }
      ]

  -- The ways in which a sign-up fails: the user is not created, or a user is created and a token or
  -- its hash is not made, or a user is created and the session is not stored.
  pub data IsFailedSignup (d : Draws) (command : SignupCommand) (w : World S AuthEvent)
      (e : Exception) (w' : World S AuthEvent) : Type 0 where
    no_user :
        (users.create_user (new_user command) w.store ≡ (err e, w'.store))
        → (w'.published ≡ w.published)
        → IsFailedSignup d command w e w'
    no_token :
        (created : AuthUser)
        → (users.create_user (new_user command) w.store ≡ (ok created, w'.store))
        → (w'.published ≡ w.published)
        → IsFailedSignup d command w e w'
    no_session :
        (created : AuthUser) (after : S)
        → (users.create_user (new_user command) w.store ≡ (ok created, after))
        → (e ≡ sign_in_again)
        → (w'.published ≡ w.published ++ signup_failed created.id ∷ [])
        → (w'.store ≡ after)
        → IsFailedSignup d command w e w'

  open_session-err :
      (atomic : IsAtomic repo.save) (d : Draws) (created : AuthUser) (w : World S AuthEvent)
      {e : Exception} {w' : World S AuthEvent}
      → open_session services d created w ≡ (err e, w')
      → (w' ≡ w)
        ⊎ ((e ≡ sign_in_again)
            × (w' ≡ record w { published = w.published ++ signup_failed created.id ∷ [] }))
  unfolding open_session
  open_session-err atomic d created w h =
      elim (Result-cases (sign_access_token jwt conf created.id user_role)) [
        | inr unsigned ↦ inl (ground arith)
        | inl (access, signs) ↦ elim (Result-cases (sign_refresh_token jwt conf d.jti created.id)) [
          | inr unsigned ↦ inl (ground arith)
          | inl (signed, refresh) ↦ elim (Result-cases (bcrypt.hash signed.token)) [
            | inr unhashed ↦ inl (ground arith)
            | inl (hashed, hashes) ↦
                elim (Result-cases (create d.entity created.id hashed signed.jti)) [
                  | inr unmade ↦ inl (ground arith)
                  | inl (new, made) ↦ elim (run_cases (repo.save new w.store)) [
                    | inl saved ↦ absurd (ground arith)
                    | inr (f, s, unsaved) ↦ inr (ground arith, grind (arith, atomic))
                  ]
                ]
          ]
        ]
      ]

  -- When a save that fails stores nothing, a sign-up that fails does so in one of three ways. The user
  -- was not created, and nothing was published. Or the user was created, stays stored, and nothing
  -- was published. Or the user was created, stays stored, the error asks to sign in again, and the
  -- event that names this user has been published.
  pub signup-err :
      (atomic : IsAtomic repo.save) (d : Draws) (command : SignupCommand) (w : World S AuthEvent)
      {e : Exception} {w' : World S AuthEvent}
      → signup services d command w ≡ (err e, w')
      → IsFailedSignup d command w e w'
  unfolding signup
  signup-err atomic d command w {e} {w'} h =
      elim (run_cases (users.create_user (new_user command) w.store)) [
        | inr (f, after, refused) ↦ no_user (ground arith) (ground arith)
        | inl (created, after, made) ↦
            elim (open_session-err atomic d created (record w { store = after }) {e = e} {w' = w'}
              (ground arith)) [
                | inl same ↦ no_token created (ground arith) (ground arith)
                | inr (again, same) ↦
                    no_session created after made again (ground arith) (ground arith)
              ]
      ]

  -- When the user is created, the tokens are signed and hashed, and the session is not stored, the
  -- sign-up fails with the error that asks to sign in again, and the saga answers what it has
  -- published with one command: to delete that user.
  pub signup_compensated :
      (d : Draws) (command : SignupCommand) (s : S) (created : AuthUser) (after kept : S)
      (access : Text) (signed : SignedRefreshToken) (hashed : Text) (e : Exception)
      → users.create_user (new_user command) s ≡ (ok created, after)
      → sign_access_token jwt conf created.id user_role ≡ ok access
      → sign_refresh_token jwt conf d.jti created.id ≡ ok signed
      → bcrypt.hash signed.token ≡ ok hashed
      → is_blank hashed ≡ false
      → repo.save (new_token d.entity created.id hashed signed.jti) after ≡ (err e, kept)
      → ((signup services d command (record { store = s; published = [] })).0 ≡ err sign_in_again)
        × (saga_signup_failed
              (signup services d command (record { store = s; published = [] })).1.published
            ≡ delete_user created.id ∷ [])
  unfolding signup open_session create
  signup_compensated d command s created after kept access signed hashed e made a r h b u =
      (ground arith, ground arith)

  -- When the user is created, the access token is signed and the refresh token is not, the sign-up
  -- fails with the signer's error, the user stays stored, and the saga, which has no event to answer,
  -- gives no command.
  pub signup_uncompensated :
      (d : Draws) (command : SignupCommand) (s : S) (created : AuthUser) (after : S) (access : Text)
      (e : Exception)
      → users.create_user (new_user command) s ≡ (ok created, after)
      → sign_access_token jwt conf created.id user_role ≡ ok access
      → sign_refresh_token jwt conf d.jti created.id ≡ err e
      → ((signup services d command (record { store = s; published = [] })).0 ≡ err e)
        × ((signup services d command (record { store = s; published = [] })).1.store ≡ after)
        × (saga_signup_failed
              (signup services d command (record { store = s; published = [] })).1.published
            ≡ [])
  unfolding signup open_session
  signup_uncompensated d command s created after access e made a r =
      (ground arith, ground arith, ground arith)
