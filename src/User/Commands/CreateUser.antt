-- ===== src/User/Commands/CreateUser.antt =====
-- The choice of a name, and what `create_user` stores.
use native.Mathlib.Nat.{add-zero}
use nestjs_chat.Base.{
  ℕ, zero, suc, ◌+◌, ◌<◌, ◌≡◌, ◌∙◌, ap, inl, inr, Bool, true, false, Option, none, some, List, [],
  ◌∷◌, ◌++◌, arith, Text, is_blank, if◌then◌else◌,
}
use nestjs_chat.Exceptions.{Exception}
use nestjs_chat.Action.{World, ok, err, IsAtomic}
use nestjs_chat.Action.Inversion.{Result-cases, run_cases}
use nestjs_chat.User.Model.{UserEntity, UserEvent, user_created, create}
use nestjs_chat.User.Model.Creation.{user_create-ok_iff}
use nestjs_chat.User.Ports.{UserRepositoryPort}
use nestjs_chat.User.Commands.{
  CreateUserCommand, Readings, user_prefix, generate_username, choose_username, create_user,
}

module _ {S : Type 0} (repo : UserRepositoryPort S) where
  -- The loop ends with a name that nobody has.
  generate_username_sound :
      (fuel k : ℕ) (draw : ℕ → Text) (s : S) {name : Text}
      → generate_username repo fuel k draw s ≡ ok (some name)
      → repo.username_exists name s ≡ ok false
  unfolding generate_username
  generate_username_sound zero k draw s h = cc
  generate_username_sound (suc fuel) k draw s h =
      elim (Result-cases (repo.username_exists (user_prefix ++ draw k) s)) [
        | inr (e, failed) ↦ ground arith
        | inl (true, taken) ↦ generate_username_sound fuel (k + 1) draw s (ground arith)
        | inl (false, free) ↦ ground arith
      ]

  -- The loop ends as soon as a name is drawn that is free: with the `n`-th draw from here free, more
  -- than `n` rounds of fuel are enough. The database answers each question about a name.
  pub generate_username_total :
      (fuel k n : ℕ) (draw : ℕ → Text) (s : S)
      → ((i : ℕ) → (taken : Bool) × (repo.username_exists (user_prefix ++ draw i) s ≡ ok taken))
      → repo.username_exists (user_prefix ++ draw (k + n)) s ≡ ok false
      → n < fuel
      → (name : Text) × (generate_username repo fuel k draw s ≡ ok (some name))
        × (repo.username_exists name s ≡ ok false)
  unfolding generate_username
  generate_username_total zero k n draw s answers free h = absurd (omega arith)
  generate_username_total (suc fuel) k zero draw s answers free h =
      let here = rw (add-zero k) at free in (user_prefix ++ draw k, ground (arith, here), here)
  generate_username_total (suc fuel) k (suc n) draw s answers free h =
      elim (Result-cases (repo.username_exists (user_prefix ++ draw k) s)) [
        | inr failed ↦ absurd (ground (arith, answers k))
        | inl (false, here) ↦ (user_prefix ++ draw k, ground arith, here)
        | inl (true, taken) ↦
            let regroup : k + suc n ≡ k + 1 + n = omega arith in
            let (name, e, later) =
              generate_username_total fuel (k + 1) n draw s answers (rw regroup at free)
                (omega arith) in
            (name, ground arith, later)
      ]

  choose_username_sound :
      (fuel : ℕ) (draw : ℕ → Text) (wanted : Option Text) (w : World S UserEvent) {name : Text}
      {w' : World S UserEvent}
      → choose_username repo fuel draw wanted w ≡ (ok (some name), w')
      → (repo.username_exists name w.store ≡ ok false) × (w' ≡ w)
  unfolding choose_username
  choose_username_sound fuel draw none w h =
      (generate_username_sound fuel 0 draw w.store (ground arith), ground arith)
  choose_username_sound fuel draw (some []) w h =
      (generate_username_sound fuel 0 draw w.store (ground arith), ground arith)
  choose_username_sound fuel draw (some (c ∷ t)) w h = ground arith

  -- What has happened when `create_user` returns a user.
  pub record IsCreatedBy (hash : Text → Text) (r : Readings) (cmd : CreateUserCommand)
      (w : World S UserEvent) (u : UserEntity) (w' : World S UserEvent) : Type 0 where
    pub id : u.id ≡ r.id
    pub email : u.email ≡ cmd.email
    pub password : u.password ≡ (if is_blank cmd.password then [] else hash cmd.password)
    pub new_email : repo.email_exists u.email w.store ≡ ok false
    pub new_name : repo.username_exists u.username w.store ≡ ok false
    pub unblocked : u.blocked_users ≡ []
    pub undeleted : u.deleted_at ≡ none
    pub stored : (saved : UserEntity) × (repo.save u w.store ≡ (ok saved, w'.store))
    pub announced : w'.published ≡ w.published ++ user_created u.id u.email u.username ∷ []

  create_user-IsCreatedBy :
      (fuel : ℕ) (draw : ℕ → Text) (hash : Text → Text) (r : Readings) (cmd : CreateUserCommand)
      (w : World S UserEvent) {u : UserEntity} {w' : World S UserEvent} (username : Text)
      (made : UserEntity × List UserEvent) (saved : UserEntity) (s : S)
      → choose_username repo fuel draw cmd.username w ≡ (ok (some username), w)
      → repo.username_exists username w.store ≡ ok false
      → create r.id r.created_at r.updated_at cmd.email username
          (some (if is_blank cmd.password then [] else hash cmd.password))
          cmd.first_name
          cmd.last_name
          cmd.avatar
        ≡ ok made
      → repo.save made.0 w.store ≡ (ok saved, s)
      → create_user repo fuel draw hash r cmd w ≡ (ok (some u), w')
      → IsCreatedBy hash r cmd w u w'
  unfolding create_user
  create_user-IsCreatedBy fuel draw hash r cmd w username made saved s chosen free e stored h =
      let (_, _, made_as) =
        (user_create-ok_iff r.id r.created_at r.updated_at cmd.email username
            (some (if is_blank cmd.password then [] else hash cmd.password)) cmd.first_name
            cmd.last_name cmd.avatar made).0
          e in
      record {
        id = ground arith;
        email = ground arith;
        password = ground arith;
        new_email = ground arith;
        new_name = ground arith;
        unblocked = ground arith;
        undeleted = ground arith;
        stored = (saved, ground arith);
        announced = ground arith;
      }

  -- A user that is returned was stored and announced, has an email and a name that nobody had, and
  -- the hash of the password, or no password at all.
  pub create_user_sound :
      (fuel : ℕ) (draw : ℕ → Text) (hash : Text → Text) (r : Readings) (cmd : CreateUserCommand)
      (w : World S UserEvent) {u : UserEntity} {w' : World S UserEvent}
      → create_user repo fuel draw hash r cmd w ≡ (ok (some u), w')
      → IsCreatedBy hash r cmd w u w'
  unfolding create_user
  create_user_sound fuel draw hash r cmd w h =
      elim (run_cases (choose_username repo fuel draw cmd.username w)) [
        | inr stopped ↦ absurd (ground arith)
        | inl (none, w1, chosen) ↦ absurd (ground arith)
        | inl (some username, w1, chosen) ↦
            let (free, same) = choose_username_sound fuel draw cmd.username w chosen in
            elim (Result-cases (
              create r.id r.created_at r.updated_at cmd.email username
                (some (if is_blank cmd.password then [] else hash cmd.password)) cmd.first_name
                cmd.last_name cmd.avatar)) [
                  | inr refused ↦ absurd (ground arith)
                  | inl (made, e) ↦ elim (run_cases (repo.save made.0 w.store)) [
                    | inr failed ↦ absurd (ground arith)
                    | inl (saved, s, stored) ↦
                        create_user-IsCreatedBy fuel draw hash r cmd w username made saved s
                          (chosen ∙ ap (λ v. (ok (some username), v)) same) free e stored h
                  ]
                ]
      ]

  -- When a save that fails stores nothing, a call that throws leaves the world as it was: nothing is
  -- stored and nothing is published.
  pub create_user-err :
      (fuel : ℕ) (draw : ℕ → Text) (hash : Text → Text) (r : Readings) (cmd : CreateUserCommand)
      (w : World S UserEvent) {e : Exception}
      → IsAtomic repo.save
      → (create_user repo fuel draw hash r cmd w).0 ≡ err e
      → (create_user repo fuel draw hash r cmd w).1 ≡ w
  unfolding create_user choose_username
  create_user-err fuel draw hash r cmd w {e} atomic h = grind (arith, atomic)
