-- ===== src/User/Commands.antt =====
-- The command handlers of src/modules/user/application/commands. A handler is its `execute`; what
-- it logs is left out, and so is the identifier in the text of `UserNotFoundException`.
pub mod CreateUser
pub mod Blocking
mod Tests
use nestjs_chat.Base.{
  ℕ, zero, suc, ◌+◌, Bool, true, false, not, Option, none, some, List, [], ◌∷◌, ◌++◌, if◌then◌else◌,
  Text, is_blank, is_some,
}
use nestjs_chat.Exceptions.{domain, user_not_found, user_already_exists}
use nestjs_chat.Action.{
  Action, Result, Read, ok, err, ◌>>=◌, ◌>>◌, read, write, require, lift, pure, throw_if, commit,
}
use nestjs_chat.User.Model.{UserEntity, UserEvent, user_blocked, user_unblocked, create}
use nestjs_chat.User.Ports.{UserRepositoryPort}

pub record CreateUserCommand : Type 0 where
  pub email : Text
  pub username : Option Text
  pub password : Text
  pub first_name : Option Text
  pub last_name : Option Text
  pub avatar : Option Text

-- "user_"
abbrev pub user_prefix : Text
user_prefix = 117 ∷ 115 ∷ 101 ∷ 114 ∷ 95 ∷ []

-- What the uuid and the clock give during one `UserEntity.create`.
pub record Readings : Type 0 where
  pub id : ℕ
  pub created_at : ℕ
  pub updated_at : ℕ

module _ {S : Type 0} (repo : UserRepositoryPort S) where
  unfoldable pub block_user : (blocker_id blocked_id : ℕ) → Action S UserEvent Bool
  block_user blocker_id blocked_id = do
    blocker ← read (repo.get_user_by_id blocker_id)
    require blocker (domain (user_not_found none))
    blocked ← read (repo.get_user_by_id blocked_id)
    require blocked (domain (user_not_found none))
    is_blocked ← read (repo.get_block_status blocker_id blocked_id)
    if is_blocked then pure false else do
      done ← write (repo.block blocker_id blocked_id)
      commit (user_blocked blocker_id blocked_id ∷ [])
      pure true

  unfoldable pub unblock_user : (unblocker_id unblocked_id : ℕ) → Action S UserEvent Bool
  unblock_user unblocker_id unblocked_id = do
    unblocker ← read (repo.get_user_by_id unblocker_id)
    require unblocker (domain (user_not_found none))
    is_blocked ← read (repo.get_block_status unblocker_id unblocked_id)
    if not is_blocked then pure false else do
      done ← write (repo.unblock unblocker_id unblocked_id)
      commit (user_unblocked unblocker_id unblocked_id ∷ [])
      pure true

  -- The handler logs the outcome and returns nothing.
  unfoldable pub delete_user : ℕ → Action S UserEvent (Unit {0})
  delete_user id = do deleted ← write (repo.delete id); pure tt

  -- The `do … while` over random names: `draw k` is the k-th that `randomBytes` gives, in hex.
  -- `none` where the names run out, which stands for a loop that goes on.
  unfoldable pub generate_username : (fuel k : ℕ) → (ℕ → Text) → Read S (Option Text)
  generate_username zero k draw s = ok none
  generate_username (suc fuel) k draw s =
      let rest = generate_username fuel (k + 1) draw s in
      elim (repo.username_exists (user_prefix ++ draw k) s) [
        | err e ↦ err e
        | ok taken ↦ if taken then rest else ok (some (user_prefix ++ draw k))
      ]

  -- `if (finalUsername) … else …`; the empty name counts as none.
  unfoldable pub choose_username : ℕ → (ℕ → Text) → Option Text → Action S UserEvent (Option Text)
  choose_username fuel draw none = read (generate_username fuel 0 draw)
  choose_username fuel draw (some name) =
      if is_blank name then read (generate_username fuel 0 draw) else do
        taken ← read (repo.username_exists name)
        throw_if taken (domain (user_already_exists (some "Your username is Duplicate")))
        pure (some name)

  -- `hash` is bcrypt's. The handler returns the entity that it made, not the one that `save` returns.
  unfoldable pub create_user :
      ℕ
      → (ℕ → Text)
      → (hash : Text → Text) → Readings
      → CreateUserCommand
      → Action S UserEvent (Option UserEntity)
  create_user fuel draw hash r cmd = do
    email_exists ← read (repo.email_exists cmd.email)
    throw_if email_exists (domain (user_already_exists (some "Your email is Duplicate")))
    name ← choose_username fuel draw cmd.username
    elim name [
      | none ↦ pure none
      | some username ↦ do
        let password = if is_blank cmd.password then [] else hash cmd.password
        made ← lift (
            create r.id r.created_at r.updated_at cmd.email username (some password) cmd.first_name
              cmd.last_name cmd.avatar)
        saved ← write (repo.save made.0)
        commit made.1
        pure (some made.0)
    ]
