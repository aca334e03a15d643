-- ===== src/User/Ports.antt =====
-- src/modules/user/application/ports, of which `S` is whatever the implementations keep.
use nestjs_chat.Base.{ℕ, Bool, Option, Text}
use nestjs_chat.Action.{Read, Write}
use nestjs_chat.User.Model.{UserEntity}

pub record UserRepositoryPort (S : Type 0) : Type 0 where
  pub save : UserEntity → Write S UserEntity
  pub get_user_by_id : ℕ → Read S (Option UserEntity)
  -- `userExists({ email })` and `userExists({ username })`
  pub email_exists : Text → Read S Bool
  pub username_exists : Text → Read S Bool
  pub block : (blocker_id blocked_id : ℕ) → Write S Bool
  pub unblock : (blocker_id blocked_id : ℕ) → Write S Bool
  pub get_block_status : (blocker_id blocked_id : ℕ) → Read S Bool
  pub delete : ℕ → Write S Bool
