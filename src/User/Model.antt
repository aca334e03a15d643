-- ===== src/User/Model.antt =====
-- src/modules/user/domain/models/user.model.ts with the events of domain/events.
--
-- A method returns the entity as it leaves it and the events that it gives to `apply`. Of the
-- blocked users (`Partial<UserEntity>`) only the identifiers are read.
pub mod Blocking
pub mod Creation
use nestjs_chat.Base.{
  ℕ, Bool, not, ◌||◌, ◌==◌, Option, none, some, List, [], ◌∷◌, ◌++◌, if◌then◌else◌, length, keep,
  includes, Text, trim, is_blank, get_or,
}
use nestjs_chat.Exceptions.{plain}
use nestjs_chat.Action.{Result, ok, err}

pub data UserRole : Type 0 where
  user : UserRole

pub record UserEntity : Type 0 where
  pub id : ℕ
  pub created_at : ℕ
  pub updated_at : ℕ
  pub email : Text
  pub username : Text
  pub password : Text
  pub first_name : Text
  pub last_name : Text
  pub role : UserRole
  pub avatar : Option Text
  pub blocked_users : List ℕ
  pub deleted_at : Option ℕ

pub data UserEvent : Type 0 where
  user_created : (user_id : ℕ) → (email username : Text) → UserEvent
  user_blocked : (blocker_id blocked_id : ℕ) → UserEvent
  user_unblocked : (unblocker_id unblocked_id : ℕ) → UserEvent

-- `!s || s.trim() === ''`
abbrev pub is_empty : Text → Bool
is_empty s = is_blank s || is_blank (trim s)

-- the constructor, without an argument for the blocked users, which no caller gives
unfoldable pub new_user_entity :
    (id created_at updated_at : ℕ) (email username : Text)
    (password first_name last_name : Option Text)
    → Option UserRole
    → Option Text
    → Option ℕ
    → Result UserEntity
new_user_entity id created_at updated_at email username password first_name last_name role avatar
      deleted_at =
    if is_empty email
    then err (plain "User email cannot be empty")
    else if is_empty username
    then err (plain "User username cannot be empty")
    else ok (record {
      id = id;
      created_at = created_at;
      updated_at = updated_at;
      email = email;
      username = username;
      password = get_or password [];
      first_name = get_or first_name [];
      last_name = get_or last_name [];
      role = get_or role user;
      avatar = avatar;
      blocked_users = [];
      deleted_at = deleted_at;
    })

unfoldable pub create :
    (id created_at updated_at : ℕ) (email username : Text)
    (password first_name last_name avatar : Option Text)
    → Result (UserEntity × List UserEvent)
unfolding new_user_entity
create id created_at updated_at email username password first_name last_name avatar =
    elim (new_user_entity id created_at updated_at email username password first_name last_name
      (some user) avatar none) [
        | ok u ↦ ok (u, user_created u.id u.email u.username ∷ [])
        | err e ↦ err e
      ]

pub update_profile : ℕ → (first_name last_name : Text) → Option Text → UserEntity → UserEntity
update_profile now first_name last_name avatar u = record u {
  first_name = first_name;
  last_name = last_name;
  avatar = avatar;
  updated_at = now;
}

pub change_password : ℕ → Text → UserEntity → UserEntity
change_password now hash u = record u { password = hash; updated_at = now }

pub block_user : ℕ → (target : ℕ) → UserEntity → UserEntity × List UserEvent
block_user now target u =
    if not (includes target u.blocked_users)
    then (
      record u { blocked_users = u.blocked_users ++ target ∷ []; updated_at = now },
      user_blocked u.id target ∷ [],
    )
    else (u, [])

pub unblock_user : ℕ → (target : ℕ) → UserEntity → UserEntity × List UserEvent
unblock_user now target u =
    let rest = keep (λ i. not (i == target)) u.blocked_users in
    if not (length rest == length u.blocked_users)
    then (record u { blocked_users = rest; updated_at = now }, user_unblocked u.id target ∷ [])
    else (record u { blocked_users = rest }, [])

pub soft_delete : ℕ → ℕ → UserEntity → UserEntity
soft_delete now later u = record u { deleted_at = some now; updated_at = later }
