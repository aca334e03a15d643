-- ===== src/User/Queries.antt =====
-- The query handlers of src/modules/user/application/queries that decide something, over
-- user-read-repository.port.ts; and the adapter of the chat context that calls them,
-- src/modules/chat/infrastructure/adapters/user-integration.adapter.ts.
pub mod Adapter
use nestjs_chat.Base.{
  ℕ, ◌≡◌, ◌≢◌, ◌↔◌, ◌⊎◌, refl, Bool, true, false, ◌||◌, not, Option, none, some, List, arith, Text,
  if◌then◌else◌, inl, inr,
}
use nestjs_chat.Exceptions.{Exception, domain, user_not_found, invalid_credentials}
use nestjs_chat.Action.{Result, ok, err, Read}
use nestjs_chat.Action.Inversion.{Result-cases, found_cases}
use nestjs_chat.User.Model.{UserRole}
use nestjs_chat.Chat.Ports.{UserIntegrationPort, BlockStatus, ChatUser}

pub record UserReadDto : Type 0 where
  pub id : ℕ
  pub email : Text
  pub username : Text
  pub role : UserRole
  pub first_name : Option Text
  pub last_name : Option Text
  pub avatar : Option Text
  pub created_at : ℕ
  pub password : Text

pub record UserReadRepositoryPort (S : Type 0) : Type 0 where
  pub get_user_by_email : Text → Read S (Option UserReadDto)
  pub get_user_by_id : ℕ → Read S (Option UserReadDto)
  pub get_user_by_username : Text → Read S (Option UserReadDto)
  pub get_block_status : (blocker_id blocked_id : ℕ) → Read S Bool

infixl 5 ◌>>=◌
abbrev ◌>>=◌ : {S A B : Type 0} → Read S A → (A → Read S B) → Read S B
◌>>=◌ m f s = elim (m s) [ ok a ↦ f a s | err e ↦ err e ]

abbrev or_throw : {S A : Type 0} → Option A → Exception → Read S A
or_throw none e s = err e
or_throw (some a) e s = ok a

abbrev is_user_not_found : Exception → Bool
is_user_not_found (domain (user_not_found r)) = true
is_user_not_found _ = false

module _ {S : Type 0} (repo : UserReadRepositoryPort S) where
  -- `GetUserByIdHandler`
  unfoldable pub get_user_by_id : ℕ → Read S UserReadDto
  get_user_by_id i = repo.get_user_by_id i >>= λ res. or_throw res (domain (user_not_found none))

  -- `GetBlockStatusHandler`
  unfoldable pub get_block_status : (user_id target_user_id : ℕ) → Read S BlockStatus
  get_block_status u t = repo.get_block_status u t >>= λ blocker.
      repo.get_block_status t u >>= λ blocked s.
      ok (record { is_blocker = blocker; is_blocked = blocked })

  -- `ValidatePasswordHandler`; `is_email` is validator's and `compare` is bcrypt's
  unfoldable pub validate_password :
      (is_email : Text → Bool) (compare : Text → Text → Bool) (property password : Text)
      → Read S UserReadDto
  validate_password is_email compare property password =
      (if is_email property
        then repo.get_user_by_email property
        else repo.get_user_by_username property)
      >>= λ found. or_throw found (domain (invalid_credentials none)) >>= λ u s.
          if not (compare password u.password)
          then err (domain (invalid_credentials none))
          else ok u

  -- `UserIntegrationAdapter.doesUserExist`
  unfoldable pub does_user_exist : ℕ → Read S Bool
  unfolding get_user_by_id
  does_user_exist i s = elim (get_user_by_id i s) [
    | ok u ↦ ok true
    | err e ↦ if is_user_not_found e then ok false else err e
  ]

  -- `UserIntegrationAdapter.hasBlockRelation`
  unfoldable pub has_block_relation : ℕ → ℕ → Read S Bool
  unfolding get_block_status
  has_block_relation a b = get_block_status a b >>= λ res s. ok (res.is_blocked || res.is_blocker)

  abbrev chat_user : UserReadDto → ChatUser
  chat_user res = record {
    id = res.id;
    username = res.username;
    first_name = res.first_name;
    last_name = res.last_name;
    avatar = res.avatar;
  }

  -- `UserIntegrationAdapter.getUserById`
  unfoldable pub get_chat_user : ℕ → Read S ChatUser
  unfolding get_user_by_id
  get_chat_user i = get_user_by_id i >>= λ res s. ok (chat_user res)

  -- The adapter as the port that the chat handlers use.
  unfoldable pub user_integration : UserIntegrationPort S
  user_integration = record {
    does_user_exist = does_user_exist;
    has_block_relation = has_block_relation;
    get_user_by_id = get_chat_user;
    get_block_status = get_block_status;
  }

  -- A block in either direction is a relation between the two, whoever asks: the answer is true
  -- exactly if one of them blocks the other, and is the same with the two exchanged.
  pub has_block_relation_lem :
      (a b : ℕ) (s : S) (x y : Bool)
      → repo.get_block_status a b s ≡ ok x
      → repo.get_block_status b a s ≡ ok y
      → ((has_block_relation a b s ≡ ok true) ↔ ((x ≡ true) ⊎ (y ≡ true)))
        × (has_block_relation b a s ≡ has_block_relation a b s)
  unfolding has_block_relation
  has_block_relation_lem a b s true y p q = ground arith
  has_block_relation_lem a b s false y p q = ground arith

  -- A user exists exactly if the repository has one; any failure of the repository is passed on, but
  -- for one that says itself that a user was not found.
  pub does_user_exist_lem :
      (i : ℕ) (s : S)
      → ((does_user_exist i s ≡ ok true)
          ↔ ((u : UserReadDto) × (repo.get_user_by_id i s ≡ ok (some u))))
        × (repo.get_user_by_id i s ≡ ok none → does_user_exist i s ≡ ok false)
        × ((e : Exception)
            → repo.get_user_by_id i s ≡ err e
            → is_user_not_found e ≡ false
            → does_user_exist i s ≡ err e)
  unfolding does_user_exist
  does_user_exist_lem i s = elim (found_cases (repo.get_user_by_id i s)) [
    | inl (u, p) ↦ ((λ h. (u, p), λ h. ground arith), λ h. ground arith, λ e h n. ground arith)
    | inr missing ↦ (
      (λ h. absurd (ground arith), λ (u, p). absurd (ground arith)),
      λ h. ground arith,
      λ e h n. ground arith,
    )
  ]

  -- Credentials are accepted exactly for a user who is found by them and whose hash matches. An
  -- unknown user and a wrong password are refused by one and the same exception.
  pub validate_password_lem :
      (is_email : Text → Bool) (compare : Text → Text → Bool) (property password : Text) (s : S)
      (found : Option UserReadDto)
      → (if is_email property
          then repo.get_user_by_email property s
          else repo.get_user_by_username property s)
        ≡ ok found
      → ((u : UserReadDto)
          → (validate_password is_email compare property password s ≡ ok u)
            ↔ ((found ≡ some u) × (compare password u.password ≡ true)))
        × ((e : Exception)
            → validate_password is_email compare property password s ≡ err e
            → e ≡ domain (invalid_credentials none))
  unfolding validate_password
  validate_password_lem is_email compare property password s none p =
      (λ u. ground arith, λ e h. ground arith)
  validate_password_lem is_email compare property password s (some v) p =
      (λ u. ground arith, λ e h. ground arith)
