-- ===== src/User/Queries/Adapter.antt =====
-- The laws that the chat's handlers rely on, for the adapter.
use nestjs_chat.Base.{ℕ, ◌≡◌, some, arith, inl, inr, ◌||◌}
use nestjs_chat.Action.{ok}
use nestjs_chat.Action.Inversion.{found_cases}
use nestjs_chat.Chat.Ports.{UserIntegrationLaws, BlockStatus, ChatUser}
use nestjs_chat.User.Queries.{
  UserReadDto, UserReadRepositoryPort, get_user_by_id, get_block_status, has_block_relation,
  get_chat_user, user_integration,
}

module _ {S : Type 0} (repo : UserReadRepositoryPort S) where
  status_agrees :
      (a b : ℕ) (s : S) (status : BlockStatus)
      → get_block_status repo a b s ≡ ok status
      → has_block_relation repo a b s ≡ ok (status.is_blocked || status.is_blocker)
  unfolding has_block_relation
  status_agrees a b s status h = ground arith

  found_id :
      ((i : ℕ) (s : S) (u : UserReadDto) → repo.get_user_by_id i s ≡ ok (some u) → u.id ≡ i)
      → (i : ℕ) (s : S) (u : ChatUser) → get_chat_user repo i s ≡ ok u
      → u.id ≡ i
  unfolding get_chat_user get_user_by_id
  found_id keyed i s u h = elim (found_cases (repo.get_user_by_id i s)) [
    | inr missing ↦ absurd (ground arith)
    | inl (dto, found) ↦ ground (arith, keyed i s dto found)
  ]

  -- Over a repository that finds a user under the user's own identifier, the adapter keeps what the
  -- chat's handlers rely on: the user it gives has the identifier asked for, and its two answers on
  -- blocks agree.
  pub user_integration-laws :
      ((i : ℕ) (s : S) (u : UserReadDto) → repo.get_user_by_id i s ≡ ok (some u) → u.id ≡ i)
      → UserIntegrationLaws (user_integration repo)
  unfolding user_integration
  user_integration-laws keyed = record { found_id = found_id keyed; relation = status_agrees }
