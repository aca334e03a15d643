-- ===== src/Auth/Repository/Laws.antt =====
-- The port's laws for the repository, from the table's.
use nestjs_chat.Base.{ℕ, ◌≡◌, ◌≢◌, refl, true, some, arith, inl, inr}
use nestjs_chat.Action.{IsAtomic, ok}
use nestjs_chat.Action.Inversion.{run_cases, found_cases}
use nestjs_chat.Auth.Token.{RefreshTokenEntity}
use nestjs_chat.Auth.Ports.{AuthRepositoryLaws}
use nestjs_chat.Auth.Repository.{
  TokenTable, TokenTableLaws, RefreshToken, from_domain, to_domain, rotate_refresh_token, postgres,
  get_refresh_token_including_deleted,
}

to_domain-from_domain : (entity : RefreshTokenEntity) → to_domain (from_domain entity) ≡ entity
to_domain-from_domain entity = refl

module _ {T : Type 0} {table : TokenTable T} (laws : TokenTableLaws table) where
  found_has_key :
      (identifier user_id : ℕ) (t : T) (e : RefreshTokenEntity)
      → get_refresh_token_including_deleted table identifier user_id t ≡ ok (some e)
      → (e.identifier ≡ identifier) × (e.user_id ≡ user_id)
  unfolding get_refresh_token_including_deleted
  found_has_key identifier user_id t e h =
      elim (found_cases (table.get_one true user_id identifier t)) [
        | inl (row, one) ↦
            let k = laws.one_key true user_id identifier t row one in
            (ground (arith, k.1), ground (arith, k.0))
        | inr missing ↦ absurd (ground arith)
      ]

  -- A rotation that succeeds has saved both rows.
  rotate_both :
      (old new : RefreshTokenEntity) (t t' : T)
      → rotate_refresh_token table (old, new) t ≡ (ok tt, t')
      → (saved saved' : RefreshToken) × (s : T) × (table.save (from_domain old) t ≡ (ok saved, s))
        × (table.save (from_domain new) s ≡ (ok saved', t'))
  unfolding rotate_refresh_token
  rotate_both old new t t' h =
      let ran = laws.committed _ t t' h in
      elim (run_cases (table.save (from_domain old) t)) [
        | inr failed ↦ absurd (ground arith)
        | inl (saved, s, first) ↦ elim (run_cases (table.save (from_domain new) s)) [
          | inr failed ↦ absurd (ground arith)
          | inl (saved', s', second) ↦ (saved, saved', s, first, ground arith)
        ]
      ]

  found_after :
      (old new : RefreshTokenEntity) (t t' : T)
      → rotate_refresh_token table (old, new) t ≡ (ok tt, t')
      → new.id ≢ old.id
      → (e : RefreshTokenEntity) × (get_refresh_token_including_deleted table old.identifier
            old.user_id t'
          ≡ ok (some e))
        × (e.deleted_at ≡ old.deleted_at)
  unfolding get_refresh_token_including_deleted
  found_after old new t t' h other =
      let (saved, saved', s, first, second) = rotate_both old new t t' h in
      let (r, one, mark, key) = laws.one_after_save (from_domain old) saved t s first in
      let kept =
        laws.kept_by_save (from_domain new) saved' r old.user_id old.identifier s t' second
          (ground (arith, key)) one in
      (to_domain r, ground (arith, kept), mark)

  -- Over a table that keeps TypeORM's behaviour, the repository keeps the laws that the handlers
  -- rely on: what it finds has the identifier and the user that were asked for, and after a rotation
  -- to a row of its own the old token is found with the deletion mark it was given.
  pub postgres_laws : AuthRepositoryLaws (postgres table)
  postgres_laws = record { found_key = found_has_key; found_after_rotation = found_after }

  -- A rotation is all or nothing: when it fails, the table is as it was.
  pub rotate_refresh_token-IsAtomic : IsAtomic (rotate_refresh_token table)
  unfolding rotate_refresh_token
  rotate_refresh_token-IsAtomic (old, new) t e h = laws.rolled_back _ t e h
