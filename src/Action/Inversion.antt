-- ===== src/Action/Inversion.antt =====
-- What a step can have returned, with the equation kept.
use nestjs_chat.Base.{◌≡◌, refl, ◌⊎◌, inl, inr, Option, none, some}
use nestjs_chat.Exceptions.{Exception}
use nestjs_chat.Action.{Result, ok, err}

module _ {A : Type 0} where
  pub Result-cases : (r : Result A) → ((a : A) × (r ≡ ok a)) ⊎ ((e : Exception) × (r ≡ err e))
  Result-cases (ok a) = inl (a, refl)
  Result-cases (err e) = inr (e, refl)

  -- for a read of what may be missing
  pub found_cases :
      (r : Result (Option A))
      → ((a : A) × (r ≡ ok (some a))) ⊎ ((r ≡ ok none) ⊎ ((e : Exception) × (r ≡ err e)))
  found_cases (ok (some a)) = inl (a, refl)
  found_cases (ok none) = inr (inl refl)
  found_cases (err e) = inr (inr (e, refl))

-- for a whole run
pub run_cases :
    {S A : Type 0} (r : Result A × S)
    → ((a : A) × (s : S) × (r ≡ (ok a, s))) ⊎ ((e : Exception) × (s : S) × (r ≡ (err e, s)))
run_cases (ok a, s) = inl (a, s, refl)
run_cases (err e, s) = inr (e, s, refl)
