-- ===== src/Action/Store.antt =====
-- Steps on what a port keeps, without a world around it: what the repositories are written in.
use nestjs_chat.Base.{◌≡◌, inl, inr, arith}
use nestjs_chat.Exceptions.{Exception}
use nestjs_chat.Action.{ok, err, Read, Write}
use nestjs_chat.Action.Inversion.{run_cases}

module _ {S A : Type 0} where
  abbrev pub done : A → Write S A
  done a s = (ok a, s)

  abbrev pub fail : Exception → Write S A
  fail e s = (err e, s)

  -- a read as a step
  abbrev pub ask : Read S A → Write S A
  ask q s = (q s, s)

infixl 5 ◌>>=◌ ◌>>◌
abbrev pub ◌>>=◌ : {S A B : Type 0} → Write S A → (A → Write S B) → Write S B
◌>>=◌ m f s = let (r, s') = m s in elim r [ ok a ↦ f a s' | err e ↦ (err e, s') ]

abbrev pub ◌>>◌ : {S A B : Type 0} → Write S A → Write S B → Write S B
m >> k = m >>= λ _. k

-- A step that returned has run both its parts.
pub bind_ok :
    {S A B : Type 0} (m : Write S A) (f : A → Write S B) (s : S) {b : B} {s' : S}
    → (m >>= f) s ≡ (ok b, s')
    → (a : A) × (t : S) × (m s ≡ (ok a, t)) × (f a t ≡ (ok b, s'))
bind_ok m f s h = elim (run_cases (m s)) [
  | inl (a, t, e) ↦ (a, t, e, ground arith)
  | inr failed ↦ absurd (ground arith)
]
