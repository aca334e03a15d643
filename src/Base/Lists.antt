-- ===== src/Base/Lists.antt =====
-- The array methods that the program uses, over the native numbers, and their laws.
use Prim.Native.Nat.{ℕ, suc}
use mathlib.Core.Path.{◌≡◌, refl}
use mathlib.Core.Bool.{Bool, true, false, ◌||◌}
use mathlib.Core.Option.{Option, none, some}
use mathlib.Core.List.{List, [], ◌∷◌, ◌++◌}
use native.Mathlib.Omega.{arith}
use nestjs_chat.Base.Tests.{◌==◌, if◌then◌else◌}

module _ {ℓ} {A : Type ℓ} where
  abbrev pub length : List A → ℕ
  length [] = 0
  length (x ∷ xs) = suc (length xs)

  -- `xs.find(p)`
  abbrev pub find : (A → Bool) → List A → Option A
  find p [] = none
  find p (x ∷ xs) = if p x then some x else find p xs

  -- `xs.some(p)`
  abbrev pub any : (A → Bool) → List A → Bool
  any p [] = false
  any p (x ∷ xs) = p x || any p xs

  -- `xs.filter(p)`
  abbrev pub keep : (A → Bool) → List A → List A
  keep p [] = []
  keep p (x ∷ xs) = if p x then x ∷ keep p xs else keep p xs

-- `ids.includes(i)`
abbrev pub includes : ℕ → List ℕ → Bool
includes i [] = false
includes i (j ∷ ids) = (j == i) || includes i ids

pub includes-append :
    (i : ℕ) (xs ys : List ℕ) → includes i (xs ++ ys) ≡ (includes i xs || includes i ys)
includes-append i [] ys = refl
includes-append i (x ∷ xs) ys = ground (arith, includes-append i xs ys)

-- No identifier is listed twice.
abbrev pub IsNodup : List ℕ → Type 0
IsNodup [] = Unit
IsNodup (i ∷ ids) = (includes i ids ≡ false) × IsNodup ids

pub append-IsNodup :
    (ids : List ℕ) (i : ℕ) → IsNodup ids → includes i ids ≡ false → IsNodup (ids ++ i ∷ [])
append-IsNodup [] i h fresh = (refl, tt)
append-IsNodup (j ∷ ids) i h fresh =
    (ground (arith, includes-append j ids (i ∷ [])), append-IsNodup ids i h.1 (ground arith))

-- `Array.from(new Set(ids))`: the first of each, after those of `seen`
abbrev pub unique : (seen : List ℕ) → List ℕ → List ℕ
unique seen [] = []
unique seen (i ∷ ids) = elim (includes i seen) [
  | true ↦ unique seen ids
  | false ↦ i ∷ unique (i ∷ seen) ids
]
