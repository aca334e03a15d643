-- ===== src/Action.antt =====
-- How a handler runs: an `async execute` is a function of the world, which holds what the ports
-- keep (`store`) and the events that have been published, in order. An exception leaves the world
-- as it stood when it was thrown. `await` in a handler is sequencing.
pub mod Inversion
pub mod Store
use nestjs_chat.Base.{◌≡◌, ◌≢◌, Bool, List, ◌++◌, Option, none, some, if◌then◌else◌}
use nestjs_chat.Exceptions.{Exception}

pub data Result (A : Type 0) : Type 0 where
  ok : A → Result A
  err : Exception → Result A

pub record World (S E : Type 0) : Type 0 where
  pub store : S
  pub published : List E

abbrev pub Action : Type 0 → Type 0 → Type 0 → Type 0
Action S E A = World S E → Result A × World S E

-- What a port offers: a read, which changes nothing, and a write. Both can fail.
abbrev pub Read : Type 0 → Type 0 → Type 0
Read S A = S → Result A

abbrev pub Write : Type 0 → Type 0 → Type 0
Write S A = S → Result A × S

module _ {S E A : Type 0} where
  abbrev pub pure : A → Action S E A
  pure a w = (ok a, w)

  abbrev pub throw : Exception → Action S E A
  throw e w = (err e, w)

  -- a result that was computed with no effect
  abbrev pub lift : Result A → Action S E A
  lift r w = (r, w)

  abbrev pub read : Read S A → Action S E A
  read q w = (q w.store, w)

  abbrev pub write : Write S A → Action S E A
  write c w = let (r, s) = c w.store in (r, record w { store = s })

  -- `if (!o) throw e`, where the value is used afterwards
  abbrev pub require : Option A → Exception → Action S E A
  require none e w = (err e, w)
  require (some a) e w = (ok a, w)

  -- `try { m } catch { h }`
  abbrev pub catch : Action S E A → Action S E A → Action S E A
  catch m h w = let (r, w') = m w in elim r [ ok a ↦ (ok a, w') | err e ↦ h w' ]

  -- `try { m } catch (e) { h }`
  abbrev pub catch_error : Action S E A → (Exception → Action S E A) → Action S E A
  catch_error m h w = let (r, w') = m w in elim r [ ok a ↦ (ok a, w') | err e ↦ h e w' ]

infixl 5 ◌>>=◌ ◌>>◌
abbrev pub ◌>>=◌ : {S E A B : Type 0} → Action S E A → (A → Action S E B) → Action S E B
◌>>=◌ m f w = let (r, w') = m w in elim r [ ok a ↦ f a w' | err e ↦ (err e, w') ]

abbrev pub ◌>>◌ : {S E A B : Type 0} → Action S E A → Action S E B → Action S E B
m >> k = m >>= λ _. k

module _ {S E : Type 0} where
  abbrev pub throw_if : Bool → Exception → Action S E (Unit {0})
  throw_if c e w = (if c then err e else ok tt, w)

  -- `commit()` of an aggregate: the event bus gets what the aggregate's methods gave to `apply`
  abbrev pub commit : List E → Action S E (Unit {0})
  commit events w = (ok tt, record w { published = w.published ++ events })

-- A write that never gives null.
abbrev pub IsAnswered : {S A B : Type 0} → (A → Write S (Option B)) → Type 0
IsAnswered {S} {A} f = (a : A) (s : S) → (f a s).0 ≢ ok none

-- A write that fails leaves what is kept as it was: it is one statement, or a transaction.
abbrev pub IsAtomic : {S A B : Type 0} → (A → Write S B) → Type 0
IsAtomic {S} {A} f = (a : A) (s : S) (e : Exception) → (f a s).0 ≡ err e → (f a s).1 ≡ s
