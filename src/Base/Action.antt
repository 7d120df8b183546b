-- ===== src/Base/Action.antt =====
-- Code that changes a state and may throw. What was changed before an exception stays changed.

use mathlib.Core.Bool.{Bool, true, false}
use dogbox.Base.Outcome.{Exception, Result, ok, throw}

abbrev pub Action {ℓ} : Type ℓ → Type ℓ → Type ℓ
Action S A = S → Result A × S

module _ {ℓ} {S A : Type ℓ} where
  abbrev pub pure : A → Action S A
  pure a state = (ok a, state)

  abbrev pub raise : Exception → Action S A
  raise e state = (throw e, state)

  -- A call that reads and changes no state.
  abbrev pub lift : Result A → Action S A
  lift r state = (r, state)

module _ {ℓ} {S A B : Type ℓ} where
  abbrev pub proceed : Result A × S → (A → Action S B) → Result B × S
  proceed (ok a, state) f = f a state
  proceed (throw e, state) f = (throw e, state)

  infixl 5 ◌>>=◌ ◌>>◌
  abbrev pub ◌>>=◌ : Action S A → (A → Action S B) → Action S B
  ◌>>=◌ m f state = proceed (m state) f

  abbrev pub ◌>>◌ : Action S A → Action S B → Action S B
  m >> k = m >>= λ _. k

-- `if (!test) { throw e; }`
abbrev pub guard {ℓ} : {S : Type ℓ} → Bool → Exception → Action S (Unit {ℓ})
guard true e state = (ok tt, state)
guard false e state = (throw e, state)
