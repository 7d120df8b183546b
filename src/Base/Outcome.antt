-- ===== src/Base/Outcome.antt =====
-- What a call may end in, beside its value.
use Prim.Native.Nat.{ℕ}
use mathlib.Core.Bool.{Bool, true, false}
use mathlib.Core.List.{List}

-- The exceptions that the program throws, and the ends that are no exception: a failed `assert`
-- and a step outside the language's rules, such as an index past the end of a vector.
-- `out_of_fuel` is no end of the program: a loop of the model was given too few rounds.
-- `length_error` is that of a `std::vector` of a size that it cannot have, `filesystem_error` that of
-- `std::filesystem`.
-- `to_do` is the `std::logic_error` of the macro `TO_DO`; its text, a file and a line, is left out.
pub data Exception : Type 0 where
  to_do : Exception
  sqlite_error : ℕ → List ℕ → Exception
  runtime_error : List ℕ → Exception
  length_error : Exception
  filesystem_error : Exception
  assertion_failed : Exception
  undefined_behaviour : Exception
  out_of_fuel : Exception

pub data Result {ℓ} (A : Type ℓ) : Type ℓ where
  ok : A → Result A
  throw : Exception → Result A

infixl 5 ◌>>=◌ ◌>>◌
abbrev pub ◌>>=◌ {ℓ κ} : {A : Type ℓ} {B : Type κ} → Result A → (A → Result B) → Result B
ok a >>= f = f a
throw e >>= f = throw e

abbrev pub ◌>>◌ {ℓ} : {B : Type ℓ} → Result (Unit {0}) → Result B → Result B
m >> k = m >>= λ _. k

-- `if (!test) { throw e; }`, and `assert(test)`
abbrev pub guard : Bool → Exception → Result (Unit {0})
guard true e = ok tt
guard false e = throw e
