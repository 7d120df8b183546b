-- ===== src/Base/Algorithms.antt =====
-- The parts of <algorithm> that the program uses, on lists.
use dogbox.Base.Tests.{◌==◌, Bool-cases, if◌then◌else◌}
use dogbox.Base.Lists.{All}
use dogbox.Base.Buffers.{Bytes}
use Prim.Native.Nat.{ℕ}
use mathlib.Core.Path.{◌≡◌, refl}
use mathlib.Core.Logic.{◌≢◌, inl, inr}
use mathlib.Core.List.{[], ◌∷◌, ◌++◌}
use native.Mathlib.Omega.{arith}

-- `std::find(begin, end, value)`: what stands before the iterator that it returns, and what stands
-- from there on. The second list is empty if the iterator is `end`.
unfoldable pub find : ℕ → Bytes → Bytes × Bytes
find value [] = ([], [])
find value (x ∷ xs) =
    let (before, found) = find value xs in if x == value then ([], x ∷ xs) else (x ∷ before, found)

pub find-append : (value : ℕ) (xs : Bytes) → (find value xs).0 ++ (find value xs).1 ≡ xs
unfolding find
find-append value [] = refl
find-append value (x ∷ xs) = ground (arith, find-append value xs)

-- The first occurrence is found behind a part that has none.
pub find-first :
    (value : ℕ) (xs ys : Bytes)
    → All (λ x. x ≢ value) xs
    → find value (xs ++ value ∷ ys) ≡ (xs, value ∷ ys)
unfolding find
find-first value [] ys h = ground arith
find-first value (x ∷ xs) ys h = ground (arith, find-first value xs ys h.1)

pub find-absent : (value : ℕ) (xs : Bytes) → All (λ x. x ≢ value) xs → find value xs ≡ (xs, [])
unfolding find
find-absent value [] h = refl
find-absent value (x ∷ xs) h = ground (arith, find-absent value xs h.1)

pub find-before : (value : ℕ) (xs : Bytes) → All (λ x. x ≢ value) (find value xs).0
unfolding find
find-before value [] = tt
find-before value (x ∷ xs) = elim (Bool-cases (x == value)) [
  | inl same ↦ rw same tt
  | inr other ↦ rw other (ground arith, find-before value xs)
]

-- What is found begins with the value.
pub find-found :
    (value : ℕ) (xs : Bytes) (y : ℕ) (ys : Bytes) → (find value xs).1 ≡ y ∷ ys → y ≡ value
unfolding find
find-found value [] y ys e = cc
find-found value (x ∷ xs) y ys e = ground (arith, find-found value xs y ys)
