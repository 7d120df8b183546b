-- ===== src/Trees/ParallelFor/Failures.antt =====
-- The failures of the workers of `parallel_for`, and which one is passed on.
use dogbox.Base.{ℕ, zero, suc, ◌+◌, ◌-◌, ◌≤◌, ◌<◌, ◌≡◌, ◌≢◌, refl, ap, ◌∙◌, inl, inr}
use dogbox.Base.{◌⊎◌, none, some, List, [], ◌∷◌, ◌==◌, arith}
use dogbox.Base.{Exception, Result, ok, throw, Option-cases, Bool-cases, ==_iff}
use dogbox.Trees.ParallelFor.{Failures, failure_of, first_failure, numbers_from}
use dogbox.Trees.ParallelFor.Coverage.{occurrences}

-- A further failure is that of its own worker.
pub failure_of-cons :
    (w worker : ℕ) (e e' : Exception) (failures : Failures)
    → failure_of worker ((w, e) ∷ failures) ≡ some e'
    → ((w ≡ worker) × (e ≡ e')) ⊎ (failure_of worker failures ≡ some e')
failure_of-cons w worker e e' failures h = elim (Bool-cases (w == worker)) [
  | inl same ↦ inl ((==_iff w worker).0 same, cc (rw same at h))
  | inr other ↦ inr (rw other at h)
]

pub failure_of-later :
    (w worker : ℕ) (e e' : Exception) (failures : Failures)
    → failure_of w failures ≡ none
    → failure_of worker failures ≡ some e'
    → failure_of worker ((w, e) ∷ failures) ≡ some e'
failure_of-later w worker e e' failures free h = elim (Bool-cases (w == worker)) [
  | inl same ↦
      let e = (==_iff w worker).0 same in absurd (cc (ap (λ (v : ℕ). failure_of v failures) e))
  | inr other ↦ rw other h
]

pub failure_of-first :
    (w : ℕ) (e : Exception) (failures : Failures) → failure_of w ((w, e) ∷ failures) ≡ some e
failure_of-first w e failures = rw ((==_iff w w).1 refl) refl

-- What is passed on is nothing where no worker has failed, and else some worker's exception.
pub first_failure-ok :
    (ws : List ℕ) (failures : Failures) (w : ℕ)
    → first_failure ws failures ≡ ok tt
    → occurrences w ws ≢ 0
    → failure_of w failures ≡ none
unfolding first_failure
first_failure-ok [] failures w e o = absurd (o refl)
first_failure-ok (v ∷ ws) failures w e o = elim (Option-cases (failure_of v failures)) [
  | inr (x, ended) ↦ absurd (cc (rw (ended, first_failure) at e))
  | inl free ↦ elim (Bool-cases (w == v)) [
    | inl same ↦ ap (λ (n : ℕ). failure_of n failures) ((==_iff w v).0 same) ∙ free
    | inr other ↦
        first_failure-ok ws failures w (rw (free, first_failure) at e)
          (λ never. (rw other at o) (omega (arith, never)))
  ]
]

pub first_failure-throw :
    (ws : List ℕ) (failures : Failures) (e : Exception)
    → first_failure ws failures ≡ throw e
    → (w : ℕ) × (failure_of w failures ≡ some e)
unfolding first_failure
first_failure-throw [] failures e h = absurd (cc)
first_failure-throw (v ∷ ws) failures e h = elim (Option-cases (failure_of v failures)) [
  | inr (x, ended) ↦ (v, cc (rw (ended, first_failure) at h))
  | inl free ↦ first_failure-throw ws failures e (rw (free, first_failure) at h)
]

occurrences-numbers_from : (n i w : ℕ) → i ≤ w → w < i + n → occurrences w (numbers_from n i) ≢ 0
occurrences-numbers_from zero i w l h = absurd (omega arith)
occurrences-numbers_from (suc n) i w l h = elim (Bool-cases (w == i)) [
  | inl same ↦ rw same (λ never. omega arith)
  | inr other ↦
      let rest = occurrences-numbers_from n (suc i) w (ground arith) (omega arith) in
      rw other (λ never. rest (omega arith))
]

-- Every worker is among those that are joined.
pub joins : (p w : ℕ) → w < p → occurrences w ((p - 1) ∷ numbers_from (p - 1) 0) ≢ 0
joins p w h = elim (Bool-cases (w == p - 1)) [
  | inl same ↦ rw same (λ never. omega arith)
  | inr other ↦
      let rest = occurrences-numbers_from (p - 1) 0 w (omega arith) (ground arith) in
      rw other (λ never. rest (omega arith))
]

pub Result-cases : (r : Result (Unit {0})) → (r ≡ ok tt) ⊎ ((e : Exception) × (r ≡ throw e))
Result-cases (ok u) = inl refl
Result-cases (throw e) = inr (e, refl)
