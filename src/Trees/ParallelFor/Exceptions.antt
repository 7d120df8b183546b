-- ===== src/Trees/ParallelFor/Exceptions.antt =====
-- `parallel_for` where actions may throw: what it leaves, and which exception comes out.
use dogbox.Base.{ℕ, ◌-◌, ◌%◌, ◌≤◌, ◌<◌, min, ◌≡◌, ◌≢◌, refl, sym, inl, inr}
use dogbox.Base.{◌⊎◌, List, [], ◌∷◌, ◌==◌, arith}
use dogbox.Base.{Exception, Result, ok, throw, Bool-cases, ==_iff}
use mathlib.Core.Path.{subst}
use dogbox.Base.Action.{Action}
use dogbox.Trees.ParallelFor.{parallel_for, run_workers, run_actions, join}
use dogbox.Trees.ParallelFor.{first_failure, numbers_from}
use dogbox.Trees.ParallelFor.{workers, Interleaving}
use dogbox.Trees.ParallelFor.Coverage.{occurrences, occurrences-workers}
use dogbox.Trees.ParallelFor.Failing.{parallel_for-run_workers, parallel_for-zero}
use native.Mathlib.Nat.{mod-lt}
use dogbox.Trees.ParallelFor.Failures.{first_failure-ok, first_failure-throw, joins, Result-cases}
use dogbox.Trees.ParallelFor.Attempts.{Achieves, Throws, run_actions-Ran}

module _ {S : Type 0} (p : ℕ) (action : ℕ → Action S Unit) (Inv : S → Type 0)
    (Done : ℕ → S → Type 0) (a : Achieves action Inv Done) where
  -- After all workers, from a state with the invariant.
  abbrev Ends : List ℕ → Result (Unit {0}) → S → Type 0
  Ends order result s' =
      Inv s'
      × (((result ≡ ok tt) × ((k : ℕ) → occurrences k order ≢ 0 → Done k s'))
          ⊎ ((e : Exception) × (result ≡ throw e)
              × (k : ℕ) × (occurrences k order ≢ 0)
              × Throws p action Inv Done a k e))

  run_workers-Ends :
      (order : List ℕ) (s : S)
      → 0 < p
      → Inv s
      → let (result, s') = run_workers p order action s in Ends order result s'
  unfolding run_workers join
  run_workers-Ends order s positive h =
      let w = run_actions-Ran p action Inv Done a order [] s h in
      let failures = (run_actions p action order [] s).0 in
      let ws = (p - 1) ∷ numbers_from (p - 1) 0 in
      (
        w.inv,
        elim (Result-cases (first_failure ws failures)) [
          | inl fine ↦ inl (
            fine,
            λ k o. elim (w.finished k o) [
              | inl d ↦ d
              | inr (e, ended) ↦
                  let free =
                    first_failure-ok ws failures (k % p) fine
                      (joins p (k % p) (mod-lt k {m = p} positive)) in
                  absurd (cc)
            ],
          )
          | inr (e, thrown) ↦
              let (v, ended) = first_failure-throw ws failures e thrown in
              elim (w.explained v e ended) [
                | inl before ↦ absurd (cc)
                | inr (k, o, worker, cause) ↦ inr (e, thrown, k, o, cause)
              ]
        ],
      )

module _ {S : Type 0} (action : ℕ → Action S Unit) (Inv : S → Type 0) (Done : ℕ → S → Type 0)
    (a : Achieves action Inv Done) where
  -- How a call with `count` ends: the invariant holds; either nothing was thrown and all is done, or
  -- what comes out is an exception that the action at some index threw.
  abbrev pub EndsFor : ℕ → Result (Unit {0}) → S → Type 0
  EndsFor count result s' =
      Inv s'
      × (((result ≡ ok tt) × ((k : ℕ) → k < count → Done k s'))
          ⊎ ((e : Exception) × (result ≡ throw e)
              × (k : ℕ) × (k < count)
              × ((s : S) × Inv s × ((action k s).0 ≡ throw e))))

  -- The actions may throw. They keep an invariant of the state, also where they throw; where the
  -- action at an index does not throw, it achieves something for its index, which further actions
  -- keep. With at least one worker allowed, and whatever the workers' pace, the invariant holds when
  -- `parallel_for` ends. If it returns, then all that the indices below `count` stand for is
  -- achieved. If it throws, then what it throws is what the action at one of these indices threw,
  -- in a state in which the invariant held.
  pub parallel_for-EndsFor :
      {order : List ℕ} (count max : ℕ) (s : S)
      → 1 ≤ max
      → Interleaving (workers max count) order
      → Inv s
      → let (result, s') = parallel_for order count max action s in EndsFor count result s'
  parallel_for-EndsFor {order} count max s h i v = elim (Bool-cases (count == 0)) [
    | inl none_left ↦
        let e = (==_iff count 0).0 none_left in
        subst (λ (x : Result (Unit {0}) × S). EndsFor count x.0 x.1)
          (sym (parallel_for-zero action order count max s h e))
          (v, inl (refl, λ k below. absurd (omega arith)))
    | inr some_left ↦
        let some_index : count ≢ 0 = ground arith in
        let p = min max count in
        let positive : 0 < p = omega arith in
        subst (λ (x : Result (Unit {0}) × S). EndsFor count x.0 x.1)
          (sym (parallel_for-run_workers action order count max s h some_index))
          (here p (run_workers-Ends p action Inv Done a order s positive v))
  ]
    where
      here :
          (p : ℕ)
          → (let (result, s') = run_workers p order action s in
              Ends p action Inv Done a order result s')
          → let (result, s') = run_workers p order action s in EndsFor count result s'
      here p (v', inl (fine, all)) =
          (v', inl (fine, λ k below. all k (ground (arith, occurrences-workers max count k h i))))
      here p (v', inr (e, thrown, k, o, cause)) =
          (v', inr (e, thrown, k, ground (arith, occurrences-workers max count k h i), cause))
