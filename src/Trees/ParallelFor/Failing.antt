-- ===== src/Trees/ParallelFor/Failing.antt =====
-- `parallel_for` where actions may throw, and where none does.
use dogbox.Base.{ℕ, ◌-◌, ◌≤◌, min, ◌≡◌, ◌≢◌, refl, ap, ◌∙◌}
use dogbox.Base.{List, [], ◌∷◌, ◌==◌, arith}
use dogbox.Base.{Result, ok, throw, ==_iff, le→leb}
use dogbox.Base.{false}
use dogbox.Base.Action.{Action, proceed}
use dogbox.Trees.ParallelFor.{for_each, parallel_for, run_workers, run_actions, join}
use dogbox.Trees.ParallelFor.{first_failure, numbers_from}
use dogbox.Trees.ParallelFor.{workers}

first_failure-none : (workers : List ℕ) → first_failure workers [] ≡ ok tt
unfolding first_failure
first_failure-none [] = refl
first_failure-none (w ∷ workers) = first_failure-none workers

module _ {S : Type 0} (p : ℕ) (action : ℕ → Action S Unit) where
  for_each-step :
      (k : ℕ) (order : List ℕ) (s s' : S)
      → for_each (k ∷ order) action s ≡ (ok tt, s')
      → (s1 : S) × (action k s ≡ (ok tt, s1)) × (for_each order action s1 ≡ (ok tt, s'))
  unfolding for_each
  for_each-step k order s s' e = go (action k s) refl e
    where
      go :
          (r : Result (Unit {0}) × S)
          → action k s ≡ r
          → proceed r (λ _. for_each order action) ≡ (ok tt, s')
          → (s1 : S) × (action k s ≡ (ok tt, s1)) × (for_each order action s1 ≡ (ok tt, s'))
      go (ok tt, s1) here rest = (s1, here, rest)
      go (throw e, s1) here rest = absurd (cc)

  run_actions-ok :
      (order : List ℕ) (s s' : S)
      → for_each order action s ≡ (ok tt, s')
      → run_actions p action order [] s ≡ ([], s')
  unfolding run_actions for_each
  run_actions-ok [] s s' e = cc
  run_actions-ok (k ∷ order) s s' e =
      let (s1, here, rest) = for_each-step k order s s' e in
      rw here (run_actions-ok order s1 s' rest)

  run_workers-ok :
      (order : List ℕ) (s s' : S)
      → for_each order action s ≡ (ok tt, s')
      → run_workers p order action s ≡ (ok tt, s')
  unfolding run_workers join
  run_workers-ok order s s' run =
      let ran = run_actions-ok order s s' run in
      let joined = first_failure-none ((p - 1) ∷ numbers_from (p - 1) 0) in
      rw ran (ap (λ (r : Result (Unit {0})). (r, s')) joined)

module _ {S : Type 0} (action : ℕ → Action S Unit) (order : List ℕ) (count max : ℕ) where
  pub parallel_for-run_workers :
      (s : S)
      → 1 ≤ max
      → count ≢ 0
      → parallel_for order count max action s ≡ run_workers (min max count) order action s
  unfolding parallel_for
  parallel_for-run_workers s h c =
      let some_left : (count == 0) ≡ false = ground arith in rw (le→leb 1 max h, some_left) refl

  -- Where no action throws, `parallel_for` runs all of the order.
  pub parallel_for-ok :
      (s s' : S)
      → 1 ≤ max
      → count ≢ 0
      → for_each order action s ≡ (ok tt, s')
      → parallel_for order count max action s ≡ (ok tt, s')
  parallel_for-ok s s' h c run =
      parallel_for-run_workers s h c ∙ run_workers-ok (min max count) action order s s' run

  pub parallel_for-zero :
      (s : S) → 1 ≤ max → count ≡ 0 → parallel_for order count max action s ≡ (ok tt, s)
  unfolding parallel_for
  parallel_for-zero s h e =
      let none_left = (==_iff count 0).1 e in rw (le→leb 1 max h, none_left) refl
