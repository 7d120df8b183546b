-- ===== src/Trees/ParallelFor.antt =====
-- trees/import.cpp, `parallel_for`: which worker runs the action at which indices, and the orders
-- in which the actions may run. An action of the program reads a part of a file that does not change and
-- then takes a lock, so that an execution is taken as a sequence of whole actions. A worker whose action
-- throws ends there; the others go on.
pub mod Coverage
pub mod Failing
pub mod Failures
pub mod Attempts
pub mod Exceptions
use dogbox.Base.{
  ℕ, zero, suc, ◌+◌, ◌-◌, ◌*◌, ◌/◌, ◌%◌, ◌≤◌, ◌<◌, min, ◌≡◌, List, [], ◌∷◌, ◌++◌, ltb, leb,
}
use dogbox.Base.{◌==◌, if◌then◌else◌, All, assertion_failed, Option, none, some}
use dogbox.Base.{Exception, Result, ok, throw}
use dogbox.Base.Action.{Action, pure, guard, ◌>>=◌, ◌>>◌}

-- `for (k = first; k < count; k += step)`, on fuel. Each round passes an index at least, so that
-- `count` rounds are enough.
unfoldable pub stride : ℕ → ℕ → ℕ → ℕ → List ℕ
stride zero k step count = []
stride (suc fuel) k step count =
    let rest = stride fuel (k + step) step count in if ltb k count then k ∷ rest else []

-- The indices of the worker `i`; the last of the workers is the calling thread.
unfoldable pub worker_indices : ℕ → ℕ → ℕ → List ℕ
unfolding stride
worker_indices actual_parallelism count i = stride count i actual_parallelism count

unfoldable pub workers_from : ℕ → ℕ → ℕ → ℕ → List (List ℕ)
workers_from zero i actual_parallelism count = []
workers_from (suc n) i actual_parallelism count =
    worker_indices actual_parallelism count i ∷ workers_from n (suc i) actual_parallelism count

-- What each of the workers has to do, for `max_parallelism` and `count` as they are passed.
unfoldable pub workers : ℕ → ℕ → List (List ℕ)
unfolding workers_from worker_indices
workers max_parallelism count =
    let actual_parallelism = min max_parallelism count in
    workers_from actual_parallelism 0 actual_parallelism count

-- An order in which the workers' actions may run: the next one is the first that some worker has
-- left, until none has any.
pub data Interleaving : List (List ℕ) → List ℕ → Type 0 where
  done : {left : List (List ℕ)} → All (λ indices. indices ≡ []) left → Interleaving left []
  next :
      {left : List (List ℕ)} {order : List ℕ} (before : List (List ℕ)) (k : ℕ) (indices : List ℕ)
      (behind : List (List ℕ))
      → left ≡ before ++ (k ∷ indices) ∷ behind
      → Interleaving (before ++ indices ∷ behind) order
      → Interleaving left (k ∷ order)

-- The exceptions that ended workers, each with the worker's number.
abbrev pub Failures : Type 0
Failures = List (ℕ × Exception)

-- What ended a worker, if anything has.
abbrev pub failure_of : ℕ → Failures → Option Exception
failure_of worker [] = none
failure_of worker ((w, e) ∷ failures) = if w == worker then some e else failure_of worker failures

-- The exception that is passed on, if there is one: the first of the given workers that has one.
unfoldable pub first_failure : List ℕ → Failures → Result (Unit {0})
first_failure [] failures = ok tt
first_failure (worker ∷ workers) failures = elim (failure_of worker failures) [
  | some e ↦ throw e
  | none ↦ first_failure workers failures
]

abbrev pub numbers_from : ℕ → ℕ → List ℕ
numbers_from zero i = []
numbers_from (suc n) i = i ∷ numbers_from n (suc i)

-- An exception of the calling thread comes before those that `worker.get()` throws, worker by worker.
unfoldable pub join : ℕ → Failures → Result (Unit {0})
unfolding first_failure
join actual_parallelism failures =
    first_failure ((actual_parallelism - 1) ∷ numbers_from (actual_parallelism - 1) 0) failures

module _ {S : Type 0} (actual_parallelism : ℕ) (action : ℕ → Action S Unit) where
  abbrev pub note_failure : ℕ → Failures → Result (Unit {0}) × S → Failures × S
  note_failure worker failures (ok _, state) = (failures, state)
  note_failure worker failures (throw e, state) = ((worker, e) ∷ failures, state)

  -- The next action of a worker, whose loop an exception has ended for good.
  unfoldable pub attempt : ℕ → Failures → S → Failures × S
  attempt k failures state =
      let worker = k % actual_parallelism in
      elim (failure_of worker failures) [
        | some _ ↦ (failures, state)
        | none ↦ note_failure worker failures (action k state)
      ]

  unfoldable pub run_actions : List ℕ → Failures → S → Failures × S
  unfolding attempt
  run_actions [] failures state = (failures, state)
  run_actions (k ∷ order) failures state =
      let (failures', state') = attempt k failures state in run_actions order failures' state'

-- All workers are waited for, also where one has thrown.
unfoldable pub run_workers : {S : Type 0} → ℕ → List ℕ → (ℕ → Action S Unit) → Action S Unit
unfolding run_actions join
run_workers actual_parallelism order action state =
    let (failures, state') = run_actions actual_parallelism action order [] state in
    (join actual_parallelism failures, state')

-- `parallel_for` with `begin` 0, whose workers run their actions in the given order, in which the
-- indices that a worker no longer reaches after an exception are passed over.
unfoldable pub parallel_for : {S : Type 0} → List ℕ → ℕ → ℕ → (ℕ → Action S Unit) → Action S Unit
unfolding run_workers
parallel_for order count max_parallelism action = do
  guard (leb 1 max_parallelism) assertion_failed
  if count == 0 then pure tt else run_workers (min max_parallelism count) order action

-- The actions one after the other, up to an exception.
unfoldable pub for_each {ℓ} :
    {S : Type ℓ} → List ℕ → (ℕ → Action S (Unit {ℓ})) → Action S (Unit {ℓ})
for_each [] action = pure tt
for_each (k ∷ order) action = do action k; for_each order action
