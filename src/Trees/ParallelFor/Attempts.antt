-- ===== src/Trees/ParallelFor/Attempts.antt =====
-- What the workers of `parallel_for` leave, action by action, where actions may throw.
use dogbox.Base.{ℕ, ◌%◌, ◌≡◌, ◌≢◌, refl, sym, ap, ◌∙◌, inl, inr}
use dogbox.Base.{◌⊎◌, none, some, List, [], ◌∷◌, ◌==◌, arith}
use dogbox.Base.{Exception, Result, ok, throw, Option-cases, Bool-cases}
use mathlib.Core.Path.{subst}
use dogbox.Base.Action.{Action}
use dogbox.Trees.ParallelFor.{run_actions, attempt, note_failure}
use dogbox.Trees.ParallelFor.{Failures, failure_of}
use dogbox.Trees.ParallelFor.Coverage.{occurrences}
use dogbox.Trees.ParallelFor.Failures.{failure_of-cons, failure_of-later, failure_of-first}

-- An invariant of the state, and what each action achieves where it does not throw.
pub record Achieves {S : Type 0} (action : ℕ → Action S Unit) (Inv : S → Type 0)
    (Done : ℕ → S → Type 0) : Type 0 where
  pub keeps : (k : ℕ) (s : S) → Inv s → Inv (action k s).1
  pub stays : (j k : ℕ) (s : S) → Inv s → Done j s → Done j (action k s).1
  pub does : (k : ℕ) (s : S) → Inv s → (action k s).0 ≡ ok tt → Done k (action k s).1

module _ {S : Type 0} (p : ℕ) (action : ℕ → Action S Unit) (Inv : S → Type 0)
    (Done : ℕ → S → Type 0) (a : Achieves action Inv Done) where
  -- An action throws, in some state in which the invariant holds.
  abbrev pub Throws : ℕ → Exception → Type 0
  Throws k e = (s : S) × Inv s × ((action k s).0 ≡ throw e)

  -- What some actions leave, from some failures and a state.
  pub record Ran (order : List ℕ) (failures : Failures) (s : S) (failures' : Failures) (s' : S)
      : Type 0 where
    pub inv : Inv s'
    pub kept : (j : ℕ) → Done j s → Done j s'
    pub lasts :
        (w : ℕ) (e : Exception) → failure_of w failures ≡ some e → failure_of w failures' ≡ some e
    pub finished :
        (k : ℕ)
        → occurrences k order ≢ 0
        → Done k s' ⊎ ((e : Exception) × (failure_of (k % p) failures' ≡ some e))
    pub explained :
        (w : ℕ) (e : Exception)
        → failure_of w failures' ≡ some e
        → (failure_of w failures ≡ some e)
          ⊎ ((k : ℕ) × (occurrences k order ≢ 0) × (k % p ≡ w) × Throws k e)

  only : (j k : ℕ) → occurrences j (k ∷ []) ≢ 0 → j ≡ k
  only j k h = ground arith

  attempt-ended :
      (k : ℕ) (failures : Failures) (s : S) (e : Exception)
      → failure_of (k % p) failures ≡ some e
      → attempt p action k failures s ≡ (failures, s)
  unfolding attempt
  attempt-ended k failures s e ended = rw (ended, attempt) refl

  attempt-free :
      (k : ℕ) (failures : Failures) (s : S)
      → failure_of (k % p) failures ≡ none
      → attempt p action k failures s ≡ note_failure p action (k % p) failures (action k s)
  unfolding attempt
  attempt-free k failures s free = rw (free, attempt) refl

  Ran-ended :
      (k : ℕ) (failures : Failures) (s : S) (e : Exception)
      → Inv s
      → failure_of (k % p) failures ≡ some e
      → Ran (k ∷ []) failures s failures s
  Ran-ended k failures s e h ended = record {
    inv = h;
    kept = λ j d. d;
    lasts = λ w e' f. f;
    finished = λ j o. inr (e, rw (only j k o) ended);
    explained = λ w e' f. inl f;
  }

  Ran-noted :
      (k : ℕ) (failures : Failures) (s : S) (r : Result (Unit {0}) × S)
      → Inv s
      → failure_of (k % p) failures ≡ none
      → action k s ≡ r
      → let (failures', s') = note_failure p action (k % p) failures r in
        Ran (k ∷ []) failures s failures' s'
  Ran-noted k failures s (ok u, s1) h free here = record {
    inv = subst (λ (r : Result (Unit {0}) × S). Inv r.1) here (a.keeps k s h);
    kept = λ j d. subst (λ (r : Result (Unit {0}) × S). Done j r.1) here (a.stays j k s h d);
    lasts = λ w e' f. f;
    finished = λ j o.
        let fine : (action k s).0 ≡ ok tt = cc in
        inl (
          subst (λ (r : Result (Unit {0}) × S). Done j r.1) here
            (subst (λ (i : ℕ). Done i (action k s).1) (sym (only j k o)) (a.does k s h fine)));
    explained = λ w e' f. inl f;
  }
  Ran-noted k failures s (throw e, s1) h free here = record {
    inv = subst (λ (r : Result (Unit {0}) × S). Inv r.1) here (a.keeps k s h);
    kept = λ j d. subst (λ (r : Result (Unit {0}) × S). Done j r.1) here (a.stays j k s h d);
    lasts = λ w e' f. failure_of-later (k % p) w e e' failures free f;
    finished = λ j o. inr (
      e,
      ap (λ (i : ℕ). failure_of (i % p) ((k % p, e) ∷ failures)) (only j k o)
          ∙ failure_of-first (k % p) e failures,
    );
    explained = λ w e' f. elim (failure_of-cons (k % p) w e e' failures f) [
      | inl (same, cause) ↦
          let own : occurrences k (k ∷ []) ≢ 0 = ground arith in inr (k, own, same, (s, h, cc))
      | inr before ↦ inl before
    ];
  }

  attempt-Ran :
      (k : ℕ) (failures : Failures) (s : S)
      → Inv s
      → let (failures', s') = attempt p action k failures s in Ran (k ∷ []) failures s failures' s'
  attempt-Ran k failures s h = elim (Option-cases (failure_of (k % p) failures)) [
    | inr (e, ended) ↦
        subst (λ (x : Failures × S). Ran (k ∷ []) failures s x.0 x.1)
          (sym (attempt-ended k failures s e ended)) (Ran-ended k failures s e h ended)
    | inl free ↦
        subst (λ (x : Failures × S). Ran (k ∷ []) failures s x.0 x.1)
          (sym (attempt-free k failures s free)) (Ran-noted k failures s (action k s) h free refl)
  ]

  Ran-next :
      (k : ℕ) (order : List ℕ) (f f1 f2 : Failures) (s s1 s2 : S)
      → Ran (k ∷ []) f s f1 s1
      → Ran order f1 s1 f2 s2
      → Ran (k ∷ order) f s f2 s2
  Ran-next k order f f1 f2 s s1 s2 now later = record {
    inv = later.inv;
    kept = λ j d. later.kept j (now.kept j d);
    lasts = λ w e h. later.lasts w e (now.lasts w e h);
    finished = λ j o. elim (Bool-cases (j == k)) [
      | inl same ↦
          let own : occurrences j (k ∷ []) ≢ 0 = rw same (omega arith) in
          elim (now.finished j own) [
            | inl d ↦ inl (later.kept j d)
            | inr (e, h) ↦ inr (e, later.lasts (j % p) e h)
          ]
      | inr other ↦ later.finished j (λ never. (rw other at o) (omega (arith, never)))
    ];
    explained = λ w e h. elim (later.explained w e h) [
      | inl before ↦ elim (now.explained w e before) [
        | inl earlier ↦ inl earlier
        | inr (j, o, worker, thrown) ↦
            let there : occurrences j (k ∷ order) ≢ 0 = omega arith in
            inr (j, there, worker, thrown)
      ]
      | inr (j, o, worker, thrown) ↦
          let there : occurrences j (k ∷ order) ≢ 0 = omega arith in inr (j, there, worker, thrown)
    ];
  }

  pub run_actions-Ran :
      (order : List ℕ) (failures : Failures) (s : S)
      → Inv s
      → let (failures', s') = run_actions p action order failures s in
        Ran order failures s failures' s'
  unfolding run_actions
  run_actions-Ran [] failures s h = record {
    inv = h;
    kept = λ j d. d;
    lasts = λ w e f. f;
    finished = λ j o. absurd (o refl);
    explained = λ w e f. inl f;
  }
  run_actions-Ran (k ∷ order) failures s h =
      let now = attempt-Ran k failures s h in
      let (failures', s') = attempt p action k failures s in
      Ran-next k order failures failures' _ s s' _ now (run_actions-Ran order failures' s' now.inv)
