-- ===== src/Trees/ParallelFor/Coverage.antt =====
-- Every index is some worker's, exactly once, and so runs exactly once in every interleaving.
use dogbox.Base.{ℕ, zero, suc, ◌+◌, ◌%◌, ◌≤◌, ◌<◌, min, ◌≡◌, refl, sym, ◌∙◌}
use dogbox.Base.{List, [], ◌∷◌, ◌++◌, ltb, leb, ◌==◌, if◌then◌else◌, All, arith, ◌&&◌}
use dogbox.Trees.ParallelFor.{
  stride, worker_indices, workers_from, workers, Interleaving, done, next,
}
use native.Mathlib.Nat.{mod-eq_of_lt, add-mod_right, mod-le, mod-lt}

-- How often a list has the index `k`, and how often some lists have it together.
abbrev pub occurrences : ℕ → List ℕ → ℕ
occurrences k [] = 0
occurrences k (x ∷ xs) = (if k == x then 1 else 0) + occurrences k xs

abbrev pub total : ℕ → List (List ℕ) → ℕ
total k [] = 0
total k (xs ∷ xss) = occurrences k xs + total k xss

total-append : (k : ℕ) (xss yss : List (List ℕ)) → total k (xss ++ yss) ≡ total k xss + total k yss
total-append k [] yss = omega arith
total-append k (xs ∷ xss) yss = omega (arith, total-append k xss yss)

total_of_empty : (k : ℕ) (xss : List (List ℕ)) → All (λ xs. xs ≡ []) xss → total k xss ≡ 0
total_of_empty k [] h = refl
total_of_empty k (xs ∷ xss) (e, h) = rw e (omega (arith, total_of_empty k xss h))

-- An interleaving runs each index as often as the workers have it.
pub occurrences-Interleaving :
    {left : List (List ℕ)} {order : List ℕ} (k : ℕ)
    → Interleaving left order
    → occurrences k order ≡ total k left
occurrences-Interleaving k (done e) = sym (total_of_empty k _ e)
occurrences-Interleaving k (next before x indices behind e i) = rw e (
    omega (
      arith,
      occurrences-Interleaving k i,
      total-append k before (indices ∷ behind),
      total-append k before ((x ∷ indices) ∷ behind),
    ))

-- Whether a loop from `s` in steps of `p` below `count` reaches `k`.
abbrev hit : ℕ → ℕ → ℕ → ℕ → ℕ
hit p count s k = if ltb k count && (leb s k && k % p == s % p) then 1 else 0

next_multiple : (p s k : ℕ) → 0 < p → s < k → k % p ≡ s % p → s + p ≤ k
next_multiple p s k h l e = grind arith

occurrences-stride :
    (fuel p count s k : ℕ)
    → 0 < p
    → count ≤ s + fuel
    → occurrences k (stride fuel s p count) ≡ hit p count s k
unfolding stride
occurrences-stride zero p count s k h f = ground arith
occurrences-stride (suc fuel) p count s k h f = ground (
  arith,
  occurrences-stride fuel p count (s + p) k h (omega arith),
  next_multiple p s k h,
  add-mod_right s p,
)

pub occurrences-worker :
    (p count i k : ℕ)
    → i < p
    → occurrences k (worker_indices p count i) ≡ (if ltb k count && k % p == i then 1 else 0)
unfolding worker_indices
occurrences-worker p count i k h =
    ground (arith, occurrences-stride count p count i k, mod-eq_of_lt h, mod-le k p)

total-workers_from :
    (n i p count k : ℕ)
    → i + n ≤ p
    → total k (workers_from n i p count)
      ≡ (if ltb k count && (leb i (k % p) && ltb (k % p) (i + n)) then 1 else 0)
unfolding workers_from
total-workers_from zero i p count k h = ground arith
total-workers_from (suc n) i p count k h =
    ground
      (arith, occurrences-worker p count i k (omega arith), total-workers_from n (suc i) p count k)

-- With at least one worker, each index below `count` is the task of one worker once, and no other
-- index is anybody's.
pub total-workers :
    (max_parallelism count k : ℕ)
    → 1 ≤ max_parallelism
    → total k (workers max_parallelism count) ≡ (if ltb k count then 1 else 0)
unfolding workers
total-workers max_parallelism count k h =
    let p = min max_parallelism count in
    ground (arith, total-workers_from p 0 p count k (omega arith), mod-lt k {m = p})

-- With at least one worker allowed, and whatever the workers' pace, each index below `count` runs
-- exactly once and no other does.
pub occurrences-workers :
    {order : List ℕ} (max_parallelism count k : ℕ)
    → 1 ≤ max_parallelism
    → Interleaving (workers max_parallelism count) order
    → occurrences k order ≡ (if ltb k count then 1 else 0)
occurrences-workers max_parallelism count k h i =
    occurrences-Interleaving k i ∙ total-workers max_parallelism count k h
