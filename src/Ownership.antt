-- ===== src/Ownership.antt =====
-- Objects that own a resource and pass it on when they are moved: what every sequence of
-- constructions, moves and destructions does to the resources.
-- common/file_descriptor.h and fuse_adaptor/channel.h have such a type each.
pub mod FileDescriptor
pub mod Channel
use dogbox.Base.{
  ℕ, zero, suc, ◌+◌, ◌≡◌, ◌≢◌, refl, sym, ap, ◌∙◌, Bool, true, false, Option, none, some, List, [],
  ◌∷◌,
}
use dogbox.Base.{arith, if◌then◌else◌, get_elem?, set, get_elem?-set_ne}

-- The operations of such a type `O`, and what they owe to each other. An object is constructed from
-- arguments `A`; `handed` says which resource `R` the arguments hand to it, if any, without a look at the
-- code. The code: the constructors; what the destructor releases of an object, if anything; the object that
-- a move constructs, with the source behind it; and the target and the source behind a move assignment.
-- The destructor releases what was handed to the constructor. The source of a move construction is left
-- with nothing to release, and a move assignment swaps.
pub record Owner (O A R : Type 0) : Type 0 where
  pub handed : A → Option R
  pub construct : A → O
  pub release : O → Option R
  pub move_construct : O → O × O
  pub move_assign : O → O → O × O
  pub release-construct : (a : A) → release (construct a) ≡ handed a
  pub release-move_construct :
      (o : O) → (release (move_construct o).0 ≡ release o) × (release (move_construct o).1 ≡ none)
  pub release-move_assign :
      (a b : O)
      → (release (move_assign a b).0 ≡ release b) × (release (move_assign a b).1 ≡ release a)

module _ {O A R : Type 0} (W : Owner O A R) where
  -- The objects that are alive, the resources that were handed to constructors, and those that destructors
  -- released.
  pub record Pool : Type 0 where
    pub objects : List O
    pub acquired : List R
    pub released : List R

  abbrev pub initial : Pool
  initial = record { objects = []; acquired = []; released = [] }

  abbrev pub with_resource : Option R → List R → List R
  with_resource none rs = rs
  with_resource (some r) rs = r ∷ rs

  abbrev pub remove : List O → ℕ → List O
  remove [] i = []
  remove (o ∷ os) zero = os
  remove (o ∷ os) (suc i) = o ∷ remove os i

  -- What can happen next: an object is constructed from any arguments; from one object another is
  -- move-constructed; one is assigned to another; one is destroyed.
  pub data Step : Pool → Pool → Type 0 where
    construct :
        {p q : Pool} (a : A)
        → q ≡ record {
          objects = W.construct a ∷ p.objects;
          acquired = with_resource (W.handed a) p.acquired;
          released = p.released;
        }
        → Step p q
    move :
        {p q : Pool} (i : ℕ) (o : O)
        → get_elem? p.objects i ≡ some o
        → q ≡ record {
          objects = (W.move_construct o).0 ∷ set p.objects i (W.move_construct o).1;
          acquired = p.acquired;
          released = p.released;
        }
        → Step p q
    assign :
        {p q : Pool} (i j : ℕ) (a b : O)
        → i ≢ j
        → get_elem? p.objects i ≡ some a
        → get_elem? p.objects j ≡ some b
        → q ≡ record {
          objects = set (set p.objects i (W.move_assign a b).0) j (W.move_assign a b).1;
          acquired = p.acquired;
          released = p.released;
        }
        → Step p q
    destroy :
        {p q : Pool} (i : ℕ) (o : O)
        → get_elem? p.objects i ≡ some o
        → q ≡ record {
          objects = remove p.objects i;
          acquired = p.acquired;
          released = with_resource (W.release o) p.released;
        }
        → Step p q

  pub data Reachable : Pool → Type 0 where
    start : {p : Pool} → p ≡ initial → Reachable p
    later : {p q : Pool} → Reachable p → Step p q → Reachable q

  module _ (picks : R → Bool) where
    -- How many of some resources a test picks, and how many objects own one that it picks.
    abbrev pub count : List R → ℕ
    count [] = 0
    count (r ∷ rs) = (if picks r then 1 else 0) + count rs

    abbrev weight : Option R → ℕ
    weight none = 0
    weight (some r) = if picks r then 1 else 0

    abbrev pub owned : List O → ℕ
    owned [] = 0
    owned (o ∷ os) = weight (W.release o) + owned os

    count-with_resource :
        (r : Option R) (rs : List R) → count (with_resource r rs) ≡ weight r + count rs
    count-with_resource none rs = omega arith
    count-with_resource (some r) rs = refl

    owned-set :
        (os : List O) (i : ℕ) (o o' : O)
        → get_elem? os i ≡ some o
        → owned (set os i o') + weight (W.release o) ≡ owned os + weight (W.release o')
    owned-set [] i o o' e = absurd (cc)
    owned-set (x ∷ os) zero o o' e =
        let same : x ≡ o = cc in
        let w : weight (W.release x) ≡ weight (W.release o) =
          ap (λ (t : O). weight (W.release t)) same in
        omega (arith, w)
    owned-set (x ∷ os) (suc i) o o' e = omega (arith, owned-set os i o o' e)

    owned-remove :
        (os : List O) (i : ℕ) (o : O)
        → get_elem? os i ≡ some o
        → owned (remove os i) + weight (W.release o) ≡ owned os
    owned-remove [] i o e = absurd (cc)
    owned-remove (x ∷ os) zero o e =
        let same : x ≡ o = cc in
        let w : weight (W.release x) ≡ weight (W.release o) =
          ap (λ (t : O). weight (W.release t)) same in
        omega (arith, w)
    owned-remove (x ∷ os) (suc i) o e = omega (arith, owned-remove os i o e)

    -- The balance of a pool.
    abbrev IsBalanced : Pool → Type 0
    IsBalanced p = owned p.objects + count p.released ≡ count p.acquired

    Step-IsBalanced : {p q : Pool} → Step p q → IsBalanced p → IsBalanced q
    Step-IsBalanced {p} (construct a e) h = rw e (
        omega (
          arith,
          h,
          count-with_resource (W.handed a) p.acquired,
          ap weight (W.release-construct a),
        ))
    Step-IsBalanced {p} (move i o e q) h =
        let (new, old) = W.release-move_construct o in
        let set' = owned-set p.objects i o (W.move_construct o).1 e in
        rw q (omega (arith, h, set', ap weight new, ap weight old))
    Step-IsBalanced {p} (assign i j a b apart ea eb q) h =
        let (to, from) = W.release-move_assign a b in
        let a' = (W.move_assign a b).0 in
        let there : get_elem? (set p.objects i a') j ≡ some b =
          get_elem?-set_ne p.objects i j a' apart ∙ eb in
        rw q (
          omega (
            arith,
            h,
            owned-set p.objects i a a' ea,
            owned-set (set p.objects i a') j b (W.move_assign a b).1 there,
            ap weight to,
            ap weight from,
          ))
    Step-IsBalanced {p} (destroy i o e q) h = rw q (
        omega
          (arith, h, owned-remove p.objects i o e, count-with_resource (W.release o) p.released))

    -- However objects are constructed, moved, assigned and destroyed, each resource that was handed to a
    -- constructor has been released, or is owned by one object, which will release it, once for each time it
    -- was handed over: none is lost and none is released twice.
    pub Reachable-owned :
        {p : Pool} → Reachable p → owned p.objects + count p.released ≡ count p.acquired
    Reachable-owned (start e) = rw e (omega arith)
    Reachable-owned (later r s) = Step-IsBalanced s (Reachable-owned r)
