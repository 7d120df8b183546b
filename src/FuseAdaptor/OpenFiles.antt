-- ===== src/FuseAdaptor/OpenFiles.antt =====
-- The slots of `user.files`: which one `adaptor_open` takes, and what it has then.
use dogbox.Base.{ℕ, zero, suc, ◌+◌, ◌<◌, ◌≡◌, ◌≢◌, refl, sym, ap, ◌∙◌, inl, inr}
use dogbox.Base.{Option, none, some, Option-cases, List, [], ◌∷◌, ◌++◌, arith, lt→ltb}
use dogbox.Base.{length, get_elem?, get_elem?-set_self, get_elem?-set_ne, get_or}
use dogbox.Base.{ok}
use dogbox.Trees.ReadFile.{OpenFile}
use dogbox.FuseAdaptor.Files.{place, free_slot, take_slot, opened_at}

-- The slot of a descriptor has an open file.
abbrev pub Opens : List (Option OpenFile) → ℕ → OpenFile → Type 0
Opens files fh opened = get_elem? files fh ≡ some (some opened)

module _ {A : Type 0} where
  pub get_elem?-inside : (xs : List A) (j : ℕ) (a : A) → get_elem? xs j ≡ some a → j < length xs
  get_elem?-inside [] j a e = absurd (cc)
  get_elem?-inside (x ∷ xs) zero a e = omega arith
  get_elem?-inside (x ∷ xs) (suc j) a e = omega (arith, get_elem?-inside xs j a e)

  get_elem?-append :
      (xs ys : List A) (j : ℕ) (a : A) → get_elem? xs j ≡ some a → get_elem? (xs ++ ys) j ≡ some a
  get_elem?-append [] ys j a e = absurd (cc)
  get_elem?-append (x ∷ xs) ys zero a e = e
  get_elem?-append (x ∷ xs) ys (suc j) a e = get_elem?-append xs ys j a e

  get_elem?-append_ne :
      (xs : List A) (y : A) (j : ℕ) → j ≢ length xs → get_elem? (xs ++ y ∷ []) j ≡ get_elem? xs j
  get_elem?-append_ne [] y zero h = absurd (h refl)
  get_elem?-append_ne [] y (suc j) h = refl
  get_elem?-append_ne (x ∷ xs) y zero h = refl
  get_elem?-append_ne (x ∷ xs) y (suc j) h = get_elem?-append_ne xs y j (λ e. h (omega (arith, e)))

  get_elem?-behind : (xs ys : List A) (y : A) → get_elem? (xs ++ y ∷ ys) (length xs) ≡ some y
  get_elem?-behind [] ys y = refl
  get_elem?-behind (x ∷ xs) ys y = get_elem?-behind xs ys y

  get_or-get_elem? : (xs : List A) (j : ℕ) (a d : A) → get_elem? xs j ≡ some a → get_or xs j d ≡ a
  get_or-get_elem? [] j a d e = absurd (cc)
  get_or-get_elem? (x ∷ xs) zero a d e = cc
  get_or-get_elem? (x ∷ xs) (suc j) a d e = get_or-get_elem? xs j a d e

-- The slot that the loop stops at is free, and none before it is.
free_slot-some :
    (files : List (Option OpenFile)) (i k : ℕ)
    → free_slot i files ≡ some k
    → (d : ℕ) × (k ≡ i + d)
      × (get_elem? files d ≡ some none)
      × ((j : ℕ) → j < d → get_elem? files j ≢ some none)
unfolding free_slot
free_slot-some [] i k e = absurd (cc)
free_slot-some (none ∷ files) i k e =
    let same : i ≡ k = cc in (0, omega (arith, same), refl, λ j h. absurd (omega (arith, h)))
free_slot-some (some g ∷ files) i k e =
    let (d, at, free, taken) = free_slot-some files (suc i) k e in
    (suc d, omega (arith, at), free, λ j. before files d g taken j)
  where
    before :
        (files : List (Option OpenFile)) (d : ℕ) (g : OpenFile)
        → ((j : ℕ) → j < d → get_elem? files j ≢ some none)
        → (j : ℕ) → j < suc d
        → get_elem? (some g ∷ files) j ≢ some none
    before files d g taken zero h e = absurd (cc)
    before files d g taken (suc j) h e = taken j (omega (arith, h)) e

-- Opening takes a slot that no open file has, and leaves the slots of the open files as they were.
pub take_slot_lem :
    (opened : OpenFile) (files : List (Option OpenFile))
    → let (fh, files') = take_slot opened files in
      Opens files' fh opened
      × ((j : ℕ) (other : OpenFile) → Opens files j other → (j ≢ fh) × Opens files' j other)
unfolding take_slot
take_slot_lem opened files = elim (Option-cases (free_slot 0 files)) [
  | inl full ↦ rw full (
    get_elem?-behind files [] (some opened),
    λ j other h. (
      λ e. absurd (omega (arith, e, get_elem?-inside files j (some other) h)),
      get_elem?-append files (some opened ∷ []) j (some other) h,
    ),
  )
  | inr (k, found) ↦
      let (d, at, free, _) = free_slot-some files 0 k found in
      let same : k ≡ d = omega (arith, at) in
      let here : get_elem? files k ≡ some none = ap (λ (t : ℕ). get_elem? files t) same ∙ free in
      rw found (
        get_elem?-set_self files k (some opened) (get_elem?-inside files k none here),
        λ j other h.
            let apart : j ≢ k = λ e. absurd (cc (here, h, ap (λ (t : ℕ). get_elem? files t) e)) in
            (apart, get_elem?-set_ne files k j (some opened) (λ e. apart (sym e)) ∙ h),
      )
]

-- The other slots stay as they are, open or free.
pub take_slot-other :
    (opened : OpenFile) (files : List (Option OpenFile)) (j : ℕ)
    → j ≢ (take_slot opened files).0
    → get_elem? (take_slot opened files).1 j ≡ get_elem? files j
unfolding take_slot
take_slot-other opened files j h = placed (free_slot 0 files) h
  where
    placed :
        (free : Option ℕ)
        → j ≢ (place free opened files).0
        → get_elem? (place free opened files).1 j ≡ get_elem? files j
    placed none h = get_elem?-append_ne files (some opened) j h
    placed (some k) h = get_elem?-set_ne files k j (some opened) (λ e. h (sym e))

pub opened_at-Opens :
    (files : List (Option OpenFile)) (fh : ℕ) (opened : OpenFile)
    → Opens files fh opened
    → opened_at files fh ≡ ok opened
unfolding opened_at
opened_at-Opens files fh opened h =
    rw
      (
        lt→ltb fh (length files) (get_elem?-inside files fh (some opened) h),
        get_or-get_elem? files fh (some opened) none h,
      )
      refl
