-- ===== src/InMemory/Equality.antt =====
-- When two directories in memory are the same: the comparison decides it, and two maps are the same
-- where the same is found in them.
use dogbox.Base.{
  ◌≡◌, ◌↔◌, refl, sym, ap, ◌∙◌, inl, inr, Bool, true, false, ◌&&◌, none, some, Bool-cases, Bytes,
  bytes_eq,
}
use dogbox.Base.{bytes_eq_iff, bytes_eq_refl}
use dogbox.InMemory.{
  DirectoryEntry, regular_file, directory, Entries, empty, element, directory_entry_eq,
  directory_eq, find, string_less,
}
use dogbox.InMemory.Map.{
  IsAbove, IsMap, IsMap-element, find-IsAbove, IsAbove-trans, string_less_tri,
}

and_true : (a b : Bool) → (a && b) ≡ true → (a ≡ true) × (b ≡ true)
and_true true b e = (refl, e)
and_true false b e = absurd (cc)

directory_eq_sound : (left right : Entries) → directory_eq left right ≡ true → left ≡ right
unfolding directory_eq directory_entry_eq
directory_eq_sound empty empty e = refl
directory_eq_sound empty (element key value right) e = absurd (cc)
directory_eq_sound (element key value left) empty e = absurd (cc)
directory_eq_sound (element key (regular_file a) left) (element key' (directory b) right) e =
    let (_, rest) = and_true (bytes_eq key key') (false && directory_eq left right) e in absurd (cc)
directory_eq_sound (element key (directory a) left) (element key' (regular_file b) right) e =
    let (_, rest) = and_true (bytes_eq key key') (false && directory_eq left right) e in absurd (cc)
directory_eq_sound (element key (regular_file a) left) (element key' (regular_file b) right) e =
    let (keys, values) = and_true (bytes_eq key key') (bytes_eq a b && directory_eq left right) e in
    let (value, rest) = and_true (bytes_eq a b) (directory_eq left right) values in
    let k = (bytes_eq_iff key key').0 keys in
    let v = (bytes_eq_iff a b).0 value in let r = directory_eq_sound left right rest in cc
directory_eq_sound (element key (directory a) left) (element key' (directory b) right) e =
    let (keys, values) =
      and_true (bytes_eq key key') (directory_eq a b && directory_eq left right) e in
    let (value, rest) = and_true (directory_eq a b) (directory_eq left right) values in
    let k = (bytes_eq_iff key key').0 keys in
    let v = directory_eq_sound a b value in let r = directory_eq_sound left right rest in cc

directory_eq_refl : (entries : Entries) → directory_eq entries entries ≡ true
unfolding directory_eq directory_entry_eq
directory_eq_refl empty = refl
directory_eq_refl (element key (regular_file a) entries) =
    rw (bytes_eq_refl key, bytes_eq_refl a) (directory_eq_refl entries)
directory_eq_refl (element key (directory a) entries) =
    rw (bytes_eq_refl key, directory_eq_refl a) (directory_eq_refl entries)

-- Two directories compare equal exactly where they are: the same keys with the same contents, at any
-- depth, in the order of the map.
pub directory_eq_iff : (left right : Entries) → (directory_eq left right ≡ true) ↔ (left ≡ right)
directory_eq_iff left right =
    (directory_eq_sound left right, λ e. ap (directory_eq left) (sym e) ∙ directory_eq_refl left)

-- A key that is found below another one is not the first.
first_key :
    (key key' : Bytes) (value value' : DirectoryEntry) (left right : Entries)
    → IsAbove key' right
    → find key (element key value left) ≡ find key (element key' value' right)
    → string_less key key' ≡ false
unfolding find
first_key key key' value value' left right above e = elim (Bool-cases (string_less key key')) [
  | inr not_before ↦ not_before
  | inl before ↦
      let nothing : find key (element key' value' right) ≡ none =
        find-IsAbove key (element key' value' right)
          (before, IsAbove-trans key key' right before above) in
      let there : find key (element key value left) ≡ some value = rw (bytes_eq_refl key) refl in
      absurd (cc (nothing, there, e))
]

-- Two maps in which the same is found are the same.
pub IsMap-find :
    (left right : Entries)
    → IsMap left
    → IsMap right
    → ((key : Bytes) → find key left ≡ find key right)
    → left ≡ right
unfolding find
IsMap-find empty empty h h' same = refl
IsMap-find empty (element key value right) h h' same =
    let there : find key (element key value right) ≡ some value = rw (bytes_eq_refl key) refl in
    absurd (cc (there, same key))
IsMap-find (element key value left) empty h h' same =
    let there : find key (element key value left) ≡ some value = rw (bytes_eq_refl key) refl in
    absurd (cc (there, same key))
IsMap-find (element key value left) (element key' value' right) h h' same =
    let (_, above, map) = (IsMap-element key value left).0 h in
    let (_, above', map') = (IsMap-element key' value' right).0 h' in
    let keys : key ≡ key' =
      string_less_tri key key' (first_key key key' value value' left right above' (same key))
        (first_key key' key value' value right left above (sym (same key'))) in
    let here : find key (element key value left) ≡ some value = rw (bytes_eq_refl key) refl in
    let here' : find key (element key' value' right) ≡ some value' =
      ap (λ (k : Bytes). find key (element k value' right)) (sym keys)
      ∙ rw (bytes_eq_refl key) refl in
    let values : some value ≡ some value' = sym here ∙ (same key ∙ here') in
    let rest = IsMap-find left right map map' (λ k. below k keys above above') in cc
  where
    below :
        (k : Bytes)
        → key ≡ key'
        → IsAbove key left
        → IsAbove key' right
        → find k left ≡ find k right
    below k keys above above' = elim (Bool-cases (bytes_eq key k)) [
      | inl this ↦
          let e = (bytes_eq_iff key k).0 this in
          let nothing : find k left ≡ none =
            ap (λ (t : Bytes). find t left) (sym e) ∙ find-IsAbove key left above in
          let nothing' : find k right ≡ none =
            ap (λ (t : Bytes). find t right) (sym e ∙ keys) ∙ find-IsAbove key' right above' in
          nothing ∙ sym nothing'
      | inr another ↦
          let another' : bytes_eq key' k ≡ false =
            ap (λ (t : Bytes). bytes_eq t k) (sym keys) ∙ another in
          let kept : find k (element key value left) ≡ find k left = rw another refl in
          let kept' : find k (element key' value' right) ≡ find k right = rw another' refl in
          sym kept ∙ (same k ∙ kept')
    ]
