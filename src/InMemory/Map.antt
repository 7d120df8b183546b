-- ===== src/InMemory/Map.antt =====
-- The laws of the map: its order is one, an insertion keeps it, and what is found afterwards.
use dogbox.Base.{◌≡◌, ◌↔◌, refl, sym, ap, ◌∙◌, inl, inr, true, false, Option, none, some}
use dogbox.Base.{[], ◌∷◌, if◌then◌else◌, arith, Bool-cases, Bytes, bytes_eq, bytes_eq_iff}
use dogbox.InMemory.{
  DirectoryEntry, regular_file, directory, Entries, empty, element, string_less, insert, find,
}

pub string_less_irrefl : (a : Bytes) → string_less a a ≡ false
unfolding string_less
string_less_irrefl [] = refl
string_less_irrefl (x ∷ a) = ground (arith, string_less_irrefl a)

pub string_less_trans :
    (a b c : Bytes) → string_less a b ≡ true → string_less b c ≡ true → string_less a c ≡ true
unfolding string_less
string_less_trans [] [] c p q = absurd (cc)
string_less_trans [] (y ∷ b) [] p q = absurd (cc)
string_less_trans [] (y ∷ b) (z ∷ c) p q = refl
string_less_trans (x ∷ a) [] c p q = absurd (cc)
string_less_trans (x ∷ a) (y ∷ b) [] p q = absurd (cc)
string_less_trans (x ∷ a) (y ∷ b) (z ∷ c) p q = ground (arith, p, q, string_less_trans a b c)

-- Two strings of which neither is less are equal.
pub string_less_tri : (a b : Bytes) → string_less a b ≡ false → string_less b a ≡ false → a ≡ b
unfolding string_less
string_less_tri [] [] p q = refl
string_less_tri [] (y ∷ b) p q = absurd (cc)
string_less_tri (x ∷ a) [] p q = absurd (cc)
string_less_tri (x ∷ a) (y ∷ b) p q = ground (arith, p, q, string_less_tri a b)

-- Every key of the elements is greater.
abbrev pub IsAbove : Bytes → Entries → Type 0
IsAbove key empty = Unit
IsAbove key (element key' value entries) = (string_less key key' ≡ true) × IsAbove key entries

-- The invariant of a map: its keys increase, at any depth.
abbrev pub IsMap : Entries → Type 0
IsMap empty = Unit
IsMap (element key (regular_file content) entries) = IsAbove key entries × IsMap entries
IsMap (element key (directory inner) entries) = (IsMap inner × IsAbove key entries) × IsMap entries

abbrev pub IsMapEntry : DirectoryEntry → Type 0
IsMapEntry (regular_file content) = Unit
IsMapEntry (directory inner) = IsMap inner

pub IsMap-element :
    (key : Bytes) (value : DirectoryEntry) (entries : Entries)
    → IsMap (element key value entries) ↔ (IsMapEntry value × IsAbove key entries × IsMap entries)
IsMap-element key (regular_file content) entries = ((λ h. (tt, h.0, h.1)), λ h. (h.1, h.2))
IsMap-element key (directory inner) entries = ((λ h. (h.0.0, h.0.1, h.1)), λ h. ((h.0, h.1), h.2))

pub IsAbove-trans :
    (key key' : Bytes) (entries : Entries)
    → string_less key key' ≡ true
    → IsAbove key' entries
    → IsAbove key entries
IsAbove-trans key key' empty p h = tt
IsAbove-trans key key' (element k value entries) p (q, h) =
    (string_less_trans key key' k p q, IsAbove-trans key key' entries p h)

IsAbove-insert :
    (below key : Bytes) (value : DirectoryEntry) (entries : Entries)
    → string_less below key ≡ true
    → IsAbove below entries
    → IsAbove below (insert key value entries)
unfolding insert
IsAbove-insert below key value empty p h = (p, tt)
IsAbove-insert below key value (element key' value' entries) p (q, h) =
    elim (Bool-cases (string_less key key')) [
      | inl before ↦ rw before (p, (q, h))
      | inr not_before ↦ rw not_before (elim (Bool-cases (string_less key' key)) [
        | inl behind ↦ rw behind (q, IsAbove-insert below key value entries p h)
        | inr same ↦ rw same (q, h)
      ])
    ]

-- An insertion keeps the keys in order.
pub insert-IsMap :
    (key : Bytes) (value : DirectoryEntry) (entries : Entries)
    → IsMapEntry value
    → IsMap entries
    → IsMap (insert key value entries)
unfolding insert
insert-IsMap key value empty v h = (IsMap-element key value empty).1 (v, tt, tt)
insert-IsMap key value (element key' value' entries) v h =
    let (v', above, rest) = (IsMap-element key' value' entries).0 h in
    elim (Bool-cases (string_less key key')) [
      | inl before ↦ rw before (
          (IsMap-element key value (element key' value' entries)).1
            (v, (before, IsAbove-trans key key' entries before above), h))
      | inr not_before ↦ rw not_before (elim (Bool-cases (string_less key' key)) [
        | inl behind ↦ rw behind (
            (IsMap-element key' value' (insert key value entries)).1 (
              v',
              IsAbove-insert key' key value entries behind above,
              insert-IsMap key value entries v rest,
            ))
        | inr same ↦ rw same h
      ])
    ]

pub find-IsAbove : (key : Bytes) (entries : Entries) → IsAbove key entries → find key entries ≡ none
unfolding find
find-IsAbove key empty h = refl
find-IsAbove key (element key' value entries) (p, h) = elim (Bool-cases (bytes_eq key' key)) [
  | inl same ↦
      let e = (bytes_eq_iff key' key).0 same in
      absurd (cc (string_less_irrefl key, p, ap (string_less key) e))
  | inr differs ↦ rw differs (find-IsAbove key entries h)
]

-- What is found behind an insertion: what was there, or else the new value under its key.
abbrev pub or_inserted :
    Bytes → Bytes → DirectoryEntry → Option DirectoryEntry → Option DirectoryEntry
or_inserted key inserted value (some old) = some old
or_inserted key inserted value none = if bytes_eq inserted key then some value else none

absent :
    (key inserted : Bytes) (value : DirectoryEntry) (found : Option DirectoryEntry)
    → bytes_eq inserted key ≡ false
    → found ≡ or_inserted key inserted value found
absent key inserted value none differs = rw differs refl
absent key inserted value (some old) differs = refl

pub find-insert :
    (key inserted : Bytes) (value : DirectoryEntry) (entries : Entries)
    → IsMap entries
    → find key (insert inserted value entries) ≡ or_inserted key inserted value (find key entries)
unfolding find insert
find-insert key inserted value empty h = refl
find-insert key inserted value (element key' value' entries) h =
    let (v', above, rest) = (IsMap-element key' value' entries).0 h in
    elim (Bool-cases (string_less inserted key')) [
      | inl before ↦ rw before (first_of before above)
      | inr not_before ↦ rw not_before (elim (Bool-cases (string_less key' inserted)) [
        | inl behind ↦ rw behind (elim (Bool-cases (bytes_eq key' key)) [
          | inl same ↦ rw same refl
          | inr differs ↦ rw differs (find-insert key inserted value entries rest)
        ])
        | inr not_behind ↦
            rw not_behind (present (string_less_tri inserted key' not_before not_behind))
      ])
    ]
  where
    first_of :
        string_less inserted key' ≡ true
        → IsAbove key' entries
        → find key (element inserted value (element key' value' entries))
          ≡ or_inserted key inserted value (find key (element key' value' entries))
    first_of before above = elim (Bool-cases (bytes_eq inserted key)) [
      | inl same ↦
          let e = (bytes_eq_iff inserted key).0 same in
          let nothing =
            find-IsAbove inserted (element key' value' entries)
              (before, IsAbove-trans inserted key' entries before above) in
          let nothing' : find key (element key' value' entries) ≡ none =
            ap (λ (k : Bytes). find k (element key' value' entries)) (sym e) ∙ nothing in
          rw same (sym (ap (or_inserted key inserted value) nothing' ∙ rw same refl))
      | inr differs ↦
          rw differs (absent key inserted value (find key (element key' value' entries)) differs)
    ]

    present :
        inserted ≡ key'
        → find key (element key' value' entries)
          ≡ or_inserted key inserted value (find key (element key' value' entries))
    present e = elim (Bool-cases (bytes_eq key' key)) [
      | inl same ↦ rw same refl
      | inr differs ↦ rw differs (
          absent key inserted value (find key entries)
            (ap (λ (k : Bytes). bytes_eq k key) e ∙ differs))
    ]
