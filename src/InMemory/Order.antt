-- ===== src/InMemory/Order.antt =====
-- The order in which the iterator of a directory comes across its entries does not matter.
use dogbox.Base.{
  ◌≡◌, ◌≢◌, refl, sym, ap, ◌∙◌, inl, inr, Bool, true, false, Bool-cases, Option, some, Bytes,
  bytes_eq, bytes_eq_iff,
}
use dogbox.Base.{ok}
use dogbox.External.FileSystem.{content_of, Node, Listing, end, entry}
use dogbox.External.FileSystem
use dogbox.External.Listings.{first, AreScannable}
use dogbox.InMemory.{DirectoryEntry, regular_file, directory, empty, scan_directory}
use dogbox.InMemory.Scan.{scanned, scanned-IsMap, element_of, find-scanned, scan_directory-scanned}
use dogbox.InMemory.Equality.{IsMap-find}

-- The same entries in another order, at any depth; entries of different names change places.
pub data Reordered : Listing → Listing → Type 0 where
  same_order : {i j : Listing} → i ≡ j → Reordered i j
  swapped :
      {i j : Listing} (name name' : Bytes) (node node' : Node) (rest : Listing)
      → name ≢ name'
      → i ≡ entry name node (entry name' node' rest)
      → j ≡ entry name' node' (entry name node rest)
      → Reordered i j
  behind :
      {i j : Listing} (name : Bytes) (node : Node) (rest rest' : Listing)
      → Reordered rest rest'
      → i ≡ entry name node rest
      → j ≡ entry name node rest'
      → Reordered i j
  inside :
      {i j : Listing} (name : Bytes) (inner inner' rest : Listing)
      → Reordered inner inner'
      → i ≡ entry name (FileSystem.directory inner) rest
      → j ≡ entry name (FileSystem.directory inner') rest
      → Reordered i j
  and_then : {i j k : Listing} → Reordered i j → Reordered j k → Reordered i k

-- One more entry: the element that is found.
abbrev value_or : Node → Option DirectoryEntry → Option DirectoryEntry
value_or (FileSystem.regular file stream) rest = some (regular_file (content_of file))
value_or (FileSystem.directory inner) rest = some (directory (scanned inner empty))
value_or (FileSystem.other type) rest = rest

abbrev pick : Bool → Node → Option DirectoryEntry → Option DirectoryEntry
pick true node rest = value_or node rest
pick false node rest = rest

first-entry :
    (key name : Bytes) (node : Node) (rest : Listing)
    → element_of (first key (entry name node rest))
      ≡ pick (bytes_eq name key) node (element_of (first key rest))
first-entry key name (FileSystem.regular file stream) rest = elim (Bool-cases (bytes_eq name key)) [
  | inl this ↦ rw this refl
  | inr another ↦ rw another refl
]
first-entry key name (FileSystem.directory inner) rest = elim (Bool-cases (bytes_eq name key)) [
  | inl this ↦ rw this refl
  | inr another ↦ rw another refl
]
first-entry key name (FileSystem.other type) rest = elim (Bool-cases (bytes_eq name key)) [
  | inl this ↦ rw this refl
  | inr another ↦ rw another refl
]

pick-pick :
    (a b : Bool) (node node' : Node) (rest : Option DirectoryEntry)
    → (a ≡ true → b ≡ true → ⊥)
    → pick a node (pick b node' rest) ≡ pick b node' (pick a node rest)
pick-pick true true node node' rest apart = absurd (apart refl refl)
pick-pick true false node node' rest apart = refl
pick-pick false b node node' rest apart = refl

first-swapped :
    (key name name' : Bytes) (node node' : Node) (rest : Listing)
    → name ≢ name'
    → element_of (first key (entry name node (entry name' node' rest)))
      ≡ element_of (first key (entry name' node' (entry name node rest)))
first-swapped key name name' node node' rest apart =
    first-entry key name node (entry name' node' rest)
    ∙ ap (pick (bytes_eq name key) node) (first-entry key name' node' rest)
    ∙ pick-pick (bytes_eq name key) (bytes_eq name' key) node node' (element_of (first key rest))
        (λ a b. apart ((bytes_eq_iff name key).0 a ∙ sym ((bytes_eq_iff name' key).0 b)))
    ∙ ap (pick (bytes_eq name' key) node') (sym (first-entry key name node rest))
    ∙ sym (first-entry key name' node' (entry name node rest))

scanned-ext :
    (i j : Listing)
    → ((key : Bytes) → element_of (first key i) ≡ element_of (first key j))
    → scanned i empty ≡ scanned j empty
scanned-ext i j same =
    IsMap-find (scanned i empty) (scanned j empty) (scanned-IsMap i empty tt)
      (scanned-IsMap j empty tt) (λ key. find-scanned key i ∙ (same key ∙ sym (find-scanned key j)))

first-Reordered :
    (key : Bytes) (i j : Listing)
    → Reordered i j
    → element_of (first key i) ≡ element_of (first key j)
first-Reordered key i j (same_order e) = ap (λ (t : Listing). element_of (first key t)) e
first-Reordered key i j (swapped name name' node node' rest apart e e') =
    rw (e, e') (first-swapped key name name' node node' rest apart)
first-Reordered key i j (behind name node rest rest' r e e') =
    rw (e, e')
      (first-entry key name node rest
        ∙ ap (pick (bytes_eq name key) node) (first-Reordered key rest rest' r)
        ∙ sym (first-entry key name node rest'))
first-Reordered key i j (inside name inner inner' rest r e e') =
    let below = scanned-ext inner inner' (λ k. first-Reordered k inner inner' r) in
    rw (e, e')
      (first-entry key name (FileSystem.directory inner) rest
        ∙ within (bytes_eq name key) below
        ∙ sym (first-entry key name (FileSystem.directory inner') rest))
  where
    within :
        (b : Bool)
        → scanned inner empty ≡ scanned inner' empty
        → pick b (FileSystem.directory inner) (element_of (first key rest))
          ≡ pick b (FileSystem.directory inner') (element_of (first key rest))
    within true below = ap (λ t. some (directory t)) below
    within false below = refl
first-Reordered key i k (and_then {j} r s) = first-Reordered key i j r ∙ first-Reordered key j k s

-- Two directories whose files can be streamed, and that have the same entries in different orders, at any
-- depth, are scanned to the same map.
pub scan_directory-Reordered :
    (i j : Listing)
    → Reordered i j
    → AreScannable i
    → AreScannable j
    → scan_directory i ≡ scan_directory j
scan_directory-Reordered i j r h h' =
    scan_directory-scanned i h
    ∙ ap ok (scanned-ext i j (λ key. first-Reordered key i j r))
    ∙ sym (scan_directory-scanned j h')
