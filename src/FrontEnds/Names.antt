-- ===== src/FrontEnds/Names.antt =====
-- What the two front ends list of a directory: `adaptor_readdir` and `hello_readdir`.
use dogbox.Base.{◌≡◌, refl, ap, ◌∙◌, inl, inr, Bool, true, false, Option, none, some}
use dogbox.Base.{List, [], ◌∷◌, All, Bytes, bytes_eq, contains, ok}
use dogbox.Base.{Bool-cases}
use dogbox.Base.Int.{pos}
use dogbox.External.FileSystem.{Node, Listing, end, entry, regular, directory, other}
use dogbox.External.Listings.{first, directory_below, directory_at}
use dogbox.HashCode.{Sha256HashCode}
use dogbox.Trees.DirectoryTree.{entries_of}
use dogbox.Trees.ImportDirectory.Tree.{tree_of}
use dogbox.Trees.ImportDirectory.Contents.{node_of, child-first}
use dogbox.FuseAdaptor.Attributes.{Stat, filled}
use dogbox.FuseAdaptor.Listing.{listed}
use dogbox.FuseAdaptor.ListedPaths
use dogbox.FuseAdaptor.ListedPaths.{adaptor_readdir-listed_at}
use dogbox.InMemory.{Entries, empty, element, string_less, find}
use dogbox.InMemory.Map.{IsAbove, IsMap, IsMap-element}
use dogbox.InMemory.Scan.{scanned, element_of}
use dogbox.InMemory.Operations.{keys, list_directory}
use dogbox.InMemory.Operations.Lookup
use dogbox.InMemory.Operations.Lookup.{readdir_impl-listed_at}

-- What the adaptor lists of a path to a directory.
pub listed_at-directory_at :
    (sha256 : Bytes → Sha256HashCode) (names : List Bytes) (listing inner : Listing)
    → directory_at names listing ≡ some inner
    → ListedPaths.listed_at sha256 names (tree_of sha256 listing)
      ≡ ok (pos 0, listed (entries_of sha256 (tree_of sha256 inner)))
listed_at-directory_at sha256 [] listing inner e =
    let same : listing ≡ inner = cc in
    ap (λ (i : Listing). ok (pos 0, listed (entries_of sha256 (tree_of sha256 i)))) same
listed_at-directory_at sha256 (name ∷ names) listing inner e =
    ap (ListedPaths.listed_node names (ListedPaths.listed_at sha256 names))
      (child-first sha256 name listing)
    ∙ below (first name listing) e (λ i. listed_at-directory_at sha256 names i inner)
  where
    below :
        (node : Option Node)
        → directory_below (directory_at names) node ≡ some inner
        → ((i : Listing)
            → directory_at names i ≡ some inner
            → ListedPaths.listed_at sha256 names (tree_of sha256 i)
              ≡ ok (pos 0, listed (entries_of sha256 (tree_of sha256 inner))))
        → ListedPaths.listed_node names (ListedPaths.listed_at sha256 names) (node_of sha256 node)
          ≡ ok (pos 0, listed (entries_of sha256 (tree_of sha256 inner)))
    below none e within = absurd (cc)
    below (some (regular file stream)) e within = absurd (cc)
    below (some (directory i)) e within = within i e
    below (some (other type)) e within = absurd (cc)

-- What the in-memory file system lists of a path to a directory.
pub listed_at-scanned :
    (names : List Bytes) (listing inner : Listing)
    → directory_at names listing ≡ some inner
    → Lookup.listed_at names listing ≡ ok (pos 0, list_directory (scanned inner empty))
listed_at-scanned [] listing inner e =
    let same : listing ≡ inner = cc in
    ap (λ (i : Listing). ok (pos 0, list_directory (scanned i empty))) same
listed_at-scanned (name ∷ names) listing inner e =
    below (first name listing) e (λ i. listed_at-scanned names i inner)
  where
    below :
        (node : Option Node)
        → directory_below (directory_at names) node ≡ some inner
        → ((i : Listing)
            → directory_at names i ≡ some inner
            → Lookup.listed_at names i ≡ ok (pos 0, list_directory (scanned inner empty)))
        → Lookup.listed_node (Lookup.listed_at names) node
          ≡ ok (pos 0, list_directory (scanned inner empty))
    below none e within = absurd (cc)
    below (some (regular file stream)) e within = absurd (cc)
    below (some (directory i)) e within = within i e
    below (some (other type)) e within = absurd (cc)

abbrev pub is_some {ℓ} : {A : Type ℓ} → Option A → Bool
is_some none = false
is_some (some a) = true

-- The names that the filler is called with.
abbrev pub names_of : List (Bytes × Stat) → List Bytes
names_of [] = []
names_of ((name, stat) ∷ calls) = name ∷ names_of calls

pub contains-names_of :
    (sha256 : Bytes → Sha256HashCode) (name : Bytes) (listing : Listing)
    → contains name (names_of (listed (entries_of sha256 (tree_of sha256 listing))))
      ≡ is_some (first name listing)
unfolding filled
contains-names_of sha256 name end = refl
contains-names_of sha256 name (entry n (regular file stream) i) =
    elim (Bool-cases (bytes_eq n name)) [
      | inl same ↦ rw same refl
      | inr differs ↦ rw differs (contains-names_of sha256 name i)
    ]
contains-names_of sha256 name (entry n (directory inner) i) = elim (Bool-cases (bytes_eq n name)) [
  | inl same ↦ rw same refl
  | inr differs ↦ rw differs (contains-names_of sha256 name i)
]
contains-names_of sha256 name (entry n (other type) i) = contains-names_of sha256 name i

pub contains-keys :
    (name : Bytes) (entries : Entries) → contains name (keys entries) ≡ is_some (find name entries)
unfolding find
contains-keys name empty = refl
contains-keys name (element key value entries) = elim (Bool-cases (bytes_eq key name)) [
  | inl same ↦ rw same refl
  | inr differs ↦ rw differs (contains-keys name entries)
]

pub is_some-element_of :
    (name : Bytes) (listing : Listing)
    → is_some (element_of (first name listing)) ≡ is_some (first name listing)
is_some-element_of name end = refl
is_some-element_of name (entry n (regular file stream) i) = elim (Bool-cases (bytes_eq n name)) [
  | inl same ↦ rw same refl
  | inr differs ↦ rw differs (is_some-element_of name i)
]
is_some-element_of name (entry n (directory inner) i) = elim (Bool-cases (bytes_eq n name)) [
  | inl same ↦ rw same refl
  | inr differs ↦ rw differs (is_some-element_of name i)
]
is_some-element_of name (entry n (other type) i) = is_some-element_of name i

-- Each name is less than all that follow, so that none is there twice.
abbrev pub IsIncreasing : List Bytes → Type 0
IsIncreasing [] = Unit
IsIncreasing (name ∷ names) =
    All (λ later. string_less name later ≡ true) names × IsIncreasing names

keys-above :
    (key : Bytes) (entries : Entries)
    → IsAbove key entries
    → All (λ later. string_less key later ≡ true) (keys entries)
keys-above key empty h = tt
keys-above key (element k value entries) (p, h) = (p, keys-above key entries h)

pub keys-IsIncreasing : (entries : Entries) → IsMap entries → IsIncreasing (keys entries)
keys-IsIncreasing empty h = tt
keys-IsIncreasing (element key value entries) h =
    let (_, above, rest) = (IsMap-element key value entries).0 h in
    (keys-above key entries above, keys-IsIncreasing entries rest)
