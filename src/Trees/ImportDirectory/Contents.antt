-- ===== src/Trees/ImportDirectory/Contents.antt =====
-- The files and subdirectories of a directory in its tree, and in the store.
use dogbox.Base.{◌≡◌, refl, Option, none, some, List, [], ◌∷◌}
use dogbox.Base.{Bool-cases, inl, inr, length, Bytes, bytes_eq}
use dogbox.External.Listings.{first, content_below, content_at}
use mathlib.Core.Path.{subst}
use dogbox.External.FileSystem.{content_of, Node, Listing, end, entry, regular, directory, other}
use dogbox.HashCode.{Sha256HashCode}
use dogbox.BlobStorage.Interface.{BlobStore, IsBlobStore}
use dogbox.Trees.DirectoryTree.{child}
use dogbox.Trees.DirectoryTree
use dogbox.Trees.RegularFileIndex.Load.{index_bytes}
use dogbox.Trees.ImportDirectory.Tree.{tree_of, HoldsFile, HoldsFiles}

-- The node of the tree for a node of the file system.
abbrev pub node_of : (Bytes → Sha256HashCode) → Option Node → Option DirectoryTree.Node
node_of sha256 none = none
node_of sha256 (some (regular file stream)) =
    some (
      DirectoryTree.file (sha256 (index_bytes sha256 (content_of file))) (length (content_of file)))
node_of sha256 (some (directory inner)) = some (DirectoryTree.folder (tree_of sha256 inner))
node_of sha256 (some (other type)) = none

pub child-first :
    (sha256 : Bytes → Sha256HashCode) (name : Bytes) (listing : Listing)
    → child name (tree_of sha256 listing) ≡ node_of sha256 (first name listing)
child-first sha256 name end = refl
child-first sha256 name (entry n (regular file stream) i) = elim (Bool-cases (bytes_eq n name)) [
  | inl same ↦ rw same refl
  | inr differs ↦ rw differs (child-first sha256 name i)
]
child-first sha256 name (entry n (directory inner) i) = elim (Bool-cases (bytes_eq n name)) [
  | inl same ↦ rw same refl
  | inr differs ↦ rw differs (child-first sha256 name i)
]
child-first sha256 name (entry n (other type) i) = child-first sha256 name i

module _ (B : BlobStore) (sha256 : Bytes → Sha256HashCode) (I : IsBlobStore B sha256)
    (db : B.Database) where
  -- What a store holds of a node.
  abbrev HoldsNode : Option Node → Type 0
  HoldsNode none = Unit
  HoldsNode (some (regular file stream)) = HoldsFile B sha256 I db (content_of file)
  HoldsNode (some (directory inner)) = HoldsFiles B sha256 I db inner
  HoldsNode (some (other type)) = Unit

  first-HoldsNode :
      (name : Bytes) (listing : Listing)
      → HoldsFiles B sha256 I db listing
      → HoldsNode (first name listing)
  first-HoldsNode name end h = tt
  first-HoldsNode name (entry n (regular file stream) i) (h, hs) =
      elim (Bool-cases (bytes_eq n name)) [
        | inl same ↦ rw same h
        | inr differs ↦ rw differs (first-HoldsNode name i hs)
      ]
  first-HoldsNode name (entry n (directory inner) i) (h, hs) = elim (Bool-cases (bytes_eq n name)) [
    | inl same ↦ rw same h
    | inr differs ↦ rw differs (first-HoldsNode name i hs)
  ]
  first-HoldsNode name (entry n (other type) i) h = first-HoldsNode name i h

  -- Where all files of a directory are held, so is the one that a path leads to.
  pub content_at-HoldsFile :
      (names : List Bytes) (listing : Listing) (content : Bytes)
      → HoldsFiles B sha256 I db listing
      → content_at names listing ≡ some content
      → HoldsFile B sha256 I db content
  content_at-HoldsFile [] listing content h e = absurd (cc)
  content_at-HoldsFile (name ∷ names) listing content h e =
      below names (first name listing) (first-HoldsNode name listing h) e
        (content_at-HoldsFile names)
    where
      below :
          (names : List Bytes) (node : Option Node)
          → HoldsNode node
          → content_below names (content_at names) node ≡ some content
          → ((inner : Listing) (content : Bytes)
              → HoldsFiles B sha256 I db inner
              → content_at names inner ≡ some content
              → HoldsFile B sha256 I db content)
          → HoldsFile B sha256 I db content
      below names none h e within = absurd (cc)
      below names (some (other type)) h e within = absurd (cc)
      below [] (some (directory inner)) h e within = absurd (cc)
      below (n ∷ names) (some (directory inner)) h e within = within inner content h e
      below [] (some (regular file stream)) h e within =
          let same : content_of file ≡ content = cc in
          subst (λ (t : Bytes). HoldsFile B sha256 I db t) same h
      below (n ∷ names) (some (regular file stream)) h e within = absurd (cc)
