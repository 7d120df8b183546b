-- ===== src/FuseAdaptor/ListedPaths.antt =====
-- `adaptor_readdir` over a stored tree of directories.
use dogbox.Base.{
  ℕ, ◌≡◌, refl, Option, none, some, Option-cases, inl, inr, List, [], ◌∷◌, All, Bytes, Result, ok,
  throw, to_do,
}
use dogbox.Base.Int.{ℤ, pos}
use dogbox.HashCode.{Sha256HashCode}
use dogbox.BlobStorage.Interface.{BlobStore, IsBlobStore}
use dogbox.Trees.DirectoryTree.{
  Node, file, folder, Entries, entries_of, directory_blob, child, HasDirectory,
}
use dogbox.Paths.{path_text, IsName}
use dogbox.FuseAdaptor.StatValues.{no_entry}
use dogbox.FuseAdaptor.Attributes.{Stat, UserData, list_resolved, adaptor_readdir}
use dogbox.FuseAdaptor.Listing.{listed, read_directory-entries}
use dogbox.FuseAdaptor.Resolve.{visit, look_up, child-HasDirectory}
use dogbox.FuseAdaptor.OpenRead.{resolve_request-look_up}

-- What a path of names lists: the entries of the directory there. Nothing is below a file, and a file
-- itself is not listed.
abbrev pub listed_node :
    List Bytes
    → (Entries → Result (ℤ × List (Bytes × Stat)))
    → Option Node
    → Result (ℤ × List (Bytes × Stat))
listed_node names within none = ok (no_entry, [])
listed_node names within (some (folder entries)) = within entries
listed_node [] within (some (file h size)) = throw to_do
listed_node (n ∷ names) within (some (file h size)) = ok (no_entry, [])

abbrev pub listed_at :
    (Bytes → Sha256HashCode) → List Bytes → Entries → Result (ℤ × List (Bytes × Stat))
listed_at sha256 [] entries = ok (pos 0, listed (entries_of sha256 entries))
listed_at sha256 (name ∷ names) entries =
    listed_node names (listed_at sha256 names) (child name entries)

module _ (B : BlobStore) (sha256 : Bytes → Sha256HashCode) (I : IsBlobStore B sha256)
    (db : B.Database) (ready : I.IsReady db) (user : UserData) where
  list_resolved-look_up :
      (names : List Bytes) (entries : Entries)
      → HasDirectory B sha256 I db entries
      → list_resolved B (look_up sha256 names entries) (user, db)
        ≡ (listed_at sha256 names entries, (user, db))
  list_resolved-look_up [] entries (held, clean, inner) =
      read_directory-entries B sha256 I (entries_of sha256 entries) user db clean ready held
  list_resolved-look_up (name ∷ names) entries (held, clean, inner) =
      elim (Option-cases (child name entries)) [
        | inl missing ↦ rw missing refl
        | inr (file d size, e) ↦ rw e (at_file d size names)
        | inr (folder below, e) ↦ rw e (
            list_resolved-look_up names below
              (child-HasDirectory B sha256 I db ready name entries below inner e))
      ]
    where
      at_file :
          (d : Sha256HashCode) (size : ℕ) (names : List Bytes)
          → list_resolved B (visit names (look_up sha256 names) (some (file d size))) (user, db)
            ≡ (listed_node names (listed_at sha256 names) (some (file d size)), (user, db))
      at_file d size [] = refl
      at_file d size (n ∷ names) = refl

  -- In a store that is ready and holds a tree of directories, listing a path of names passes on the
  -- names of the entries of the directory there, whole and in order, with the attributes of a file of the
  -- entry's size (0100444) or of a directory (040755), and returns 0; it returns -ENOENT where nothing
  -- is, throws for a file, and changes nothing.
  pub adaptor_readdir-listed_at :
      (entries : Entries) (slash : ℕ) (names : List Bytes)
      → HasDirectory B sha256 I db entries
      → user.root ≡ sha256 (directory_blob sha256 entries)
      → All IsName names
      → adaptor_readdir B (slash ∷ path_text names) (user, db)
        ≡ (listed_at sha256 names entries, (user, db))
  unfolding adaptor_readdir
  adaptor_readdir-listed_at entries slash names stored rooted named =
      rw (resolve_request-look_up B sha256 I db ready entries stored user rooted slash names named)
        (list_resolved-look_up names entries stored)
