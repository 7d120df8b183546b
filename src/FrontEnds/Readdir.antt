-- ===== src/FrontEnds/Readdir.antt =====
-- `adaptor_readdir` of the adaptor over an import and `hello_readdir` over a scan, of one directory.
use dogbox.Base.{ℕ, ◌≤◌, ◌≡◌, refl, sym, ap, ◌∙◌, Option, some}
use dogbox.Base.{List, ◌∷◌, All, Bytes, contains, codes, Result, ok}
use dogbox.Base.Int.{ℤ, pos}
use dogbox.External.FileSystem.{Listing}
use dogbox.External.Listings.{first, directory_at, AreScannable}
use dogbox.HashCode.{Sha256HashCode}
use dogbox.BlobStorage.Interface.{BlobStore, IsBlobStore}
use dogbox.Paths.{path_text, IsName}
use dogbox.Trees.DirectoryTree.{directory_blob, entries_of}
use dogbox.Trees.ReadCaching.{ReadCaching}
use dogbox.Trees.Import.{Parallelism}
use dogbox.Trees.ImportDirectory.{from_filesystem_directory}
use dogbox.Trees.ImportDirectory.Tree.{tree_of, AreImportable}
use dogbox.Trees.ImportDirectory.Stored.{from_filesystem_directory-HasDirectory}
use dogbox.FuseAdaptor.Attributes.{Stat, adaptor_readdir}
use dogbox.FuseAdaptor.Listing.{listed}
use dogbox.FuseAdaptor.ListedPaths.{adaptor_readdir-listed_at}
use dogbox.FuseAdaptor.Mounted.{mounted}
use dogbox.InMemory.{Entries, empty}
use dogbox.InMemory.Scan.{scanned, scanned-IsMap, find-scanned}
use dogbox.InMemory.Operations.{keys, readdir_impl, hello_readdir, require_tree, list_directory}
use dogbox.InMemory.Operations.Lookup.{readdir_impl-listed_at}
use dogbox.InMemory.Operations.Read.{IsScanOf, require_tree-IsScanOf}
use dogbox.FrontEnds.Names.{names_of, is_some, IsIncreasing, listed_at-directory_at}
use dogbox.FrontEnds.Names.{listed_at-scanned, contains-names_of, contains-keys, is_some-element_of}
use dogbox.FrontEnds.Names.{keys-IsIncreasing}

hello_readdir-eq :
    (listing now : Listing) (state : Option Entries) (path : Bytes) (result : ℤ × List Bytes)
    → require_tree now state ≡ (ok (scanned listing empty), some (scanned listing empty))
    → readdir_impl path (scanned listing empty) ≡ ok result
    → hello_readdir now (b'/' ∷ path) state ≡ (ok result, some (scanned listing empty))
unfolding hello_readdir
hello_readdir-eq listing now state path result a b = rw (a, b) refl

list_directory-keys :
    (entries : Entries) → list_directory entries ≡ codes "." ∷ codes ".." ∷ keys entries
unfolding list_directory
list_directory-keys entries = refl

module _ (B : BlobStore) (sha256 : Bytes → Sha256HashCode) (I : IsBlobStore B sha256)
    (order : Bytes → List ℕ) (hardware_concurrency : ℕ) (parallel : Parallelism) (root : Bytes)
    (listing : Listing) (db : B.Database) (threads : 1 ≤ hardware_concurrency)
    (ready : I.IsReady db)
    (importable : AreImportable B sha256 I order hardware_concurrency parallel root listing)
    (fits : I.Fits (directory_blob sha256 (tree_of sha256 listing)))
    (scannable : AreScannable listing) (now : Listing) (state : Option Entries)
    (scan : IsScanOf listing now state) where
  -- A directory of importable files and of directories whose blobs fit is imported into a store that is
  -- ready, and its files can be streamed; the in-memory file system scans it, or did so before. Listing a
  -- path of names that leads to a directory returns 0 in the adaptor that is mounted over the import,
  -- in either mode of the cache, and in the in-memory file system. The latter lists a dot, two dots
  -- and names in increasing order; these are the names that the adaptor lists, and those of the regular
  -- files and the directories there.
  pub hello_readdir-adaptor_readdir :
      (read_cache_mode : ReadCaching) (names : List Bytes) (inner : Listing)
      → All IsName names
      → directory_at names listing ≡ some inner
      → (imported : Sha256HashCode) × (db' : B.Database) × (calls : List (Bytes × Stat))
        × (shown : List Bytes) × (from_filesystem_directory B order hardware_concurrency parallel
              root listing db
            ≡ (ok imported, db'))
        × (adaptor_readdir B (b'/' ∷ path_text names) (mounted imported read_cache_mode, db')
            ≡ (ok (pos 0, calls), (mounted imported read_cache_mode, db')))
        × (hello_readdir now (b'/' ∷ path_text names) state
            ≡ (ok (pos 0, codes "." ∷ codes ".." ∷ shown), some (scanned listing empty)))
        × IsIncreasing shown
        × ((name : Bytes)
            → (contains name shown ≡ contains name (names_of calls))
              × (contains name shown ≡ is_some (first name inner)))
  hello_readdir-adaptor_readdir read_cache_mode names inner named there =
      let tree = tree_of sha256 listing in
      let imported = sha256 (directory_blob sha256 tree) in
      let (db', done, ready', stored, _, _) =
        from_filesystem_directory-HasDirectory B sha256 I order hardware_concurrency parallel root
          listing db threads ready importable fits in
      let user = mounted imported read_cache_mode in
      let entries = scanned inner empty in
      (
        imported,
        db',
        listed (entries_of sha256 (tree_of sha256 inner)),
        keys entries,
        done,
        adaptor_readdir-listed_at B sha256 I db' ready' user tree b'/' names stored refl named
            ∙ ap (λ (r : Result (ℤ × List (Bytes × Stat))). (r, (user, db')))
                (listed_at-directory_at sha256 names listing inner there),
        hello_readdir-eq listing now state (path_text names)
            (pos 0, codes "." ∷ codes ".." ∷ keys entries)
            (require_tree-IsScanOf listing now state scannable scan)
            (readdir_impl-listed_at names listing named
              ∙ listed_at-scanned names listing inner there
              ∙ ap (λ (l : List Bytes). ok (pos 0, l)) (list_directory-keys entries)),
        keys-IsIncreasing entries (scanned-IsMap inner empty tt),
        λ name.
            let known =
              contains-keys name entries
              ∙ ap is_some (find-scanned name inner)
              ∙ is_some-element_of name inner in
            (known ∙ sym (contains-names_of sha256 name inner), known),
      )
