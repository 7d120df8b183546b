-- ===== src/FrontEnds/Opening.antt =====
-- What is not there, opened in both front ends: open_impl of in_memory_fuse_frontend/main.cpp and
-- adaptor_open of fuse_adaptor/operations.cpp.
use dogbox.Base.{ℕ, ◌≤◌, ◌≡◌, refl, ap, ◌∙◌, bit_and, Option, none, some, List, ◌∷◌, false}
use dogbox.Base.{All, Bytes, ok}
use dogbox.External.FileSystem.{Listing}
use dogbox.External.Listings.{below_file, AreScannable}
use dogbox.HashCode.{Sha256HashCode}
use dogbox.BlobStorage.Interface.{BlobStore, IsBlobStore}
use dogbox.Paths.{path_text, IsName}
use dogbox.Trees.DirectoryTree.{directory_blob}
use dogbox.Trees.ReadCaching.{ReadCaching}
use dogbox.Trees.Import.{Parallelism}
use dogbox.Trees.ImportDirectory.{from_filesystem_directory}
use dogbox.Trees.ImportDirectory.Tree.{tree_of, AreImportable}
use dogbox.Trees.ImportDirectory.Stored.{from_filesystem_directory-HasDirectory}
use dogbox.FuseAdaptor.{DirectoryEntry}
use dogbox.FuseAdaptor.Attributes.{UserData, enoent, resolve_request}
use dogbox.FuseAdaptor.Files.{adaptor_open}
use dogbox.FuseAdaptor.Resolve.{look_up}
use dogbox.FuseAdaptor.OpenRead.{shown, resolve_request-look_up}
use dogbox.FuseAdaptor.Mounted.{mounted}
use dogbox.FrontEnds.{answered, shown-look_up}
use dogbox.InMemory
use dogbox.InMemory.Scan.{scanned}
use dogbox.InMemory.Operations.{hello_open}
use dogbox.InMemory.Operations.Lookup.{stat_at}
use dogbox.InMemory.Operations.Open.{opened_at-missing, open_impl-opened_at}
use dogbox.InMemory.Operations.Read.{IsScanOf, require_tree-IsScanOf, hello_open-eq}

shown-none : (found : Option DirectoryEntry) → shown found ≡ (enoent, none) → found ≡ none
shown-none none e = refl
shown-none (some resolved) e = absurd (cc)

look_up-missing :
    (sha256 : Bytes → Sha256HashCode) (names : List Bytes) (listing : Listing)
    → below_file names listing ≡ false
    → stat_at names listing ≡ none
    → look_up sha256 names (tree_of sha256 listing) ≡ none
look_up-missing sha256 names listing above e =
    shown-none (look_up sha256 names (tree_of sha256 listing))
      (shown-look_up sha256 names listing above ∙ ap answered e)

adaptor_open-none :
    (B : BlobStore) (path : Bytes) (user : UserData) (db : B.Database)
    → resolve_request B path (user, db) ≡ (ok none, (user, db))
    → adaptor_open B path (user, db) ≡ (ok (enoent, none), (user, db))
unfolding adaptor_open
adaptor_open-none B path user db e = rw e refl

module _ (B : BlobStore) (sha256 : Bytes → Sha256HashCode) (I : IsBlobStore B sha256)
    (order : Bytes → List ℕ) (hardware_concurrency : ℕ) (parallel : Parallelism) (root : Bytes)
    (listing : Listing) (db : B.Database) (threads : 1 ≤ hardware_concurrency)
    (ready : I.IsReady db)
    (importable : AreImportable B sha256 I order hardware_concurrency parallel root listing)
    (fits : I.Fits (directory_blob sha256 (tree_of sha256 listing)))
    (scannable : AreScannable listing) (now : Listing) (state : Option InMemory.Entries)
    (scan : IsScanOf listing now state) where
  -- A directory of importable files and of directories whose blobs fit is imported into a store that is
  -- ready, and its files can be streamed; the in-memory file system scans it, or did so before. Opening
  -- for reading a path of one name or more that leads to no file and no directory, and does not go on
  -- behind a regular file, returns -ENOENT and opens nothing, both in the adaptor that is mounted over
  -- the import, in either mode of the cache, and in the in-memory file system.
  pub hello_open-adaptor_open :
      (read_cache_mode : ReadCaching) (flags : ℕ) (name : Bytes) (names : List Bytes)
      → bit_and flags 3 ≡ 0
      → All IsName (name ∷ names)
      → below_file (name ∷ names) listing ≡ false
      → stat_at (name ∷ names) listing ≡ none
      → let path = b'/' ∷ path_text (name ∷ names) in
        (imported : Sha256HashCode) × (db' : B.Database) × (from_filesystem_directory B order
            hardware_concurrency parallel root listing db
          ≡ (ok imported, db'))
        × (adaptor_open B path (mounted imported read_cache_mode, db')
            ≡ (ok (enoent, none), (mounted imported read_cache_mode, db')))
        × (hello_open now path flags state
            ≡ (ok (enoent, none), some (scanned listing InMemory.empty)))
  hello_open-adaptor_open read_cache_mode flags name names reading named above missing =
      let tree = tree_of sha256 listing in
      let (db', done, ready', stored, _, _) =
        from_filesystem_directory-HasDirectory B sha256 I order hardware_concurrency parallel root
          listing db threads ready importable fits in
      let imported = sha256 (directory_blob sha256 tree) in
      let user = mounted imported read_cache_mode in
      (
        imported,
        db',
        done,
        adaptor_open-none B (b'/' ∷ path_text (name ∷ names)) user db' (
            resolve_request-look_up B sha256 I db' ready' tree stored user refl b'/' (name ∷ names)
              named
            ∙ ap (λ (r : Option DirectoryEntry). (ok r, (user, db')))
                (look_up-missing sha256 (name ∷ names) listing above missing)),
        hello_open-eq listing now state (path_text (name ∷ names)) flags (enoent, none)
            (require_tree-IsScanOf listing now state scannable scan)
            (open_impl-opened_at flags name names listing reading named
              ∙ opened_at-missing (name ∷ names) listing above missing),
      )
