-- ===== src/FuseAdaptor/Mounted.antt =====
-- The program as a whole: a directory is imported, and served from the digest that the import returns.
use dogbox.Base.{ℕ, ◌+◌, ◌/◌, ◌^◌, ◌≤◌, ◌<◌, ◌≡◌, refl, ap, ◌∙◌, Option, none, some, List, [], ◌∷◌}
use dogbox.Base.{length, take, drop, All, Bytes, ok}
use dogbox.Base.Int.{pos}
use dogbox.External.FileSystem.{content_of, Node, Listing, regular, directory, other}
use dogbox.HashCode.{Sha256HashCode}
use dogbox.BlobStorage.Interface.{BlobStore, IsBlobStore}
use dogbox.Trees.RegularFile.{piece_length}
use dogbox.Trees.Pieces.{piece_count}
use dogbox.Trees.DirectoryTree.{directory_blob}
use dogbox.Trees.ReadCaching.{ReadCaching}
use dogbox.Trees.Import.{Parallelism}
use dogbox.Trees.ImportDirectory.{from_filesystem_directory}
use dogbox.Trees.ImportDirectory.Tree.{tree_of, AreImportable}
use dogbox.Trees.ImportDirectory.Stored.{from_filesystem_directory-HasDirectory}
use dogbox.External.Listings.{first, content_below, content_at}
use dogbox.Trees.ImportDirectory.Contents.{node_of, child-first}
use dogbox.Trees.ImportDirectory.Contents.{content_at-HoldsFile}
use dogbox.FuseAdaptor.Attributes.{UserData, adaptor_getattr}
use dogbox.FuseAdaptor.Files.{adaptor_open, adaptor_read}
use dogbox.Paths.{path_text, IsName}
use dogbox.FuseAdaptor.Resolve.{visit, look_up}
use dogbox.FuseAdaptor.OpenRead.{shown, file_of, adaptor_getattr-look_up, adaptor_read-adaptor_open}

-- Where a directory has a file, its tree has the file's entry.
pub look_up-content_at :
    (sha256 : Bytes → Sha256HashCode) (names : List Bytes) (listing : Listing) (content : Bytes)
    → content_at names listing ≡ some content
    → look_up sha256 names (tree_of sha256 listing) ≡ some (file_of sha256 content)
look_up-content_at sha256 [] listing content e = absurd (cc)
look_up-content_at sha256 (name ∷ names) listing content e =
    ap (visit names (look_up sha256 names)) (child-first sha256 name listing)
    ∙ below names (first name listing) e (look_up-content_at sha256 names)
  where
    below :
        (names : List Bytes) (node : Option Node)
        → content_below names (content_at names) node ≡ some content
        → ((inner : Listing) (content : Bytes)
            → content_at names inner ≡ some content
            → look_up sha256 names (tree_of sha256 inner) ≡ some (file_of sha256 content))
        → visit names (look_up sha256 names) (node_of sha256 node) ≡ some (file_of sha256 content)
    below names none e within = absurd (cc)
    below names (some (other type)) e within = absurd (cc)
    below [] (some (directory inner)) e within = absurd (cc)
    below (n ∷ names) (some (directory inner)) e within = within inner content e
    below [] (some (regular file stream)) e within =
        let same : content_of file ≡ content = cc in
        ap (λ (t : Bytes). some (file_of sha256 t)) same
    below (n ∷ names) (some (regular file stream)) e within = absurd (cc)

-- The user data of an adaptor that is mounted over a root.
abbrev pub mounted : Sha256HashCode → ReadCaching → UserData
mounted root read_cache_mode = record { root = root; files = []; read_cache_mode = read_cache_mode }

module _ (B : BlobStore) (sha256 : Bytes → Sha256HashCode) (I : IsBlobStore B sha256)
    (order : Bytes → List ℕ) (hardware_concurrency : ℕ) (parallel : Parallelism) (root : Bytes)
    (listing : Listing) (db : B.Database) (threads : 1 ≤ hardware_concurrency)
    (ready : I.IsReady db)
    (importable : AreImportable B sha256 I order hardware_concurrency parallel root listing)
    (fits : I.Fits (directory_blob sha256 (tree_of sha256 listing))) where
  -- A directory of importable files and of directories whose blobs fit is imported into a store that is
  -- ready. Mounted over the digest that the import returns, in either mode of the cache, a file of the
  -- directory opens under its path, and every window that starts within its pieces, ends below 2^64 and
  -- has a size that an `int` can hold reads as that window of the file's content, with its length as the
  -- return value.
  pub adaptor_read-from_filesystem_directory :
      (read_cache_mode : ReadCaching) (slash : ℕ) (names : List Bytes) (content : Bytes)
      (size offset : ℕ)
      → All IsName names
      → content_at names listing ≡ some content
      → offset / piece_length ≤ piece_count content
      → offset + size < 2 ^ 64
      → size < 2 ^ 31
      → let window = take size (drop offset content) in
        (imported : Sha256HashCode) × (db' : B.Database) × (fh : ℕ) × (user user' : UserData)
        × (from_filesystem_directory B order hardware_concurrency parallel root listing db
            ≡ (ok imported, db'))
        × (adaptor_open B (slash ∷ path_text names) (mounted imported read_cache_mode, db')
            ≡ (ok (pos 0, some fh), (user, db')))
        × (adaptor_read B size (pos offset) fh (user, db')
            ≡ (ok (pos (length window), window), (user', db')))
  adaptor_read-from_filesystem_directory read_cache_mode slash names content size offset named found
        within below small =
      let tree = tree_of sha256 listing in
      let (db', imported, ready', stored, files, _) =
        from_filesystem_directory-HasDirectory B sha256 I order hardware_concurrency parallel root
          listing db threads ready importable fits in
      let (pieces, index) = content_at-HoldsFile B sha256 I db' names listing content files found in
      let (fh, user, opened, _, reads) =
        adaptor_read-adaptor_open B sha256 I db' ready' tree stored
          (mounted (sha256 (directory_blob sha256 tree)) read_cache_mode) refl slash names named
          content (look_up-content_at sha256 names listing content found) pieces index in
      let (user', read) = reads size offset within below small in
      (sha256 (directory_blob sha256 tree), db', fh, user, user', imported, opened, read)

  -- A directory of importable files and of directories whose blobs fit is imported into a store that is
  -- ready. Mounted over the digest that the import returns, in either mode of the cache, a path of names
  -- shows the attributes of what the tree of the directory's files and subdirectories has there, and
  -- -ENOENT where it has nothing.
  pub adaptor_getattr-from_filesystem_directory :
      (read_cache_mode : ReadCaching) (slash : ℕ) (names : List Bytes)
      → All IsName names
      → (imported : Sha256HashCode) × (db' : B.Database) × (from_filesystem_directory B order
            hardware_concurrency parallel root listing db
          ≡ (ok imported, db'))
        × (adaptor_getattr B (slash ∷ path_text names) (mounted imported read_cache_mode, db') ≡ (
          ok (shown (look_up sha256 names (tree_of sha256 listing))),
          (mounted imported read_cache_mode, db'),
        ))
  adaptor_getattr-from_filesystem_directory read_cache_mode slash names named =
      let tree = tree_of sha256 listing in
      let (db', imported, ready', stored, _, _) =
        from_filesystem_directory-HasDirectory B sha256 I order hardware_concurrency parallel root
          listing db threads ready importable fits in
      (
        sha256 (directory_blob sha256 tree),
        db',
        imported,
        adaptor_getattr-look_up B sha256 I db' ready' tree stored
            (mounted (sha256 (directory_blob sha256 tree)) read_cache_mode) refl slash names named,
      )
