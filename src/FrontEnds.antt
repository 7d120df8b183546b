-- ===== src/FrontEnds.antt =====
-- The two front ends over one directory: the adaptor over its import (fuse_adaptor/operations.cpp) and
-- the in-memory file system over its scan (in_memory_fuse_frontend/main.cpp).
pub mod Names
pub mod Readdir
pub mod Opening
use dogbox.Base.{
  ℕ, ◌+◌, ◌/◌, ◌^◌, ◌≤◌, ◌<◌, ◌≡◌, refl, sym, ap, ◌∙◌, bit_and, Option, none, some, List, [], ◌∷◌,
  length,
}
use dogbox.Base.{Bool, true, false, take, drop, All, Bytes, Result, ok}
use dogbox.Base.Int.{ℤ, pos}
use dogbox.External.FileSystem.{content_of, Node, Listing, regular, directory, other}
use dogbox.External.Listings.{below_file, below_file_node, first, content_at, AreScannable}
use dogbox.HashCode.{Sha256HashCode}
use dogbox.BlobStorage.Interface.{BlobStore, IsBlobStore}
use dogbox.Paths.{path_text, IsName}
use dogbox.Trees.RegularFile.{piece_length}
use dogbox.Trees.Pieces.{piece_count}
use dogbox.Trees.DirectoryTree
use dogbox.Trees.DirectoryTree.{directory_blob}
use dogbox.Trees.ReadCaching.{ReadCaching}
use dogbox.Trees.Import.{Parallelism}
use dogbox.Trees.ImportDirectory.{from_filesystem_directory}
use dogbox.Trees.ImportDirectory.Tree.{tree_of, AreImportable}
use dogbox.Trees.ImportDirectory.Contents.{node_of, child-first}
use dogbox.FuseAdaptor
use dogbox.FuseAdaptor.Attributes.{enoent, UserData, Stat, directory_entry_to_stat, adaptor_getattr}
use dogbox.FuseAdaptor.StatValues.{code_of, or_zeros}
use dogbox.FuseAdaptor.Files.{adaptor_open, adaptor_read}
use dogbox.FuseAdaptor.Resolve.{visit, look_up}
use dogbox.FuseAdaptor.OpenRead.{shown, file_of}
use dogbox.Trees.Directory
use dogbox.FuseAdaptor.Mounted.{
  mounted, adaptor_read-from_filesystem_directory, adaptor_getattr-from_filesystem_directory,
}
use dogbox.InMemory.{Entries, empty}
use dogbox.InMemory.Scan.{scanned}
use dogbox.InMemory.Operations.{
  getattr_impl, hello_getattr, hello_open, hello_read, require_tree, returned_stat,
}
use dogbox.InMemory.Operations.Lookup.{stat_of_node, stat_at, getattr_impl-stat_at}
use dogbox.InMemory.Operations.Read.{IsScanOf, require_tree-IsScanOf, hello_read-hello_open}

-- What `stat` is to show of the attributes that a path has.
abbrev pub answered : Option Stat → ℤ × Option Stat
answered found = (code_of found, found)

-- The tree of a directory has the attributes that the in-memory file system has, but behind a file.
pub shown-look_up :
    (sha256 : Bytes → Sha256HashCode) (names : List Bytes) (listing : Listing)
    → below_file names listing ≡ false
    → shown (look_up sha256 names (tree_of sha256 listing)) ≡ answered (stat_at names listing)
unfolding directory_entry_to_stat
shown-look_up sha256 [] listing e = refl
shown-look_up sha256 (name ∷ names) listing e =
    ap (λ (node : Option DirectoryTree.Node). shown (visit names (look_up sha256 names) node))
      (child-first sha256 name listing)
    ∙ below names (first name listing) e (shown-look_up sha256 names)
  where
    below :
        (names : List Bytes) (node : Option Node)
        → below_file_node names (below_file names) node ≡ false
        → ((inner : Listing)
            → below_file names inner ≡ false
            → shown (look_up sha256 names (tree_of sha256 inner)) ≡ answered (stat_at names inner))
        → shown (visit names (look_up sha256 names) (node_of sha256 node))
          ≡ answered (stat_of_node (stat_at names) node)
    below names none e within = refl
    below names (some (other type)) e within = refl
    below names (some (directory inner)) e within = within inner e
    below (n ∷ names) (some (regular file stream)) e within = absurd (cc)
    below [] (some (regular file stream)) e within = refl

returned_stat-values : (found : Option Stat) → returned_stat found ≡ (code_of found, or_zeros found)
returned_stat-values none = refl
returned_stat-values (some attributes) = refl

hello_getattr-eq :
    (listing now : Listing) (state : Option Entries) (names : List Bytes) (found : Option Stat)
    → require_tree now state ≡ (ok (scanned listing empty), some (scanned listing empty))
    → getattr_impl (path_text names) (scanned listing empty) ≡ ok found
    → hello_getattr now (b'/' ∷ path_text names) state
      ≡ (ok (code_of found, or_zeros found), some (scanned listing empty))
unfolding hello_getattr
hello_getattr-eq listing now state names found a b = rw (a, b, returned_stat-values found) refl

module _ (B : BlobStore) (sha256 : Bytes → Sha256HashCode) (I : IsBlobStore B sha256)
    (order : Bytes → List ℕ) (hardware_concurrency : ℕ) (parallel : Parallelism) (root : Bytes)
    (listing : Listing) (db : B.Database) (threads : 1 ≤ hardware_concurrency)
    (ready : I.IsReady db)
    (importable : AreImportable B sha256 I order hardware_concurrency parallel root listing)
    (fits : I.Fits (directory_blob sha256 (tree_of sha256 listing)))
    (scannable : AreScannable listing) (now : Listing) (state : Option Entries)
    (scan : IsScanOf listing now state) where
  -- A directory of importable files and of directories whose blobs fit is imported into a store that is
  -- ready, and its files can be streamed; the in-memory file system scans it, or did so before. A path of
  -- names that does not go on behind a regular file is answered alike by the adaptor that is mounted over
  -- the import, in either mode of the cache, and by the in-memory file system: with 0 and the attributes
  -- of the file or the directory that it leads to (0100444, one link and the file's size, or 040755 and
  -- two links), and with -ENOENT where it leads to neither; there the in-memory file system has cleared
  -- the attributes.
  pub hello_getattr-adaptor_getattr :
      (read_cache_mode : ReadCaching) (names : List Bytes)
      → All IsName names
      → below_file names listing ≡ false
      → let found = stat_at names listing in
        (imported : Sha256HashCode) × (db' : B.Database) × (from_filesystem_directory B order
            hardware_concurrency parallel root listing db
          ≡ (ok imported, db'))
        × (adaptor_getattr B (b'/' ∷ path_text names) (mounted imported read_cache_mode, db')
            ≡ (ok (answered found), (mounted imported read_cache_mode, db')))
        × (hello_getattr now (b'/' ∷ path_text names) state
            ≡ (ok (code_of found, or_zeros found), some (scanned listing empty)))
  hello_getattr-adaptor_getattr read_cache_mode names named above =
      let (imported, db', done, shows) =
        adaptor_getattr-from_filesystem_directory B sha256 I order hardware_concurrency parallel
          root listing db threads ready importable fits read_cache_mode b'/' names named in
      (
        imported,
        db',
        done,
        shows
            ∙ ap (λ (r : ℤ × Option Stat). (ok r, (mounted imported read_cache_mode, db')))
                (shown-look_up sha256 names listing above),
        hello_getattr-eq listing now state names (stat_at names listing)
            (require_tree-IsScanOf listing now state scannable scan)
            (getattr_impl-stat_at names listing named),
      )

  -- A directory of importable files and of directories whose blobs fit is imported into a store that is
  -- ready, and its files can be streamed; the in-memory file system scans it, or did so before. The
  -- adaptor that is mounted over the import, in either mode of the cache, and the in-memory file system
  -- both open a file of the directory under its path, for reading. Every window that starts within the
  -- file's pieces, ends below 2^64 and has a size that an `int` can hold reads alike in both, with the
  -- same return value and the same bytes.
  pub hello_read-adaptor_read :
      (read_cache_mode : ReadCaching) (flags : ℕ) (names : List Bytes) (content : Bytes)
      (size offset : ℕ)
      → bit_and flags 3 ≡ 0
      → All IsName names
      → content_at names listing ≡ some content
      → offset / piece_length ≤ piece_count content
      → offset + size < 2 ^ 64
      → size < 2 ^ 31
      → (imported : Sha256HashCode) × (db' : B.Database) × (fh : ℕ) × (handle : Option Bytes)
        × (user user' : UserData) × (result : ℤ × Bytes) × (from_filesystem_directory B order
              hardware_concurrency parallel root listing db
            ≡ (ok imported, db'))
        × (adaptor_open B (b'/' ∷ path_text names) (mounted imported read_cache_mode, db')
            ≡ (ok (pos 0, some fh), (user, db')))
        × (hello_open now (b'/' ∷ path_text names) flags state
            ≡ (ok (pos 0, handle), some (scanned listing empty)))
        × (adaptor_read B size (pos offset) fh (user, db') ≡ (ok result, (user', db')))
        × (hello_read handle size (pos offset) ≡ ok result)
  hello_read-adaptor_read read_cache_mode flags names content size offset reading named found within
        below small =
      let (imported, db', fh, user, user', done, opened, read) =
        adaptor_read-from_filesystem_directory B sha256 I order hardware_concurrency parallel root
          listing db threads ready importable fits read_cache_mode b'/' names content size offset
          named found within below small in
      let (handle, opened', read') =
        hello_read-hello_open listing now state flags names content size offset scannable scan
          reading named found small in
      let window = take size (drop offset content) in
      (
        imported,
        db',
        fh,
        handle,
        user,
        user',
        (pos (length window), window),
        done,
        opened,
        opened',
        read,
        read',
      )
