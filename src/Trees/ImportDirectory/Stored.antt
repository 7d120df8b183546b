-- ===== src/Trees/ImportDirectory/Stored.antt =====
-- Importing a directory stores the tree of its regular files and subdirectories.
use dogbox.Base.{ℕ, ◌≤◌, ◌≡◌, refl, sym, ap, ◌∙◌, List, [], ◌++◌, append-nil, append_assoc}
use dogbox.Base.{length, Bytes, Result, ok}
use dogbox.Base.Action.{Action, proceed}
use dogbox.External.FileSystem.{File, Stream, content_of, Listing, end, entry, regular, directory}
use dogbox.External.FileSystem.{other, FileType}
use dogbox.HashCode.{Sha256HashCode}
use dogbox.BlobStorage.Interface.{BlobStore, IsBlobStore}
use dogbox.Trees.Directory
use dogbox.Trees.Directory.Format.{entry_bytes, encode, encode-append}
use dogbox.Trees.DirectoryTree.{
  Entries, entry_of, entries_of, directory_blob, HasDirectories, HasDirectory,
}
use dogbox.Trees.DirectoryTree
use dogbox.Trees.DirectoryTree.{HasDirectories-keeps}
use dogbox.Trees.RegularFileIndex.Load.{index_bytes}
use dogbox.Trees.Import.{Parallelism, RegularFileImported, from_filesystem_regular_file}
use dogbox.Trees.Import.RegularFile.{import-stored}
use dogbox.Trees.ImportDirectory.{entry_path, import_entries, from_filesystem_directory}
use dogbox.Trees.ImportDirectory.Tree.{
  tree_of, AreImportable, Keeps, HoldsFiles, HoldsFiles-Keeps, entries_of-IsEntry,
}

module _ (B : BlobStore) (sha256 : Bytes → Sha256HashCode) (I : IsBlobStore B sha256)
    (order : Bytes → List ℕ) (hardware_concurrency : ℕ) (parallel : Parallelism) where
  -- What the import of some entries leaves.
  pub record Imports (db db' : B.Database) (listing : Listing) : Type 0 where
    pub ready : I.IsReady db'
    pub keeps : Keeps B sha256 I db db'
    pub directories : HasDirectories B sha256 I db' (tree_of sha256 listing)
    pub files : HoldsFiles B sha256 I db' listing

  abbrev run : Bytes → Listing → Bytes → Action B.Database Bytes
  run = import_entries B order hardware_concurrency parallel

  file-eq :
      (root name encoded : Bytes) (file : File) (stream : Stream) (i : Listing)
      (db db' : B.Database) (imported : RegularFileImported) (end' : Result Bytes × B.Database)
      → from_filesystem_regular_file B
          (order (entry_path root name))
          hardware_concurrency
          file
          parallel
          db
        ≡ (ok imported, db')
      → run root i
          (Directory.encode_entry Directory.regular_file name imported.hash_code
            imported.content_size encoded)
          db'
        ≡ end'
      → run root (entry name (regular file stream) i) encoded db ≡ end'
  unfolding import_entries
  file-eq root name encoded file stream i db db' imported end' a b = rw a b

  directory-eq :
      (root name encoded content : Bytes) (inner i : Listing) (db db1 db2 : B.Database)
      (subdirectory : Sha256HashCode) (end' : Result Bytes × B.Database)
      → run (entry_path root name) inner [] db ≡ (ok content, db1)
      → B.store_blob content db1 ≡ (ok subdirectory, db2)
      → run root i (Directory.encode_entry Directory.directory name subdirectory 0 encoded) db2
        ≡ end'
      → run root (entry name (directory inner) i) encoded db ≡ end'
  unfolding import_entries
  directory-eq root name encoded content inner i db db1 db2 subdirectory end' a b c = rw (a, b) c

  other-eq :
      (root name encoded : Bytes) (type : FileType) (i : Listing) (db : B.Database)
      → run root (entry name (other type) i) encoded db ≡ run root i encoded db
  unfolding import_entries
  other-eq root name encoded type i db = refl

  -- The bytes of one more entry and those of the others.
  joined :
      (name : Bytes) (node : DirectoryTree.Node) (entries : Entries) (encoded : Bytes)
      → encode (entry_of sha256 name node) encoded ++ directory_blob sha256 entries
        ≡ encoded ++ directory_blob sha256 (DirectoryTree.entry name node entries)
  joined name node entries encoded =
      ap (λ (t : Bytes). t ++ directory_blob sha256 entries)
        (encode-append (entry_of sha256 name node) encoded)
      ∙ append_assoc encoded (entry_bytes (entry_of sha256 name node))
          (directory_blob sha256 entries)

  import_entries-Imports :
      (root : Bytes) (listing : Listing) (encoded : Bytes) (db : B.Database)
      → 1 ≤ hardware_concurrency
      → I.IsReady db
      → AreImportable B sha256 I order hardware_concurrency parallel root listing
      → (db' : B.Database) × (run root listing encoded db
          ≡ (ok (encoded ++ directory_blob sha256 (tree_of sha256 listing)), db'))
        × Imports db db' listing
  import_entries-Imports root end encoded db h ready v = (
    db,
    unfold import_entries in ap (λ (t : Bytes). (ok t, db)) (sym (append-nil encoded)),
    record { ready = ready; keeps = λ b held. held; directories = tt; files = tt },
  )
  import_entries-Imports root (entry name (regular file stream) i) encoded db h ready
        ((named, importable, small, runs), v) =
      let content = content_of file in
      let (db1, imported, index, (ready1, pieces, keeps1)) =
        import-stored B sha256 I file content importable hardware_concurrency parallel db h ready
          runs in
      let node = DirectoryTree.file (sha256 (index_bytes sha256 content)) (length content) in
      let (db2, done, w) =
        import_entries-Imports root i (encode (entry_of sha256 name node) encoded) db1 h ready1 v in
      (
        db2,
        file-eq root name encoded file stream i db db1 _ _ imported done
            ∙ ap (λ (t : Bytes). (ok t, db2)) (joined name node (tree_of sha256 i) encoded),
        record {
          ready = w.ready;
          keeps = λ b held. w.keeps b (keeps1 b held);
          directories = w.directories;
          files = ((λ k below. w.keeps _ (pieces k below), w.keeps _ index), w.files);
        },
      )
  import_entries-Imports root (entry name (directory inner) i) encoded db h ready
        ((named, fits, below), v) =
      let path = entry_path root name in
      let tree = tree_of sha256 inner in
      let content = directory_blob sha256 tree in
      let (db1, done1, w1) = import_entries-Imports path inner [] db h ready below in
      let (db2, stored, ready2, held, keeps2) = I.store_blob-Fits db1 content w1.ready fits in
      let node = DirectoryTree.folder tree in
      let (db3, done, w) =
        import_entries-Imports root i (encode (entry_of sha256 name node) encoded) db2 h ready2 v in
      let later : Keeps B sha256 I db1 db3 = λ b k. w.keeps b (keeps2 b k) in
      (
        db3,
        directory-eq root name encoded content inner i db db1 db2 (sha256 content) _ done1 stored
              done
            ∙ ap (λ (t : Bytes). (ok t, db3)) (joined name node (tree_of sha256 i) encoded),
        record {
          ready = w.ready;
          keeps = λ b k. later b (w1.keeps b k);
          directories = (
            (
              w.keeps content held,
              entries_of-IsEntry B sha256 I order hardware_concurrency parallel path inner below,
              HasDirectories-keeps B sha256 I db1 db3 later tree w1.directories,
            ),
            w.directories,
          );
          files = (HoldsFiles-Keeps B sha256 I db1 db3 inner later w1.files, w.files);
        },
      )
  import_entries-Imports root (entry name (other type) i) encoded db h ready v =
      let (db', done, w) = import_entries-Imports root i encoded db h ready v in
      (
        db',
        other-eq root name encoded type i db ∙ done,
        record { ready = w.ready; keeps = w.keeps; directories = w.directories; files = w.files },
      )

  -- Importing a directory, whose files can be imported and whose directories' blobs fit, into a store
  -- that is ready and with at least one hardware thread, in any orders of the files' pieces, returns the
  -- digest of the blob of the tree of its files and subdirectories; the store then is ready, and holds
  -- every directory of the tree, the pieces and the index of every file, and all that it held before.
  pub from_filesystem_directory-HasDirectory :
      (root : Bytes) (listing : Listing) (db : B.Database)
      → 1 ≤ hardware_concurrency
      → I.IsReady db
      → AreImportable B sha256 I order hardware_concurrency parallel root listing
      → I.Fits (directory_blob sha256 (tree_of sha256 listing))
      → (db' : B.Database) × (from_filesystem_directory B order hardware_concurrency parallel root
            listing db
          ≡ (ok (sha256 (directory_blob sha256 (tree_of sha256 listing))), db'))
        × I.IsReady db'
        × HasDirectory B sha256 I db' (tree_of sha256 listing)
        × HoldsFiles B sha256 I db' listing
        × Keeps B sha256 I db db'
  unfolding from_filesystem_directory
  from_filesystem_directory-HasDirectory root listing db h ready v fits =
      let tree = tree_of sha256 listing in
      let (db1, done, w) = import_entries-Imports root listing [] db h ready v in
      let (db2, stored, ready2, held, keeps) =
        I.store_blob-Fits db1 (directory_blob sha256 tree) w.ready fits in
      (
        db2,
        ap (λ r. proceed r (λ encoded. B.store_blob encoded)) done ∙ stored,
        ready2,
        (
          held,
          entries_of-IsEntry B sha256 I order hardware_concurrency parallel root listing v,
          HasDirectories-keeps B sha256 I db1 db2 keeps tree w.directories,
        ),
        HoldsFiles-Keeps B sha256 I db1 db2 listing keeps w.files,
        λ b k. keeps b (w.keeps b k),
      )
