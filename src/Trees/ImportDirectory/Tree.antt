-- ===== src/Trees/ImportDirectory/Tree.antt =====
-- The tree that a directory of the file system stands for, what its import relies on, and what a
-- database holds of it.
use dogbox.Base.{ℕ, ◌<◌, ◌≢◌, refl, List}
use dogbox.Base.{length, All, Bytes}
use dogbox.External.FileSystem.{File, content_of, Listing, end, entry, regular, directory}
use dogbox.External.FileSystem.{other}
use dogbox.HashCode.{Sha256HashCode}
use dogbox.BlobStorage.Interface.{BlobStore, IsBlobStore}
use dogbox.Trees.RegularFile.{IsU64}
use dogbox.Trees.Directory.Format.{IsEntry}
use dogbox.Trees.DirectoryTree.{
  Entries, entry_of, entries_of, directory_blob, HasDirectories, HasDirectory,
}
use dogbox.Trees.DirectoryTree
use dogbox.Trees.DirectoryTree.{HasDirectories-keeps}
use dogbox.Trees.Pieces.{piece_count, piece}
use dogbox.Trees.RegularFileIndex.Load.{index_bytes}
use dogbox.Trees.ParallelFor.{workers, Interleaving}
use dogbox.Trees.Import
use dogbox.Trees.Import.{Parallelism, RegularFileImported, from_filesystem_regular_file}
use dogbox.Trees.Import.Stored.{IsImportable}
use dogbox.Trees.ImportDirectory.{entry_path}

-- The tree that a directory becomes: what is neither a regular file nor a directory is left out.
abbrev pub tree_of : (Bytes → Sha256HashCode) → Listing → Entries
tree_of sha256 end = DirectoryTree.nothing
tree_of sha256 (entry name (regular file stream) i) =
    DirectoryTree.entry name
      (DirectoryTree.file (sha256 (index_bytes sha256 (content_of file)))
        (length (content_of file)))
      (tree_of sha256 i)
tree_of sha256 (entry name (directory inner) i) =
    DirectoryTree.entry name (DirectoryTree.folder (tree_of sha256 inner)) (tree_of sha256 i)
tree_of sha256 (entry name (other type) i) = tree_of sha256 i

-- A filename has no zero byte.
abbrev pub IsFilename : Bytes → Type 0
IsFilename name = All (λ b. b ≢ 0) name

module _ (B : BlobStore) (sha256 : Bytes → Sha256HashCode) (I : IsBlobStore B sha256) where
  -- The pieces and the index of a content are stored.
  abbrev pub HoldsFile : B.Database → Bytes → Type 0
  HoldsFile db content =
      ((i : ℕ) → i < piece_count content → I.HoldsBlob db (piece i content))
      × I.HoldsBlob db (index_bytes sha256 content)

  abbrev pub HoldsFiles : B.Database → Listing → Type 0
  HoldsFiles db end = Unit
  HoldsFiles db (entry name (regular file stream) i) =
      HoldsFile db (content_of file) × HoldsFiles db i
  HoldsFiles db (entry name (directory inner) i) = HoldsFiles db inner × HoldsFiles db i
  HoldsFiles db (entry name (other type) i) = HoldsFiles db i

  abbrev pub Keeps : B.Database → B.Database → Type 0
  Keeps db db' = (blob : Bytes) → I.HoldsBlob db blob → I.HoldsBlob db' blob

  pub HoldsFiles-Keeps :
      (db db' : B.Database) (listing : Listing)
      → Keeps db db'
      → HoldsFiles db listing
      → HoldsFiles db' listing
  HoldsFiles-Keeps db db' end keeps h = tt
  HoldsFiles-Keeps db db' (entry name (regular file stream) i) keeps ((pieces, index), h) =
      ((λ k below. keeps _ (pieces k below), keeps _ index), HoldsFiles-Keeps db db' i keeps h)
  HoldsFiles-Keeps db db' (entry name (directory inner) i) keeps (h', h) =
      (HoldsFiles-Keeps db db' inner keeps h', HoldsFiles-Keeps db db' i keeps h)
  HoldsFiles-Keeps db db' (entry name (other type) i) keeps h = HoldsFiles-Keeps db db' i keeps h

module _ (B : BlobStore) (sha256 : Bytes → Sha256HashCode) (I : IsBlobStore B sha256)
    (order : Bytes → List ℕ) (hardware_concurrency : ℕ) (parallel : Parallelism) where
  -- What the import of a directory relies on: files that can be imported, each in an order in which
  -- its workers may run, of sizes that 64 bits can hold, and subdirectories whose blobs fit.
  abbrev pub IsImportableFile : Bytes → Bytes → File → Type 0
  IsImportableFile root name file =
      IsFilename name
      × IsImportable B sha256 I file (content_of file)
      × IsU64 (length (content_of file))
      × Interleaving
          (workers
            (Import.concurrency_for parallel hardware_concurrency (piece_count (content_of file)))
            (piece_count (content_of file)))
          (order (entry_path root name))

  abbrev pub AreImportable : Bytes → Listing → Type 0
  AreImportable root end = Unit
  AreImportable root (entry name (regular file stream) i) =
      IsImportableFile root name file × AreImportable root i
  AreImportable root (entry name (directory inner) i) =
      (IsFilename name
        × I.Fits (directory_blob sha256 (tree_of sha256 inner))
        × AreImportable (entry_path root name) inner)
      × AreImportable root i
  AreImportable root (entry name (other type) i) = AreImportable root i

  -- The entries of an importable directory are ones that the format can express.
  pub entries_of-IsEntry :
      (root : Bytes) (listing : Listing)
      → AreImportable root listing
      → All IsEntry (entries_of sha256 (tree_of sha256 listing))
  entries_of-IsEntry root end v = tt
  entries_of-IsEntry root (entry name (regular file stream) i) ((named, _, small, _), v) = (
    record { named = named; hashed = I.sha256-IsHashCode _; sized = small },
    entries_of-IsEntry root i v,
  )
  entries_of-IsEntry root (entry name (directory inner) i) ((named, _, _), v) = (
    record { named = named; hashed = I.sha256-IsHashCode _; sized = refl },
    entries_of-IsEntry root i v,
  )
  entries_of-IsEntry root (entry name (other type) i) v = entries_of-IsEntry root i v
