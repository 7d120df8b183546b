-- ===== src/Trees/ImportDirectory.antt =====
-- trees/import.cpp, `from_filesystem_directory`: a directory becomes a blob of its entries.
-- Each regular file is imported in an order of its own, which its path picks.
pub mod Tree
pub mod Stored
pub mod Contents
pub mod SameIndex
pub mod Identity
use dogbox.Base.{ℕ, List, [], ◌∷◌, ◌++◌, Bytes}
use dogbox.Base.Action.{Action, pure, ◌>>=◌}
use dogbox.External.FileSystem.{Listing, end, entry, regular, directory, other}
use dogbox.HashCode.{Sha256HashCode}
use dogbox.BlobStorage.Interface.{BlobStore}
use dogbox.Trees.Directory
use dogbox.Trees.Directory.{encode_entry}
use dogbox.Trees.Import.{Parallelism, from_filesystem_regular_file}

-- `i->path()`: the directory's path and the filename.
abbrev pub entry_path : Bytes → Bytes → Bytes
entry_path root name = root ++ b'/' ∷ name

module _ (B : BlobStore) (order : Bytes → List ℕ) (hardware_concurrency : ℕ)
    (parallel : Parallelism) where
  -- The loop over the iterator, with the bytes `encoded` so far. A subdirectory is imported by the
  -- same loop, whose result is stored.
  unfoldable pub import_entries : Bytes → Listing → Bytes → Action B.Database Bytes
  import_entries root end encoded = pure encoded
  import_entries root (entry name (regular file stream) i) encoded = do
    imported ←
        from_filesystem_regular_file B (order (entry_path root name)) hardware_concurrency file
          parallel
    import_entries root i
        (encode_entry Directory.regular_file name imported.hash_code imported.content_size encoded)
  import_entries root (entry name (directory inner) i) encoded = do
    content ← import_entries (entry_path root name) inner []
    subdirectory ← B.store_blob content
    import_entries root i (encode_entry Directory.directory name subdirectory 0 encoded)
  import_entries root (entry name (other type) i) encoded = import_entries root i encoded

  unfoldable pub from_filesystem_directory : Bytes → Listing → Action B.Database Sha256HashCode
  unfolding import_entries
  from_filesystem_directory root i = import_entries root i [] >>= λ encoded. B.store_blob encoded
