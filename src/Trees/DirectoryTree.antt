-- ===== src/Trees/DirectoryTree.antt =====
-- The tree of directories that blobs stand for: what `trees` writes and `fuse_adaptor` reads.
use dogbox.Base.{ℕ, Option, none, some, List, [], ◌∷◌, ◌++◌, if◌then◌else◌, All, Bytes, bytes_eq}
use dogbox.HashCode.{Sha256HashCode}
use dogbox.BlobStorage.Interface.{BlobStore, IsBlobStore}
use dogbox.Trees.Directory.{regular_file, directory, DecodedEntry}
use dogbox.Trees.Directory.Format.{IsEntry, entry_bytes}

-- The entries of a directory, written one behind the other.
abbrev pub directory_bytes : List DecodedEntry → Bytes
directory_bytes [] = []
directory_bytes (e ∷ entries) = entry_bytes e ++ directory_bytes entries

-- A tree of directories: a file is known by the digest of its index and its size.
mutual
  pub data Node : Type 0 where
    file : Sha256HashCode → ℕ → Node
    folder : Entries → Node

  pub data Entries : Type 0 where
    nothing : Entries
    entry : Bytes → Node → Entries → Entries

-- The entry that a directory has for a node, and all entries of a directory.
abbrev mutual
  pub entry_of : (Bytes → Sha256HashCode) → Bytes → Node → DecodedEntry
  entry_of sha256 name (file h size) = record {
    type = regular_file;
    name = name;
    hash_code = h;
    regular_file_size = size;
  }
  entry_of sha256 name (folder entries) = record {
    type = directory;
    name = name;
    hash_code = sha256 (directory_bytes (entries_of sha256 entries));
    regular_file_size = 0;
  }

  pub entries_of : (Bytes → Sha256HashCode) → Entries → List DecodedEntry
  entries_of sha256 nothing = []
  entries_of sha256 (entry name node entries) =
      entry_of sha256 name node ∷ entries_of sha256 entries

-- The blob of a directory.
abbrev pub directory_blob : (Bytes → Sha256HashCode) → Entries → Bytes
directory_blob sha256 entries = directory_bytes (entries_of sha256 entries)

abbrev pub child : Bytes → Entries → Option Node
child name nothing = none
child name (entry n node entries) = if bytes_eq n name then some node else child name entries

module _ (B : BlobStore) (sha256 : Bytes → Sha256HashCode) (I : IsBlobStore B sha256)
    (db : B.Database) where
  -- Every directory of the tree is stored, and its entries are ones that the format can express.
  abbrev pub HasDirectories : Entries → Type 0
  HasDirectories nothing = Unit
  HasDirectories (entry name (file h size) entries) = HasDirectories entries
  HasDirectories (entry name (folder inner) entries) =
      (I.HoldsBlob db (directory_blob sha256 inner)
        × All IsEntry (entries_of sha256 inner)
        × HasDirectories inner)
      × HasDirectories entries

  abbrev pub HasDirectory : Entries → Type 0
  HasDirectory entries =
      I.HoldsBlob db (directory_blob sha256 entries)
      × All IsEntry (entries_of sha256 entries)
      × HasDirectories entries

module _ (B : BlobStore) (sha256 : Bytes → Sha256HashCode) (I : IsBlobStore B sha256)
    (db db' : B.Database)
    (keeps : (other : Bytes) → I.HoldsBlob db other → I.HoldsBlob db' other) where
  -- A tree stays stored where its blobs do.
  pub HasDirectories-keeps :
      (entries : Entries)
      → HasDirectories B sha256 I db entries
      → HasDirectories B sha256 I db' entries
  HasDirectories-keeps nothing h = tt
  HasDirectories-keeps (entry name (file d size) entries) h = HasDirectories-keeps entries h
  HasDirectories-keeps (entry name (folder inner) entries) ((held, clean, below), h) =
      ((keeps _ held, clean, HasDirectories-keeps inner below), HasDirectories-keeps entries h)
