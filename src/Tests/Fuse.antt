-- ===== src/Tests/Fuse.antt =====
-- The theorems on the operations of the file system, over a database with two directories.
use dogbox.Trees.Directory.{decode_entry}
use dogbox.Base.{find, ◌++◌, throw, to_do, ℕ, ◌≡◌, ◌≢◌, refl, sym, ◌⊎◌, inl, inr, true, none, some}
use dogbox.Base.{List, [], ◌∷◌, arith, Bool-cases, length, replicate, take, drop, All, Bytes}
use dogbox.Base.{bytes_eq, bytes_eq_iff, codes, ok, IsByte}
use dogbox.Base.Int.{pos}
use dogbox.HashCode.{to_string}
use dogbox.External.Sqlite.{Row}
use dogbox.BlobStorage.Load.{packed}
use dogbox.BlobStorage.Blobs.{IsDigest, IsStorable}
use dogbox.BlobStorage.Interface.{IsBlobStore, blob_storage-IsBlobStore}
use dogbox.Trees.Directory.{regular_file}
use dogbox.Trees.Directory.Format.{IsEntry}
use dogbox.Trees.ReadCaching.{ReadCaching}
use dogbox.Trees.ReadFile.{OpenFile}
use dogbox.FuseAdaptor.{DirectoryEntry, find_entry, resolve_path}
use dogbox.FuseAdaptor.FindEntry
use dogbox.FuseAdaptor.FindEntry.{first_named, find_entry-entries, find_entry-Outcome}
use dogbox.FuseAdaptor.Attributes.{UserData}
use dogbox.FuseAdaptor.ListedPaths.{listed_at, adaptor_readdir-listed_at}
use dogbox.FuseAdaptor.Attributes.{adaptor_readdir}
use dogbox.Trees.DirectoryTree.{
  HasDirectory, Entries, file, folder, nothing, entry, directory_blob, entries_of,
}
use dogbox.Paths.{path_text, IsName}
use dogbox.FuseAdaptor.Resolve.{look_up, resolve_path-look_up}
use dogbox.FuseAdaptor.Files.{adaptor_open}
use dogbox.FuseAdaptor.OpenRead.{file_of, adaptor_read-adaptor_open}
use dogbox.Trees.RegularFile.{piece_length}
use dogbox.Trees.RegularFileIndex.Load.{index_bytes}
use dogbox.Trees.Pieces.{piece_count}
use dogbox.Base.{◌+◌, ◌/◌, ◌^◌, ◌<◌, ◌≤◌}
use dogbox.FuseAdaptor.Files.{adaptor_read}
use dogbox.FuseAdaptor.OpenFiles.{Opens}
use dogbox.FuseAdaptor.Handles.{IsOpen}
use dogbox.Tests.World.{Table, table_sqlite, table_sqlite-IsSqlite, plain_lz4, plain_lz4-IsLz4}
use dogbox.Tests.World.{toy_sha256, toy_sha256-IsDigest, all_of_sound, All-bytes}
use dogbox.Tests.World
use dogbox.Tests.Storage.{text}
use dogbox.Tests.Files.{blobs, open_text}

-- /d/f
abbrev pub inner : Entries
inner = entry (codes "f") (file (toy_sha256 text) 4) nothing

abbrev pub root : Entries
root = entry (codes "d") (folder inner) nothing

abbrev pub inner_blob : Bytes
inner_blob = directory_blob toy_sha256 inner

abbrev pub root_blob : Bytes
root_blob = directory_blob toy_sha256 root

abbrev pub Listed : Bytes → Type 0
Listed content = (content ≡ root_blob) ⊎ ((content ≡ inner_blob) ⊎ (content ≡ text))

root-inner : toy_sha256 root_blob ≢ toy_sha256 inner_blob
unfolding replicate
root-inner e = absurd (cc)

root-text : toy_sha256 root_blob ≢ toy_sha256 text
unfolding replicate
root-text e = absurd (cc)

inner-text : toy_sha256 inner_blob ≢ toy_sha256 text
unfolding replicate
inner-text e = absurd (cc)

pub no_collision : (a b : Bytes) → Listed a → Listed b → toy_sha256 a ≡ toy_sha256 b → a ≡ b
no_collision a b (inl p) (inl q) e = cc
no_collision a b (inr (inl p)) (inr (inl q)) e = cc
no_collision a b (inr (inr p)) (inr (inr q)) e = cc
no_collision a b (inl p) (inr (inl q)) e = absurd (root-inner (cc))
no_collision a b (inr (inl p)) (inl q) e = absurd (root-inner (cc))
no_collision a b (inl p) (inr (inr q)) e = absurd (root-text (cc))
no_collision a b (inr (inr p)) (inl q) e = absurd (root-text (cc))
no_collision a b (inr (inl p)) (inr (inr q)) e = absurd (inner-text (cc))
no_collision a b (inr (inr p)) (inr (inl q)) e = absurd (inner-text (cc))

pub toy_sha256-Listed : IsDigest toy_sha256 Listed
toy_sha256-Listed = record {
  sha256-IsHashCode = toy_sha256-IsDigest.sha256-IsHashCode;
  no_collision = no_collision;
}

unfoldable pub tree_blobs-IsBlobStore : IsBlobStore blobs toy_sha256
unfolding blob_storage-IsBlobStore
tree_blobs-IsBlobStore =
    blob_storage-IsBlobStore table_sqlite table_sqlite-IsSqlite plain_lz4 plain_lz4-IsLz4 toy_sha256
      Listed toy_sha256-Listed

abbrev pub tree_stored : Table
tree_stored = record {
  created = true;
  rows =
      (to_string (toy_sha256 root_blob), packed plain_lz4 root_blob)
      ∷ (to_string (toy_sha256 inner_blob), packed plain_lz4 inner_blob)
      ∷ (to_string (toy_sha256 text), packed plain_lz4 text)
      ∷ [];
}

pub root-IsStorable : IsStorable plain_lz4 Listed root_blob
unfolding replicate
root-IsStorable = record { known = inl refl; small = omega arith; short = omega arith }

pub inner-IsStorable : IsStorable plain_lz4 Listed inner_blob
unfolding replicate
inner-IsStorable = record { known = inr (inl refl); small = omega arith; short = omega arith }

pub text-Listed : IsStorable plain_lz4 Listed text
text-Listed = record { known = inr (inr refl); small = omega arith; short = omega arith }

tree_row :
    (key : Bytes) (r : Row)
    → World.look_up tree_stored.rows key ≡ some r
    → (content : Bytes) × (key ≡ to_string (toy_sha256 content))
      × (r ≡ packed plain_lz4 content)
      × IsStorable plain_lz4 Listed content
tree_row key r e = elim (Bool-cases (bytes_eq (to_string (toy_sha256 root_blob)) key)) [
  | inl same ↦ (root_blob, sym ((bytes_eq_iff _ key).0 same), cc (rw same at e), root-IsStorable)
  | inr other ↦ elim (Bool-cases (bytes_eq (to_string (toy_sha256 inner_blob)) key)) [
    | inl same ↦ (
      inner_blob,
      sym ((bytes_eq_iff _ key).0 same),
      cc (rw (other, same) at e),
      inner-IsStorable,
    )
    | inr neither ↦ elim (Bool-cases (bytes_eq (to_string (toy_sha256 text)) key)) [
      | inl same ↦ (
        text,
        sym ((bytes_eq_iff _ key).0 same),
        cc (rw (other, neither, same) at e),
        text-Listed,
      )
      | inr unknown ↦ absurd (cc (rw (other, neither, unknown) at e))
    ]
  ]
]

pub tree-IsReady : tree_blobs-IsBlobStore.IsReady tree_stored
unfolding tree_blobs-IsBlobStore table_sqlite-IsSqlite
tree-IsReady = record { table = refl; rows = tree_row }

root_entries-IsEntry : All IsEntry (entries_of toy_sha256 root)
root_entries-IsEntry = (
  record {
    named = ((λ e. absurd (omega (arith, e))), tt);
    hashed = toy_sha256-IsDigest.sha256-IsHashCode inner_blob;
    sized = refl;
  },
  tt,
)

inner_entries-IsEntry : All IsEntry (entries_of toy_sha256 inner)
inner_entries-IsEntry = (
  record {
    named = ((λ e. absurd (omega (arith, e))), tt);
    hashed = toy_sha256-IsDigest.sha256-IsHashCode text;
    sized = omega arith;
  },
  tt,
)

pub root-HasDirectory : HasDirectory blobs toy_sha256 tree_blobs-IsBlobStore tree_stored root
unfolding tree_blobs-IsBlobStore table_sqlite-IsSqlite to_string bytes_eq replicate
root-HasDirectory = (
  (refl, root-IsStorable),
  root_entries-IsEntry,
  (((refl, inner-IsStorable), inner_entries-IsEntry, tt), tt),
)

abbrev pub names : List Bytes
names = codes "d" ∷ codes "f" ∷ []

pub names-IsName : All IsName names
names-IsName = (
  (omega arith, ((λ e. absurd (omega (arith, e))), tt)),
  ((omega arith, ((λ e. absurd (omega (arith, e))), tt)), tt),
)

resolve_path-look_up_example :
    resolve_path blobs (toy_sha256 root_blob) (path_text names) tree_stored
    ≡ (ok (look_up toy_sha256 names root), tree_stored)
resolve_path-look_up_example =
    resolve_path-look_up blobs toy_sha256 tree_blobs-IsBlobStore tree_stored tree-IsReady names root
      names-IsName root-HasDirectory

-- A byte that is the type of no entry, behind the entries.
abbrev broken_blob : Bytes
broken_blob = root_blob ++ 7 ∷ []

broken_blob-IsByte : All IsByte broken_blob
unfolding replicate
broken_blob-IsByte = All-bytes broken_blob refl

find_entry-broken_blob : find_entry broken_blob (codes "x") ≡ throw to_do
unfolding replicate find_entry bytes_eq decode_entry find
find_entry-broken_blob = refl

find_entry-Outcome_example :
    FindEntry.Outcome broken_blob (codes "x") (find_entry broken_blob (codes "x"))
find_entry-Outcome_example = find_entry-Outcome broken_blob (codes "x") broken_blob-IsByte

abbrev user : UserData
user = record {
  root = toy_sha256 root_blob;
  files = none ∷ some open_text ∷ none ∷ [];
  read_cache_mode = ReadCaching.one_piece;
}

adaptor_readdir-listed_at_example :
    adaptor_readdir blobs (b'/' ∷ path_text (codes "d" ∷ [])) (user, tree_stored)
    ≡ (listed_at toy_sha256 (codes "d" ∷ []) root, (user, tree_stored))
adaptor_readdir-listed_at_example =
    adaptor_readdir-listed_at blobs toy_sha256 tree_blobs-IsBlobStore tree_stored tree-IsReady user
      root b'/' (codes "d" ∷ []) root-HasDirectory refl (names-IsName.0, tt)

abbrev resolved : DirectoryEntry
resolved = record { type = regular_file; hash_code = toy_sha256 text; regular_file_size = 4 }

open_text-IsOpen : IsOpen toy_sha256 text open_text
open_text-IsOpen = record { file_size = refl; hash_code = refl; index = inr refl; cache = tt }

found_text : look_up toy_sha256 names root ≡ some (file_of toy_sha256 text)
unfolding bytes_eq
found_text = refl

pub text-HoldsBlob : tree_blobs-IsBlobStore.HoldsBlob tree_stored (index_bytes toy_sha256 text)
unfolding tree_blobs-IsBlobStore table_sqlite-IsSqlite to_string bytes_eq replicate
text-HoldsBlob = (refl, text-Listed)

adaptor_read-adaptor_open_example :
    (fh : ℕ) × (user' : UserData) × (adaptor_open blobs (b'/' ∷ path_text names) (user, tree_stored)
      ≡ (ok (pos 0, some fh), (user', tree_stored)))
    × ((j : ℕ) (other : OpenFile) → Opens user.files j other → (j ≢ fh) × Opens user'.files j other)
    × ((size offset : ℕ)
        → offset / piece_length ≤ piece_count text
        → offset + size < 2 ^ 64
        → size < 2 ^ 31
        → let window = take size (drop offset text) in
          (user'' : UserData) × (adaptor_read blobs size (pos offset) fh (user', tree_stored)
            ≡ (ok (pos (length window), window), (user'', tree_stored))))
adaptor_read-adaptor_open_example =
    adaptor_read-adaptor_open blobs toy_sha256 tree_blobs-IsBlobStore tree_stored tree-IsReady root
      root-HasDirectory user refl b'/' names names-IsName text found_text
      (λ i h. absurd (omega (arith, h))) text-HoldsBlob
