-- ===== src/FuseAdaptor.antt =====
-- fuse_adaptor/operations.cpp and user_data.h: the operations of the file system over the blobs.
-- The children have the operations; this file has the resolution of a path. A path is its characters.
pub mod FindEntry
pub mod Resolve
pub mod Attributes
pub mod StatValues
pub mod Listing
pub mod Files
pub mod Table
pub mod OpenFiles
pub mod Handles
pub mod OpenRead
pub mod Mounted
pub mod ListedPaths
pub mod Session
pub mod Requests
use dogbox.Base.{ℕ, zero, suc, Bool, true, false, Option, none, some, List, []}
use dogbox.Base.{◌∷◌, length, Bytes, bytes_eq, Result, ok, throw, to_do, out_of_fuel}
use dogbox.Base.Action.{Action, pure, raise, lift, ◌>>=◌}
use dogbox.HashCode.{Sha256HashCode}
use dogbox.BlobStorage.Interface.{BlobStore}
use dogbox.Paths.{split_path}
use dogbox.Trees.Directory.{EntryType, regular_file, directory, DecodedEntry, decode_entry}

pub record DirectoryEntry : Type 0 where
  pub type : EntryType
  pub hash_code : Sha256HashCode
  pub regular_file_size : ℕ

-- The loop of `find_entry`, on fuel. Each round decodes a byte at least, so that as many rounds as
-- there are bytes are enough.
unfoldable pub find_entry_loop : ℕ → Bytes → Bytes → Result (Option DecodedEntry)
find_entry_loop fuel [] entry_name = ok none
find_entry_loop zero (b ∷ cursor) entry_name = throw out_of_fuel
find_entry_loop (suc fuel) (b ∷ cursor) entry_name = elim (decode_entry (b ∷ cursor)) [
  | none ↦ throw to_do
  | some (entry, cursor') ↦ elim (bytes_eq entry.name entry_name) [
    | true ↦ ok (some entry)
    | false ↦ find_entry_loop fuel cursor' entry_name
  ]
]

unfoldable pub find_entry : Bytes → Bytes → Result (Option DecodedEntry)
unfolding find_entry_loop
find_entry blob entry_name = find_entry_loop (length blob) blob entry_name

abbrev pub blob_or_to_do {ℓ} : {A : Type ℓ} → Option A → Result A
blob_or_to_do none = throw to_do
blob_or_to_do (some a) = ok a

module _ (B : BlobStore) where
  -- The cases of `resolve_path` on what was found, and the result for the tail of the path.
  abbrev pub resolve_entry :
      Option DecodedEntry
      → Bytes
      → (Sha256HashCode → Action B.Database (Option DirectoryEntry))
      → Action B.Database (Option DirectoryEntry)
  resolve_entry none tail resolve_tail = pure none
  resolve_entry (some entry) tail resolve_tail = elim entry.type [
    | directory ↦ resolve_tail entry.hash_code
    | regular_file ↦ elim tail [
      | [] ↦ pure (
          some (record {
            type = regular_file;
            hash_code = entry.hash_code;
            regular_file_size = entry.regular_file_size;
          }))
      | c ∷ tail' ↦ pure none
    ]
  ]

  -- The recursion, on fuel: a path is longer than its tail.
  unfoldable pub resolve_path_loop :
      ℕ → Sha256HashCode → Bytes → Action B.Database (Option DirectoryEntry)
  resolve_path_loop zero root resolving = raise out_of_fuel
  resolve_path_loop (suc fuel) root resolving =
      let split = split_path resolving in
      let resolve_tail = λ (h : Sha256HashCode). resolve_path_loop fuel h split.tail in
      elim split.head [
        | [] ↦ pure (some (record { type = directory; hash_code = root; regular_file_size = 0 }))
        | c ∷ head ↦
            (B.load_blob root >>= λ root_blob. lift (blob_or_to_do root_blob) >>= λ blob.
            lift (find_entry blob (c ∷ head)) >>= λ found.
            resolve_entry found split.tail resolve_tail)
      ]

  unfoldable pub resolve_path : Sha256HashCode → Bytes → Action B.Database (Option DirectoryEntry)
  unfolding resolve_path_loop split_path
  resolve_path root resolving = resolve_path_loop (suc (length resolving)) root resolving
