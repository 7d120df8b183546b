-- ===== src/FuseAdaptor/Attributes.antt =====
-- fuse_adaptor/operations.cpp: `adaptor_getattr` and `adaptor_readdir`, and fuse_adaptor/user_data.h.
-- The result of an operation is its return code, with what it writes on success.
use dogbox.Base.{ℕ, zero, suc, ◌-◌, ◌^◌, bit_or, Option, none, some, List, [], ◌∷◌, ◌++◌, ltb}
use dogbox.Base.{if◌then◌else◌, length, drop, Bytes, Result, ok, throw, to_do, out_of_fuel, ◌>>=◌}
use dogbox.Base.Int.{ℤ, pos, negsuc}
use dogbox.Base.Action.{Action, pure, raise, proceed}
use dogbox.HashCode.{Sha256HashCode}
use dogbox.BlobStorage.Interface.{BlobStore}
use dogbox.Trees.Directory.{EntryType, regular_file, directory, DecodedEntry, decode_entry}
use dogbox.Trees.ReadCaching.{ReadCaching}
use dogbox.Trees.ReadFile.{OpenFile}
use dogbox.FuseAdaptor.{DirectoryEntry, blob_or_to_do, resolve_path}

-- The database stands beside it in the state.
pub record UserData : Type 0 where
  pub root : Sha256HashCode
  pub files : List (Option OpenFile)
  pub read_cache_mode : ReadCaching

-- -ENOENT and -EISDIR
abbrev pub enoent : ℤ
enoent = negsuc 1

abbrev pub eisdir : ℤ
eisdir = negsuc 20

-- The members of `struct stat` that are set; the others are 0.
pub record Stat : Type 0 where
  pub st_mode : ℕ
  pub st_nlink : ℕ
  pub st_size : ℤ

-- The conversion of an unsigned to a signed 64-bit number.
abbrev pub to_off_t : ℕ → ℤ
to_off_t n = if ltb n (2 ^ 63) then pos n else negsuc (2 ^ 64 - 1 - n)

-- `S_IFREG | 0444` and `S_IFDIR | 0755`
abbrev pub file_mode : ℕ
file_mode = bit_or 0x8000 0x124

abbrev pub directory_mode : ℕ
directory_mode = bit_or 0x4000 0x1ed

abbrev pub stat_of : EntryType → ℕ → Stat
stat_of regular_file size = record { st_mode = file_mode; st_nlink = 1; st_size = to_off_t size }
stat_of directory size = record { st_mode = directory_mode; st_nlink = 2; st_size = pos 0 }

unfoldable pub directory_entry_to_stat : DirectoryEntry → Stat
directory_entry_to_stat entry = stat_of entry.type entry.regular_file_size

-- What the filler is called with.
unfoldable pub filled : DecodedEntry → Bytes × Stat
unfolding directory_entry_to_stat
filled entry = (
  entry.name,
  directory_entry_to_stat (record {
    type = entry.type;
    hash_code = entry.hash_code;
    regular_file_size = entry.regular_file_size;
  }),
)

-- The loop of `adaptor_readdir`, with the calls of the filler so far, on fuel as in `find_entry`.
unfoldable pub readdir_loop : ℕ → Bytes → List (Bytes × Stat) → Result (List (Bytes × Stat))
unfolding filled
readdir_loop fuel [] calls = ok calls
readdir_loop zero (b ∷ cursor) calls = throw out_of_fuel
readdir_loop (suc fuel) (b ∷ cursor) calls = elim (decode_entry (b ∷ cursor)) [
  | none ↦ throw to_do
  | some (entry, cursor') ↦ readdir_loop fuel cursor' (calls ++ filled entry ∷ [])
]

module _ (B : BlobStore) where
  abbrev pub UserState : Type 0
  UserState = UserData × B.Database

  -- The path behind its first character, resolved from the root.
  unfoldable pub resolve_request : Bytes → Action UserState (Option DirectoryEntry)
  resolve_request request_path (user, database) =
      let (result, database') = resolve_path B user.root (drop 1 request_path) database in
      (result, (user, database'))

  abbrev attributes : Option DirectoryEntry → Action UserState (ℤ × Option Stat)
  attributes none = pure (enoent, none)
  attributes (some resolved) = pure (pos 0, some (directory_entry_to_stat resolved))

  unfoldable pub adaptor_getattr : Bytes → Action UserState (ℤ × Option Stat)
  unfolding resolve_request
  adaptor_getattr request_path state = proceed (resolve_request request_path state) attributes

  -- The blob of a directory, listed.
  unfoldable pub read_directory : Sha256HashCode → Action UserState (ℤ × List (Bytes × Stat))
  unfolding readdir_loop
  read_directory hash_code (user, database) =
      let (result, database') = B.load_blob hash_code database in
      (
        result >>= λ root_blob. blob_or_to_do root_blob >>= λ blob.
            readdir_loop (length blob) blob [] >>= λ calls. ok (pos 0, calls),
        (user, database'),
      )

  abbrev pub list_resolved : Option DirectoryEntry → Action UserState (ℤ × List (Bytes × Stat))
  list_resolved none = pure (enoent, [])
  list_resolved (some resolved) = elim resolved.type [
    | directory ↦ read_directory resolved.hash_code
    | regular_file ↦ raise to_do
  ]

  unfoldable pub adaptor_readdir : Bytes → Action UserState (ℤ × List (Bytes × Stat))
  unfolding resolve_request read_directory
  adaptor_readdir request_path state = proceed (resolve_request request_path state) list_resolved
