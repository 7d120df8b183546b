-- ===== src/FuseAdaptor/Files.antt =====
-- fuse_adaptor/operations.cpp: `adaptor_open`, `adaptor_release` and `adaptor_read`. A descriptor
-- `file->fh` is the index of a slot of `user.files`.
use dogbox.Base.{ℕ, suc, ◌-◌, ◌%◌, ◌^◌, Option, none, some, List, [], ◌∷◌, ◌++◌, ltb}
use dogbox.Base.{if◌then◌else◌, length, set, get_or, Bytes, Result, ok, throw, assertion_failed}
use dogbox.Base.{undefined_behaviour}
use dogbox.Base.Int.{ℤ, pos, negsuc}
use dogbox.Base.Action.{Action, pure, proceed}
use dogbox.Base.Action
use dogbox.BlobStorage.Interface.{BlobStore}
use dogbox.Trees.Directory.{regular_file, directory}
use dogbox.Trees.RegularFileIndex.{RegularFileIndex, load_regular_file_index}
use dogbox.Trees.ReadFile.{OpenFile, read_file}
use dogbox.FuseAdaptor.{DirectoryEntry}
use dogbox.FuseAdaptor.Attributes.{UserState, resolve_request, enoent, eisdir}

-- The loop over the slots from `i` on: the first one that is free.
unfoldable pub free_slot : ℕ → List (Option OpenFile) → Option ℕ
free_slot i [] = none
free_slot i (none ∷ files) = some i
free_slot i (some opened ∷ files) = free_slot (suc i) files

-- The slot that is taken, and the slots afterwards.
abbrev pub place : Option ℕ → OpenFile → List (Option OpenFile) → ℕ × List (Option OpenFile)
place none opened files = (length files, files ++ some opened ∷ [])
place (some i) opened files = (i, set files i (some opened))

unfoldable pub take_slot : OpenFile → List (Option OpenFile) → ℕ × List (Option OpenFile)
unfolding free_slot
take_slot opened files = place (free_slot 0 files) opened files

abbrev pub newly_opened : DirectoryEntry → OpenFile
newly_opened resolved = record {
  file_size = resolved.regular_file_size;
  hash_code = resolved.hash_code;
  index = none;
  cached_piece = none;
  read_cache = [];
}

-- `static_cast<int>` of a `size_t`, and the conversion of an `off_t` to `length_type`.
abbrev pub to_int : ℕ → ℤ
to_int n = let m = n % 2 ^ 32 in if ltb m (2 ^ 31) then pos m else negsuc (2 ^ 32 - 1 - m)

abbrev pub to_length_type : ℤ → ℕ
to_length_type (pos n) = n
to_length_type (negsuc n) = 2 ^ 64 - suc n

-- `*user.files[file->fh]`
abbrev opened_in : Option OpenFile → Result OpenFile
opened_in none = throw undefined_behaviour
opened_in (some opened) = ok opened

unfoldable pub opened_at : List (Option OpenFile) → ℕ → Result OpenFile
opened_at files fh =
    if ltb fh (length files) then opened_in (get_or files fh none) else throw assertion_failed

module _ (B : BlobStore) where
  -- The file is opened in a slot of its own.
  unfoldable pub open_resolved : DirectoryEntry → Action (UserState B) (ℤ × Option ℕ)
  unfolding take_slot
  open_resolved resolved (user, database) =
      let (fh, files) = take_slot (newly_opened resolved) user.files in
      (ok (pos 0, some fh), (record user { files = files }, database))

  abbrev pub open_entry : Option DirectoryEntry → Action (UserState B) (ℤ × Option ℕ)
  open_entry none = pure (enoent, none)
  open_entry (some resolved) = elim resolved.type [
    | directory ↦ pure (eisdir, none)
    | regular_file ↦ open_resolved resolved
  ]

  unfoldable pub adaptor_open : Bytes → Action (UserState B) (ℤ × Option ℕ)
  unfolding open_resolved
  adaptor_open request_path state = proceed (resolve_request B request_path state) open_entry

  -- `operator[]` does not test its index.
  unfoldable pub adaptor_release : ℕ → Action (UserState B) ℤ
  adaptor_release fh (user, database) =
      if ltb fh (length user.files)
      then (ok (pos 0), (record user { files = set user.files fh none }, database))
      else (throw undefined_behaviour, (user, database))

  -- The index is loaded when the file is read for the first time.
  abbrev index_or_load : Option RegularFileIndex → OpenFile → Action B.Database OpenFile
  index_or_load (some index) opened = pure opened
  index_or_load none opened =
      Action.◌>>=◌ (load_regular_file_index B opened.file_size opened.hash_code)
        λ index. pure (record opened { index = some index })

  unfoldable pub with_index : OpenFile → Action B.Database OpenFile
  with_index opened = index_or_load opened.index opened

  -- The return value and the bytes that are written to `into`.
  abbrev read_opened : ℕ → ℤ → ℕ → OpenFile → Action (UserState B) (ℤ × Bytes)
  read_opened size offset fh opened (user, database) =
      let (read, (opened', database')) =
        read_file B user.read_cache_mode (to_length_type offset) size (opened, database) in
      proceed (read, (record user { files = set user.files fh (some opened') }, database'))
        λ bytes. pure (to_int (length bytes), bytes)

  unfoldable pub adaptor_read : ℕ → ℤ → ℕ → Action (UserState B) (ℤ × Bytes)
  unfolding with_index opened_at
  adaptor_read size offset fh (user, database) =
      proceed (opened_at user.files fh, (user, database))
        λ opened (user, database).
          (let (indexed, database') = with_index opened database in
            proceed (indexed, (user, database')) (read_opened size offset fh))
