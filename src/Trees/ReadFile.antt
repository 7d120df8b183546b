-- ===== src/Trees/ReadFile.antt =====
-- trees/open_file.h and read_file.cpp: reading a part of a file, piece by piece.
-- The state is the open file and the database. A span that is written to is its size, and the result
-- is the list of the bytes written, as many as the function returns.
pub mod Select
pub mod Window
pub mod PastEnd
use dogbox.Base.{
  ℕ, zero, suc, ◌+◌, ◌-◌, ◌*◌, ◌/◌, ◌%◌, ◌^◌, min, Bool, true, false, Option, none, some,
}
use dogbox.Base.{
  List, [], ◌∷◌, ◌++◌, ltb, leb, ◌==◌, if◌then◌else◌, length, take, drop, get_or, Bytes,
}
use dogbox.Base.{ok, throw, to_do, assertion_failed}
use dogbox.Base.Action.{Action, pure, raise, guard, proceed, ◌>>=◌, ◌>>◌}
use dogbox.HashCode.{Sha256HashCode}
use dogbox.BlobStorage.Interface.{BlobStore}
use dogbox.Trees.RegularFile.{piece_length}
use dogbox.Trees.RegularFileIndex.{RegularFileIndex}
use dogbox.Trees.ReadCaching.{ReadCaching}

pub record OpenFile : Type 0 where
  pub file_size : ℕ
  pub hash_code : Sha256HashCode
  pub index : Option RegularFileIndex
  pub cached_piece : Option ℕ
  pub read_cache : Bytes

-- `current_piece_index == file.cached_piece`
abbrev pub is_cached : ℕ → Option ℕ → Bool
is_cached i none = false
is_cached i (some j) = i == j

-- `index.pieces[i]`, behind the test that `i` is in range.
abbrev pub piece_at : RegularFileIndex → ℕ → Sha256HashCode
piece_at index i = get_or index.pieces i (record { digits = [] })

module _ (B : BlobStore) where
  abbrev pub FileState : Type 0
  FileState = OpenFile × B.Database

  -- A call that reads the database only.
  abbrev on_database : {A : Type 0} → Action B.Database A → Action FileState A
  on_database action (file, database) =
      let (result, database') = action database in (result, (file, database'))

  -- The vector `loaded_piece` holds the last piece, and is passed on.
  unfoldable pub load_uncached : Sha256HashCode → Bytes → Action FileState (Bytes × Bytes)
  load_uncached hash_code loaded_piece = do
    (found, content) ← on_database (B.load_blob_into hash_code loaded_piece)
    guard found to_do
    pure (content, content)

  -- The vector that is written is the file's cache.
  unfoldable pub load_cached : ℕ → Sha256HashCode → Bytes → Action FileState (Bytes × Bytes)
  load_cached i hash_code loaded_piece (file, database) =
      proceed (on_database (B.load_blob_into hash_code file.read_cache) (file, database))
        λ (found, content). (λ (file', database').
          (guard found to_do >> pure (content, loaded_piece)) (
            (if found
                then record file' { cached_piece = some i; read_cache = content }
                else record file' { read_cache = content }),
            database',
          ))

  unfoldable pub load_piece :
      ReadCaching → ℕ → Sha256HashCode → Bytes → Action FileState (Bytes × Bytes)
  unfolding load_uncached load_cached
  load_piece ReadCaching.none i hash_code loaded_piece = load_uncached hash_code loaded_piece
  load_piece ReadCaching.one_piece i hash_code loaded_piece = load_cached i hash_code loaded_piece

  -- The piece that `piece` points to in one round, and `loaded_piece` afterwards.
  unfoldable pub select_piece :
      RegularFileIndex → ReadCaching → ℕ → Bytes → Action FileState (Bytes × Bytes)
  unfolding load_piece
  select_piece index caching i loaded_piece (file, database) =
      if is_cached i file.cached_piece
      then (ok (file.read_cache, loaded_piece), (file, database))
      else if ltb i (length index.pieces)
      then load_piece caching i (piece_at index i) loaded_piece (file, database)
      else (ok (index.tail, loaded_piece), (file, database))

  -- The `while` loop: the fuel, `read_cursor`, `remaining_size`, `loaded_piece`, and the bytes
  -- written. Each round writes a byte at least, so `remaining_size` rounds are enough.
  unfoldable pub read_loop :
      RegularFileIndex → ReadCaching → ℕ → ℕ → ℕ → Bytes → Bytes → Action FileState Bytes
  unfolding select_piece
  read_loop index caching zero cursor remaining loaded_piece out state = (ok out, state)
  read_loop index caching (suc fuel) cursor zero loaded_piece out state = (ok out, state)
  read_loop index caching (suc fuel) cursor (suc remaining') loaded_piece out state =
      let remaining = suc remaining' in
      proceed (select_piece index caching (cursor / piece_length) loaded_piece state)
        λ (piece, loaded_piece').
          (let offset_in_piece = cursor % piece_length in
            let copying = min (length piece - offset_in_piece) remaining in
            let rest =
              read_loop index caching fuel ((cursor + copying) % 2 ^ 64) (remaining - copying)
                loaded_piece' (out ++ take copying (drop offset_in_piece piece)) in
            if leb (length piece) offset_in_piece then pure out else rest)

  abbrev read_index : Option RegularFileIndex → ReadCaching → ℕ → ℕ → Action FileState Bytes
  read_index none caching offset size = raise assertion_failed
  read_index (some index) caching offset size = read_loop index caching size offset size [] []

  -- `file.index` does not change while the file is read, and is looked up once.
  unfoldable pub read_file : ReadCaching → ℕ → ℕ → Action FileState Bytes
  unfolding read_loop
  read_file caching offset size (file, database) =
      read_index file.index caching offset size (file, database)
