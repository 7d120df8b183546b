-- ===== src/Trees/ReadFile/Window.antt =====
-- `read_file` reads the window of the file's content that was asked for.
use dogbox.Base.{
  ℕ, zero, suc, ◌+◌, ◌-◌, ◌/◌, ◌%◌, ◌^◌, ◌≤◌, ◌<◌, min, ◌≡◌, refl, sym, ap, ◌∙◌, inl, inr,
}
use dogbox.Base.{true, false, some, leb, leb→le, leb_false→lt, Bool-cases, arith}
use dogbox.Base.{[], ◌++◌, append-nil, append_assoc, length, take, drop, drop_all}
use dogbox.Base.{take_split, drop-drop, Bytes, ok}
use dogbox.HashCode.{Sha256HashCode}
use dogbox.BlobStorage.Interface.{BlobStore, IsBlobStore}
use dogbox.Trees.RegularFile.{piece_length}
use dogbox.Trees.RegularFileIndex.{RegularFileIndex}
use dogbox.Trees.Pieces.{piece_count, piece, length-piece, take-drop-piece}
use dogbox.Trees.ReadCaching.{ReadCaching}
use dogbox.Trees.ReadFile.{OpenFile, FileState, select_piece, read_loop, read_index, read_file}
use dogbox.Trees.RegularFileIndex.Load.{index_of}
use dogbox.Trees.ReadFile.Select.{CacheHolds, SameFile, SameFile-refl, SameFile-trans}
use dogbox.Trees.ReadFile.Select.{select_piece-piece}

-- A position within a piece and how much one round copies from there.
abbrev offset_in : ℕ → ℕ
offset_in cursor = cursor % piece_length

abbrev copying : Bytes → ℕ → ℕ → ℕ
copying content cursor remaining =
    min (length (piece (cursor / piece_length) content) - offset_in cursor) remaining

-- Where the piece ends before the cursor, so does the file.
end_of_file :
    (content : Bytes) (cursor : ℕ)
    → length (piece (cursor / piece_length) content) ≤ offset_in cursor
    → length content ≤ cursor
end_of_file content cursor h = omega (arith, length-piece (cursor / piece_length) content)

-- A round copies the next bytes of the content.
copied :
    (content : Bytes) (cursor remaining : ℕ)
    → offset_in cursor < length (piece (cursor / piece_length) content)
    → take
        (copying content cursor remaining)
        (drop (offset_in cursor) (piece (cursor / piece_length) content))
      ≡ take (copying content cursor remaining) (drop cursor content)
copied content cursor remaining h =
    take-drop-piece (cursor / piece_length) (offset_in cursor) (copying content cursor remaining)
      cursor content (omega arith) (omega (arith, length-piece (cursor / piece_length) content))

-- What a round writes and what the rounds behind it write make up the window.
joined :
    (content out : Bytes) (cursor remaining : ℕ)
    → offset_in cursor < length (piece (cursor / piece_length) content)
    → (out
          ++ take
              (copying content cursor remaining)
              (drop (offset_in cursor) (piece (cursor / piece_length) content)))
        ++ take
            (remaining - copying content cursor remaining)
            (drop (cursor + copying content cursor remaining) content)
      ≡ out ++ take remaining (drop cursor content)
joined content out cursor remaining h =
    let count = copying content cursor remaining in
    let part : Bytes = take count (drop cursor content) in
    let behind : drop count (drop cursor content) ≡ drop (cursor + count) content =
      drop-drop cursor count (cursor + count) content refl in
    rw (copied content cursor remaining h, sym behind)
      (append_assoc out part (take (remaining - count) (drop count (drop cursor content)))
        ∙ ap (λ (bytes : Bytes). out ++ bytes)
            (sym
              (take_split count (remaining - count) remaining (drop cursor content) (omega arith))))

-- A round that does not stop copies a byte at least, and stays within the file.
advances :
    (content : Bytes) (cursor remaining : ℕ)
    → offset_in cursor < length (piece (cursor / piece_length) content)
    → (0 < copying content cursor (suc remaining))
      × (copying content cursor (suc remaining) ≤ suc remaining)
      × ((cursor + copying content cursor (suc remaining)) / piece_length ≤ piece_count content)
advances content cursor remaining h =
    let size = length-piece (cursor / piece_length) content in
    (omega arith, omega arith, omega (arith, size))

-- One round, for whatever piece it selects.
module _ (B : BlobStore) (index : RegularFileIndex) (caching : ReadCaching)
    (fuel cursor remaining : ℕ) (loaded_piece out bytes loaded_piece' : Bytes)
    (state state' : FileState B)
    (selected : select_piece B index caching (cursor / piece_length) loaded_piece state
      ≡ (ok (bytes, loaded_piece'), state')) where
  pub read_loop_stop :
      leb (length bytes) (offset_in cursor) ≡ true
      → read_loop B index caching (suc fuel) cursor (suc remaining) loaded_piece out state
        ≡ (ok out, state')
  unfolding read_loop
  read_loop_stop stop = rw (selected, stop) refl

  pub read_loop_more :
      leb (length bytes) (offset_in cursor) ≡ false
      → (count : ℕ) → count ≡ min (length bytes - offset_in cursor) (suc remaining)
      → cursor + count < 2 ^ 64
      → read_loop B index caching (suc fuel) cursor (suc remaining) loaded_piece out state
        ≡ read_loop B index caching fuel
            (cursor + count)
            (suc remaining - count)
            loaded_piece'
            (out ++ take count (drop (offset_in cursor) bytes))
            state'
  unfolding read_loop
  read_loop_more more count e b =
      let unwrapped : (cursor + count) % 2 ^ 64 ≡ cursor + count = omega arith in
      rw (selected, more, sym e, unwrapped) refl

module _ (B : BlobStore) (sha256 : Bytes → Sha256HashCode) (I : IsBlobStore B sha256)
    (content : Bytes) (db : B.Database) (ready : I.IsReady db)
    (held : (i : ℕ) → i < piece_count content → I.HoldsBlob db (piece i content)) where
  -- The outcome of a loop that has written `out` and goes on from `cursor`.
  abbrev Reads : ReadCaching → ℕ → ℕ → ℕ → Bytes → Bytes → OpenFile → Type 0
  Reads caching fuel cursor remaining loaded_piece out file =
      (file' : OpenFile) × (read_loop B (index_of sha256 content) caching fuel cursor remaining
          loaded_piece out (file, db)
        ≡ (ok (out ++ take remaining (drop cursor content)), (file', db)))
      × CacheHolds content file'.cached_piece file'.read_cache
      × SameFile file file'

  read_loop-window :
      (caching : ReadCaching) (fuel cursor remaining : ℕ) (loaded_piece out : Bytes)
      (file : OpenFile)
      → remaining ≤ fuel
      → cursor / piece_length ≤ piece_count content
      → cursor + remaining < 2 ^ 64
      → CacheHolds content file.cached_piece file.read_cache
      → Reads caching fuel cursor remaining loaded_piece out file
  read_loop-window caching zero cursor zero loaded_piece out file f h b cache = (
    file,
    unfold read_loop in ap (λ (bytes : Bytes). (ok bytes, (file, db))) (sym (append-nil out)),
    cache,
    SameFile-refl file,
  )
  read_loop-window caching zero cursor (suc remaining) loaded_piece out file f h b cache =
      absurd (omega arith)
  read_loop-window caching (suc fuel) cursor zero loaded_piece out file f h b cache = (
    file,
    unfold read_loop in ap (λ (bytes : Bytes). (ok bytes, (file, db))) (sym (append-nil out)),
    cache,
    SameFile-refl file,
  )
  read_loop-window caching (suc fuel) cursor (suc remaining) loaded_piece out file f h b cache =
      let (file', loaded_piece', selected, cache', same) =
        select_piece-piece B sha256 I content db ready held caching (cursor / piece_length)
          loaded_piece file cache h in
      let bytes = piece (cursor / piece_length) content in
      elim (Bool-cases (leb (length bytes) (offset_in cursor))) [
        | inl stop ↦
            let ended =
              end_of_file content cursor (leb→le (length bytes) (offset_in cursor) stop) in
            (
              file',
              read_loop_stop B (index_of sha256 content) caching fuel cursor remaining loaded_piece
                    out bytes loaded_piece' (file, db) (file', db) selected stop
                  ∙ ap (λ (written : Bytes). (ok written, (file', db)))
                      (sym (append-nil out)
                        ∙ ap (λ (b : Bytes). out ++ take (suc remaining) b)
                            (sym (drop_all cursor content ended))),
              cache',
              same,
            )
        | inr more ↦
            let inside = leb_false→lt (length bytes) (offset_in cursor) more in
            let (some_byte, no_more, within) = advances content cursor remaining inside in
            let count = copying content cursor (suc remaining) in
            let (file'', rest, cache'', same') =
              read_loop-window caching fuel (cursor + count) (suc remaining - count) loaded_piece'
                (out ++ take count (drop (offset_in cursor) bytes)) file' (omega arith) within
                (omega arith) cache' in
            (
              file'',
              read_loop_more B (index_of sha256 content) caching fuel cursor remaining loaded_piece
                    out bytes loaded_piece' (file, db) (file', db) selected more count refl
                    (omega arith)
                  ∙ rest
                  ∙ ap (λ (written : Bytes). (ok written, (file'', db)))
                      (joined content out cursor (suc remaining) inside),
              cache'',
              SameFile-trans file file' file'' same same',
            )
      ]

  -- In a store that is ready and holds the pieces of a content, reading `size` bytes at `offset`
  -- from an open file with the content's index and a cache that holds what it names, in either
  -- mode of the cache, returns those bytes of the content that the window covers: fewer at the end
  -- of the file, none at it. The database and the file stay as they are, but for the cache, which
  -- goes on holding what it names. The offset may lie anywhere up to the end of the piece behind
  -- the full ones, and the window ends below 2^64.
  pub read_file-window :
      (caching : ReadCaching) (offset size : ℕ) (file : OpenFile)
      → file.index ≡ some (index_of sha256 content)
      → CacheHolds content file.cached_piece file.read_cache
      → offset / piece_length ≤ piece_count content
      → offset + size < 2 ^ 64
      → (file' : OpenFile) × (read_file B caching offset size (file, db)
          ≡ (ok (take size (drop offset content)), (file', db)))
        × CacheHolds content file'.cached_piece file'.read_cache
        × SameFile file file'
  unfolding read_file
  read_file-window caching offset size file e cache h b =
      let (file', read, cache', same) =
        read_loop-window caching size offset size [] [] file (omega arith) h b cache in
      (
        file',
        ap (λ index. read_index B index caching offset size (file, db)) e ∙ read,
        cache',
        same,
      )
