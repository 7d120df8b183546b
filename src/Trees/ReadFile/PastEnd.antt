-- ===== src/Trees/ReadFile/PastEnd.antt =====
-- What `read_file` does behind the last piece of a file.
use dogbox.Base.{
  ℕ, zero, suc, ◌+◌, ◌-◌, ◌*◌, ◌/◌, ◌%◌, ◌^◌, ◌≤◌, ◌<◌, min, ◌≡◌, refl, sym, ap, ◌∙◌, inl, inr,
}
use dogbox.Base.{false, Option, none, some, leb, leb→le, leb_false→lt, Bool-cases, arith, ltb}
use dogbox.Base.{[], ◌++◌, append-nil, append_assoc, length, take, drop, drop_all}
use dogbox.Base.{take_split, drop-drop, Bytes, ok, le→ltb_false, length-drop}
use dogbox.HashCode.{Sha256HashCode}
use dogbox.BlobStorage.Interface.{BlobStore}
use dogbox.Trees.RegularFile.{piece_length}
use dogbox.Trees.Pieces.{piece_count, tail_of, piece_hashes, length-piece_hashes}
use dogbox.Trees.ReadCaching.{ReadCaching}
use dogbox.Trees.ReadFile.{OpenFile, is_cached, select_piece, read_loop, read_index, read_file}
use dogbox.Trees.RegularFileIndex.Load.{index_of}
use dogbox.Trees.ReadFile.Select.{CacheHolds}
use dogbox.Trees.ReadFile.Window.{read_loop_stop, read_loop_more}

pub length-tail_of : (content : Bytes) → length (tail_of content) ≡ length content % piece_length
length-tail_of content = omega (arith, length-drop (piece_count content * piece_length) content)

not_cached :
    (content : Bytes) (i : ℕ) (cached : Option ℕ) (cache : Bytes)
    → CacheHolds content cached cache
    → piece_count content < i
    → is_cached i cached ≡ false
not_cached content i none cache h b = refl
not_cached content i (some j) cache h b = ground arith

joined_tail :
    (tail out : Bytes) (offset count remaining : ℕ)
    → count ≤ remaining
    → (out ++ take count (drop offset tail))
        ++ take (remaining - count) (drop (offset + count) tail)
      ≡ out ++ take remaining (drop offset tail)
joined_tail tail out offset count remaining h =
    let rest = take (remaining - count) (drop (offset + count) tail) in
    append_assoc out (take count (drop offset tail)) rest
    ∙ ap
        (λ (bytes : Bytes).
          out ++ (take count (drop offset tail) ++ take (remaining - count) bytes))
        (sym (drop-drop offset count (offset + count) tail refl))
    ∙ ap (λ (bytes : Bytes). out ++ bytes)
        (sym (take_split count (remaining - count) remaining (drop offset tail) (omega arith)))

module _ (B : BlobStore) (sha256 : Bytes → Sha256HashCode) (content : Bytes) (db : B.Database)
    (caching : ReadCaching) (file : OpenFile)
    (cache : CacheHolds content file.cached_piece file.read_cache) where
  select_behind :
      (i : ℕ) (loaded_piece : Bytes)
      → piece_count content < i
      → select_piece B (index_of sha256 content) caching i loaded_piece (file, db)
        ≡ (ok (tail_of content, loaded_piece), (file, db))
  unfolding select_piece
  select_behind i loaded_piece h =
      let hashes = piece_hashes sha256 (piece_count content) content in
      let beyond : ltb i (length hashes) ≡ false =
        le→ltb_false i (length hashes)
          (omega (arith, length-piece_hashes sha256 (piece_count content) content)) in
      rw (not_cached content i file.cached_piece file.read_cache cache h, beyond) refl

  read_loop_behind :
      (fuel cursor remaining : ℕ) (loaded_piece out : Bytes)
      → remaining ≤ fuel
      → piece_count content < cursor / piece_length
      → cursor + remaining < 2 ^ 64
      → read_loop B
          (index_of sha256 content)
          caching
          fuel
          cursor
          remaining
          loaded_piece
          out
          (file, db)
        ≡ (ok (out ++ take remaining (drop (cursor % piece_length) (tail_of content))), (file, db))
  read_loop_behind zero cursor zero loaded_piece out f h b =
      unfold read_loop in ap (λ (bytes : Bytes). (ok bytes, (file, db))) (sym (append-nil out))
  read_loop_behind zero cursor (suc remaining) loaded_piece out f h b = absurd (omega arith)
  read_loop_behind (suc fuel) cursor zero loaded_piece out f h b =
      unfold read_loop in ap (λ (bytes : Bytes). (ok bytes, (file, db))) (sym (append-nil out))
  read_loop_behind (suc fuel) cursor (suc remaining) loaded_piece out f h b =
      let tail = tail_of content in
      let offset = cursor % piece_length in
      let selected = select_behind (cursor / piece_length) loaded_piece h in
      elim (Bool-cases (leb (length tail) offset)) [
        | inl stop ↦
            read_loop_stop B (index_of sha256 content) caching fuel cursor remaining loaded_piece
              out tail loaded_piece (file, db) (file, db) selected stop
            ∙ ap (λ (written : Bytes). (ok written, (file, db)))
                (sym (append-nil out)
                  ∙ ap (λ (bytes : Bytes). out ++ take (suc remaining) bytes)
                      (sym (drop_all offset tail (leb→le (length tail) offset stop))))
        | inr more ↦
            let inside = leb_false→lt (length tail) offset more in
            let count = min (length tail - offset) (suc remaining) in
            let short = length-tail_of content in
            let moved : (cursor + count) % piece_length ≡ offset + count = omega arith in
            read_loop_more B (index_of sha256 content) caching fuel cursor remaining loaded_piece
              out tail loaded_piece (file, db) (file, db) selected more count refl (omega arith)
            ∙ read_loop_behind fuel (cursor + count) (suc remaining - count) loaded_piece
                (out ++ take count (drop offset tail)) (omega arith) (omega arith) (omega arith)
            ∙ ap (λ (written : Bytes). (ok written, (file, db)))
                (ap
                    (λ (at : ℕ).
                      (out ++ take count (drop offset tail))
                      ++ take (suc remaining - count) (drop at tail))
                    moved
                  ∙ joined_tail tail out offset count (suc remaining) (omega arith))
      ]

  -- Of a file with its index loaded and a cache that holds what it names, from an offset behind
  -- the piece of the tail on, which lies behind the end of the file, and for a window that ends
  -- below 2^64, the bytes of the tail are read once more, from the offset's place in its piece on,
  -- as far as they reach.
  pub read_file_behind :
      (offset size : ℕ)
      → file.index ≡ some (index_of sha256 content)
      → piece_count content < offset / piece_length
      → offset + size < 2 ^ 64
      → (length content ≤ offset)
        × (read_file B caching offset size (file, db)
            ≡ (ok (take size (drop (offset % piece_length) (tail_of content))), (file, db)))
  unfolding read_file
  read_file_behind offset size e h b = (
    omega arith,
    ap (λ index. read_index B index caching offset size (file, db)) e
        ∙ read_loop_behind size offset size [] [] (omega arith) h b,
  )
