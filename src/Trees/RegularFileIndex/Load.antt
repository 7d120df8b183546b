-- ===== src/Trees/RegularFileIndex/Load.antt =====
-- The index of an imported file is read back from its blob.
use dogbox.Base.{ℕ, zero, suc, ◌-◌, ◌*◌, ◌≡◌, refl, sym, ap, ◌∙◌, arith}
use dogbox.Base.{List, [], ◌∷◌, ◌++◌, append_assoc, length, take, drop, Bytes, Result, ok}
use dogbox.Base.{
  ◌>>=◌, take_all, take-append, drop-append, length-append, length-drop, le→ltb_false, Option, some,
}
use dogbox.Base.{nil_of_length, ◌==◌, Bool-cases, inl, inr, ==_iff, All}
use dogbox.Base.Action.{proceed}
use dogbox.HashCode.{Sha256HashCode, IsHashCode}
use dogbox.BlobStorage.Interface.{BlobStore, IsBlobStore}
use dogbox.Trees.RegularFile.{piece_length, decode_piece}
use dogbox.Trees.Pieces.{piece_count, tail_of, piece_hashes, length-piece_hashes}
use dogbox.Trees.RegularFileIndex.{
  RegularFileIndex, decode_pieces, finish_index, decode_index, decode_loaded,
}
use dogbox.Trees.RegularFileIndex.{load_regular_file_index}

-- The bytes of an index: the digests, then the tail.
abbrev pub digests : List Sha256HashCode → Bytes
digests [] = []
digests (h ∷ hs) = h.digits ++ digests hs

-- The blob of the index of a content, and that index.
abbrev pub index_bytes : (Bytes → Sha256HashCode) → Bytes → Bytes
index_bytes sha256 content =
    digests (piece_hashes sha256 (piece_count content) content) ++ tail_of content

abbrev pub index_of : (Bytes → Sha256HashCode) → Bytes → RegularFileIndex
index_of sha256 content = record {
  pieces = piece_hashes sha256 (piece_count content) content;
  tail = tail_of content;
}

-- A digest that was written reads back as it was.
pub decode-encode_piece :
    (h : Sha256HashCode) (rest : Bytes)
    → IsHashCode h
    → decode_piece (h.digits ++ rest) ≡ some (h, rest)
unfolding decode_piece
decode-encode_piece h rest v =
    rw
      (
        le→ltb_false (length (h.digits ++ rest)) 32 (omega (arith, length-append h.digits rest)),
        take-append 32 h.digits rest (omega arith),
        drop-append 32 h.digits rest (omega arith),
      )
      refl

decode_pieces-digests :
    (hs : List Sha256HashCode) (rest : Bytes)
    → All IsHashCode hs
    → decode_pieces (length hs) (digests hs ++ rest) ≡ ok (hs, rest)
unfolding decode_pieces
decode_pieces-digests [] rest v = refl
decode_pieces-digests (h ∷ hs) rest (v, vs) =
    rw
      (
        append_assoc h.digits (digests hs) rest,
        decode-encode_piece h (digests hs ++ rest) v,
        decode_pieces-digests hs rest vs,
      )
      refl

piece_hashes-IsHashCode :
    (sha256 : Bytes → Sha256HashCode)
    → ((bytes : Bytes) → IsHashCode (sha256 bytes))
    → (n : ℕ) (content : Bytes) → All IsHashCode (piece_hashes sha256 n content)
piece_hashes-IsHashCode sha256 v zero content = tt
piece_hashes-IsHashCode sha256 v (suc n) content =
    (v (take piece_length content), piece_hashes-IsHashCode sha256 v n (drop piece_length content))

finish_index-tail :
    (hs : List Sha256HashCode) (tail : Bytes) (content_size : ℕ)
    → content_size - length hs * piece_length ≡ length tail
    → finish_index content_size (hs, tail) ≡ ok (record { pieces = hs; tail = tail })
unfolding finish_index
finish_index-tail hs tail content_size e =
    let size = content_size - length hs * piece_length in
    rw (le→ltb_false (length tail) size (omega arith)) (
      ap (λ (bytes : Bytes). ok (record { pieces = hs; tail = bytes }))
        (take_all size tail (omega arith)))

-- The blob of a content's index decodes to that index.
pub decode_index-index_bytes :
    (sha256 : Bytes → Sha256HashCode) (content : Bytes)
    → ((bytes : Bytes) → IsHashCode (sha256 bytes))
    → decode_index (length content) (index_bytes sha256 content) ≡ ok (index_of sha256 content)
unfolding decode_index
decode_index-index_bytes sha256 content v =
    let n = piece_count content in
    let hs = piece_hashes sha256 n content in
    let size = length-piece_hashes sha256 n content in
    let decoded : decode_pieces n (digests hs ++ tail_of content) ≡ ok (hs, tail_of content) =
      ap (λ (k : ℕ). decode_pieces k (digests hs ++ tail_of content)) (sym size)
      ∙ decode_pieces-digests hs (tail_of content) (piece_hashes-IsHashCode sha256 v n content) in
    ap (λ (r : Result (List Sha256HashCode × Bytes)). r >>= finish_index (length content)) decoded
    ∙ finish_index-tail hs (tail_of content) (length content)
        (omega (arith, size, length-drop (n * piece_length) content))

module _ (B : BlobStore) (sha256 : Bytes → Sha256HashCode) (I : IsBlobStore B sha256)
    (content : Bytes) (db : B.Database) (ready : I.IsReady db)
    (held : I.HoldsBlob db (index_bytes sha256 content)) where
  -- In a store that is ready and holds the blob of a content's index, loading the index by the
  -- content's size and the digest of that blob yields the index and leaves the database as it is.
  pub load-index_bytes :
      load_regular_file_index B (length content) (sha256 (index_bytes sha256 content)) db
      ≡ (ok (index_of sha256 content), db)
  unfolding load_regular_file_index
  load-index_bytes = elim (Bool-cases (length content == 0)) [
    | inl empty ↦
        let nothing : [] ≡ content =
          sym (nil_of_length content ((==_iff (length content) 0).0 empty)) in
        rw empty (ap (λ (bytes : Bytes). (ok (index_of sha256 bytes), db)) nothing)
    | inr some_bytes ↦ rw some_bytes (
        ap
          (λ (r : Result (Option Bytes) × B.Database). proceed r (decode_loaded B (length content)))
          (I.load_blob-held db (index_bytes sha256 content) ready held)
        ∙ ap (λ (r : Result RegularFileIndex). (r, db))
            (decode_index-index_bytes sha256 content I.sha256-IsHashCode))
  ]
