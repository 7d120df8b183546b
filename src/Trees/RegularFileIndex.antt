-- ===== src/Trees/RegularFileIndex.antt =====
-- trees/regular_file_index.h and regular_file_index.cpp: the digests of a file's pieces and its tail.
pub mod Load
use dogbox.Base.{
  ℕ, zero, suc, ◌+◌, ◌-◌, ◌*◌, ◌/◌, ◌%◌, ◌^◌, Option, none, some, List, [], ◌∷◌, ◌==◌,
}
use dogbox.Base.{if◌then◌else◌, length, take, Bytes, Result, ok, throw, to_do, ◌>>=◌}
use dogbox.Base.Action
use dogbox.Base.Action.{Action, pure, lift, raise}
use dogbox.HashCode.{Sha256HashCode}
use dogbox.BlobStorage.Interface.{BlobStore}
use dogbox.Trees.RegularFile.{piece_length, decode_piece, finish_decoding}

pub record RegularFileIndex : Type 0 where
  pub pieces : List Sha256HashCode
  pub tail : Bytes

unfoldable pub file_size : RegularFileIndex → ℕ
file_size file = (length file.pieces * piece_length + length file.tail) % 2 ^ 64

abbrev pub or_to_do {ℓ} : {A : Type ℓ} → Option A → Result A
or_to_do none = throw to_do
or_to_do (some a) = ok a

-- The loop over the `n` elements of `pieces`.
unfoldable pub decode_pieces : ℕ → Bytes → Result (List Sha256HashCode × Bytes)
decode_pieces zero cursor = ok ([], cursor)
decode_pieces (suc n) cursor = do
  (piece, cursor) ← or_to_do (decode_piece cursor)
  (pieces, cursor) ← decode_pieces n cursor
  ok (piece ∷ pieces, cursor)

-- What follows the loop: the tail.
unfoldable pub finish_index : ℕ → List Sha256HashCode × Bytes → Result RegularFileIndex
unfolding finish_decoding
finish_index content_size (pieces, cursor) = do
  let tail_size = content_size - length pieces * piece_length
  tail ← or_to_do (finish_decoding cursor tail_size)
  ok (record { pieces = pieces; tail = take tail_size tail })

-- `load_regular_file_index` behind the load of the blob.
unfoldable pub decode_index : ℕ → Bytes → Result RegularFileIndex
unfolding decode_pieces
decode_index content_size loaded =
    decode_pieces (content_size / piece_length) loaded >>= finish_index content_size

module _ (B : BlobStore) where
  abbrev decode_loaded : ℕ → Option Bytes → Action B.Database RegularFileIndex
  decode_loaded content_size none = raise to_do
  decode_loaded content_size (some loaded) = lift (decode_index content_size loaded)

  unfoldable pub load_regular_file_index : ℕ → Sha256HashCode → Action B.Database RegularFileIndex
  unfolding decode_index
  load_regular_file_index content_size hash_code =
      let load =
        Action.◌>>=◌ (B.load_blob hash_code)
          λ maybe_loaded. decode_loaded content_size maybe_loaded in
      if content_size == 0 then pure (record { pieces = []; tail = [] }) else load
