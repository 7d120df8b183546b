-- ===== src/Trees/ImportDirectory/SameIndex.antt =====
-- The digest and the size that are kept of a file tell its content.
use dogbox.Base.{ℕ, zero, suc, ◌*◌, ◌<◌, ◌≡◌, sym, ap, ◌∙◌, arith}
use dogbox.Base.{length, take, drop, drop-drop, take-append-drop, Bytes}
use dogbox.Base.{ok}
use dogbox.HashCode.{Sha256HashCode, IsHashCode}
use dogbox.Trees.RegularFile.{piece_length}
use dogbox.Trees.Pieces.{piece_count, piece, piece-suc, piece_hashes}
use dogbox.Trees.RegularFileIndex.{RegularFileIndex, decode_index}
use dogbox.Trees.RegularFileIndex.Load.{index_bytes, index_of, decode_index-index_bytes}

pub ok-injective {ℓ} : {A : Type ℓ} (a b : A) → ok a ≡ ok b → a ≡ b
ok-injective a b e = cc

module _ (sha256 : Bytes → Sha256HashCode) (Fits : Bytes → Type 0)
    (no_collision : (a b : Bytes) → Fits a → Fits b → sha256 a ≡ sha256 b → a ≡ b) where
  abbrev PiecesFit : ℕ → Bytes → Type 0
  PiecesFit n content = (i : ℕ) → i < n → Fits (piece i content)

  PiecesFit-drop :
      (n : ℕ) (content : Bytes)
      → PiecesFit (suc n) content
      → PiecesFit n (drop piece_length content)
  PiecesFit-drop n content fit i below = rw (piece-suc i content) (fit (suc i) (omega arith))

  eq_of_pieces :
      (n : ℕ) (a b : Bytes)
      → PiecesFit n a
      → PiecesFit n b
      → piece_hashes sha256 n a ≡ piece_hashes sha256 n b
      → drop (n * piece_length) a ≡ drop (n * piece_length) b
      → a ≡ b
  eq_of_pieces zero a b fit fit' hashes tails = tails
  eq_of_pieces (suc n) a b fit fit' hashes tails =
      let first_a : Fits (take piece_length a) = fit 0 (omega arith) in
      let first_b : Fits (take piece_length b) = fit' 0 (omega arith) in
      let start = no_collision (take piece_length a) (take piece_length b) first_a first_b (cc) in
      let later : (xs : Bytes)
          → drop (n * piece_length) (drop piece_length xs) ≡ drop (suc n * piece_length) xs =
        λ xs. drop-drop piece_length (n * piece_length) (suc n * piece_length) xs (omega arith) in
      let rest =
        eq_of_pieces n (drop piece_length a) (drop piece_length b) (PiecesFit-drop n a fit)
          (PiecesFit-drop n b fit') (cc) (later a ∙ tails ∙ sym (later b)) in
      sym (take-append-drop piece_length a) ∙ cc (start, rest) ∙ take-append-drop piece_length b

  -- Two contents of one size with the same bytes of the index are the same.
  pub eq_of_index_bytes :
      (a b : Bytes)
      → ((bytes : Bytes) → IsHashCode (sha256 bytes))
      → ((i : ℕ) → i < piece_count a → Fits (piece i a))
      → ((i : ℕ) → i < piece_count b → Fits (piece i b))
      → length a ≡ length b
      → index_bytes sha256 a ≡ index_bytes sha256 b
      → a ≡ b
  eq_of_index_bytes a b hashed fit fit' size same =
      let count : piece_count a ≡ piece_count b = omega (arith, size) in
      let decoded : decode_index (length a) (index_bytes sha256 a)
          ≡ decode_index (length b) (index_bytes sha256 b) =
        cc in
      let index : index_of sha256 a ≡ index_of sha256 b =
        ok-injective (index_of sha256 a) (index_of sha256 b) (
          sym (decode_index-index_bytes sha256 a hashed)
          ∙ decoded
          ∙ decode_index-index_bytes sha256 b hashed) in
      eq_of_pieces (piece_count a) a b fit (λ i below. fit' i (omega arith))
        (ap (λ (r : RegularFileIndex). r.pieces) index
          ∙ ap (λ (n : ℕ). piece_hashes sha256 n b) (sym count))
        (ap (λ (r : RegularFileIndex). r.tail) index
          ∙ ap (λ (n : ℕ). drop (n * piece_length) b) (sym count))
