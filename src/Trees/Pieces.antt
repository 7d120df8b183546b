-- ===== src/Trees/Pieces.antt =====
-- How the content of a file is cut: the description that importing and reading are proved against.
use dogbox.Base.{ℕ, zero, suc, ◌+◌, ◌-◌, ◌*◌, ◌/◌, ◌≤◌, ◌<◌, min, ◌≡◌, refl, ap, ◌∙◌, arith}
use dogbox.Base.{
  List, [], ◌∷◌, length, take, drop, get_or, get_elem?, some, drop-drop, length-take, length-drop,
}
use dogbox.Base.{take_all, take-drop-take, Bytes}
use dogbox.HashCode.{Sha256HashCode}
use dogbox.Trees.RegularFile.{piece_length}

-- The number of full pieces.
abbrev pub piece_count : Bytes → ℕ
piece_count content = length content / piece_length

-- The bytes from `i * piece_length` on, at most a piece of them.
abbrev pub piece : ℕ → Bytes → Bytes
piece i content = take piece_length (drop (i * piece_length) content)

-- What follows the full pieces.
abbrev pub tail_of : Bytes → Bytes
tail_of content = drop (piece_count content * piece_length) content

-- The digests of the first `n` pieces.
abbrev pub piece_hashes : (Bytes → Sha256HashCode) → ℕ → Bytes → List Sha256HashCode
piece_hashes sha256 zero content = []
piece_hashes sha256 (suc n) content =
    sha256 (take piece_length content) ∷ piece_hashes sha256 n (drop piece_length content)

pub length-piece_hashes :
    (sha256 : Bytes → Sha256HashCode) (n : ℕ) (content : Bytes)
    → length (piece_hashes sha256 n content) ≡ n
length-piece_hashes sha256 zero content = refl
length-piece_hashes sha256 (suc n) content =
    ap suc (length-piece_hashes sha256 n (drop piece_length content))

pub piece-suc :
    (i : ℕ) (content : Bytes) → piece i (drop piece_length content) ≡ piece (suc i) content
piece-suc i content =
    ap (take piece_length)
      (drop-drop piece_length (i * piece_length) (suc i * piece_length) content (omega arith))

pub get_or-piece_hashes :
    (sha256 : Bytes → Sha256HashCode) (n i : ℕ) (content : Bytes) (default : Sha256HashCode)
    → i < n
    → get_or (piece_hashes sha256 n content) i default ≡ sha256 (piece i content)
get_or-piece_hashes sha256 zero i content default h = absurd (omega arith)
get_or-piece_hashes sha256 (suc n) zero content default h = refl
get_or-piece_hashes sha256 (suc n) (suc i) content default h =
    get_or-piece_hashes sha256 n i (drop piece_length content) default (omega arith)
    ∙ ap sha256 (piece-suc i content)

pub get_elem?-piece_hashes :
    (sha256 : Bytes → Sha256HashCode) (n i : ℕ) (content : Bytes)
    → i < n
    → get_elem? (piece_hashes sha256 n content) i ≡ some (sha256 (piece i content))
get_elem?-piece_hashes sha256 zero i content h = absurd (omega arith)
get_elem?-piece_hashes sha256 (suc n) zero content h = refl
get_elem?-piece_hashes sha256 (suc n) (suc i) content h =
    get_elem?-piece_hashes sha256 n i (drop piece_length content) (omega arith)
    ∙ ap (λ (bytes : Bytes). some (sha256 bytes)) (piece-suc i content)

-- The last, short piece is the tail.
pub piece-tail : (content : Bytes) → piece (piece_count content) content ≡ tail_of content
piece-tail content =
    take_all piece_length (tail_of content)
      (omega (arith, length-drop (piece_count content * piece_length) content))

pub length-piece :
    (i : ℕ) (content : Bytes)
    → length (piece i content) ≡ min piece_length (length content - i * piece_length)
length-piece i content = omega (
  arith,
  length-take piece_length (drop (i * piece_length) content),
  length-drop (i * piece_length) content,
)

-- A part of a piece is a part of the content.
pub take-drop-piece :
    (i offset count cursor : ℕ) (content : Bytes)
    → cursor ≡ i * piece_length + offset
    → offset + count ≤ piece_length
    → take count (drop offset (piece i content)) ≡ take count (drop cursor content)
take-drop-piece i offset count cursor content e h =
    take-drop-take count offset piece_length (drop (i * piece_length) content) h
    ∙ ap (take count) (drop-drop (i * piece_length) offset cursor content e)
