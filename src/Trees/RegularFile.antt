-- ===== src/Trees/RegularFile.antt =====
-- trees/regular_file.h and regular_file.cpp: the encoding of a file's index and of its length.
-- A pair of pointers `in`, `end` is the list of the bytes between them, and an output iterator the
-- list of the bytes written so far.
pub mod BigEndian
use dogbox.Base.{ℕ, zero, suc, ◌+◌, ◌*◌, ◌/◌, ◌%◌, ◌^◌, ◌≡◌, ◌<◌, bit_or, Bool, Option, none, some}
use dogbox.Base.{List, [], ◌∷◌, ◌++◌, ltb, if◌then◌else◌, length, take, drop, Bytes}
use dogbox.Base.{Result, ok, throw, assertion_failed, guard, ◌>>=◌, ◌>>◌}
use dogbox.HashCode.{Sha256HashCode, digest_size}

abbrev pub piece_length : ℕ
piece_length = 1024 * 1024

-- The range of `length_type`, `uint64_t` and `size_t`.
abbrev pub IsU64 : ℕ → Type 0
IsU64 v = v < 2 ^ 64

-- `k` rounds are left, so that `i` is `8 - k` and the shift `(7 - i) * 8` is `(k - 1) * 8`.
unfoldable pub encode_loop : ℕ → ℕ → Bytes → Bytes
encode_loop zero value out = out
encode_loop (suc k) value out = encode_loop k value (out ++ (value / 2 ^ (k * 8) % 256) ∷ [])

unfoldable pub encode_big_endian_integer : ℕ → Bytes → Bytes
unfolding encode_loop
encode_big_endian_integer value out = encode_loop 8 value out

-- The second clause reads past the end, which the test on the size rules out.
unfoldable pub decode_loop : ℕ → ℕ → Bytes → ℕ × Bytes
decode_loop zero result input = (result, input)
decode_loop (suc k) result [] = (result, [])
decode_loop (suc k) result (b ∷ input) = decode_loop k (bit_or (result * 256 % 2 ^ 64) b) input

unfoldable pub decode_big_endian_integer : Bytes → Option (ℕ × Bytes)
unfolding decode_loop
decode_big_endian_integer input =
    if ltb (length input) 8 then none else some (decode_loop 8 0 input)

unfoldable pub start_decoding : Bytes → Option (ℕ × Bytes)
start_decoding input = decode_big_endian_integer input

unfoldable pub encode_piece : Sha256HashCode → Bytes → Bytes
encode_piece hash_code out = out ++ hash_code.digits

-- `std::copy_n` of `size` bytes.
unfoldable pub finish_encoding : Bytes → ℕ → Bytes → Result Bytes
finish_encoding final_piece size out = do
  guard (ltb size piece_length) assertion_failed
  ok (out ++ take size final_piece)

unfoldable pub decode_piece : Bytes → Option (Sha256HashCode × Bytes)
decode_piece input =
    if ltb (length input) digest_size
    then none
    else some (record { digits = take digest_size input }, drop digest_size input)

-- `none` is the null pointer.
unfoldable pub finish_decoding : Bytes → ℕ → Option Bytes
finish_decoding input expected_final_piece_length =
    if ltb (length input) expected_final_piece_length then none else some input
