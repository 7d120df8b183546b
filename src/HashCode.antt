-- ===== src/HashCode.antt =====
-- blob_layer/hash_code.h and hash_code.cpp: SHA-256 digests and their hexadecimal text.
-- Characters are their codes. Where a digest is computed, SHA-256 is a
-- parameter: OpenSSL computes it.
pub mod RoundTrip
pub mod Parse
use dogbox.Base.{
  ℕ, zero, suc, ◌+◌, ◌-◌, ◌*◌, ◌/◌, ◌%◌, bit_and, bit_or, ◌≡◌, Bool, Option, none, some,
}
use dogbox.Base.{List, [], ◌∷◌, ◌++◌, ◌&&◌, leb, ◌==◌, if◌then◌else◌, length, get_or, All}
use dogbox.Base.{Bytes, IsByte, codes, bytes_eq}
use dogbox.Base.Optional.{◌>>=◌}

-- 256 / 8
abbrev pub digest_size : ℕ
digest_size = 32

pub record Sha256HashCode : Type 0 where
  pub digits : Bytes

-- The type of `digits` is `std::array<std::byte, 256 / 8>`.
abbrev pub IsHashCode : Sha256HashCode → Type 0
IsHashCode h = (length h.digits ≡ digest_size) × All IsByte h.digits

-- `operator==`
unfoldable pub hash_code_eq : Sha256HashCode → Sha256HashCode → Bool
hash_code_eq left right = bytes_eq left.digits right.digits

abbrev pub hex_digits : Bytes
hex_digits = codes "0123456789abcdef"

-- Appends two characters to `out`. `b >> 4` is `b / 16`.
unfoldable pub byte_to_hex : ℕ → Bytes → Bytes
byte_to_hex b out = out ++ get_or hex_digits (b / 16) 0 ∷ get_or hex_digits (bit_and b 0x0f) 0 ∷ []

unfoldable pub format_bytes : Bytes → Bytes → Bytes
format_bytes [] output = output
format_bytes (b ∷ input) output = format_bytes input (byte_to_hex b output)

unfoldable pub to_string : Sha256HashCode → Bytes
unfolding format_bytes byte_to_hex
to_string hash_code = format_bytes hash_code.digits []

-- `operator<<`: what the stream holds afterwards.
unfoldable pub print_hash_code : Bytes → Sha256HashCode → Bytes
unfolding format_bytes byte_to_hex
print_hash_code out printed = format_bytes printed.digits out

unfoldable pub decode_hex_digit : ℕ → Option ℕ
decode_hex_digit c =
    if leb b'0' c && leb c b'9'
    then some (c - b'0')
    else if leb b'a' c && leb c b'f'
    then some (c - b'a' + 10)
    else if leb b'A' c && leb c b'F'
    then some (c - b'A' + 10)
    else none

-- The rounds left, and the characters that they have not reached. The last clause reads past the
-- end, which the test on the size rules out.
unfoldable pub parse_digits : ℕ → Bytes → Option Bytes
parse_digits zero input = some []
parse_digits (suc n) (c ∷ d ∷ input) = do
  high ← decode_hex_digit c
  low ← decode_hex_digit d
  digits ← parse_digits n input
  some ((bit_or (high * 16) low % 256) ∷ digits)
parse_digits (suc n) _ = none

unfoldable pub parse_sha256_hash_code : Bytes → Option Sha256HashCode
unfolding parse_digits decode_hex_digit
parse_sha256_hash_code input =
    if length input == digest_size * 2
    then (parse_digits digest_size input >>= λ digits. some (record { digits = digits }))
    else none
