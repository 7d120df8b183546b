-- ===== src/HashCode/RoundTrip.antt =====
-- The text of a digest reads back as the digest.
use dogbox.Base.{ℕ, ◌*◌, ◌/◌, ◌%◌, ◌<◌, ◌≡◌, refl, sym, ap, true, false}
use dogbox.Base.{none, some, [], ◌∷◌, ◌++◌, append-nil, append_assoc, arith, ◌==◌}
use dogbox.Base.{all_below, all_below_sound, length, get_or, All, Bytes, IsByte}
use dogbox.Base.Bits.{bit_or_nibble, bit_and_fifteen}
use dogbox.HashCode.{Sha256HashCode, IsHashCode, hex_digits, byte_to_hex, format_bytes, to_string}
use dogbox.HashCode.{decode_hex_digit, parse_digits, parse_sha256_hash_code}

-- The two characters of a byte.
abbrev pub hex_pair : ℕ → Bytes
hex_pair b = get_or hex_digits (b / 16) 0 ∷ get_or hex_digits (b % 16) 0 ∷ []

abbrev pub hex_text : Bytes → Bytes
hex_text [] = []
hex_text (b ∷ bs) = hex_pair b ++ hex_text bs

pub format_bytes-hex_text :
    (input output : Bytes) → All IsByte input → format_bytes input output ≡ output ++ hex_text input
unfolding format_bytes byte_to_hex
format_bytes-hex_text [] output h = sym (append-nil output)
format_bytes-hex_text (b ∷ input) output (hb, hs) =
    rw (format_bytes-hex_text input (byte_to_hex b output) hs, bit_and_fifteen b hb)
      (append_assoc output (hex_pair b) (hex_text input))

pub to_string-hex_text : (h : Sha256HashCode) → IsHashCode h → to_string h ≡ hex_text h.digits
unfolding to_string
to_string-hex_text h v = format_bytes-hex_text h.digits [] v.1

digit_table :
    all_below 16
      (λ d. elim (decode_hex_digit (get_or hex_digits d 0)) [ none ↦ false | some e ↦ e == d ])
    ≡ true
unfolding all_below decode_hex_digit
digit_table = refl

decode_digit : (d : ℕ) → d < 16 → decode_hex_digit (get_or hex_digits d 0) ≡ some d
decode_digit d h = ground (arith, all_below_sound 16 _ d digit_table h)

parse_digits-hex_text :
    (bs : Bytes) → All IsByte bs → parse_digits (length bs) (hex_text bs) ≡ some bs
unfolding parse_digits
parse_digits-hex_text [] h = refl
parse_digits-hex_text (b ∷ bs) (hb, hs) =
    rw
      (
        decode_digit (b / 16) (omega arith),
        decode_digit (b % 16) (omega arith),
        parse_digits-hex_text bs hs,
        bit_or_nibble (b / 16) (b % 16) (omega arith),
      )
      (ap (λ (d : ℕ). some (d ∷ bs)) (omega arith))

pub length-hex_text : (bs : Bytes) → length (hex_text bs) ≡ length bs * 2
length-hex_text [] = refl
length-hex_text (b ∷ bs) = omega (arith, length-hex_text bs)

-- The hexadecimal text of a digest of 32 bytes parses to that digest.
pub parse-to_string :
    (h : Sha256HashCode) → IsHashCode h → parse_sha256_hash_code (to_string h) ≡ some h
unfolding parse_sha256_hash_code
parse-to_string h v =
    rw (to_string-hex_text h v, length-hex_text h.digits, v.0)
      (rw (sym v.0) (rw (parse_digits-hex_text h.digits v.1) refl))

-- Two digests with the same text are equal.
pub to_string-injective :
    (g h : Sha256HashCode) → IsHashCode g → IsHashCode h → to_string g ≡ to_string h → g ≡ h
to_string-injective g h vg vh e =
    cc (parse-to_string g vg, parse-to_string h vh, ap parse_sha256_hash_code e)
