-- ===== src/HashCode/Parse.antt =====
-- What `parse_sha256_hash_code` accepts, and what it returns.
use dogbox.Base.{
  ℕ, zero, suc, ◌+◌, ◌*◌, ◌/◌, ◌%◌, ◌≤◌, ◌<◌, ◌≡◌, refl, ◌≢◌, sym, ap, ◌∙◌, ◌⊎◌, inl, inr, bit_or,
}
use dogbox.Base.{true, none, some, [], ◌∷◌, ◌++◌, arith, ◌==◌, ==_iff}
use dogbox.Base.{
  ◌&&◌, leb, Bool-cases, Option-cases, if◌then◌else◌, all_below, all_below_sound, length, get_or,
  All, Bytes, IsByte,
}
use dogbox.Base.Bits.{bit_or_nibble}
use dogbox.Base.Optional.{◌>>=◌, >>=-eq-some}
use dogbox.HashCode.{Sha256HashCode, IsHashCode, hex_digits, to_string}
use dogbox.HashCode.{decode_hex_digit, parse_digits, parse_sha256_hash_code}
use dogbox.HashCode.RoundTrip.{hex_pair, hex_text, to_string-hex_text}

-- The characters 0-9, a-f and A-F.
abbrev pub IsHexDigit : ℕ → Type 0
IsHexDigit c = ((48 ≤ c) × (c ≤ 57)) ⊎ (((97 ≤ c) × (c ≤ 102)) ⊎ ((65 ≤ c) × (c ≤ 70)))

abbrev pub to_lower : ℕ → ℕ
to_lower c = if leb b'A' c && leb c b'Z' then c + 32 else c

abbrev pub lower : Bytes → Bytes
lower [] = []
lower (c ∷ cs) = to_lower c ∷ lower cs

-- A character that decodes is a digit below 16, whose lower-case spelling it is.
digit_table :
    all_below 128 (λ c. elim (decode_hex_digit c) [
      | none ↦ true
      | some d ↦ leb d 15 && get_or hex_digits d 0 == to_lower c
    ])
    ≡ true
unfolding all_below decode_hex_digit
digit_table = refl

decode-lt-128 : (c d : ℕ) → decode_hex_digit c ≡ some d → c < 128
unfolding decode_hex_digit
decode-lt-128 c d e = ground arith

decode_sound :
    (c d : ℕ) → decode_hex_digit c ≡ some d → (d < 16) × (get_or hex_digits d 0 ≡ to_lower c)
decode_sound c d e = ground (arith, all_below_sound 128 _ c digit_table (decode-lt-128 c d e))

decode_accepts : (c : ℕ) → IsHexDigit c → decode_hex_digit c ≢ none
unfolding decode_hex_digit
decode_accepts c h e = ground arith

decodes : (c : ℕ) → IsHexDigit c → (d : ℕ) × (decode_hex_digit c ≡ some d)
decodes c h = elim (Option-cases (decode_hex_digit c)) [
  | inl e ↦ absurd (decode_accepts c h e)
  | inr found ↦ found
]

decode-IsHexDigit : (c d : ℕ) → decode_hex_digit c ≡ some d → IsHexDigit c
unfolding decode_hex_digit
decode-IsHexDigit c d e = ground arith

-- The byte of two characters.
abbrev join_digits : ℕ → ℕ → ℕ
join_digits high low = bit_or (high * 16) low % 256

join_digits_lem : (high low : ℕ) → high < 16 → low < 16 → join_digits high low ≡ high * 16 + low
join_digits_lem high low h l = rw (bit_or_nibble high low l) (omega arith)

join_digits_text :
    (c d high low : ℕ)
    → decode_hex_digit c ≡ some high
    → decode_hex_digit d ≡ some low
    → IsByte (join_digits high low)
      × (hex_pair (join_digits high low) ≡ to_lower c ∷ to_lower d ∷ [])
join_digits_text c d high low p q =
    let (h, hc) = decode_sound c high p in
    let (l, ld) = decode_sound d low q in
    let upper : (high * 16 + low) / 16 ≡ high = omega arith in
    let rest : (high * 16 + low) % 16 ≡ low = omega arith in
    rw (join_digits_lem high low h l, upper, rest, hc, ld) (omega arith, refl)

parse_digits_sound :
    (n : ℕ) (input digits : Bytes)
    → length input ≡ n * 2
    → parse_digits n input ≡ some digits
    → (length digits ≡ n)
      × All IsByte digits
      × (hex_text digits ≡ lower input)
      × All IsHexDigit input
unfolding parse_digits
parse_digits_sound zero [] [] l e = (refl, tt, refl, tt)
parse_digits_sound zero [] (x ∷ digits) l e = cc
parse_digits_sound zero (c ∷ input) digits l e = absurd (omega arith)
parse_digits_sound (suc n) [] digits l e = cc
parse_digits_sound (suc n) (c ∷ []) digits l e = cc
parse_digits_sound (suc n) (c ∷ d ∷ input) digits l e =
    let (high, p, e') = >>=-eq-some (decode_hex_digit c) _ e in
    let (low, q, e'') = >>=-eq-some (decode_hex_digit d) _ e' in
    let (rest, r, last) = >>=-eq-some (parse_digits n input) _ e'' in
    let (byte, text) = join_digits_text c d high low p q in
    let (size, bytes, texts, marks) = parse_digits_sound n input rest (omega arith) r in
    let whole : join_digits high low ∷ rest ≡ digits = cc in
    rw (sym whole) (
      ap suc size,
      (byte, bytes),
      ap (λ (t : Bytes). t ++ hex_text rest) text
          ∙ ap (λ (t : Bytes). to_lower c ∷ to_lower d ∷ t) texts,
      (decode-IsHexDigit c high p, (decode-IsHexDigit d low q, marks)),
    )

parse_digits_complete :
    (n : ℕ) (input : Bytes)
    → length input ≡ n * 2
    → All IsHexDigit input
    → (digits : Bytes) × (parse_digits n input ≡ some digits)
unfolding parse_digits
parse_digits_complete zero input l h = ([], refl)
parse_digits_complete (suc n) [] l h = absurd (omega arith)
parse_digits_complete (suc n) (c ∷ []) l h = absurd (omega arith)
parse_digits_complete (suc n) (c ∷ d ∷ input) l (hc, (hd, hs)) =
    let (digits, r) = parse_digits_complete n input (omega arith) hs in
    let (high, p) = decodes c hc in
    let (low, q) = decodes d hd in (join_digits high low ∷ digits, rw (p, q, r) refl)

-- A text that parses has 64 characters, all of them hexadecimal digits, and the digest that it parses
-- to is well formed and prints as the text in lower case.
pub parse_sound :
    (input : Bytes) (h : Sha256HashCode)
    → parse_sha256_hash_code input ≡ some h
    → (length input ≡ 64) × All IsHexDigit input × IsHashCode h × (to_string h ≡ lower input)
unfolding parse_sha256_hash_code
parse_sound input h e = elim (Bool-cases (length input == 64)) [
  | inl size ↦ parsed (rw size at e) ((==_iff _ _).0 size)
  | inr other ↦ absurd (cc (rw other at e))
]
  where
    parsed :
        (parse_digits 32 input >>= λ digits. some (record { digits = digits })) ≡ some h
        → length input ≡ 64
        → (length input ≡ 64) × All IsHexDigit input × IsHashCode h × (to_string h ≡ lower input)
    parsed e size =
        let (digits, r, last) = >>=-eq-some (parse_digits 32 input) _ e in
        let (count, bytes, text, marks) = parse_digits_sound 32 input digits size r in
        let whole : ◌≡◌ {A = Sha256HashCode} (record { digits = digits }) h = cc in
        rw (sym whole) (size, marks, (count, bytes), to_string-hex_text _ (count, bytes) ∙ text)

-- Every text of 64 hexadecimal digits parses.
pub parse_complete :
    (input : Bytes)
    → length input ≡ 64
    → All IsHexDigit input
    → (h : Sha256HashCode) × (parse_sha256_hash_code input ≡ some h)
unfolding parse_sha256_hash_code
parse_complete input size marks =
    let (digits, r) = parse_digits_complete 32 input size marks in
    (record { digits = digits }, rw (size, r) refl)
