-- ===== src/Trees/RegularFile/BigEndian.antt =====
-- The eight bytes of a length, written and read.
use dogbox.Base.{ℕ, zero, suc, ◌+◌, ◌*◌, ◌/◌, ◌%◌, ◌^◌, ◌≤◌, ◌<◌, ◌≡◌, refl, sym, ap, ◌∙◌, bit_or}
use dogbox.Base.{some, [], ◌∷◌, ◌++◌, append-nil, append_assoc, arith, ltb, le→ltb_false}
use dogbox.Base.{Bool-cases, inl, inr, length, All, Bytes, IsByte}
use dogbox.Base.Bits.{bit_or_byte}
use dogbox.Trees.RegularFile.{IsU64, encode_loop, encode_big_endian_integer}
use dogbox.Trees.RegularFile.{decode_loop, decode_big_endian_integer}
use native.Mathlib.Nat.{pow-suc, div-div-eq-div-mul, div-le_self, pow-le-pow_right}

-- The low `k` bytes of a number, the highest first.
abbrev pub big_endian : ℕ → ℕ → Bytes
big_endian zero value = []
big_endian (suc k) value = (value / 2 ^ (k * 8) % 256) ∷ big_endian k value

encode_loop-big_endian :
    (k value : ℕ) (out : Bytes) → encode_loop k value out ≡ out ++ big_endian k value
unfolding encode_loop
encode_loop-big_endian zero value out = sym (append-nil out)
encode_loop-big_endian (suc k) value out =
    encode_loop-big_endian k value _ ∙ append_assoc out _ (big_endian k value)

pub encode-big_endian :
    (value : ℕ) (out : Bytes) → encode_big_endian_integer value out ≡ out ++ big_endian 8 value
unfolding encode_big_endian_integer
encode-big_endian value out = encode_loop-big_endian 8 value out

pub length-big_endian : (k value : ℕ) → length (big_endian k value) ≡ k
length-big_endian zero value = refl
length-big_endian (suc k) value = ap suc (length-big_endian k value)

pow_byte : (k : ℕ) → 2 ^ (suc k * 8) ≡ 2 ^ (k * 8) * 256
pow_byte k =
    let n : ℕ = k * 8 in
    let e : suc k * 8 ≡ suc (suc (suc (suc (suc (suc (suc (suc n))))))) = omega arith in
    rw e (
      omega (
        arith,
        pow-suc 2 n,
        pow-suc 2 (suc n),
        pow-suc 2 (suc (suc n)),
        pow-suc 2 (suc (suc (suc n))),
        pow-suc 2 (suc (suc (suc (suc n)))),
        pow-suc 2 (suc (suc (suc (suc (suc n))))),
        pow-suc 2 (suc (suc (suc (suc (suc (suc n)))))),
        pow-suc 2 (suc (suc (suc (suc (suc (suc (suc n))))))),
      ))

-- One more byte of a number from the top.
next_byte :
    (k value : ℕ) → value / 2 ^ (suc k * 8) * 256 + value / 2 ^ (k * 8) % 256 ≡ value / 2 ^ (k * 8)
next_byte k value = rw (pow_byte k, sym (div-div-eq-div-mul value (2 ^ (k * 8)) 256)) (omega arith)

join_byte :
    (k value : ℕ)
    → IsU64 value
    → bit_or (value / 2 ^ (suc k * 8) * 256 % 2 ^ 64) (value / 2 ^ (k * 8) % 256)
      ≡ value / 2 ^ (k * 8)
join_byte k value h =
    let next = next_byte k value in
    let shrinks = div-le_self value (2 ^ (k * 8)) in
    let fits : value / 2 ^ (suc k * 8) * 256 % 2 ^ 64 ≡ value / 2 ^ (suc k * 8) * 256 =
      omega arith in
    rw (fits, bit_or_byte (value / 2 ^ (suc k * 8)) (value / 2 ^ (k * 8) % 256) (omega arith)) next

decode_loop-big_endian :
    (k value : ℕ) (rest : Bytes)
    → IsU64 value
    → decode_loop k (value / 2 ^ (k * 8)) (big_endian k value ++ rest) ≡ (value, rest)
unfolding decode_loop
decode_loop-big_endian zero value rest h = ap (λ (v : ℕ). (v, rest)) (omega arith)
decode_loop-big_endian (suc k) value rest h =
    rw (join_byte k value h) (decode_loop-big_endian k value rest h)

pub decode-big_endian :
    (value : ℕ) (rest : Bytes)
    → IsU64 value
    → decode_big_endian_integer (big_endian 8 value ++ rest) ≡ some (value, rest)
unfolding decode_big_endian_integer
decode-big_endian value rest h =
    let top : 0 ≡ value / 2 ^ (8 * 8) = omega arith in
    rw (le→ltb_false (length (big_endian 8 value ++ rest)) 8 (omega arith)) (
      ap some (
        ap (λ (r : ℕ). decode_loop 8 r (big_endian 8 value ++ rest)) top
        ∙ decode_loop-big_endian 8 value rest h))

-- Any 64-bit number reads back as it was written, and the bytes behind it are left.
pub decode-encode :
    (value : ℕ) (rest : Bytes)
    → IsU64 value
    → decode_big_endian_integer (encode_big_endian_integer value [] ++ rest) ≡ some (value, rest)
decode-encode value rest h = rw (encode-big_endian value []) (decode-big_endian value rest h)

-- What the decoding loop has read: `r` holds the first `j` of eight bytes.
decode_loop_inverse :
    (k j r value : ℕ) (input rest : Bytes)
    → k + j ≡ 8
    → r < 2 ^ (j * 8)
    → k ≤ length input
    → All IsByte input
    → decode_loop k r input ≡ (value, rest)
    → IsU64 value × (r ≡ value / 2 ^ (k * 8)) × (input ≡ big_endian k value ++ rest)
unfolding decode_loop
decode_loop_inverse zero j r value input rest s low l h e =
    let whole : j * 8 ≡ 64 = omega arith in
    let bound : r < 2 ^ 64 = rw whole at low in
    let same : r ≡ value = cc in let left : input ≡ rest = cc in (omega arith, omega arith, left)
decode_loop_inverse (suc k) j r value [] rest s low l h e = absurd (omega arith)
decode_loop_inverse (suc k) j r value (b ∷ input) rest s low l (hb, hs) e =
    let narrow : 2 ^ (j * 8) ≤ 2 ^ 56 =
      pow-le-pow_right (omega arith) {i = j * 8} {j = 56} (omega arith) in
    let fits : r * 256 % 2 ^ 64 ≡ r * 256 = omega arith in
    let e' : decode_loop k (r * 256 + b) input ≡ (value, rest) =
      rw (fits, bit_or_byte r b hb) at e in
    let (bound, read, text) =
      decode_loop_inverse k (suc j) (r * 256 + b) value input rest (omega arith)
        (omega (arith, pow_byte j)) (omega arith) hs e' in
    let top : r ≡ value / 2 ^ (suc k * 8) =
      rw (pow_byte k, sym (div-div-eq-div-mul value (2 ^ (k * 8)) 256)) (omega arith) in
    let byte : b ≡ value / 2 ^ (k * 8) % 256 = omega arith in (bound, top, cc)

-- Where bytes decode to a number, it is a 64-bit number, and the bytes are its encoding, followed
-- by those that are left.
pub encode-decode :
    (input : Bytes) (value : ℕ) (rest : Bytes)
    → All IsByte input
    → decode_big_endian_integer input ≡ some (value, rest)
    → IsU64 value × (input ≡ encode_big_endian_integer value [] ++ rest)
unfolding decode_big_endian_integer
encode-decode input value rest h e = elim (Bool-cases (ltb (length input) 8)) [
  | inl short ↦ absurd (cc (rw short at e))
  | inr enough ↦
      let e' : decode_loop 8 0 input ≡ (value, rest) = cc (rw enough at e) in
      let (fits, _, whole) =
        decode_loop_inverse 8 0 0 value input rest (omega arith) (omega arith) (ground arith) h
          e' in
      (fits, rw (encode-big_endian value []) whole)
]
