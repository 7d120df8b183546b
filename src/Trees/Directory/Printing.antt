-- ===== src/Trees/Directory/Printing.antt =====
-- What `operator<<` writes of an entry tells the entry.
use dogbox.Base.{ℕ, ◌/◌, ◌%◌, ◌<◌, ◌≡◌, ◌≢◌, refl, sym, ap, ◌∙◌, [], ◌∷◌, ◌++◌}
use dogbox.Base.{append_assoc, arith, All, All-of_append, Bytes, IsByte, codes, get_or, drop}
use dogbox.Base.{all_below, all_below_sound, not, ◌==◌, true}
use mathlib.Core.Path.{subst}
use dogbox.Base.Decimal.{decimal, decimal-injective, decimal-digits}
use dogbox.HashCode.{IsHashCode, hex_digits, print_hash_code}
use dogbox.HashCode.RoundTrip.{hex_text, format_bytes-hex_text, to_string-hex_text}
use dogbox.HashCode.RoundTrip.{to_string-injective}
use dogbox.Trees.Directory.{EntryType, regular_file, directory, DecodedEntry}
use dogbox.Trees.Directory.{print_entry_type, print_decoded_entry}

abbrev NoSpace : Bytes → Type 0
NoSpace text = All (λ c. c ≢ b' ') text

-- No hexadecimal digit is a space.
digit_table : all_below 16 (λ d. not (get_or hex_digits d 0 == b' ')) ≡ true
unfolding all_below
digit_table = refl

hex_digit-space : (d : ℕ) → d < 16 → get_or hex_digits d 0 ≢ b' '
hex_digit-space d h e = ground (arith, all_below_sound 16 _ d digit_table h)

hex_text-NoSpace : (bs : Bytes) → All IsByte bs → NoSpace (hex_text bs)
hex_text-NoSpace [] h = tt
hex_text-NoSpace (b ∷ bs) (hb, hs) = (
  hex_digit-space (b / 16) (omega arith),
  (hex_digit-space (b % 16) (omega arith), hex_text-NoSpace bs hs),
)

-- The last space of a text splits it.
split_last :
    (xs ys a b : Bytes)
    → NoSpace a
    → NoSpace b
    → xs ++ b' ' ∷ a ≡ ys ++ b' ' ∷ b
    → (xs ≡ ys) × (a ≡ b)
split_last [] [] a b v w e = (refl, cc)
split_last [] (y ∷ ys) a b v w e =
    let same : a ≡ ys ++ b' ' ∷ b = cc in
    let parts =
      All-of_append (λ c. c ≢ b' ') ys (b' ' ∷ b) (subst (λ (t : Bytes). NoSpace t) same v) in
    absurd (parts.1.0 refl)
split_last (x ∷ xs) [] a b v w e =
    let same : xs ++ b' ' ∷ a ≡ b = cc in
    let parts =
      All-of_append (λ c. c ≢ b' ') xs (b' ' ∷ a) (subst (λ (t : Bytes). NoSpace t) (sym same) w) in
    absurd (parts.1.0 refl)
split_last (x ∷ xs) (y ∷ ys) a b v w e =
    let rest : xs ++ b' ' ∷ a ≡ ys ++ b' ' ∷ b = cc in
    let (same, same') = split_last xs ys a b v w rest in (cc, same')

abbrev type_text : EntryType → Bytes
type_text regular_file = codes "regular_file"
type_text directory = codes "directory"

print_entry_type-type_text : (t : EntryType) → print_entry_type [] t ≡ type_text t
unfolding print_entry_type
print_entry_type-type_text regular_file = refl
print_entry_type-type_text directory = refl

-- The text of an entry.
printed-eq :
    (e : DecodedEntry)
    → IsHashCode e.hash_code
    → print_decoded_entry [] e
      ≡ ((type_text e.type ++ b' ' ∷ e.name) ++ b' ' ∷ hex_text e.hash_code.digits)
        ++ b' ' ∷ decimal e.regular_file_size
unfolding print_decoded_entry print_hash_code
printed-eq e v =
    rw
      (
        print_entry_type-type_text e.type,
        format_bytes-hex_text e.hash_code.digits
            (((type_text e.type ++ b' ' ∷ []) ++ e.name) ++ b' ' ∷ []) v.1,
      )
      (simp append_assoc)

typed-injective :
    (t t' : EntryType) (name name' : Bytes)
    → type_text t ++ b' ' ∷ name ≡ type_text t' ++ b' ' ∷ name'
    → (t ≡ t') × (name ≡ name')
typed-injective regular_file regular_file name name' e = (refl, ap (drop 13) e)
typed-injective regular_file directory name name' e =
    let first : ◌≡◌ {A = ℕ} b'r' b'd' = ap (λ (t : Bytes). get_or t 0 0) e in
    absurd (omega (arith, first))
typed-injective directory regular_file name name' e =
    let first : ◌≡◌ {A = ℕ} b'd' b'r' = ap (λ (t : Bytes). get_or t 0 0) e in
    absurd (omega (arith, first))
typed-injective directory directory name name' e = (refl, ap (drop 10) e)

-- Two entries whose digests have 32 bytes and that print alike are the same, whatever their names
-- are.
pub print_decoded_entry-injective :
    (e e' : DecodedEntry)
    → IsHashCode e.hash_code
    → IsHashCode e'.hash_code
    → print_decoded_entry [] e ≡ print_decoded_entry [] e'
    → e ≡ e'
print_decoded_entry-injective e e' v v' same =
    let texts = sym (printed-eq e v) ∙ same ∙ printed-eq e' v' in
    let (front, sizes) =
      split_last _ _ (decimal e.regular_file_size) (decimal e'.regular_file_size)
        (decimal-digits e.regular_file_size) (decimal-digits e'.regular_file_size) texts in
    let (typed, hashes) =
      split_last _ _ (hex_text e.hash_code.digits) (hex_text e'.hash_code.digits)
        (hex_text-NoSpace e.hash_code.digits v.1) (hex_text-NoSpace e'.hash_code.digits v'.1)
        front in
    let (types, names) = typed-injective e.type e'.type e.name e'.name typed in
    let hash =
      to_string-injective e.hash_code e'.hash_code v v'
        (to_string-hex_text e.hash_code v ∙ hashes ∙ sym (to_string-hex_text e'.hash_code v')) in
    let size = decimal-injective e.regular_file_size e'.regular_file_size sizes in
    λ i. record { type = types i; name = names i; hash_code = hash i; regular_file_size = size i }
