-- ===== src/Trees/Directory/RoundTrip.antt =====
-- Writing an entry of a directory and reading it back, in both directions.
use dogbox.Base.{ℕ, ◌+◌, ◌≤◌, ◌≡◌, refl, ◌≢◌, sym, ap, ◌∙◌, inl, inr}
use dogbox.Base.{Option, some, [], ◌∷◌, ◌++◌, append_assoc, arith, ltb, ◌==◌}
use dogbox.Base.{Bool-cases, ltb_false→le, le→ltb_false, ==_iff, length, length-append}
use dogbox.Base.{
  take, drop, take-append, drop-append, take-append-drop, length-take, All-of_append, All, Bytes,
  IsByte,
}
use dogbox.Base.{find, find-first, find-append, find-before, find-found}
use dogbox.Base.Optional.{◌>>=◌, >>=-eq-some}
use dogbox.HashCode.{Sha256HashCode, IsHashCode}
use dogbox.Trees.RegularFile.{decode_big_endian_integer}
use dogbox.Trees.RegularFile.BigEndian
use dogbox.Trees.RegularFile.BigEndian.{big_endian, encode-big_endian}
use dogbox.Trees.Directory.{EntryType, regular_file, directory, entry_type_code}
use dogbox.Trees.Directory.{DecodedEntry, decode_digest, decode_entry}
use dogbox.Trees.Directory.Format.{
  SizeFits, IsEntry, size_bytes, entry_bytes, encode, encode-append,
}

-- The fields of an entry as one value.
abbrev entry : EntryType → ℕ → Bytes → Sha256HashCode → DecodedEntry
entry type size name h = record {
  type = type;
  name = name;
  hash_code = h;
  regular_file_size = size;
}

decode_digest-append :
    (type : EntryType) (size : ℕ) (name : Bytes) (h : Sha256HashCode) (rest : Bytes)
    → IsHashCode h
    → decode_digest type size (name, 0 ∷ (h.digits ++ rest)) ≡ some (entry type size name h, rest)
unfolding decode_digest
decode_digest-append type size name h rest v =
    rw
      (
        le→ltb_false (length (h.digits ++ rest)) 32 (omega (arith, length-append h.digits rest)),
        take-append 32 h.digits rest (omega arith),
        drop-append 32 h.digits rest (omega arith),
      )
      refl

decode_digest-first :
    (type : EntryType) (size : ℕ) (name : Bytes) (h : Sha256HashCode) (rest : Bytes)
    → All (λ b. b ≢ 0) name
    → IsHashCode h
    → decode_digest type size (find 0 ((name ++ 0 ∷ h.digits) ++ rest))
      ≡ some (entry type size name h, rest)
decode_digest-first type size name h rest clean v =
    ap (λ (t : Bytes). decode_digest type size (find 0 t)) (append_assoc name (0 ∷ h.digits) rest)
    ∙ ap (decode_digest type size) (find-first 0 name (h.digits ++ rest) clean)
    ∙ decode_digest-append type size name h rest v

decode-fields :
    (type : EntryType) (size : ℕ) (name : Bytes) (h : Sha256HashCode) (rest : Bytes)
    → IsEntry (entry type size name h)
    → decode_entry (entry_bytes (entry type size name h) ++ rest)
      ≡ some (entry type size name h, rest)
unfolding decode_entry
decode-fields regular_file size name h rest v =
    ap
      (λ (m : Option (ℕ × Bytes)).
        m >>= λ (n, input'). decode_digest regular_file n (find 0 input'))
      (ap decode_big_endian_integer (append_assoc (big_endian 8 size) (name ++ 0 ∷ h.digits) rest)
        ∙ BigEndian.decode-big_endian size ((name ++ 0 ∷ h.digits) ++ rest) v.sized)
    ∙ decode_digest-first regular_file size name h rest v.named v.hashed
decode-fields directory size name h rest v =
    ap (λ (n : ℕ). decode_digest directory n (find 0 ((name ++ 0 ∷ h.digits) ++ rest)))
      (sym v.sized)
    ∙ decode_digest-first directory size name h rest v.named v.hashed

pub decode-entry_bytes :
    (e : DecodedEntry) (rest : Bytes)
    → IsEntry e
    → decode_entry (entry_bytes e ++ rest) ≡ some (e, rest)
decode-entry_bytes e rest v = decode-fields e.type e.regular_file_size e.name e.hash_code rest v

-- An entry that the format can express (its name has no zero byte, its digest has 32 bytes, a
-- file's size is a 64-bit number and a directory's is 0) reads back as it was written, and the
-- bytes behind it are left.
pub decode_entry-encode_entry :
    (e : DecodedEntry) (rest : Bytes)
    → IsEntry e
    → decode_entry (encode e [] ++ rest) ≡ some (e, rest)
decode_entry-encode_entry e rest v = rw (encode-append e []) (decode-entry_bytes e rest v)

decode_digest_inverse :
    (type : EntryType) (size : ℕ) (before after rest : Bytes) (e : DecodedEntry)
    → decode_digest type size (before, after) ≡ some (e, rest)
    → (z : ℕ) × (input : Bytes) × (after ≡ z ∷ input)
      × (32 ≤ length input)
      × (entry type size before (record { digits = take 32 input }) ≡ e)
      × (drop 32 input ≡ rest)
unfolding decode_digest
decode_digest_inverse type size before [] rest e q = absurd (cc)
decode_digest_inverse type size before (z ∷ input) rest e q =
    elim (Bool-cases (ltb (length input) 32)) [
      | inl short ↦ absurd (cc (rw short at q))
      | inr enough ↦
          let q' : ◌≡◌ {A = Option (DecodedEntry × Bytes)}
              (some (entry type size before (record { digits = take 32 input }), drop 32 input))
              (some (e, rest)) =
            rw enough at q in
          (z, input, refl, ltb_false→le (length input) 32 enough, cc, cc)
    ]

-- From the name on, what decodes is an entry's encoding.
decode_digest_sound :
    (type : EntryType) (size : ℕ) (input rest : Bytes) (e : DecodedEntry)
    → All IsByte input
    → SizeFits type size
    → decode_digest type size (find 0 input) ≡ some (e, rest)
    → IsEntry e
      × (e.type ≡ type)
      × (e.regular_file_size ≡ size)
      × (input ≡ (e.name ++ 0 ∷ e.hash_code.digits) ++ rest)
decode_digest_sound type size input rest e h fits q =
    let (before, after) = find 0 input in
    let (z, behind, split, long, made, left) =
      decode_digest_inverse type size before after rest e q in
    let zero_found : z ≡ 0 = find-found 0 input z behind split in
    let digits : Bytes = take 32 behind in
    let cut : input ≡ before ++ 0 ∷ behind =
      sym (find-append 0 input)
      ∙ ap (λ (t : Bytes). before ++ t) (split ∙ ap (λ (c : ℕ). c ∷ behind) zero_found) in
    let text : behind ≡ digits ++ rest =
      sym (take-append-drop 32 behind) ∙ ap (λ (t : Bytes). digits ++ t) left in
    let whole : input ≡ (before ++ 0 ∷ digits) ++ rest =
      cut
      ∙ ap (λ (t : Bytes). before ++ 0 ∷ t) text
      ∙ sym (append_assoc before (0 ∷ digits) rest) in
    let bytes = (All-of_append IsByte (before ++ 0 ∷ digits) rest (rw whole at h)).0 in
    let tail = (All-of_append IsByte before (0 ∷ digits) bytes).1 in
    rw (sym made) (
      record {
        named = find-before 0 input;
        hashed = (omega (arith, length-take 32 behind), tail.1);
        sized = fits;
      },
      refl,
      refl,
      whole,
    )

join_fields :
    (type : EntryType) (size t : ℕ) (input behind rest : Bytes) (e : DecodedEntry)
    → t ≡ entry_type_code type
    → input ≡ size_bytes type size ++ behind
    → e.type ≡ type
    → e.regular_file_size ≡ size
    → behind ≡ (e.name ++ 0 ∷ e.hash_code.digits) ++ rest
    → ◌≡◌ {A = Bytes} (t ∷ input) (encode e [] ++ rest)
join_fields type size t input behind rest e ht hi te se hb = rw (encode-append e []) (
    cc (
      append_assoc (size_bytes e.type e.regular_file_size) (e.name ++ 0 ∷ e.hash_code.digits) rest))

-- Where bytes decode to an entry, it is one that the format can express, and the bytes are its
-- encoding, followed by those that are left.
pub decode_entry-IsEntry :
    (input rest : Bytes) (e : DecodedEntry)
    → All IsByte input
    → decode_entry input ≡ some (e, rest)
    → IsEntry e × (input ≡ encode e [] ++ rest)
unfolding decode_entry
decode_entry-IsEntry [] rest e h q = absurd (cc)
decode_entry-IsEntry (t ∷ input) rest e (ht, hs) q = elim (Bool-cases (t == 254)) [
  | inl file ↦
      let (p, read, q') =
        >>=-eq-some (decode_big_endian_integer input)
          (λ (n, input'). decode_digest regular_file n (find 0 input')) (rw file at q) in
      let (size, behind) = p in
      let (fits, text) = BigEndian.encode-decode input size behind hs read in
      let cut : input ≡ big_endian 8 size ++ behind = rw (encode-big_endian size []) at text in
      let bytes = (All-of_append IsByte (big_endian 8 size) behind (rw cut at hs)).1 in
      let (v, te, se, tail) = decode_digest_sound regular_file size behind rest e bytes fits q' in
      (
        v,
        join_fields regular_file size t input behind rest e ((==_iff t 254).0 file) cut te se tail,
      )
  | inr other ↦ elim (Bool-cases (t == 255)) [
    | inl folder ↦
        let (v, te, se, tail) =
          decode_digest_sound directory 0 input rest e hs refl (rw (other, folder) at q) in
        (v, join_fields directory 0 t input input rest e ((==_iff t 255).0 folder) refl te se tail)
    | inr unknown ↦ absurd (cc (rw (other, unknown) at q))
  ]
]

-- Where bytes decode to an entry, at least 34 fewer of them are left, so that a loop that decodes
-- entries ends.
pub decode_entry-length :
    (input rest : Bytes) (e : DecodedEntry)
    → All IsByte input
    → decode_entry input ≡ some (e, rest)
    → length rest + 34 ≤ length input
decode_entry-length input rest e h q =
    let (v, text) = decode_entry-IsEntry input rest e h q in
    let whole : input ≡ entry_bytes e ++ rest = rw (encode-append e []) at text in
    let name = length-append e.name (0 ∷ e.hash_code.digits) in
    let sized =
      length-append (size_bytes e.type e.regular_file_size) (e.name ++ 0 ∷ e.hash_code.digits) in
    omega (
      arith,
      ap (λ (t : Bytes). length t) whole,
      length-append (entry_bytes e) rest,
      name,
      sized,
      v.hashed.0,
    )
