-- ===== src/Trees/Directory.antt =====
-- trees/directory.h and directory.cpp: the entries of an encoded directory.
pub mod Format
pub mod RoundTrip
pub mod Printing
use dogbox.Base.{ℕ, zero, suc, ◌≡◌, ◌≢◌}
use dogbox.Base.{
  List, [], ◌∷◌, ◌++◌, ltb, ◌==◌, if◌then◌else◌, length, take, drop, Bytes, bytes_eq, codes, find,
}
use dogbox.Base.{Bool, true, false, ◌&&◌, Option, none, some}
use dogbox.Base.Decimal.{decimal}
use dogbox.Base.Optional.{◌>>=◌}
use dogbox.HashCode.{Sha256HashCode, digest_size, hash_code_eq, print_hash_code}
use dogbox.Trees.RegularFile.{encode_big_endian_integer, decode_big_endian_integer}

pub data EntryType : Type 0 where
  regular_file : EntryType
  directory : EntryType

-- The enumerators' values.
abbrev pub entry_type_code : EntryType → ℕ
entry_type_code regular_file = 254
entry_type_code directory = 255

abbrev pub encode_size : EntryType → ℕ → Bytes → Bytes
encode_size directory regular_file_size out = out
encode_size regular_file regular_file_size out = encode_big_endian_integer regular_file_size out

-- `out` holds the bytes written before, in reading order.
unfoldable pub encode_entry : EntryType → Bytes → Sha256HashCode → ℕ → Bytes → Bytes
encode_entry type name hash_code regular_file_size out =
    let sized = encode_size type regular_file_size (out ++ entry_type_code type ∷ []) in
    (sized ++ name) ++ 0 ∷ hash_code.digits

pub record DecodedEntry : Type 0 where
  pub type : EntryType
  pub name : Bytes
  pub hash_code : Sha256HashCode
  pub regular_file_size : ℕ

-- `operator<<`: what the stream `out` holds afterwards.
unfoldable pub print_entry_type : Bytes → EntryType → Bytes
print_entry_type out regular_file = out ++ codes "regular_file"
print_entry_type out directory = out ++ codes "directory"

unfoldable pub print_decoded_entry : Bytes → DecodedEntry → Bytes
unfolding print_entry_type
print_decoded_entry out printed =
    let typed = print_entry_type out printed.type ++ codes " " in
    let named = (typed ++ printed.name) ++ codes " " in
    let hashed = print_hash_code named printed.hash_code ++ codes " " in
    hashed ++ decimal printed.regular_file_size

unfoldable pub decoded_entry_eq : DecodedEntry → DecodedEntry → Bool
unfolding hash_code_eq
decoded_entry_eq left right =
    entry_type_code left.type == entry_type_code right.type
    && bytes_eq left.name right.name
    && hash_code_eq left.hash_code right.hash_code
    && left.regular_file_size == right.regular_file_size

-- `in` stands behind the name and the zero that ends it, if there is one.
unfoldable pub decode_digest : EntryType → ℕ → Bytes × Bytes → Option (DecodedEntry × Bytes)
decode_digest type size (name, []) = none
decode_digest type size (name, z ∷ input) =
    if ltb (length input) digest_size
    then none
    else some (
      record {
        type = type;
        name = name;
        hash_code = record { digits = take digest_size input };
        regular_file_size = size;
      },
      drop digest_size input,
    )

unfoldable pub decode_entry : Bytes → Option (DecodedEntry × Bytes)
unfolding decode_digest
decode_entry [] = none
decode_entry (type ∷ input) =
    if type == entry_type_code regular_file
    then (decode_big_endian_integer input >>= λ (size, input').
        decode_digest regular_file size (find 0 input'))
    else if type == entry_type_code directory
    then decode_digest directory 0 (find 0 input)
    else none
