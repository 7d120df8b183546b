-- ===== src/Trees/Directory/Format.antt =====
-- The entries that the format can express, and their bytes.
use dogbox.Base.{ℕ, ◌≡◌, ◌≢◌, sym}
use dogbox.Base.{[], ◌∷◌, ◌++◌, append-nil, append_assoc}
use dogbox.Base.{All, Bytes}
use dogbox.HashCode.{IsHashCode}
use dogbox.Trees.RegularFile.{IsU64}
use dogbox.Trees.RegularFile.BigEndian.{big_endian, encode-big_endian}
use dogbox.Trees.Directory.{EntryType, regular_file, directory, entry_type_code, encode_size}
use dogbox.Trees.Directory.{encode_entry, DecodedEntry}

-- A directory has no size, and a file's size is a 64-bit number.
abbrev pub SizeFits : EntryType → ℕ → Type 0
SizeFits regular_file size = IsU64 size
SizeFits directory size = size ≡ 0

-- An entry that the format can express. A name has no zero byte.
pub record IsEntry (e : DecodedEntry) : Type 0 where
  pub named : All (λ b. b ≢ 0) e.name
  pub hashed : IsHashCode e.hash_code
  pub sized : SizeFits e.type e.regular_file_size

abbrev pub size_bytes : EntryType → ℕ → Bytes
size_bytes regular_file size = big_endian 8 size
size_bytes directory size = []

-- The bytes of an entry.
abbrev pub entry_bytes : DecodedEntry → Bytes
entry_bytes e =
    entry_type_code e.type
    ∷ (size_bytes e.type e.regular_file_size ++ (e.name ++ 0 ∷ e.hash_code.digits))

-- `encode_entry` of the fields of an entry.
abbrev pub encode : DecodedEntry → Bytes → Bytes
encode e out = encode_entry e.type e.name e.hash_code e.regular_file_size out

pub encode_size-append :
    (type : EntryType) (size : ℕ) (out : Bytes)
    → encode_size type size out ≡ out ++ size_bytes type size
encode_size-append regular_file size out = encode-big_endian size out
encode_size-append directory size out = sym (append-nil out)

-- An entry is written behind what stands there already.
pub encode-append : (e : DecodedEntry) (out : Bytes) → encode e out ≡ out ++ entry_bytes e
unfolding encode_entry
encode-append e out = rw encode_size-append (simp append_assoc)
