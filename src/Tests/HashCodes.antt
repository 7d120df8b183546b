-- ===== src/Tests/HashCodes.antt =====
-- The theorems on digests, integers and directory entries at concrete inputs.
use dogbox.Base.{◌≡◌, ◌≢◌, refl, some, [], ◌∷◌, ◌++◌, arith}
use dogbox.Base.{length, replicate, All, Bytes, IsByte, codes, leb, ◌&&◌, ◌||◌, not, ◌==◌}
use dogbox.HashCode.{Sha256HashCode, IsHashCode, to_string, parse_sha256_hash_code}
use dogbox.HashCode.RoundTrip.{parse-to_string}
use dogbox.HashCode.Parse.{IsHexDigit, lower, parse_sound}
use dogbox.Trees.RegularFile.{IsU64, encode_big_endian_integer, decode_big_endian_integer}
use dogbox.Trees.RegularFile.BigEndian.{decode-encode, encode-decode}
use dogbox.Trees.Directory.{regular_file, DecodedEntry, encode_entry, decode_entry}
use dogbox.Trees.Directory.RoundTrip.{decode_entry-encode_entry}
use dogbox.Trees.Directory.Format.{IsEntry, encode}
use dogbox.Trees.Directory.RoundTrip.{decode_entry-IsEntry}
use dogbox.Tests.World.{all_of_sound, All-bytes}

-- A digest of two distinct halves.
abbrev pub sample : Sha256HashCode
sample = record { digits = replicate 16 0xab ++ replicate 16 0x0c }

pub sample-IsHashCode : IsHashCode sample
unfolding replicate
sample-IsHashCode = (refl, All-bytes sample.digits refl)

parse-to_string_example : parse_sha256_hash_code (to_string sample) ≡ some sample
parse-to_string_example = parse-to_string sample sample-IsHashCode

-- 64 digits in both cases.
abbrev digits_text : Bytes
digits_text = codes "0123456789abcdefABCDEF0123456789000102030405060708090a0B0c0D0e0F"

digits_text-IsHexDigit : All IsHexDigit digits_text
digits_text-IsHexDigit =
    all_of_sound
      (λ c. (leb 48 c && leb c 57) || ((leb 97 c && leb c 102) || (leb 65 c && leb c 70)))
      IsHexDigit (λ c h. ground arith) digits_text refl

parse_sound_example :
    (length (to_string sample) ≡ 64)
    × All IsHexDigit (to_string sample)
    × IsHashCode sample
    × (to_string sample ≡ lower (to_string sample))
parse_sound_example =
    parse_sound (to_string sample) sample (parse-to_string sample sample-IsHashCode)

decode-encode_example :
    decode_big_endian_integer (encode_big_endian_integer 0x0123456789abcdef [] ++ 7 ∷ [])
    ≡ some (0x0123456789abcdef, 7 ∷ [])
decode-encode_example = decode-encode 0x0123456789abcdef (7 ∷ []) (omega arith)

abbrev nine_bytes : Bytes
nine_bytes = 1 ∷ 2 ∷ 3 ∷ 4 ∷ 5 ∷ 6 ∷ 7 ∷ 8 ∷ 9 ∷ []

encode-decode_example :
    IsU64 0x0102030405060708
    × (nine_bytes ≡ encode_big_endian_integer 0x0102030405060708 [] ++ 9 ∷ [])
unfolding decode_big_endian_integer
encode-decode_example =
    encode-decode nine_bytes 0x0102030405060708 (9 ∷ []) (All-bytes nine_bytes refl) refl

-- A file's entry, and its bytes with a byte behind them.
abbrev pub file_entry : DecodedEntry
file_entry = record {
  type = regular_file;
  name = codes "Name";
  hash_code = sample;
  regular_file_size = 1234;
}

pub file_entry-IsEntry : IsEntry file_entry
file_entry-IsEntry = record {
  named =
      all_of_sound (λ b. not (b == 0)) (λ b. b ≢ 0) (λ b h e. ground arith) file_entry.name refl;
  hashed = sample-IsHashCode;
  sized = omega arith;
}

decode_entry-encode_entry_example :
    decode_entry (encode file_entry [] ++ 255 ∷ []) ≡ some (file_entry, 255 ∷ [])
decode_entry-encode_entry_example =
    decode_entry-encode_entry file_entry (255 ∷ []) file_entry-IsEntry

abbrev file_bytes : Bytes
file_bytes = encode file_entry [] ++ 255 ∷ []

file_bytes-IsByte : All IsByte file_bytes
unfolding replicate encode_entry encode_big_endian_integer
file_bytes-IsByte = All-bytes file_bytes refl

decode_entry-IsEntry_example : IsEntry file_entry × (file_bytes ≡ encode file_entry [] ++ 255 ∷ [])
decode_entry-IsEntry_example =
    decode_entry-IsEntry file_bytes (255 ∷ []) file_entry file_bytes-IsByte
      (decode_entry-encode_entry file_entry (255 ∷ []) file_entry-IsEntry)
