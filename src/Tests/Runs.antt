-- ===== src/Tests/Runs.antt =====
-- The program's own tests of the encodings and of the blob storage, run on the definitions.
use dogbox.Base.{◌≡◌, refl, false, none, some, [], ◌∷◌, ◌++◌, replicate, Bytes}
use dogbox.Base.{bytes_eq, codes, ok, find}
use dogbox.HashCode.{to_string}
use dogbox.BlobStorage.{resize, initialize_blob_storage, store_blob, load_blob, count_blobs}
use dogbox.Trees.RegularFile.{
  encode_big_endian_integer, decode_big_endian_integer, encode_piece, decode_piece,
}
use dogbox.Trees.RegularFile.{finish_encoding, finish_decoding}
use dogbox.Trees.Directory.{regular_file, encode_entry, decode_entry}
use dogbox.Trees.Import.{zero_hash_code}
use dogbox.Tests.World.{Table, table_sqlite, plain_lz4, toy_sha256}

abbrev dummy_entry : Bytes
dummy_entry = 254 ∷ 0 ∷ 0 ∷ 0 ∷ 0 ∷ 0 ∷ 0 ∷ 0 ∷ 123 ∷ codes "test" ++ replicate 33 0

trees_encode_entry : encode_entry regular_file (codes "test") zero_hash_code 123 [] ≡ dummy_entry
unfolding encode_entry encode_big_endian_integer replicate
trees_encode_entry = refl

trees_decode_entry :
    decode_entry dummy_entry
    ≡ some (
      record {
        type = regular_file;
        name = codes "test";
        hash_code = zero_hash_code;
        regular_file_size = 123;
      },
      [],
    )
unfolding decode_entry decode_big_endian_integer find replicate
trees_decode_entry = refl

regular_file_encode_piece : encode_piece zero_hash_code [] ≡ replicate 32 0
unfolding encode_piece replicate
regular_file_encode_piece = refl

abbrev final_piece : Bytes
final_piece = 0x12 ∷ 0x34 ∷ 0x56 ∷ 0x78 ∷ 0xaa ∷ 0xbb ∷ 0xcc ∷ 0xdd ∷ []

regular_file_finish_encoding : finish_encoding final_piece 8 [] ≡ ok final_piece
unfolding finish_encoding
regular_file_finish_encoding = refl

regular_file_decode_piece_success :
    decode_piece (replicate 32 0 ++ 99 ∷ []) ≡ some (zero_hash_code, 99 ∷ [])
unfolding decode_piece replicate
regular_file_decode_piece_success = refl

regular_file_decode_piece_failure : decode_piece (replicate 31 0) ≡ none
unfolding decode_piece replicate
regular_file_decode_piece_failure = refl

regular_file_finish_decoding_success :
    finish_decoding (final_piece ++ 99 ∷ []) 8 ≡ some (final_piece ++ 99 ∷ [])
unfolding finish_decoding
regular_file_finish_decoding_success = refl

regular_file_finish_decoding_failure : finish_decoding (final_piece ++ 99 ∷ []) 10 ≡ none
unfolding finish_decoding
regular_file_finish_decoding_failure = refl

abbrev empty : Table
empty = record { created = false; rows = [] }

abbrev initialized : Table
initialized = (initialize_blob_storage table_sqlite empty).1

abbrev test_blob : Bytes
test_blob = 1 ∷ 2 ∷ 3 ∷ 99 ∷ 255 ∷ []

abbrev stored_once : Table
stored_once = (store_blob table_sqlite plain_lz4 toy_sha256 test_blob initialized).1

load_blob_not_found : (load_blob table_sqlite plain_lz4 zero_hash_code initialized).0 ≡ ok none
unfolding load_blob initialize_blob_storage to_string bytes_eq replicate
load_blob_not_found = refl

store_blob_and_load :
    (load_blob table_sqlite plain_lz4 (toy_sha256 test_blob) stored_once).0 ≡ ok (some test_blob)
unfolding load_blob store_blob initialize_blob_storage to_string bytes_eq replicate resize
store_blob_and_load = refl

store_blob_again :
    (store_blob table_sqlite plain_lz4 toy_sha256 test_blob stored_once).0
    ≡ ok (toy_sha256 test_blob)
unfolding load_blob store_blob initialize_blob_storage to_string bytes_eq replicate
store_blob_again = refl

count_after_store_again :
    (count_blobs table_sqlite
      (store_blob table_sqlite plain_lz4 toy_sha256 test_blob stored_once).1).0
    ≡ ok 1
unfolding load_blob store_blob count_blobs initialize_blob_storage to_string bytes_eq replicate
count_after_store_again = refl
