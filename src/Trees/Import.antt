-- ===== src/Trees/Import.antt =====
-- trees/import.h and import.cpp: a file becomes a blob for each piece and one for its index.
-- The order in which the pieces are stored, which the threads' pace decides, is an argument.
pub mod Stored
pub mod RegularFile
pub mod RoundTrip
pub mod NoThreads
pub mod Unreadable
use dogbox.Base.{ℕ, zero, suc, ◌+◌, ◌-◌, ◌*◌, ◌/◌, ◌%◌, List, [], ◌∷◌, ◌++◌, leb, if◌then◌else◌}
use dogbox.Base.{codes, length, set, replicate, Bytes, Result, ok, throw, to_do}
use dogbox.Base.Int.{ℤ, pos, negsuc}
use dogbox.Base.Action.{Action, pure, raise, lift, guard, proceed, ◌>>=◌, ◌>>◌}
use dogbox.External.FileSystem.{File}
use dogbox.FileDescriptor.{open_file_for_reading, read_at}
use dogbox.HashCode.{Sha256HashCode, digest_size}
use dogbox.BlobStorage.Interface.{BlobStore}
use dogbox.Trees.RegularFile.{piece_length, encode_piece, finish_encoding}
use dogbox.Trees.ParallelFor.{parallel_for}

pub data Parallelism : Type 0 where
  none : Parallelism
  full : Parallelism

-- `operator<<`: what the stream `out` holds afterwards.
unfoldable pub print_parallelism : Bytes → Parallelism → Bytes
print_parallelism out full = out ++ codes "full"
print_parallelism out none = out ++ codes "none"

pub record RegularFileImported : Type 0 where
  pub hash_code : Sha256HashCode
  pub content_size : ℕ

-- A value-initialised digest.
abbrev pub zero_hash_code : Sha256HashCode
zero_hash_code = record { digits = replicate digest_size 0 }

-- `off_t const size_result`, which is negative on an error.
abbrev size_or_to_do : ℤ → Result ℕ
size_or_to_do (pos size) = ok size
size_or_to_do (negsuc n) = throw to_do

-- The second parameter of `parallel_for`, from `std::thread::hardware_concurrency()`.
unfoldable pub concurrency_for : Parallelism → ℕ → ℕ → ℕ
concurrency_for parallel hardware_concurrency number_of_pieces =
    let concurrency : ℕ = elim parallel [ full ↦ hardware_concurrency | none ↦ 1 ] in
    if leb (concurrency * 2) number_of_pieces then concurrency else 1

unfoldable pub encode_pieces : List Sha256HashCode → Bytes → Bytes
unfolding encode_piece
encode_pieces [] encoded = encoded
encode_pieces (h ∷ hash_codes) encoded = encode_pieces hash_codes (encode_piece h encoded)

module _ (B : BlobStore) where
  -- The vector `hash_codes` and the database.
  abbrev pub ImportState : Type 0
  ImportState = List Sha256HashCode × B.Database

  -- The action at one index.
  unfoldable pub import_piece : File → ℕ → Action ImportState Unit
  import_piece file index (hash_codes, database) =
      proceed (lift (read_at file (index * piece_length) piece_length) (hash_codes, database))
        λ piece_buffer (hash_codes, database).
          (let (result, database') = B.store_blob piece_buffer database in
            proceed (result, (hash_codes, database'))
              λ piece_hash_code (hash_codes, database).
                (ok tt, (set hash_codes index piece_hash_code, database)))

  -- The block that fills `hash_codes`.
  unfoldable pub import_pieces : List ℕ → ℕ → ℕ → File → Action B.Database (List Sha256HashCode)
  import_pieces order number_of_pieces max_parallelism file database =
      let (result, (hash_codes, database')) =
        parallel_for order number_of_pieces max_parallelism (import_piece file)
          (replicate number_of_pieces zero_hash_code, database) in
      proceed (result, database') (λ _. pure hash_codes)

  unfoldable pub from_filesystem_regular_file :
      List ℕ → ℕ → File → Parallelism → Action B.Database RegularFileImported
  from_filesystem_regular_file order hardware_concurrency input parallel = do
    file ← lift (open_file_for_reading input)
    size ← lift (size_or_to_do file.seek_end)
    lift (size_or_to_do file.seek_set)
    let number_of_pieces = size / piece_length
    let remaining_size = size - number_of_pieces * piece_length
    hash_codes ←
        import_pieces order number_of_pieces
          (concurrency_for parallel hardware_concurrency number_of_pieces) file
    piece_buffer ← lift (read_at file (number_of_pieces * piece_length) remaining_size)
    encoded ← lift (finish_encoding piece_buffer remaining_size (encode_pieces hash_codes []))
    hash_code ← B.store_blob encoded
    pure (record { hash_code = hash_code; content_size = size })
