-- ===== src/Trees/Import/NoThreads.antt =====
-- The import of a file where `std::thread::hardware_concurrency()` returns 0, which it does where the
-- number of threads is not known.
use dogbox.Base.{
  ℕ, ◌*◌, ◌/◌, ◌≡◌, refl, true, List, leb, length, Bytes, throw, assertion_failed, arith,
}
use dogbox.External.FileSystem.{File, HasContent}
use dogbox.BlobStorage.Interface.{BlobStore}
use dogbox.FileDescriptor.{open_file_for_reading}
use dogbox.Trees.ParallelFor.{parallel_for}
use dogbox.Trees.RegularFile.{piece_length}
use dogbox.Trees.Import.{full, from_filesystem_regular_file, import_pieces, concurrency_for}

-- No thread is asked for, however few pieces there are.
concurrency_for-no_threads : (n : ℕ) → concurrency_for full 0 n ≡ 0
unfolding concurrency_for
concurrency_for-no_threads n = let enough : leb (0 * 2) n ≡ true = ground arith in rw enough refl

-- Where no number of threads is known, and parallelism is asked for, the import of a readable file fails
-- with an assertion, whatever its size, and stores nothing.
pub import-no_threads :
    (B : BlobStore) (order : List ℕ) (file : File) (content : Bytes) (db : B.Database)
    → HasContent file content
    → from_filesystem_regular_file B order 0 file full db ≡ (throw assertion_failed, db)
unfolding from_filesystem_regular_file open_file_for_reading import_pieces parallel_for
import-no_threads B order file content db h =
    rw (h.opens, h.seek_end, h.seek_set, concurrency_for-no_threads (length content / piece_length))
      refl
