-- ===== src/Tests/Files.antt =====
-- The theorems on files at a small file, over the blob storage with the concrete collaborators.
use dogbox.Base.{throw, assertion_failed}
use dogbox.Trees.Import.NoThreads.{import-no_threads}
use dogbox.Base.{ℕ, ◌+◌, ◌/◌, ◌%◌, ◌^◌, ◌≤◌, ◌<◌, ◌≡◌, refl, true, none, some}
use dogbox.Base.{[], ◌∷◌, ltb, if◌then◌else◌, arith, length, take, drop, ok}
use dogbox.Base.Int.{pos}
use dogbox.External.FileSystem.{File, HasContent}
use dogbox.BlobStorage.Interface.{BlobStore, IsBlobStore, blob_storage, blob_storage-IsBlobStore}
use dogbox.Trees.RegularFile.{piece_length}
use dogbox.Trees.RegularFileIndex.{RegularFileIndex, load_regular_file_index}
use dogbox.Trees.RegularFileIndex.Load.{index_bytes, index_of}
use dogbox.Trees.Pieces.{piece_count, tail_of}
use dogbox.Trees.ReadCaching.{ReadCaching}
use dogbox.Trees.ReadFile.{OpenFile, read_file}
use dogbox.Trees.ReadFile.Select.{CacheHolds, SameFile}
use dogbox.Trees.ReadFile.Window.{read_file-window}
use dogbox.Trees.ReadFile.PastEnd.{read_file_behind}
use dogbox.Trees.ParallelFor.{workers, Interleaving, done, next}
use dogbox.Trees.ParallelFor.Coverage.{occurrences, occurrences-workers}
use dogbox.Trees.Import
use dogbox.Trees.Import.{Parallelism, RegularFileImported}
use dogbox.Trees.Import.Stored.{IsImportable}
use dogbox.Trees.Import.RoundTrip.{opened, read-import}
use dogbox.Tests.World.{table_sqlite, table_sqlite-IsSqlite, plain_lz4, plain_lz4-IsLz4}
use dogbox.Tests.World.{toy_sha256, toy_sha256-IsDigest, Short}
use dogbox.Tests.Storage.{
  text, fresh, stored, text-IsStorable, fresh-IsStore, stored-IsStore, stored-Holds,
}

abbrev pub blobs : BlobStore
blobs = blob_storage table_sqlite plain_lz4 toy_sha256

unfoldable pub blobs-IsBlobStore : IsBlobStore blobs toy_sha256
unfolding blob_storage-IsBlobStore
blobs-IsBlobStore =
    blob_storage-IsBlobStore table_sqlite table_sqlite-IsSqlite plain_lz4 plain_lz4-IsLz4 toy_sha256
      Short toy_sha256-IsDigest

fresh-IsReady : blobs-IsBlobStore.IsReady fresh
unfolding blobs-IsBlobStore
fresh-IsReady = fresh-IsStore

pub stored-IsReady : blobs-IsBlobStore.IsReady stored
unfolding blobs-IsBlobStore
stored-IsReady = stored-IsStore

-- The index of a file that is shorter than a piece is its content.
pub index-HoldsBlob : blobs-IsBlobStore.HoldsBlob stored (index_bytes toy_sha256 text)
unfolding blobs-IsBlobStore
index-HoldsBlob = (stored-Holds, text-IsStorable)

abbrev pub text_file : File
text_file = record {
  opens = true;
  seek_end = pos (length text);
  seek_set = pos 0;
  pread = λ offset count. (pos count, take count (drop offset text));
}

pub text_file-HasContent : HasContent text_file text
text_file-HasContent = record {
  opens = refl;
  seek_end = refl;
  seek_set = refl;
  pread = λ offset count h. refl;
}

text-IsImportable : IsImportable blobs toy_sha256 blobs-IsBlobStore text_file text
unfolding blobs-IsBlobStore
text-IsImportable = record {
  readable = text_file-HasContent;
  piece-Fits = λ i h. absurd (omega (arith, h));
  index-Fits = text-IsStorable;
}

no_pieces :
    Interleaving
      (workers (Import.concurrency_for Parallelism.full 4 (piece_count text)) (piece_count text))
      []
unfolding workers Import.concurrency_for
no_pieces = done tt

read-import_example :
    (imported : RegularFileImported) × (index : RegularFileIndex) × (db' : blobs.Database)
    × (Import.from_filesystem_regular_file blobs [] 4 text_file Parallelism.full fresh
        ≡ (ok imported, db'))
    × (load_regular_file_index blobs imported.content_size imported.hash_code db' ≡ (ok index, db'))
    × ((caching : ReadCaching) (offset size : ℕ)
        → offset / piece_length ≤ piece_count text
        → offset + size < 2 ^ 64
        → (file' : OpenFile) × (read_file blobs caching offset size (opened imported index, db')
            ≡ (ok (take size (drop offset text)), (file', db'))))
read-import_example =
    read-import blobs toy_sha256 blobs-IsBlobStore text_file text 4 Parallelism.full fresh
      text-IsImportable (omega arith) fresh-IsReady no_pieces

abbrev pub open_text : OpenFile
open_text = record {
  file_size = 4;
  hash_code = toy_sha256 text;
  index = some (index_of toy_sha256 text);
  cached_piece = none;
  read_cache = [];
}

read_file-window_example :
    (file' : OpenFile) × (read_file blobs ReadCaching.one_piece 1 2 (open_text, stored)
      ≡ (ok (take 2 (drop 1 text)), (file', stored)))
    × CacheHolds text file'.cached_piece file'.read_cache
    × SameFile open_text file'
read_file-window_example =
    read_file-window blobs toy_sha256 blobs-IsBlobStore text stored stored-IsReady
      (λ i h. absurd (omega (arith, h))) ReadCaching.one_piece 1 2 open_text refl tt (omega arith)
      (omega arith)

-- The four bytes of the file once more, a piece behind its end.
read_file_behind_example :
    (length text ≤ piece_length)
    × (read_file blobs ReadCaching.none piece_length 9 (open_text, stored)
        ≡ (ok (take 9 (drop (piece_length % piece_length) (tail_of text))), (open_text, stored)))
read_file_behind_example =
    read_file_behind blobs toy_sha256 text stored ReadCaching.none open_text tt piece_length 9 refl
      (omega arith) (omega arith)

-- Two workers share three indices.
in_turn : Interleaving (workers 2 3) (0 ∷ 1 ∷ 2 ∷ [])
unfolding workers
in_turn =
    next [] 0 (2 ∷ []) ((1 ∷ []) ∷ []) refl
      (next ((2 ∷ []) ∷ []) 1 [] [] refl (next [] 2 [] ([] ∷ []) refl (done (refl, (refl, tt)))))

occurrences-workers_example : occurrences 1 (0 ∷ 1 ∷ 2 ∷ []) ≡ (if ltb 1 3 then 1 else 0)
occurrences-workers_example = occurrences-workers 2 3 1 (omega arith) in_turn

import-no_threads_example :
    Import.from_filesystem_regular_file blobs [] 0 text_file Parallelism.full fresh
    ≡ (throw assertion_failed, fresh)
import-no_threads_example = import-no_threads blobs [] text_file text fresh text_file-HasContent
