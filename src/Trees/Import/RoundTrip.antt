-- ===== src/Trees/Import/RoundTrip.antt =====
-- What was imported is read back.
use dogbox.Base.{
  [], ℕ, ◌+◌, ◌/◌, ◌^◌, ◌≤◌, ◌<◌, ◌≡◌, refl, none, some, List, take, drop, length, Bytes, ok,
}
use dogbox.External.FileSystem.{File}
use dogbox.HashCode.{Sha256HashCode}
use dogbox.BlobStorage.Interface.{BlobStore, IsBlobStore}
use dogbox.Trees.RegularFile.{piece_length}
use dogbox.Trees.RegularFileIndex.{RegularFileIndex, load_regular_file_index}
use dogbox.Trees.RegularFileIndex.Load.{load-index_bytes, index_bytes, index_of}
use dogbox.Trees.Pieces.{piece_count}
use dogbox.Trees.ParallelFor.{workers, Interleaving}
use dogbox.Trees.ReadCaching.{ReadCaching}
use dogbox.Trees.ReadFile.{OpenFile, read_file}
use dogbox.Trees.ReadFile.Window.{read_file-window}
use dogbox.Trees.Import
use dogbox.Trees.Import.{Parallelism, RegularFileImported}
use dogbox.Trees.Import.Stored.{IsImportable}
use dogbox.Trees.Import.RegularFile.{import-stored}

-- `open_file{content_size, hash_code, index, nullopt, {}}`
abbrev pub opened : RegularFileImported → RegularFileIndex → OpenFile
opened imported index = record {
  file_size = imported.content_size;
  hash_code = imported.hash_code;
  index = some index;
  cached_piece = none;
  read_cache = [];
}

-- A readable file whose pieces and index the store can take is imported into a store that is
-- ready, with at least one hardware thread and in any order of its pieces; from what the import
-- returns, the index loads, and every window that starts within the file's pieces and ends below
-- 2^64 reads, in either mode of the cache, as that window of the file's content.
pub read-import :
    (B : BlobStore) (sha256 : Bytes → Sha256HashCode) (I : IsBlobStore B sha256) (file : File)
    (content : Bytes) {order : List ℕ} (hardware_concurrency : ℕ) (parallel : Parallelism)
    (db : B.Database)
    → IsImportable B sha256 I file content
    → 1 ≤ hardware_concurrency
    → I.IsReady db
    → Interleaving
        (workers
          (Import.concurrency_for parallel hardware_concurrency (piece_count content))
          (piece_count content))
        order
    → (imported : RegularFileImported) × (index : RegularFileIndex) × (db' : B.Database)
      × (Import.from_filesystem_regular_file B order hardware_concurrency file parallel db
          ≡ (ok imported, db'))
      × (load_regular_file_index B imported.content_size imported.hash_code db' ≡ (ok index, db'))
      × ((caching : ReadCaching) (offset size : ℕ)
          → offset / piece_length ≤ piece_count content
          → offset + size < 2 ^ 64
          → (file' : OpenFile) × (read_file B caching offset size (opened imported index, db')
              ≡ (ok (take size (drop offset content)), (file', db'))))
read-import B sha256 I file content hardware_concurrency parallel db v h ready order =
    let (db', imported, index, (ready', pieces, _)) =
      import-stored B sha256 I file content v hardware_concurrency parallel db h ready order in
    (
      record { hash_code = sha256 (index_bytes sha256 content); content_size = length content },
      index_of sha256 content,
      db',
      imported,
      load-index_bytes B sha256 I content db' ready' index,
      λ caching offset size within below.
          let (file', read, _, _) =
            read_file-window B sha256 I content db' ready' pieces caching offset size
              (opened
                (record {
                  hash_code = sha256 (index_bytes sha256 content);
                  content_size = length content;
                })
                (index_of sha256 content))
              refl tt within below in
          (file', read),
    )
