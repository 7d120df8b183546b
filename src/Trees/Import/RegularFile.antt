-- ===== src/Trees/Import/RegularFile.antt =====
-- `from_filesystem_regular_file` as a whole.
use dogbox.Base.{ℕ, ◌-◌, ◌*◌, ◌/◌, ◌≤◌, ◌<◌, ◌≡◌, ◌≢◌, refl, ap, ◌∙◌, inl, inr}
use dogbox.Base.{List, [], ◌++◌, arith, lt→ltb, ◌==◌, ==_iff}
use dogbox.Base.{Bool-cases, length, replicate, length-replicate}
use dogbox.Base.{take_all, length-drop, Bytes, ok}
use dogbox.Base.Int.{pos}
use dogbox.External.FileSystem.{File}
use dogbox.FileDescriptor.{open_file_for_reading, read_at, read_at-HasContent}
use dogbox.HashCode.{Sha256HashCode}
use dogbox.BlobStorage.Interface.{BlobStore, IsBlobStore}
use dogbox.Trees.RegularFile.{piece_length, finish_encoding}
use dogbox.Trees.RegularFileIndex.Load.{index_bytes}
use dogbox.Trees.Pieces.{piece_count, piece, tail_of, piece_hashes}
use dogbox.Trees.ParallelFor.{for_each, parallel_for, workers, Interleaving}
use dogbox.Trees.ParallelFor.Failing.{parallel_for-ok, parallel_for-zero}
use dogbox.Trees.ParallelFor.Coverage.{occurrences, occurrences-workers}
use dogbox.Trees.Import
use dogbox.Trees.Import.{Parallelism, RegularFileImported}
use dogbox.Trees.Import.Stored.{IsImportable, for_each-IsStored, Covers, Covers-inside}
use dogbox.Trees.Import.Stored.{hashes-piece_hashes, encode_pieces-digests}

pub concurrency_for-pos :
    (parallel : Parallelism) (hardware_concurrency n : ℕ)
    → 1 ≤ hardware_concurrency
    → 1 ≤ Import.concurrency_for parallel hardware_concurrency n
unfolding Import.concurrency_for
concurrency_for-pos Parallelism.none hardware_concurrency n h = ground arith
concurrency_for-pos Parallelism.full hardware_concurrency n h = ground arith

import_pieces-eq :
    (B : BlobStore) (file : File) (order : List ℕ) (count max : ℕ) (db db' : B.Database)
    (hs : List Sha256HashCode)
    → parallel_for order count max
        (Import.import_piece B file)
        (replicate count Import.zero_hash_code, db)
      ≡ (ok tt, (hs, db'))
    → Import.import_pieces B order count max file db ≡ (ok hs, db')
unfolding Import.import_pieces
import_pieces-eq B file order count max db db' hs e = rw e refl

-- The whole import, from what each of its steps returns.
import-eq :
    (B : BlobStore) (file : File) (order : List ℕ) (hardware_concurrency : ℕ)
    (parallel : Parallelism) (size : ℕ) (db db' db'' : B.Database) (hs : List Sha256HashCode)
    (tail encoded : Bytes) (h : Sha256HashCode)
    → open_file_for_reading file ≡ ok file
    → file.seek_end ≡ pos size
    → file.seek_set ≡ pos 0
    → Import.import_pieces B order
        (size / piece_length)
        (Import.concurrency_for parallel hardware_concurrency (size / piece_length))
        file
        db
      ≡ (ok hs, db')
    → read_at file (size / piece_length * piece_length) (size - size / piece_length * piece_length)
      ≡ ok tail
    → finish_encoding tail (size - size / piece_length * piece_length) (Import.encode_pieces hs [])
      ≡ ok encoded
    → B.store_blob encoded db' ≡ (ok h, db'')
    → Import.from_filesystem_regular_file B order hardware_concurrency file parallel db
      ≡ (ok (record { hash_code = h; content_size = size }), db'')
unfolding Import.from_filesystem_regular_file
import-eq B file order hardware_concurrency parallel size db db' db'' hs tail encoded h a b c d e f
      g =
    simp (a, b, c, d, e, f, g)

finish_encoding-eq :
    (tail : Bytes) (size : ℕ) (out : Bytes)
    → size ≡ length tail
    → size < piece_length
    → finish_encoding tail size out ≡ ok (out ++ tail)
unfolding finish_encoding
finish_encoding-eq tail size out e h =
    rw (lt→ltb size piece_length h)
      (ap (λ (bytes : Bytes). ok (out ++ bytes)) (take_all size tail (omega arith)))

module _ (B : BlobStore) (sha256 : Bytes → Sha256HashCode) (I : IsBlobStore B sha256) (file : File)
    (content : Bytes) (v : IsImportable B sha256 I file content) where
  -- What the pieces leave in the database.
  abbrev PiecesStored : B.Database → B.Database → Type 0
  PiecesStored db db' =
      I.IsReady db'
      × ((i : ℕ) → i < piece_count content → I.HoldsBlob db' (piece i content))
      × ((other : Bytes) → I.HoldsBlob db other → I.HoldsBlob db' other)

  not_run :
      (run : List ℕ)
      → Covers B sha256 I file content v run
      → (i : ℕ) → i < piece_count content
      → occurrences i run ≢ 0
  not_run run c i below e = ground (arith, c i)

  import_pieces-stored :
      (order : List ℕ) (max : ℕ) (db : B.Database)
      → 1 ≤ max
      → Covers B sha256 I file content v order
      → I.IsReady db
      → (db' : B.Database) × (Import.import_pieces B order (piece_count content) max file db
          ≡ (ok (piece_hashes sha256 (piece_count content) content), db'))
        × PiecesStored db db'
  import_pieces-stored order max db h c ready = elim (Bool-cases (piece_count content == 0)) [
    | inl none_left ↦
        let e = (==_iff (piece_count content) 0).0 none_left in
        finish [] (λ k. ground arith)
          (λ s s' run.
            parallel_for-zero (Import.import_piece B file) order n max s h e
            ∙ unfold for_each in run)
    | inr some_left ↦ finish order c (λ s s' run.
        parallel_for-ok (Import.import_piece B file) order n max s s' h (λ e. ground arith) run)
  ]
    where
      n : ℕ
      n = piece_count content

      start : List Sha256HashCode
      start = replicate n Import.zero_hash_code

      finish :
          (run : List ℕ)
          → Covers B sha256 I file content v run
          → ((s s' : Import.ImportState B)
              → for_each run (Import.import_piece B file) s ≡ (ok tt, s')
              → parallel_for order n max (Import.import_piece B file) s ≡ (ok tt, s'))
          → (db' : B.Database) × (Import.import_pieces B order n max file db
              ≡ (ok (piece_hashes sha256 n content), db'))
            × PiecesStored db db'
      finish run c same =
          let inside = Covers-inside B sha256 I file content v run run (λ k o. o) c in
          let size = length-replicate n Import.zero_hash_code in
          let (hs, db', ran, w) =
            for_each-IsStored B sha256 I file content v run start db inside size ready in
          let hashes = hashes-piece_hashes B sha256 I file content v run start hs db db' c size w in
          (
            db',
            import_pieces-eq B file order n max db db' (piece_hashes sha256 n content) (
                same (start, db) (hs, db') ran
                ∙ ap (λ (l : List Sha256HashCode). (ok tt, (l, db'))) hashes),
            (w.ready, λ i below. w.held i (λ e. not_run run c i below e), w.keeps),
          )

  -- Importing a readable file whose pieces and index the store can take, into a store that is
  -- ready and with at least one hardware thread, in any order in which the workers may store its
  -- pieces, returns the digest of the blob of its index and its size; the database is then ready,
  -- and holds that blob, every full piece, and all that it held before.
  pub import-stored :
      {order : List ℕ} (hardware_concurrency : ℕ) (parallel : Parallelism) (db : B.Database)
      → 1 ≤ hardware_concurrency
      → I.IsReady db
      → Interleaving
          (workers
            (Import.concurrency_for parallel hardware_concurrency (piece_count content))
            (piece_count content))
          order
      → (db' : B.Database) × (Import.from_filesystem_regular_file B order hardware_concurrency file
            parallel db
          ≡ (
            ok (record {
              hash_code = sha256 (index_bytes sha256 content);
              content_size = length content;
            }),
            db',
          ))
        × I.HoldsBlob db' (index_bytes sha256 content)
        × PiecesStored db db'
  import-stored {order} hardware_concurrency parallel db h ready i =
      let n = piece_count content in
      let max = Import.concurrency_for parallel hardware_concurrency n in
      let positive = concurrency_for-pos parallel hardware_concurrency n h in
      let (db1, pieces, (ready1, held, keeps)) =
        import_pieces-stored order max db positive (λ k. occurrences-workers max n k positive i)
          ready in
      let (db2, stored, ready2, index, keeps2) =
        I.store_blob-Fits db1 (index_bytes sha256 content) ready1 v.index-Fits in
      let rest = length content - n * piece_length in
      let tail = tail_of content in
      let size : rest ≡ length tail = omega (arith, length-drop (n * piece_length) content) in
      (
        db2,
        import-eq B file order hardware_concurrency parallel (length content) db db1 db2
            (piece_hashes sha256 n content) tail (index_bytes sha256 content)
            (sha256 (index_bytes sha256 content)) opened v.readable.seek_end v.readable.seek_set
            pieces
            (read_at-HasContent file content (n * piece_length) rest v.readable (omega arith)
              ∙ ap ok (take_all rest tail (omega arith)))
            (finish_encoding-eq tail rest (Import.encode_pieces (piece_hashes sha256 n content) [])
                size (omega arith)
              ∙ ap (λ (bytes : Bytes). ok (bytes ++ tail))
                  (encode_pieces-digests (piece_hashes sha256 n content) []))
            stored,
        index,
        (
          ready2,
          λ k below. keeps2 (piece k content) (held k below),
          λ other x. keeps2 other (keeps other x),
        ),
      )
    where
      opened : open_file_for_reading file ≡ ok file
      opened = unfold open_file_for_reading in rw v.readable.opens refl
