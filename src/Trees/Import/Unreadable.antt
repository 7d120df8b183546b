-- ===== src/Trees/Import/Unreadable.antt =====
-- The import of a file that cannot be read whole, such as one that is cut off while it is read.
use dogbox.Base.{ℕ, ◌-◌, ◌*◌, ◌/◌, ◌≤◌, ◌<◌, ◌≡◌, ◌≢◌, refl, ap, ◌∙◌, ◌⊎◌, inl, inr, true, List}
use dogbox.Base.{Bytes, Result, ok, throw, to_do, replicate}
use dogbox.Base.{if◌then◌else◌, false, Bool}
use dogbox.Base.Action.{proceed, pure}
use dogbox.Base.Int.{ℤ, pos}
use dogbox.External.FileSystem.{File}
use dogbox.FileDescriptor.{open_file_for_reading, read_at, read_at-ok, read_at-short}
use dogbox.HashCode.{Sha256HashCode}
use dogbox.BlobStorage.Interface.{BlobStore, IsBlobStore}
use dogbox.Trees.RegularFile.{piece_length}
use dogbox.Trees.ParallelFor.{parallel_for, workers, Interleaving}
use dogbox.Trees.ParallelFor.Attempts.{Achieves}
use dogbox.Trees.ParallelFor.Exceptions.{EndsFor, parallel_for-EndsFor}
use dogbox.Trees.Import
use dogbox.Trees.Import.{Parallelism, RegularFileImported}
use dogbox.Trees.Import.Stored.{import_piece-eq}
use dogbox.Trees.Import.RegularFile.{concurrency_for-pos}

or_to_do-cases :
    (whole : Bool) (into : Bytes)
    → ((if whole then ok into else throw to_do) ≡ throw to_do)
      ⊎ ((bytes : Bytes) × ((if whole then ok into else throw to_do) ≡ ok bytes))
or_to_do-cases true into = inr (into, refl)
or_to_do-cases false into = inl refl

-- A read is whole, or TO_DO is thrown.
read_at-cases :
    (file : File) (offset count : ℕ)
    → (read_at file offset count ≡ throw to_do)
      ⊎ ((bytes : Bytes) × (read_at file offset count ≡ ok bytes))
unfolding read_at
read_at-cases file offset count = or_to_do-cases _ (file.pread offset count).1

module _ (B : BlobStore) (sha256 : Bytes → Sha256HashCode) (I : IsBlobStore B sha256) (file : File)
    (fits : (k : ℕ) (bytes : Bytes)
      → file.pread (k * piece_length) piece_length ≡ (pos piece_length, bytes)
      → I.Fits bytes)
    (db : B.Database) where
  -- A database that is ready and has not lost a blob.
  abbrev IsKept : B.Database → Type 0
  IsKept db' = I.IsReady db' × ((other : Bytes) → I.HoldsBlob db other → I.HoldsBlob db' other)

  abbrev Inv : Import.ImportState B → Type 0
  Inv (hs, db') = IsKept db'

  abbrev WasRead : ℕ → Import.ImportState B → Type 0
  WasRead k s = (bytes : Bytes) × (read_at file (k * piece_length) piece_length ≡ ok bytes)

  unread :
      (k : ℕ) (s : Import.ImportState B)
      → read_at file (k * piece_length) piece_length ≡ throw to_do
      → Import.import_piece B file k s ≡ (throw to_do, s)
  unfolding Import.import_piece
  unread k (hs, db') e = rw e refl

  -- An action keeps the database, and throws only where its piece cannot be read.
  import_piece-cases :
      (k : ℕ) (s : Import.ImportState B)
      → Inv s
      → Inv (Import.import_piece B file k s).1
        × (((Import.import_piece B file k s).0 ≡ throw to_do)
            ⊎ (((Import.import_piece B file k s).0 ≡ ok tt) × WasRead k s))
  import_piece-cases k (hs, db') (ready, keeps) =
      elim (read_at-cases file (k * piece_length) piece_length) [
        | inl e ↦ rw (unread k (hs, db') e) ((ready, keeps), inl refl)
        | inr (bytes, e) ↦
            let (db2, stored, ready2, _, keeps2) =
              I.store_blob-Fits db' bytes ready
                (fits k bytes (read_at-ok file (k * piece_length) piece_length bytes e)) in
            rw (import_piece-eq B file db' db2 hs k bytes (sha256 bytes) e stored)
              ((ready2, λ other x. keeps2 other (keeps other x)), inr (refl, (bytes, e)))
      ]

  import_piece-Achieves : Achieves (Import.import_piece B file) Inv WasRead
  import_piece-Achieves = record {
    keeps = λ k s v. (import_piece-cases k s v).0;
    stays = λ j k s v d. d;
    does = λ k s v e. elim (import_piece-cases k s v).1 [
      | inl thrown ↦ absurd (cc)
      | inr (_, read) ↦ read
    ];
  }

  -- How storing the pieces ends: where it returns, every piece was read.
  abbrev PiecesEnd : ℕ → Result (List Sha256HashCode) × B.Database → Type 0
  PiecesEnd n (result, db') =
      IsKept db'
      × ((result ≡ throw to_do)
          ⊎ ((hs : List Sha256HashCode) × (result ≡ ok hs)
              × ((k : ℕ) → k < n → WasRead k (hs, db'))))

  import_pieces-PiecesEnd :
      {order : List ℕ} (n max : ℕ)
      → 1 ≤ max
      → Interleaving (workers max n) order
      → I.IsReady db
      → PiecesEnd n (Import.import_pieces B order n max file db)
  unfolding Import.import_pieces
  import_pieces-PiecesEnd {order} n max h i ready =
      go (parallel_for order n max (Import.import_piece B file) start) (
        parallel_for-EndsFor (Import.import_piece B file) Inv WasRead import_piece-Achieves n max
          start h i (ready, λ other x. x))
    where
      start : Import.ImportState B
      start = (replicate n Import.zero_hash_code, db)

      go :
          (r : Result (Unit {0}) × Import.ImportState B)
          → EndsFor (Import.import_piece B file) Inv WasRead import_piece-Achieves n r.0 r.1
          → PiecesEnd n (let (result, (hs, db')) = r in proceed (result, db') (λ _. pure hs))
      go (ok u, (hs, db')) (v, inl (_, all)) = (v, inr (hs, refl, all))
      go (ok u, (hs, db')) (v, inr (e, x, _, _, _)) = absurd (cc)
      go (throw e, (hs, db')) (v, inl (x, _)) = absurd (cc)
      go (throw e, (hs, db')) (v, inr (e', x, k, below, (s, w, thrown))) = (
        v,
        inl (elim (import_piece-cases k s w).1 [ inl own ↦ cc | inr (fine, _) ↦ absurd (cc) ]),
      )

  -- For a piece, or for what follows the pieces, pread64 fails or returns another number of bytes than
  -- was asked for.
  abbrev pub IsUnreadable : ℕ → Type 0
  IsUnreadable size =
      ((k : ℕ) × (k < size / piece_length)
        × ((file.pread (k * piece_length) piece_length).0 ≢ pos piece_length))
      ⊎ ((file.pread (size / piece_length * piece_length)
            (size - size / piece_length * piece_length)).0
          ≢ pos (size - size / piece_length * piece_length))

  import-thrown :
      (order : List ℕ) (hardware_concurrency : ℕ) (parallel : Parallelism) (size : ℕ)
      (db' : B.Database)
      → file.opens ≡ true
      → file.seek_end ≡ pos size
      → file.seek_set ≡ pos 0
      → Import.import_pieces B order
          (size / piece_length)
          (Import.concurrency_for parallel hardware_concurrency (size / piece_length))
          file
          db
        ≡ (throw to_do, db')
      → Import.from_filesystem_regular_file B order hardware_concurrency file parallel db
        ≡ (throw to_do, db')
  unfolding Import.from_filesystem_regular_file open_file_for_reading
  import-thrown order hardware_concurrency parallel size db' a b c d = simp (a, b, c, d)

  import-tail :
      (order : List ℕ) (hardware_concurrency : ℕ) (parallel : Parallelism) (size : ℕ)
      (db' : B.Database) (hs : List Sha256HashCode)
      → file.opens ≡ true
      → file.seek_end ≡ pos size
      → file.seek_set ≡ pos 0
      → Import.import_pieces B order
          (size / piece_length)
          (Import.concurrency_for parallel hardware_concurrency (size / piece_length))
          file
          db
        ≡ (ok hs, db')
      → read_at file
          (size / piece_length * piece_length)
          (size - size / piece_length * piece_length)
        ≡ throw to_do
      → Import.from_filesystem_regular_file B order hardware_concurrency file parallel db
        ≡ (throw to_do, db')
  unfolding Import.from_filesystem_regular_file open_file_for_reading
  import-tail order hardware_concurrency parallel size db' hs a b c d e = simp (a, b, c, d, e)

  -- The import of a file that opens and has a size, but where pread64 fails, or returns fewer or more
  -- bytes than were asked for, at a piece or at what follows the pieces, throws TO_DO, with at least one
  -- hardware thread, at however many pieces that happens and in whatever order the workers come to
  -- them. Whatever a whole read at a piece's place returns is to fit, and the database to be ready; it
  -- then is ready still, and holds all that it held before.
  pub import-unreadable :
      {order : List ℕ} (hardware_concurrency : ℕ) (parallel : Parallelism) (size : ℕ)
      → file.opens ≡ true
      → file.seek_end ≡ pos size
      → file.seek_set ≡ pos 0
      → 1 ≤ hardware_concurrency
      → I.IsReady db
      → Interleaving
          (workers
            (Import.concurrency_for parallel hardware_concurrency (size / piece_length))
            (size / piece_length))
          order
      → IsUnreadable size
      → (db' : B.Database) × (Import.from_filesystem_regular_file B order hardware_concurrency file
            parallel db
          ≡ (throw to_do, db'))
        × I.IsReady db'
        × ((other : Bytes) → I.HoldsBlob db other → I.HoldsBlob db' other)
  import-unreadable {order} hardware_concurrency parallel size opens seek_end seek_set h ready i u =
      go (Import.import_pieces B order n max file db) refl
        (import_pieces-PiecesEnd n max (concurrency_for-pos parallel hardware_concurrency n h) i
          ready)
        u
    where
      n : ℕ
      n = size / piece_length

      max : ℕ
      max = Import.concurrency_for parallel hardware_concurrency n

      go :
          (r : Result (List Sha256HashCode) × B.Database)
          → Import.import_pieces B order n max file db ≡ r
          → PiecesEnd n r
          → IsUnreadable size
          → (db' : B.Database) × (Import.from_filesystem_regular_file B order hardware_concurrency
                file parallel db
              ≡ (throw to_do, db'))
            × I.IsReady db'
            × ((other : Bytes) → I.HoldsBlob db other → I.HoldsBlob db' other)
      go (result, db') ran ((ready', keeps), inl thrown) u = (
        db',
        import-thrown order hardware_concurrency parallel size db' opens seek_end seek_set
            (ran ∙ ap (λ (x : Result (List Sha256HashCode)). (x, db')) thrown),
        ready',
        keeps,
      )
      go (result, db') ran ((ready', keeps), inr (hs, fine, all)) (inr tail) = (
        db',
        import-tail order hardware_concurrency parallel size db' hs opens seek_end seek_set
            (ran ∙ ap (λ (x : Result (List Sha256HashCode)). (x, db')) fine)
            (read_at-short file (n * piece_length) (size - n * piece_length) tail),
        ready',
        keeps,
      )
      go (result, db') ran (v, inr (hs, fine, all)) (inl (k, below, e)) =
          let (bytes, read) = all k below in
          absurd (
            e (
              ap (λ (r : ℤ × Bytes). r.0)
                (read_at-ok file (k * piece_length) piece_length bytes read)))
