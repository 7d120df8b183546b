-- ===== src/Trees/Import/Stored.antt =====
-- The import of a file's content stores its pieces and its index, whatever the order of the pieces.
use dogbox.Base.{ℕ, ◌+◌, ◌*◌, ◌<◌, ◌≡◌, ◌≢◌, refl, sym, ◌∙◌, inl, inr}
use dogbox.Base.{some, List, [], ◌∷◌, ◌++◌, append-nil, append_assoc, arith}
use dogbox.Base.{ltb, ltb_false→le, ltb→lt, ◌==◌, ==_iff, if◌then◌else◌, Bool-cases}
use dogbox.Base.{length, set, length-set, get_elem?, get_elem?-set_self}
use dogbox.Base.{get_elem?-set_ne, get_elem?-ext, get_elem?_outside, Bytes, All}
use dogbox.Base.{ok}
use dogbox.External.FileSystem.{File, HasContent}
use dogbox.FileDescriptor.{read_at, read_at-HasContent}
use dogbox.HashCode.{Sha256HashCode}
use dogbox.BlobStorage.Interface.{BlobStore, IsBlobStore}
use dogbox.Trees.RegularFile.{piece_length}
use dogbox.Trees.RegularFileIndex.Load.{digests, index_bytes}
use dogbox.Trees.Pieces.{piece_count, piece, piece_hashes, length-piece_hashes}
use dogbox.Trees.Pieces.{get_elem?-piece_hashes}
use dogbox.Trees.ParallelFor.{for_each}
use dogbox.Trees.ParallelFor.Coverage.{occurrences}
use dogbox.Trees.Import

pub encode_pieces-digests :
    (hs : List Sha256HashCode) (encoded : Bytes)
    → Import.encode_pieces hs encoded ≡ encoded ++ digests hs
unfolding Import.encode_pieces
encode_pieces-digests [] encoded = sym (append-nil encoded)
encode_pieces-digests (h ∷ hs) encoded =
    encode_pieces-digests hs (encoded ++ h.digits) ∙ append_assoc encoded h.digits (digests hs)

-- What an import relies on: a readable file, a database that is ready, and blobs that fit.
pub record IsImportable (B : BlobStore) (sha256 : Bytes → Sha256HashCode) (I : IsBlobStore B sha256)
    (file : File) (content : Bytes) : Type 0 where
  pub readable : HasContent file content
  pub piece-Fits : (i : ℕ) → i < piece_count content → I.Fits (piece i content)
  pub index-Fits : I.Fits (index_bytes sha256 content)

pub import_piece-eq :
    (B : BlobStore) (file : File) (db db' : B.Database) (hs : List Sha256HashCode) (k : ℕ)
    (bytes : Bytes) (h : Sha256HashCode)
    → read_at file (k * piece_length) piece_length ≡ ok bytes
    → B.store_blob bytes db ≡ (ok h, db')
    → Import.import_piece B file k (hs, db) ≡ (ok tt, (set hs k h, db'))
unfolding Import.import_piece
import_piece-eq B file db db' hs k bytes h read stored = rw (read, stored) refl

for_each-eq :
    (B : BlobStore) (file : File) (k : ℕ) (order : List ℕ) (s s' : Import.ImportState B)
    → Import.import_piece B file k s ≡ (ok tt, s')
    → for_each (k ∷ order) (Import.import_piece B file) s
      ≡ for_each order (Import.import_piece B file) s'
unfolding for_each
for_each-eq B file k order s s' e = rw e refl

-- A vector that is set at `k`, and later at whatever index `m` counts.
set_then :
    (f : ℕ → Sha256HashCode) (hs : List Sha256HashCode) (k j m : ℕ)
    → k < length hs
    → (if m == 0 then get_elem? (set hs k (f k)) j else some (f j))
      ≡ (if ((if j == k then 1 else 0) + m) == 0 then get_elem? hs j else some (f j))
set_then f hs k j m h = elim (Bool-cases (j == k)) [
  | inl same ↦
      let e = (==_iff j k).0 same in rw e (rw (get_elem?-set_self hs k (f k) h) (ground arith))
  | inr other ↦ rw (get_elem?-set_ne hs k j (f k) (λ e. ground arith)) (ground arith)
]

module _ (B : BlobStore) (sha256 : Bytes → Sha256HashCode) (I : IsBlobStore B sha256) (file : File)
    (content : Bytes) (v : IsImportable B sha256 I file content) where
  -- One action: the blob of the piece is held, and its digest is in its place.
  import_piece-stored :
      (db : B.Database) (hs : List Sha256HashCode) (k : ℕ)
      → I.IsReady db
      → k < piece_count content
      → (db' : B.Database) × (Import.import_piece B file k (hs, db)
          ≡ (ok tt, (set hs k (sha256 (piece k content)), db')))
        × I.IsReady db'
        × I.HoldsBlob db' (piece k content)
        × ((other : Bytes) → I.HoldsBlob db other → I.HoldsBlob db' other)
  import_piece-stored db hs k ready h =
      let (db', done, ready', held, keeps) =
        I.store_blob-Fits db (piece k content) ready (v.piece-Fits k h) in
      let read =
        read_at-HasContent file content (k * piece_length) piece_length v.readable (omega arith) in
      (
        db',
        import_piece-eq B file db db' hs k (piece k content) (sha256 (piece k content)) read done,
        ready',
        held,
        keeps,
      )

  -- What the actions of an order leave.
  pub record IsStored (order : List ℕ) (hs : List Sha256HashCode) (db : B.Database)
      (hs' : List Sha256HashCode) (db' : B.Database) : Type 0 where
    pub ready : I.IsReady db'
    pub hashes :
        (j : ℕ)
        → get_elem? hs' j
          ≡ (if occurrences j order == 0 then get_elem? hs j else some (sha256 (piece j content)))
    pub held : (j : ℕ) → occurrences j order ≢ 0 → I.HoldsBlob db' (piece j content)
    pub keeps : (other : Bytes) → I.HoldsBlob db other → I.HoldsBlob db' other

  IsStored-next :
      (k : ℕ) (order : List ℕ) (hs hs' : List Sha256HashCode) (db db1 db' : B.Database)
      → k < length hs
      → I.HoldsBlob db1 (piece k content)
      → ((other : Bytes) → I.HoldsBlob db other → I.HoldsBlob db1 other)
      → IsStored order (set hs k (sha256 (piece k content))) db1 hs' db'
      → IsStored (k ∷ order) hs db hs' db'
  IsStored-next k order hs hs' db db1 db' h held keeps w = record {
    ready = w.ready;
    hashes =
        λ j. w.hashes j ∙ set_then (λ i. sha256 (piece i content)) hs k j (occurrences j order) h;
    held = λ j o. elim (Bool-cases (j == k)) [
      | inl same ↦ rw ((==_iff j k).0 same) (w.keeps (piece k content) held)
      | inr other ↦ w.held j (λ none_left. o (rw other (omega arith)))
    ];
    keeps = λ other x. w.keeps other (keeps other x);
  }

  pub for_each-IsStored :
      (order : List ℕ) (hs : List Sha256HashCode) (db : B.Database)
      → All (λ k. k < piece_count content) order
      → length hs ≡ piece_count content
      → I.IsReady db
      → (hs' : List Sha256HashCode) × (db' : B.Database) × (for_each order
            (Import.import_piece B file)
            (hs, db)
          ≡ (ok tt, (hs', db')))
        × IsStored order hs db hs' db'
  for_each-IsStored [] hs db inside size ready = (
    hs,
    db,
    unfold for_each in refl,
    record {
      ready = ready;
      hashes = λ j. refl;
      held = λ j o. absurd (o refl);
      keeps = λ other x. x;
    },
  )
  for_each-IsStored (k ∷ order) hs db (h, inside) size ready =
      let (db1, stored, ready1, held, keeps) = import_piece-stored db hs k ready h in
      let next = set hs k (sha256 (piece k content)) in
      let (hs', db', run, w) =
        for_each-IsStored order next db1 inside (length-set hs k (sha256 (piece k content)) ∙ size)
          ready1 in
      (
        hs',
        db',
        for_each-eq B file k order (hs, db) (next, db1) stored ∙ run,
        IsStored-next k order hs hs' db db1 db' (omega arith) held keeps w,
      )

  -- An order that runs every index below the number of pieces, and no other, once.
  abbrev pub Covers : List ℕ → Type 0
  Covers order = (k : ℕ) → occurrences k order ≡ (if ltb k (piece_count content) then 1 else 0)

  pub Covers-inside :
      (order rest : List ℕ)
      → ((k : ℕ) → occurrences k rest ≢ 0 → occurrences k order ≢ 0)
      → Covers order
      → All (λ k. k < piece_count content) rest
  Covers-inside order [] part c = tt
  Covers-inside order (x ∷ rest) part c =
      let own : occurrences x (x ∷ rest) ≢ 0 = ground arith in
      let runs : occurrences x order ≢ 0 = part x own in
      (ground (arith, c x), Covers-inside order rest (λ k o. part k (λ e. o (omega arith))) c)

  -- The digests are in the order of the file, whatever the order of the actions was.
  pub hashes-piece_hashes :
      (order : List ℕ) (hs hs' : List Sha256HashCode) (db db' : B.Database)
      → Covers order
      → length hs ≡ piece_count content
      → IsStored order hs db hs' db'
      → hs' ≡ piece_hashes sha256 (piece_count content) content
  hashes-piece_hashes order hs hs' db db' c size w =
      let n = piece_count content in
      let all = piece_hashes sha256 n content in
      get_elem?-ext hs' all λ i. elim (Bool-cases (ltb i n)) [
        | inl below ↦
            let once : occurrences i order ≡ 1 = rw below at (c i) in
            rw once at (w.hashes i)
            ∙ sym (get_elem?-piece_hashes sha256 n i content (ltb→lt i n below))
        | inr beyond ↦
            let never : occurrences i order ≡ 0 = rw beyond at (c i) in
            let out = ltb_false→le i n beyond in
            rw never at (w.hashes i)
            ∙ get_elem?_outside hs i (omega arith)
            ∙ sym (get_elem?_outside all i (omega (arith, length-piece_hashes sha256 n content)))
      ]
