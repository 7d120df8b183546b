-- ===== src/Trees/ReadFile/Select.antt =====
-- One round of `read_file`: the right piece is chosen, and the cache stays right.
use dogbox.Base.{ℕ, ◌≤◌, ◌<◌, ◌≡◌, refl, sym, ap, ◌∙◌, inl, inr, arith}
use dogbox.Base.{true, false, Option, none, some, ltb, lt→ltb, le→ltb_false, ==_iff, Bool-cases}
use dogbox.Base.{[], length, Bytes, ok, ltb→lt, ltb_false→le}
use dogbox.HashCode.{Sha256HashCode}
use dogbox.BlobStorage.Interface.{BlobStore, IsBlobStore}
use dogbox.Trees.RegularFileIndex.Load.{index_of}
use dogbox.Trees.Pieces.{piece_count, piece, piece_hashes, length-piece_hashes}
use dogbox.Trees.Pieces.{get_or-piece_hashes, piece-tail}
use dogbox.Trees.ReadCaching.{ReadCaching}
use dogbox.Trees.ReadFile.{OpenFile, is_cached, load_piece, select_piece}

-- The cache is empty, or holds the full piece that it names.
abbrev pub CacheHolds : Bytes → Option ℕ → Bytes → Type 0
CacheHolds content none cache = Unit
CacheHolds content (some i) cache = (i < piece_count content) × (cache ≡ piece i content)

-- What reading leaves of an open file: all but its cache.
pub record SameFile (before after : OpenFile) : Type 0 where
  pub file_size : after.file_size ≡ before.file_size
  pub hash_code : after.hash_code ≡ before.hash_code
  pub index : after.index ≡ before.index

pub SameFile-refl : (file : OpenFile) → SameFile file file
SameFile-refl file = record { file_size = refl; hash_code = refl; index = refl }

pub SameFile-trans : (f g h : OpenFile) → SameFile f g → SameFile g h → SameFile f h
SameFile-trans f g h p q = record {
  file_size = q.file_size ∙ p.file_size;
  hash_code = q.hash_code ∙ p.hash_code;
  index = q.index ∙ p.index;
}

cached_content :
    (content : Bytes) (i : ℕ) (cached : Option ℕ) (cache : Bytes)
    → CacheHolds content cached cache
    → is_cached i cached ≡ true
    → cache ≡ piece i content
cached_content content i none cache h hit = cc
cached_content content i (some j) cache h hit =
    h.1 ∙ ap (λ (k : ℕ). piece k content) (sym ((==_iff i j).0 hit))

module _ (B : BlobStore) (sha256 : Bytes → Sha256HashCode) (I : IsBlobStore B sha256)
    (content : Bytes) (db : B.Database) (ready : I.IsReady db)
    (held : (i : ℕ) → i < piece_count content → I.HoldsBlob db (piece i content)) where
  -- The outcome of a round at piece `i`.
  abbrev pub Selects : ReadCaching → ℕ → Bytes → OpenFile → Type 0
  Selects caching i loaded_piece file =
      (file' : OpenFile) × (loaded_piece' : Bytes) × (select_piece B (index_of sha256 content)
          caching i loaded_piece (file, db)
        ≡ (ok (piece i content, loaded_piece'), (file', db)))
      × CacheHolds content file'.cached_piece file'.read_cache
      × SameFile file file'

  select_cached :
      (caching : ReadCaching) (i : ℕ) (loaded_piece : Bytes) (file : OpenFile)
      → CacheHolds content file.cached_piece file.read_cache
      → is_cached i file.cached_piece ≡ true
      → Selects caching i loaded_piece file
  unfolding select_piece
  select_cached caching i loaded_piece file cache hit = (
    file,
    loaded_piece,
    rw hit (
        ap (λ (bytes : Bytes). (ok (bytes, loaded_piece), (file, db)))
          (cached_content content i file.cached_piece file.read_cache cache hit)),
    cache,
    SameFile-refl file,
  )

  load_piece-held :
      (caching : ReadCaching) (i : ℕ) (loaded_piece : Bytes) (file : OpenFile)
      → CacheHolds content file.cached_piece file.read_cache
      → i < piece_count content
      → (file' : OpenFile) × (loaded_piece' : Bytes) × (load_piece B caching i
            (sha256 (piece i content))
            loaded_piece
            (file, db)
          ≡ (ok (piece i content, loaded_piece'), (file', db)))
        × CacheHolds content file'.cached_piece file'.read_cache
        × SameFile file file'
  unfolding load_piece
  load_piece-held ReadCaching.none i loaded_piece file cache h = (
    file,
    piece i content,
    rw (I.load_blob_into-held db (piece i content) loaded_piece ready (held i h)) refl,
    cache,
    SameFile-refl file,
  )
  load_piece-held ReadCaching.one_piece i loaded_piece file cache h = (
    record file { cached_piece = some i; read_cache = piece i content },
    loaded_piece,
    rw (I.load_blob_into-held db (piece i content) file.read_cache ready (held i h)) refl,
    (h, refl),
    record { file_size = refl; hash_code = refl; index = refl },
  )

  select_tail :
      (caching : ReadCaching) (i : ℕ) (loaded_piece : Bytes) (file : OpenFile)
      → CacheHolds content file.cached_piece file.read_cache
      → is_cached i file.cached_piece ≡ false
      → i ≡ piece_count content
      → Selects caching i loaded_piece file
  unfolding select_piece
  select_tail caching i loaded_piece file cache miss last =
      let hashes = piece_hashes sha256 (piece_count content) content in
      let beyond : ltb i (length hashes) ≡ false =
        le→ltb_false i (length hashes)
          (omega (arith, length-piece_hashes sha256 (piece_count content) content)) in
      (
        file,
        loaded_piece,
        rw (miss, beyond)
            (ap (λ (bytes : Bytes). (ok (bytes, loaded_piece), (file, db)))
              (sym (rw last (piece-tail content)))),
        cache,
        SameFile-refl file,
      )

  select_full :
      (caching : ReadCaching) (i : ℕ) (loaded_piece : Bytes) (file : OpenFile)
      → CacheHolds content file.cached_piece file.read_cache
      → is_cached i file.cached_piece ≡ false
      → i < piece_count content
      → Selects caching i loaded_piece file
  unfolding select_piece
  select_full caching i loaded_piece file cache miss h =
      let hashes = piece_hashes sha256 (piece_count content) content in
      let inside : ltb i (length hashes) ≡ true =
        lt→ltb i (length hashes)
          (omega (arith, length-piece_hashes sha256 (piece_count content) content)) in
      let (file', loaded_piece', loaded, cache', same) =
        load_piece-held caching i loaded_piece file cache h in
      (
        file',
        loaded_piece',
        rw
            (
              miss,
              inside,
              get_or-piece_hashes sha256 (piece_count content) i content (record { digits = [] }) h,
            )
            loaded,
        cache',
        same,
      )

  -- A round at a piece of the file, or at its tail, yields those bytes.
  pub select_piece-piece :
      (caching : ReadCaching) (i : ℕ) (loaded_piece : Bytes) (file : OpenFile)
      → CacheHolds content file.cached_piece file.read_cache
      → i ≤ piece_count content
      → Selects caching i loaded_piece file
  select_piece-piece caching i loaded_piece file cache h =
      elim (Bool-cases (is_cached i file.cached_piece)) [
        | inl hit ↦ select_cached caching i loaded_piece file cache hit
        | inr miss ↦ elim (Bool-cases (ltb i (piece_count content))) [
          | inl full ↦
              select_full caching i loaded_piece file cache miss
                (ltb→lt i (piece_count content) full)
          | inr last ↦
              let e = ltb_false→le i (piece_count content) last in
              select_tail caching i loaded_piece file cache miss (omega arith)
        ]
      ]
