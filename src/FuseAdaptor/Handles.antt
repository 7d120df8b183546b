-- ===== src/FuseAdaptor/Handles.antt =====
-- The slots of the open files: what `adaptor_open`, `adaptor_release` and `adaptor_read` do to the
-- slot of a descriptor and to the others.
use dogbox.Base.{ℕ, ◌+◌, ◌/◌, ◌^◌, ◌≤◌, ◌<◌, ◌≡◌, ◌≢◌, refl, ap, ◌∙◌, ◌⊎◌, inl, inr}
use dogbox.Base.{Option, none, some, List, arith}
use dogbox.Base.{length, length-take, set, take, drop}
use dogbox.Base.{Bytes, ok}
use dogbox.Base.Int.{ℤ, pos}
use dogbox.HashCode.{Sha256HashCode}
use dogbox.BlobStorage.Interface.{BlobStore, IsBlobStore}
use dogbox.Trees.RegularFile.{piece_length}
use dogbox.Trees.RegularFileIndex.Load.{index_bytes, index_of, load-index_bytes}
use dogbox.Trees.Pieces.{piece_count, piece}
use dogbox.Trees.ReadFile.{OpenFile, read_file}
use dogbox.Trees.ReadFile.Select.{CacheHolds}
use dogbox.Trees.ReadFile.Window.{read_file-window}
use dogbox.FuseAdaptor.{DirectoryEntry}
use dogbox.FuseAdaptor.Attributes.{UserData}
use dogbox.FuseAdaptor.Files.{take_slot, newly_opened, to_int, to_length_type, opened_at}
use dogbox.FuseAdaptor.Files.{open_resolved, with_index, adaptor_read}
use dogbox.FuseAdaptor.OpenFiles.{Opens, take_slot_lem, opened_at-Opens}

pub to_int_small : (n : ℕ) → n < 2 ^ 31 → to_int n ≡ pos n
to_int_small n h = ground arith

module _ (B : BlobStore) where
  -- A regular file that is opened has a descriptor of its own, whose slot has the file, and every
  -- file that was open stays open under its descriptor.
  pub open_resolved_lem :
      (resolved : DirectoryEntry) (user : UserData) (db : B.Database)
      → (fh : ℕ) × (files' : List (Option OpenFile)) × (open_resolved B resolved (user, db)
          ≡ (ok (pos 0, some fh), (record user { files = files' }, db)))
        × Opens files' fh (newly_opened resolved)
        × ((j : ℕ) (other : OpenFile) → Opens user.files j other → (j ≢ fh) × Opens files' j other)
  unfolding open_resolved
  open_resolved_lem resolved user db =
      let slots = take_slot (newly_opened resolved) user.files in
      let (has, keeps) = take_slot_lem (newly_opened resolved) user.files in
      (slots.0, slots.1, refl, has, keeps)

  adaptor_read-eq :
      (size fh : ℕ) (offset : ℤ) (user : UserData) (db db' db'' : B.Database)
      (opened opened' opened'' : OpenFile) (bytes : Bytes)
      → opened_at user.files fh ≡ ok opened
      → with_index B opened db ≡ (ok opened', db')
      → read_file B user.read_cache_mode (to_length_type offset) size (opened', db')
        ≡ (ok bytes, (opened'', db''))
      → adaptor_read B size offset fh (user, db) ≡ (
        ok (to_int (length bytes), bytes),
        (record user { files = set user.files fh (some opened'') }, db''),
      )
  unfolding adaptor_read
  adaptor_read-eq size fh offset user db db' db'' opened opened' opened'' bytes a b c =
      rw (a, b, c) refl

-- An open file of a content: its index is not loaded yet, or is the content's.
pub record IsOpen (sha256 : Bytes → Sha256HashCode) (content : Bytes) (opened : OpenFile)
    : Type 0 where
  pub file_size : opened.file_size ≡ length content
  pub hash_code : opened.hash_code ≡ sha256 (index_bytes sha256 content)
  pub index : (opened.index ≡ none) ⊎ (opened.index ≡ some (index_of sha256 content))
  pub cache : CacheHolds content opened.cached_piece opened.read_cache

module _ (B : BlobStore) (sha256 : Bytes → Sha256HashCode) (I : IsBlobStore B sha256)
    (content : Bytes) (db : B.Database) (ready : I.IsReady db)
    (pieces : (i : ℕ) → i < piece_count content → I.HoldsBlob db (piece i content))
    (held : I.HoldsBlob db (index_bytes sha256 content)) where
  with_index_lem :
      (opened : OpenFile)
      → IsOpen sha256 content opened
      → with_index B opened db ≡ (ok (record opened { index = some (index_of sha256 content) }), db)
  unfolding with_index
  with_index_lem opened v = elim v.index [
    | inl missing ↦
        rw (missing, v.file_size, v.hash_code, load-index_bytes B sha256 I content db ready held)
          refl
    | inr there ↦ rw there refl
  ]

  -- In a store that is ready and holds the pieces and the index of a content, through the
  -- descriptor of an open file of that content, every window that starts within the file's pieces,
  -- ends below 2^64 and has a size that an `int` can hold reads as that window of the content,
  -- with its length as the return value; the slot keeps an open file of that content, and no other
  -- slot changes.
  pub adaptor_read-window :
      (size fh offset : ℕ) (user : UserData) (opened : OpenFile)
      → Opens user.files fh opened
      → IsOpen sha256 content opened
      → offset / piece_length ≤ piece_count content
      → offset + size < 2 ^ 64
      → size < 2 ^ 31
      → let window = take size (drop offset content) in
        (opened' : OpenFile) × (adaptor_read B size (pos offset) fh (user, db) ≡ (
          ok (pos (length window), window),
          (record user { files = set user.files fh (some opened') }, db),
        ))
        × IsOpen sha256 content opened'
  adaptor_read-window size fh offset user opened h v within below small =
      let indexed : OpenFile = record opened { index = some (index_of sha256 content) } in
      let window : Bytes = take size (drop offset content) in
      let (opened', read, cache, same) =
        read_file-window B sha256 I content db ready pieces user.read_cache_mode offset size indexed
          refl v.cache within below in
      (
        opened',
        adaptor_read-eq B size fh (pos offset) user db db db opened indexed opened' window
              (opened_at-Opens user.files fh opened h) (with_index_lem opened v) read
            ∙ ap
                (λ (n : ℤ).
                  (ok (n, window), (record user { files = set user.files fh (some opened') }, db)))
                (to_int_small (length window)
                  (omega (arith, length-take size (drop offset content)))),
        record {
          file_size = same.file_size ∙ v.file_size;
          hash_code = same.hash_code ∙ v.hash_code;
          index = inr same.index;
          cache = cache;
        },
      )
