-- ===== src/BlobStorage/Load.antt =====
-- `load_blob` over a working SQLite and a working LZ4.
use dogbox.Base.{ℕ, ◌-◌, ◌≤◌, ◌≡◌, refl, ap, ◌∙◌, true, false, none, some}
use dogbox.Base.{[], arith, le→leb, if◌then◌else◌, length, take, replicate}
use dogbox.Base.{length-append, length-take, length-replicate, Bytes, ok}
use dogbox.Base.Action.{proceed, pure}
use dogbox.Base.Int.{pos}
use dogbox.External.Sqlite.{Sqlite, IsSqlite, Row, max_length}
use dogbox.External.Lz4.{Lz4, IsLz4, max_input_size}
use dogbox.HashCode.{Sha256HashCode, to_string}
use dogbox.BlobStorage.{int_max, resize, load_blob_into, load_blob, read_row}

pub length-resize : (size : ℕ) (content : Bytes) → length (resize size content) ≡ size
unfolding resize
length-resize size content = omega (
  arith,
  length-append (take size content) (replicate (size - length content) 0),
  length-take size content,
  length-replicate {A = ℕ} (size - length content) 0,
)

-- The row that `store_blob` writes for a blob.
abbrev pub packed : Lz4 → Bytes → Row
packed L content = record {
  compressed_content = L.compress_default content (L.compress_bound (length content));
  original_size = pos (length content);
}

module _ (S : Sqlite) (I : IsSqlite S) (L : Lz4) where
  pub load_blob_into-row :
      (db : S.Database) (h : Sha256HashCode) (content : Bytes) (r : Row)
      → I.has_table db ≡ true
      → I.row db (to_string h) ≡ some r
      → load_blob_into S L h content db
        ≡ read_row S L r.compressed_content r.original_size content db
  unfolding load_blob_into
  load_blob_into-row db h content r t e = ground (arith, I.select_row db (to_string h) r t e)

  -- A digest that no row has is not found, and nothing changes.
  pub load_blob_into-none :
      (db : S.Database) (h : Sha256HashCode) (content : Bytes)
      → I.has_table db ≡ true
      → I.row db (to_string h) ≡ none
      → load_blob_into S L h content db ≡ (ok (false, content), db)
  unfolding load_blob_into
  load_blob_into-none db h content t e = ground (arith, I.select_none db (to_string h) t e)

  module _ (M : IsLz4 L) where
    -- Reading the row of a blob that LZ4 can compress restores the blob, whatever the caller's
    -- vector held.
    read_row-packed :
        (db : S.Database) (content buffer : Bytes)
        → length content ≤ max_input_size
        → length (packed L content).compressed_content ≤ max_length
        → read_row S L (packed L content).compressed_content (pos (length content)) buffer db
          ≡ (ok (true, content), db)
    unfolding read_row
    read_row-packed db content buffer small short =
        rw
          (
            le→leb (length content) int_max (omega arith),
            le→leb (length (packed L content).compressed_content) int_max (omega arith),
            M.decompress-compress content (resize (length content) buffer) small
                (length-resize (length content) buffer),
          )
          refl

    pub load_blob_into-packed :
        (db : S.Database) (h : Sha256HashCode) (content buffer : Bytes)
        → I.has_table db ≡ true
        → I.row db (to_string h) ≡ some (packed L content)
        → length content ≤ max_input_size
        → length (packed L content).compressed_content ≤ max_length
        → load_blob_into S L h buffer db ≡ (ok (true, content), db)
    load_blob_into-packed db h content buffer t e small short =
        load_blob_into-row db h buffer (packed L content) t e
        ∙ read_row-packed db content buffer small short

    -- Where the table has the row of a blob that LZ4 accepts and SQLite can hold, loading its digest
    -- returns the blob and leaves the database as it is.
    pub load_blob-packed :
        (db : S.Database) (h : Sha256HashCode) (content : Bytes)
        → I.has_table db ≡ true
        → I.row db (to_string h) ≡ some (packed L content)
        → length content ≤ max_input_size
        → length (packed L content).compressed_content ≤ max_length
        → load_blob S L h db ≡ (ok (some content), db)
    unfolding load_blob
    load_blob-packed db h content t e small short =
        ap (λ r. proceed r (λ (found, loaded). pure (if found then some loaded else none)))
          (load_blob_into-packed db h content [] t e small short)

  -- Loading a digest that no row of the table has returns nothing, and leaves the database as it is.
  pub load_blob-none :
      (db : S.Database) (h : Sha256HashCode)
      → I.has_table db ≡ true
      → I.row db (to_string h) ≡ none
      → load_blob S L h db ≡ (ok none, db)
  unfolding load_blob
  load_blob-none db h t e =
      ap (λ r. proceed r (λ (found, loaded). pure (if found then some loaded else none)))
        (load_blob_into-none db h [] t e)
