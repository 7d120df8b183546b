-- ===== src/BlobStorage/StoreLoad.antt =====
-- `load_blob` after `store_blob`.
use dogbox.Base.{◌≡◌, inl, inr, some, Option-cases, Bytes, ok}
use dogbox.External.Sqlite.{Sqlite, IsSqlite}
use dogbox.External.Lz4.{Lz4, IsLz4}
use dogbox.HashCode.{Sha256HashCode, to_string}
use dogbox.BlobStorage.{load_blob, store_blob}
use dogbox.BlobStorage.Load.{load_blob-packed, load_blob-none}
use dogbox.BlobStorage.Store.{Holds, IsStore, held-of_row, store_blob_lem}
use dogbox.BlobStorage.Blobs.{IsDigest, IsStorable}

module _ (S : Sqlite) (I : IsSqlite S) (L : Lz4) (M : IsLz4 L) (sha256 : Bytes → Sha256HashCode)
    (Known : Bytes → Type 0) (D : IsDigest sha256 Known) where
  -- A blob is loaded under its digest, and the database stays as it is.
  abbrev pub Loads : S.Database → Bytes → Type 0
  Loads db content = load_blob S L (sha256 content) db ≡ (ok (some content), db)

  Loads-held :
      (db : S.Database) (content : Bytes)
      → IsStore S I L sha256 Known db
      → IsStorable L Known content
      → Loads db content
      → Holds S I L sha256 db content
  Loads-held db content w v e = elim (Option-cases (I.row db (to_string (sha256 content)))) [
    | inl absent ↦
        let nothing = load_blob-none S I L db (sha256 content) w.table absent in absurd (cc)
    | inr (r, found) ↦ held-of_row S I L sha256 M Known D db content r w v.known found
  ]

  held-Loads :
      (db : S.Database) (content : Bytes)
      → IsStore S I L sha256 Known db
      → IsStorable L Known content
      → Holds S I L sha256 db content
      → Loads db content
  held-Loads db content w v h =
      load_blob-packed S I L M db (sha256 content) content w.table h v.small v.short

  -- A blob that is known, that LZ4 accepts and whose compressed bytes SQLite can hold, stored into
  -- a database in which every row is a known blob's, loads from then on under the digest that was
  -- returned, and so does every other such blob that did before.
  pub load-store_blob :
      (db : S.Database) (content : Bytes)
      → IsStore S I L sha256 Known db
      → IsStorable L Known content
      → (db' : S.Database) × (store_blob S L sha256 content db ≡ (ok (sha256 content), db'))
        × IsStore S I L sha256 Known db'
        × Loads db' content
        × ((other : Bytes) → IsStorable L Known other → Loads db other → Loads db' other)
  load-store_blob db content w v =
      let (db', done, w', held, keeps, _) = store_blob_lem S I L sha256 M Known D db content w v in
      (
        db',
        done,
        w',
        held-Loads db' content w' v held,
        λ other u e. held-Loads db' other w' u (keeps other (Loads-held db other w u e)),
      )
