-- ===== src/BlobStorage/Interface.antt =====
-- The part of blob_layer/blob_storage.h that `trees` and `fuse_adaptor` use, as an interface, and
-- the blob storage over SQLite and LZ4 as one that meets it.
use dogbox.Base.{◌≡◌, Bool, true, Option, some, Bytes}
use dogbox.Base.{ok}
use dogbox.Base.Action.{Action}
use dogbox.External.Sqlite.{Sqlite, IsSqlite}
use dogbox.External.Lz4.{Lz4, IsLz4}
use dogbox.HashCode.{Sha256HashCode, IsHashCode}
use dogbox.BlobStorage.{load_blob_into, load_blob, store_blob}
use dogbox.BlobStorage.Load.{load_blob_into-packed, load_blob-packed}
use dogbox.BlobStorage.Store.{Holds, IsStore, store_blob_lem}
use dogbox.BlobStorage.Blobs.{IsDigest, IsStorable}

pub record BlobStore : Type 1 where
  pub Database : Type 0
  pub store_blob : Bytes → Action Database Sha256HashCode
  pub load_blob : Sha256HashCode → Action Database (Option Bytes)
  pub load_blob_into : Sha256HashCode → Bytes → Action Database (Bool × Bytes)

-- A database that is ready holds blobs; a blob that fits can be added under its digest.
pub record IsBlobStore (B : BlobStore) (sha256 : Bytes → Sha256HashCode) : Type 1 where
  pub IsReady : B.Database → Type 0
  pub HoldsBlob : B.Database → Bytes → Type 0
  pub Fits : Bytes → Type 0
  pub sha256-IsHashCode : (content : Bytes) → IsHashCode (sha256 content)
  pub load_blob-held :
      (db : B.Database) (content : Bytes)
      → IsReady db
      → HoldsBlob db content
      → B.load_blob (sha256 content) db ≡ (ok (some content), db)
  pub load_blob_into-held :
      (db : B.Database) (content buffer : Bytes)
      → IsReady db
      → HoldsBlob db content
      → B.load_blob_into (sha256 content) buffer db ≡ (ok (true, content), db)
  pub store_blob-Fits :
      (db : B.Database) (content : Bytes)
      → IsReady db
      → Fits content
      → (db' : B.Database) × (B.store_blob content db ≡ (ok (sha256 content), db'))
        × IsReady db'
        × HoldsBlob db' content
        × ((other : Bytes) → HoldsBlob db other → HoldsBlob db' other)

abbrev pub blob_storage : Sqlite → Lz4 → (Bytes → Sha256HashCode) → BlobStore
blob_storage S L sha256 = record {
  Database = S.Database;
  store_blob = store_blob S L sha256;
  load_blob = load_blob S L;
  load_blob_into = load_blob_into S L;
}

-- The blob storage keeps the contract that its clients rely on.
module _ (S : Sqlite) (I : IsSqlite S) (L : Lz4) (M : IsLz4 L) (sha256 : Bytes → Sha256HashCode)
    (Known : Bytes → Type 0) (D : IsDigest sha256 Known) where
  unfoldable pub blob_storage-IsBlobStore : IsBlobStore (blob_storage S L sha256) sha256
  blob_storage-IsBlobStore = record {
    IsReady = IsStore S I L sha256 Known;
    HoldsBlob = λ db content. Holds S I L sha256 db content × IsStorable L Known content;
    Fits = IsStorable L Known;
    sha256-IsHashCode = D.sha256-IsHashCode;
    load_blob-held = λ db content w h.
        load_blob-packed S I L M db (sha256 content) content w.table h.0 h.1.small h.1.short;
    load_blob_into-held = λ db content buffer w h.
        load_blob_into-packed S I L M db (sha256 content) content buffer w.table h.0 h.1.small
          h.1.short;
    store_blob-Fits = λ db content w v.
        let (db', done, w', held, keeps, _) =
          store_blob_lem S I L sha256 M Known D db content w v in
        (db', done, w', (held, v), λ other h. (keeps other h.0, h.1));
  }
