-- ===== src/BlobStorage/Initialize.antt =====
-- `initialize_blob_storage` and `count_blobs` over a working SQLite.
use dogbox.Base.{ℕ, ◌≡◌, ap, ◌∙◌, true, false, Bytes, arith, ok, throw}
use dogbox.Base.{runtime_error}
use dogbox.External.Sqlite.{Sqlite, IsSqlite, create_blob}
use dogbox.External.Lz4.{Lz4}
use dogbox.HashCode.{Sha256HashCode}
use dogbox.BlobStorage.{initialize_blob_storage, count_blobs}
use dogbox.BlobStorage.Store.{IsStore}

module _ (S : Sqlite) (I : IsSqlite S) where
  -- Over a database with the table, the count is that of the table's rows, and nothing changes.
  pub count_blobs_lem :
      (db : S.Database) → I.has_table db ≡ true → count_blobs S db ≡ (ok (I.count db), db)
  unfolding count_blobs
  count_blobs_lem db t = ground (arith, I.select_rows db t)

  pub initialize-ok :
      (db : S.Database)
      → I.has_table db ≡ false
      → initialize_blob_storage S db ≡ (ok tt, (S.exec db create_blob).2)
  unfolding initialize_blob_storage
  initialize-ok db absent = ground (arith, (I.exec-create db absent).0)

  -- In a database without the table, initializing succeeds and leaves a table in which every row is
  -- that of a blob, and which counts no blob.
  pub initialize_blob_storage-IsStore :
      (L : Lz4) (sha256 : Bytes → Sha256HashCode) (Known : Bytes → Type 0) (db : S.Database)
      → I.has_table db ≡ false
      → (db' : S.Database) × (initialize_blob_storage S db ≡ (ok tt, db'))
        × IsStore S I L sha256 Known db'
        × (count_blobs S db' ≡ (ok 0, db'))
  initialize_blob_storage-IsStore L sha256 Known db absent =
      let db' = (S.exec db create_blob).2 in
      let created = I.exec-create db absent in
      (
        db',
        initialize-ok db absent,
        record { table = created.1; rows = λ key r e. absurd (cc (created.2 key, e)) },
        count_blobs_lem db' created.1 ∙ ap (λ (n : ℕ). (ok n, db')) created.3,
      )

  -- In a database that has the table already, initializing fails with SQLite's message.
  pub initialize_blob_storage_again :
      (db : S.Database)
      → I.has_table db ≡ true
      → (initialize_blob_storage S db).0 ≡ throw (runtime_error (S.exec db create_blob).1)
  unfolding initialize_blob_storage
  initialize_blob_storage_again db t = ground (arith, I.exec-create_again db t)
