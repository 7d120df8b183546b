-- ===== src/Tests/Calls.antt =====
-- The theorem on sequences of calls of the blob storage.
use dogbox.Base.{◌≡◌, refl, false, some, none, List, [], ◌∷◌, ok, bytes_eq, codes}
use dogbox.Base.Action.{◌>>◌}
use dogbox.Base.Decimal.{decimal}
use dogbox.HashCode.{hash_code_eq}
use dogbox.BlobStorage.{initialize_blob_storage, open_sqlite, sqlite_error_what}
use dogbox.BlobStorage.Specification.{
  Call, store, load, count, answers, stored, loaded, counted, perform_all,
}
use dogbox.BlobStorage.Refinement.{perform_all-answers}
use dogbox.Tests.World.{Table, table_sqlite, table_sqlite-IsSqlite, plain_lz4, plain_lz4-IsLz4}
use dogbox.Tests.World.{toy_sha256, toy_sha256-IsDigest, Short}
use dogbox.Tests.Storage.{text, text-IsStorable}

abbrev new : Table
new = record { created = false; rows = [] }

-- A blob is looked for, stored twice, found and counted.
abbrev calls : List Call
calls = load (toy_sha256 text) ∷ store text ∷ store text ∷ load (toy_sha256 text) ∷ count ∷ []

answers_of_calls :
    (answers toy_sha256 calls []).0
    ≡ loaded none
      ∷ stored (toy_sha256 text)
      ∷ stored (toy_sha256 text)
      ∷ loaded (some text)
      ∷ counted 1
      ∷ []
unfolding hash_code_eq bytes_eq
answers_of_calls = refl

perform_all-answers_example :
    (db' : Table) × ((initialize_blob_storage table_sqlite
          >> perform_all table_sqlite plain_lz4 toy_sha256 calls)
        new
      ≡ (ok (answers toy_sha256 calls []).0, db'))
unfolding table_sqlite-IsSqlite
perform_all-answers_example =
    perform_all-answers table_sqlite table_sqlite-IsSqlite plain_lz4 plain_lz4-IsLz4 toy_sha256
      Short toy_sha256-IsDigest calls new refl
      (
        toy_sha256-IsDigest.sha256-IsHashCode text,
        (
          text-IsStorable,
          (text-IsStorable, (toy_sha256-IsDigest.sha256-IsHashCode text, (tt, tt))),
        ),
      )

-- The handle is returned, whatever the code is.
open_sqlite_failed : open_sqlite table_sqlite (λ name. (14, new)) (codes "missing/db") ≡ new
unfolding open_sqlite
open_sqlite_failed = refl

message_of_error :
    sqlite_error_what 14 (codes "unable to open database file")
    ≡ codes "SQLite operation failed with: 14; unable to open database file"
unfolding sqlite_error_what decimal
message_of_error = refl
