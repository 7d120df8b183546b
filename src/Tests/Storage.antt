-- ===== src/Tests/Storage.antt =====
-- The theorems on the blob storage, over the concrete collaborators.
use dogbox.Base.{bytes_eq_refl, throw, to_do, ◌<◌}
use dogbox.Base.Int.{ℤ, negsuc}
use dogbox.BlobStorage.AnyRow.{IsSized, load_blob-any_row}
use dogbox.Base.{ℕ, suc, ◌+◌, ◌≡◌, refl, ◌⊎◌, true, none, some, [], ◌∷◌}
use dogbox.Base.{
  arith, Bool-cases, sym, inl, inr, bytes_eq_iff, length, replicate, length-replicate, Bytes,
  bytes_eq, codes, ok,
}
use dogbox.Base.Int.{pos}
use dogbox.HashCode.{to_string}
use dogbox.BlobStorage.{load_blob, store_blob}
use dogbox.Base.{false}
use dogbox.BlobStorage.Load.{packed}
use dogbox.BlobStorage.Store.{Holds, IsStore, store_blob_lem, store_blob_too_large}
use dogbox.BlobStorage.Blobs.{IsStorable}
use dogbox.Tests.World.{
  Table, look_up, table_sqlite, table_sqlite-IsSqlite, plain_lz4, plain_lz4-IsLz4,
}
use dogbox.Tests.World.{toy_sha256, toy_sha256-IsDigest, Short}
use dogbox.External.Sqlite.{Row}
use dogbox.External.Lz4.{max_input_size}

abbrev pub fresh : Table
fresh = record { created = true; rows = [] }

abbrev pub text : Bytes
text = codes "blob"

abbrev pub stored : Table
stored = record { created = true; rows = (to_string (toy_sha256 text), packed plain_lz4 text) ∷ [] }

pub text-IsStorable : IsStorable plain_lz4 Short text
text-IsStorable = record {
  known = (omega arith, (omega arith, (omega arith, (omega arith, (omega arith, tt)))));
  small = omega arith;
  short = omega arith;
}

pub fresh-IsStore : IsStore table_sqlite table_sqlite-IsSqlite plain_lz4 toy_sha256 Short fresh
unfolding table_sqlite-IsSqlite
fresh-IsStore = record { table = refl; rows = λ key r e. absurd (cc) }

stored_row :
    (key : Bytes) (r : Row)
    → look_up stored.rows key ≡ some r
    → (key ≡ to_string (toy_sha256 text)) × (r ≡ packed plain_lz4 text)
stored_row key r e = elim (Bool-cases (bytes_eq (to_string (toy_sha256 text)) key)) [
  | inl same ↦ (sym ((bytes_eq_iff _ key).0 same), cc (rw same at e))
  | inr other ↦ absurd (cc (rw other at e))
]

pub stored-IsStore : IsStore table_sqlite table_sqlite-IsSqlite plain_lz4 toy_sha256 Short stored
unfolding table_sqlite-IsSqlite
stored-IsStore = record {
  table = refl;
  rows = λ key r e. let (k, p) = stored_row key r e in (text, k, p, text-IsStorable);
}

pub stored-Holds : Holds table_sqlite table_sqlite-IsSqlite plain_lz4 toy_sha256 stored text
unfolding table_sqlite-IsSqlite to_string bytes_eq
stored-Holds = refl

store_blob_lem_example :
    (db' : Table) × (store_blob table_sqlite plain_lz4 toy_sha256 text fresh
      ≡ (ok (toy_sha256 text), db'))
    × IsStore table_sqlite table_sqlite-IsSqlite plain_lz4 toy_sha256 Short db'
    × Holds table_sqlite table_sqlite-IsSqlite plain_lz4 toy_sha256 db' text
    × ((other : Bytes)
        → Holds table_sqlite table_sqlite-IsSqlite plain_lz4 toy_sha256 fresh other
        → Holds table_sqlite table_sqlite-IsSqlite plain_lz4 toy_sha256 db' other)
    × ((Holds table_sqlite table_sqlite-IsSqlite plain_lz4 toy_sha256 fresh text × (db' ≡ fresh))
        ⊎ ((table_sqlite-IsSqlite.row fresh (to_string (toy_sha256 text)) ≡ none)
            × (table_sqlite-IsSqlite.count db' ≡ suc (table_sqlite-IsSqlite.count fresh))))
store_blob_lem_example =
    store_blob_lem table_sqlite table_sqlite-IsSqlite plain_lz4 toy_sha256 plain_lz4-IsLz4 Short
      toy_sha256-IsDigest fresh text fresh-IsStore text-IsStorable

abbrev huge : Bytes
huge = replicate (max_input_size + 1) 0

store_blob_too_large_example :
    (db' : Table) × (store_blob table_sqlite plain_lz4 toy_sha256 huge fresh
      ≡ (ok (toy_sha256 huge), db'))
    × (table_sqlite-IsSqlite.row db' (to_string (toy_sha256 huge))
        ≡ some (record { compressed_content = []; original_size = pos (length huge) }))
unfolding table_sqlite-IsSqlite
store_blob_too_large_example =
    store_blob_too_large table_sqlite table_sqlite-IsSqlite plain_lz4 toy_sha256 plain_lz4-IsLz4
      Short fresh huge refl refl (omega (arith, length-replicate {A = ℕ} (max_input_size + 1) 0))
      (omega (arith, length-replicate {A = ℕ} (max_input_size + 1) 0))

abbrev uninitialized : Table
uninitialized = record { created = false; rows = [] }

-- A row that promises more bytes than its content decompresses to.
abbrev corrupt : Row
corrupt = record { compressed_content = 1 ∷ []; original_size = pos 3 }

abbrev corrupted : Table
corrupted = record { created = true; rows = (to_string (toy_sha256 text), corrupt) ∷ [] }

corrupt_row : table_sqlite-IsSqlite.row corrupted (to_string (toy_sha256 text)) ≡ some corrupt
unfolding table_sqlite-IsSqlite
corrupt_row = rw (bytes_eq_refl (to_string (toy_sha256 text))) refl

corrupt_code : (plain_lz4.decompress_safe corrupt.compressed_content (replicate 3 0)).0 ≡ negsuc 0
unfolding replicate
corrupt_code = refl

load_blob-any_row_example :
    ((n : ℕ) × ((corrupt.original_size ≡ pos n)
        × (n < 2147483648)
        × (length corrupt.compressed_content < 2147483648))
      × ((code : ℤ) × (left : Bytes) × (plain_lz4.decompress_safe corrupt.compressed_content
              (replicate n 0)
            ≡ (code, left))
          × (load_blob table_sqlite plain_lz4 (toy_sha256 text) corrupted
              ≡ (ok (some left), corrupted))))
    ⊎ ((IsSized corrupt → ⊥)
        × (load_blob table_sqlite plain_lz4 (toy_sha256 text) corrupted ≡ (throw to_do, corrupted)))
unfolding table_sqlite-IsSqlite
load_blob-any_row_example =
    load_blob-any_row table_sqlite table_sqlite-IsSqlite plain_lz4 corrupted (toy_sha256 text)
      corrupt refl corrupt_row
