-- ===== src/External/Sqlite.antt =====
-- The functions of sqlite3.h that blob_layer/blob_storage.cpp calls, and what SQLite documents of
-- the four statements that the program runs. A statement is passed on as a value: each call that
-- changes it returns it anew. The program prepares a statement and finalizes it in each call.
use Prim.Native.String.{String}
use dogbox.Base.{ℕ, suc, ◌≤◌, ◌≡◌, ◌≢◌, Bool, true, false, Option, none, some, Bytes, length}
use dogbox.Base.{if◌then◌else◌, bytes_eq, List, [], ◌∷◌, ◌==◌, ◌⊎◌}
use dogbox.Base.Int.{ℤ, pos}

abbrev pub sqlite_ok : ℕ
sqlite_ok = 0

abbrev pub sqlite_row : ℕ
sqlite_row = 100

abbrev pub sqlite_done : ℕ
sqlite_done = 101

pub record Sqlite : Type 1 where
  pub Database : Type 0
  pub Statement : Type 0
  -- sqlite3_exec: the return code, the error message, the database
  pub exec : Database → String → ℕ × Bytes × Database
  pub prepare : Database → String → ℕ × Statement × Database
  pub bind_text : Statement → ℕ → Bytes → ℕ × Statement
  pub bind_blob64 : Statement → ℕ → Bytes → ℕ × Statement
  pub bind_int64 : Statement → ℕ → ℤ → ℕ × Statement
  pub step : Database → Statement → ℕ × Statement × Database
  -- sqlite3_finalize, whose code the program does not look at
  pub finalize : Statement → Database → Database
  -- sqlite3_column_blob, of as many bytes as sqlite3_column_bytes returns
  pub column_blob : Statement → ℕ → Bytes
  pub column_int64 : Statement → ℕ → ℤ
  pub errmsg : Database → Bytes
  -- sqlite3_close
  pub close : Database → ℕ

abbrev pub create_blob : String
create_blob =
    "CREATE TABLE `blob` (hash_code, compressed_content, original_size, PRIMARY KEY(hash_code))"

abbrev pub insert_blob : String
insert_blob = "INSERT INTO `blob` (hash_code, compressed_content, original_size) VALUES (?, ?, ?)"

abbrev pub select_blob : String
select_blob = "SELECT compressed_content, original_size FROM `blob` WHERE hash_code=?"

abbrev pub select_count : String
select_count = "SELECT COUNT(*) FROM `blob`"

-- SQLITE_MAX_LENGTH: a longer blob is refused.
abbrev pub max_length : ℕ
max_length = 1000000000

pub record Row : Type 0 where
  pub compressed_content : Bytes
  pub original_size : ℤ

-- A working SQLite. The view of a database is whether the table exists, its row for each key, and
-- the number of its rows. The columns have no declared type, so that values come back as they were
-- bound.
pub record IsSqlite (S : Sqlite) : Type 1 where
  pub has_table : S.Database → Bool
  pub row : S.Database → Bytes → Option Row
  pub count : S.Database → ℕ
  pub exec-create :
      (db : S.Database)
      → has_table db ≡ false
      → let (code, message, db') = S.exec db create_blob in
        (code ≡ sqlite_ok)
        × (has_table db' ≡ true)
        × ((key : Bytes) → row db' key ≡ none)
        × (count db' ≡ 0)
  pub exec-create_again :
      (db : S.Database) → has_table db ≡ true → (S.exec db create_blob).0 ≢ sqlite_ok
  pub select_row :
      (db : S.Database) (key : Bytes) (r : Row)
      → has_table db ≡ true
      → row db key ≡ some r
      → let (prepared, s, db1) = S.prepare db select_blob in
        let (bound, s') = S.bind_text s 1 key in
        let (code, s'', db2) = S.step db1 s' in
        (prepared ≡ sqlite_ok)
        × (bound ≡ sqlite_ok)
        × (code ≡ sqlite_row)
        × (S.column_blob s'' 0 ≡ r.compressed_content)
        × (S.column_int64 s'' 1 ≡ r.original_size)
        × (S.finalize s'' db2 ≡ db)
  pub select_none :
      (db : S.Database) (key : Bytes)
      → has_table db ≡ true
      → row db key ≡ none
      → let (prepared, s, db1) = S.prepare db select_blob in
        let (bound, s') = S.bind_text s 1 key in
        let (code, s'', db2) = S.step db1 s' in
        (prepared ≡ sqlite_ok)
        × (bound ≡ sqlite_ok)
        × (code ≡ sqlite_done)
        × (S.finalize s'' db2 ≡ db)
  pub insert_row :
      (db : S.Database) (key : Bytes) (r : Row)
      → has_table db ≡ true
      → row db key ≡ none
      → length r.compressed_content ≤ max_length
      → let (prepared, s, db1) = S.prepare db insert_blob in
        let (bound, s') = S.bind_text s 1 key in
        let (bound', s'') = S.bind_blob64 s' 2 r.compressed_content in
        let (bound'', s''') = S.bind_int64 s'' 3 r.original_size in
        let (code, last, db2) = S.step db1 s''' in
        let db' = S.finalize last db2 in
        (prepared ≡ sqlite_ok)
        × (bound ≡ sqlite_ok)
        × (bound' ≡ sqlite_ok)
        × (bound'' ≡ sqlite_ok)
        × (code ≡ sqlite_done)
        × (has_table db' ≡ true)
        × ((key' : Bytes) → row db' key' ≡ (if bytes_eq key key' then some r else row db key'))
        × (count db' ≡ suc (count db))
  pub select_rows :
      (db : S.Database)
      → has_table db ≡ true
      → let (prepared, s, db1) = S.prepare db select_count in
        let (code, s', db2) = S.step db1 s in
        (prepared ≡ sqlite_ok)
        × (code ≡ sqlite_row)
        × (S.column_int64 s' 0 ≡ pos (count db))
        × (S.finalize s' db2 ≡ db)

-- The statements that the program prepares, which are neither empty nor only a comment.
abbrev pub IsSql : String → Type 0
IsSql sql = (sql ≡ insert_blob) ⊎ (sql ≡ select_blob) ⊎ (sql ≡ select_count)

-- What SQLite documents of the life of a prepared statement, whatever the calls return. A database
-- has a list of its prepared statements, as sqlite3_next_stmt passes through it. Preparing one adds
-- it, and none where it fails; finalizing the latest one removes it; the other calls leave the list
-- and the number of a statement as they are. A database without prepared statements can be closed.
pub record TracksStatements (S : Sqlite) : Type 1 where
  pub number : S.Statement → ℕ
  pub open_statements : S.Database → List ℕ
  pub exec-open :
      (db : S.Database) (sql : String) → open_statements (S.exec db sql).2 ≡ open_statements db
  pub prepare-open :
      (db : S.Database) (sql : String)
      → IsSql sql
      → let (code, s, db') = S.prepare db sql in
        open_statements db'
        ≡ (if code == sqlite_ok then number s ∷ open_statements db else open_statements db)
  pub bind_text-number :
      (s : S.Statement) (i : ℕ) (value : Bytes) → number (S.bind_text s i value).1 ≡ number s
  pub bind_blob64-number :
      (s : S.Statement) (i : ℕ) (value : Bytes) → number (S.bind_blob64 s i value).1 ≡ number s
  pub bind_int64-number :
      (s : S.Statement) (i : ℕ) (value : ℤ) → number (S.bind_int64 s i value).1 ≡ number s
  pub step-number :
      (db : S.Database) (s : S.Statement)
      → let (_, s', db') = S.step db s in
        (number s' ≡ number s) × (open_statements db' ≡ open_statements db)
  pub finalize-open :
      (s : S.Statement) (db : S.Database) (others : List ℕ)
      → open_statements db ≡ number s ∷ others
      → open_statements (S.finalize s db) ≡ others
  pub close-open : (db : S.Database) → open_statements db ≡ [] → S.close db ≡ sqlite_ok
