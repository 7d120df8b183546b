-- ===== src/Tests/Statements.antt =====
-- A SQLite that keeps the list of its prepared statements, and the calls of a client over it.
use dogbox.Base.{ℕ, ◌≡◌, refl, ap, List, [], ◌∷◌, ◌==◌, length, if◌then◌else◌, codes}
use dogbox.Base.{Bool, true, false, ◌&&◌, throw, sqlite_error}
use dogbox.Base.Action.{◌>>◌}
use dogbox.External.Sqlite.{Sqlite, TracksStatements, sqlite_ok}
use dogbox.BlobStorage.{load_blob, store_blob, open_sqlite, sqlite_deleter, initialize_blob_storage}
use dogbox.BlobStorage.Specification.{Call, store, load, count, perform, perform_all}
use dogbox.BlobStorage.Statements.{sqlite_deleter-perform_all}
use dogbox.Tests.World.{Table, table_sqlite, plain_lz4, toy_sha256}
use dogbox.Tests.World
use dogbox.Tests.Storage.{text}

record Tracked : Type 0 where
  table : Table
  statements : List ℕ

record Statement : Type 0 where
  call : World.Call
  number : ℕ

abbrev tail : List ℕ → List ℕ
tail [] = []
tail (n ∷ ns) = ns

-- SQLITE_BUSY, where a statement is left
abbrev close_code : List ℕ → ℕ
close_code [] = 0
close_code (n ∷ ns) = 5

-- Where the disk is full, an `INSERT` ends with SQLITE_FULL and adds no row.
abbrev tracked_sqlite : Bool → Sqlite
tracked_sqlite full = record {
  Database = Tracked;
  Statement = Statement;
  exec = λ db sql.
      let (code, message, table) = table_sqlite.exec db.table sql in
      (code, message, record db { table = table });
  prepare = λ db sql.
      let (code, call, table) = table_sqlite.prepare db.table sql in
      let n = length db.statements in
      (
        code,
        record { call = call; number = n },
        record {
          table = table;
          statements = if code == sqlite_ok then n ∷ db.statements else db.statements;
        },
      );
  bind_text = λ s i value.
      let (code, call) = table_sqlite.bind_text s.call i value in (code, record s { call = call });
  bind_blob64 = λ s i value.
      let (code, call) = table_sqlite.bind_blob64 s.call i value in
      (code, record s { call = call });
  bind_int64 = λ s i value.
      let (code, call) = table_sqlite.bind_int64 s.call i value in (code, record s { call = call });
  step = λ db s.
      let (code, call, table) = table_sqlite.step db.table s.call in
      let fails = full && (s.call.kind == b'I') in
      (
        (if fails then 13 else code),
        record s { call = call },
        record db { table = if fails then db.table else table },
      );
  finalize = λ s db. record db { statements = tail db.statements };
  column_blob = λ s i. table_sqlite.column_blob s.call i;
  column_int64 = λ s i. table_sqlite.column_int64 s.call i;
  errmsg = λ db. table_sqlite.errmsg db.table;
  close = λ db. close_code db.statements;
}

unfoldable tracked_sqlite-TracksStatements : (full : Bool) → TracksStatements (tracked_sqlite full)
tracked_sqlite-TracksStatements full = record {
  number = λ s. s.number;
  open_statements = λ db. db.statements;
  exec-open = λ db sql. refl;
  prepare-open = λ db sql i. refl;
  bind_text-number = λ s i value. refl;
  bind_blob64-number = λ s i value. refl;
  bind_int64-number = λ s i value. refl;
  step-number = λ db s. (refl, refl);
  finalize-open = λ s db others e. ap tail e;
  close-open = λ db e. ap close_code e;
}

abbrev opened : Tracked
opened = record { table = record { created = false; rows = [] }; statements = [] }

-- A blob is looked for, and cannot be stored.
abbrev calls : List Call
calls = load (toy_sha256 text) ∷ store text ∷ count ∷ []

storing_fails :
    (perform_all
      (tracked_sqlite true)
      plain_lz4
      toy_sha256
      calls
      (initialize_blob_storage (tracked_sqlite true) opened).1).0
    ≡ throw (sqlite_error 13 [])
unfolding initialize_blob_storage perform_all perform load_blob store_blob
storing_fails = refl

sqlite_deleter-perform_all_example :
    sqlite_deleter
      (tracked_sqlite true)
      ((initialize_blob_storage (tracked_sqlite true)
          >> perform_all (tracked_sqlite true) plain_lz4 toy_sha256 calls)
        (open_sqlite (tracked_sqlite true) (λ name. (0, opened)) (codes ":memory:"))).1
    ≡ sqlite_ok
unfolding tracked_sqlite-TracksStatements
sqlite_deleter-perform_all_example =
    sqlite_deleter-perform_all (tracked_sqlite true) (tracked_sqlite-TracksStatements true)
      plain_lz4 toy_sha256 (λ name. (0, opened)) (codes ":memory:") calls refl
