-- ===== src/BlobStorage.antt =====
-- blob_layer/blob_storage.h and blob_storage.cpp: blobs in a table of SQLite, compressed by LZ4,
-- under the text of their SHA-256 digest.
pub mod Initialize
pub mod Load
pub mod AnyRow
pub mod Blobs
pub mod Store
pub mod StoreLoad
pub mod Interface
pub mod Specification
pub mod Refinement
pub mod Scopes
pub mod Statements
use Prim.Native.String.{String}
use dogbox.Base.{
  ℕ, ◌+◌, ◌-◌, ◌≡◌, Bool, true, false, Option, none, some, List, [], ◌∷◌, ◌++◌, leb, ◌==◌,
}
use dogbox.Base.{codes, if◌then◌else◌, length, take, replicate, Bytes, ok, throw}
use dogbox.Base.{to_do, sqlite_error, runtime_error, assertion_failed}
use dogbox.Base.Decimal.{decimal}
use dogbox.Base.Int.{ℤ, pos, negsuc}
use dogbox.Base.Action.{Action, pure, raise, proceed, guard, ◌>>=◌, ◌>>◌}
use dogbox.External.Sqlite.{Sqlite, sqlite_ok, sqlite_row, sqlite_done}
use dogbox.External.Sqlite.{create_blob, insert_blob, select_blob, select_count}
use dogbox.External.Lz4.{Lz4}
use dogbox.HashCode.{Sha256HashCode, to_string}

-- std::numeric_limits<int>::max()
abbrev pub int_max : ℕ
int_max = 2147483647

-- `std::vector<std::byte>::resize`: new elements are zero.
unfoldable pub resize : ℕ → Bytes → Bytes
resize size content = take size content ++ replicate (size - length content) 0

-- `sqlite_error::what()`, for the code and SQLite's message.
unfoldable pub sqlite_error_what : ℕ → Bytes → Bytes
sqlite_error_what error_code message =
    (codes "SQLite operation failed with: " ++ decimal error_code) ++ (codes "; " ++ message)

module _ (S : Sqlite) where
  -- sqlite3_open returns a code and a handle. The code is not looked at.
  unfoldable pub open_sqlite : (Bytes → ℕ × S.Database) → Bytes → S.Database
  open_sqlite sqlite3_open name = (sqlite3_open name).1

  -- `sqlite_deleter`: sqlite3_close. Its code is not looked at.
  unfoldable pub sqlite_deleter : S.Database → ℕ
  sqlite_deleter database = S.close database

  unfoldable pub throw_sqlite_error : {A : Type 0} → ℕ → Action S.Database A
  throw_sqlite_error error database = (throw (sqlite_error error (S.errmsg database)), database)

  unfoldable pub handle_sqlite_error : ℕ → Action S.Database Unit
  unfolding throw_sqlite_error
  handle_sqlite_error error = if error == sqlite_ok then pure tt else throw_sqlite_error error

  unfoldable pub prepare : String → Action S.Database S.Statement
  unfolding handle_sqlite_error
  prepare sql database =
      let (error, statement, database') = S.prepare database sql in
      proceed (handle_sqlite_error error database') λ _. pure statement

  -- The state of the code that uses a statement.
  abbrev pub Scope : Type 0
  Scope = S.Statement × S.Database

  -- `sqlite_statement_handle const statement = prepare(database, sql)` and the code behind it: the
  -- handle's destructor finalizes the statement where that code returns, and where it throws.
  unfoldable pub with_statement : {A : Type 0} → String → Action Scope A → Action S.Database A
  unfolding prepare
  with_statement sql body = do
    statement ← prepare sql
    λ database.
        let (result, (statement', database')) = body (statement, database) in
        (result, S.finalize statement' database')

  -- A call for the database alone, in the scope of a statement.
  abbrev pub outside : {A : Type 0} → Action S.Database A → Action Scope A
  outside m (statement, database) =
      let (result, database') = m database in (result, (statement, database'))

  -- `handle_sqlite_error` of the code of a `sqlite3_bind_` function.
  unfoldable pub bind : (S.Statement → ℕ × S.Statement) → Action Scope Unit
  unfolding handle_sqlite_error
  bind call (statement, database) =
      let (error, statement') = call statement in
      outside (handle_sqlite_error error) (statement', database)

  -- sqlite3_step, which returns its code
  abbrev pub step : Action Scope ℕ
  step (statement, database) =
      let (code, statement', database') = S.step database statement in
      (ok code, (statement', database'))

  -- The statement, as it is now.
  abbrev pub current : Action Scope S.Statement
  current (statement, database) = (ok statement, (statement, database))

  unfoldable pub initialize_blob_storage : Action S.Database Unit
  initialize_blob_storage database =
      let (code, error, database') = S.exec database create_blob in
      if code == sqlite_ok then (ok tt, database') else (throw (runtime_error error), database')

  unfoldable pub count_of_column : {X : Type 0} → ℤ → Action X ℕ
  count_of_column (pos count) = pure count
  count_of_column (negsuc n) = raise assertion_failed

  unfoldable pub count_blobs : Action S.Database ℕ
  unfolding with_statement count_of_column
  count_blobs = with_statement select_count do
    code ← step
    statement ← current
    if code == sqlite_row
        then count_of_column (S.column_int64 statement 0)
        else outside (throw_sqlite_error code)

module _ (S : Sqlite) (L : Lz4) where
  -- The case SQLITE_ROW of `load_blob`: the columns, and the vector that the caller passed. The code that
  -- LZ4_decompress_safe returns is not looked at.
  unfoldable pub read_row : {X : Type 0} → Bytes → ℤ → Bytes → Action X (Bool × Bytes)
  read_row compressed (negsuc n) content = raise to_do
  read_row compressed (pos original_size) content = do
    guard (leb original_size int_max) to_do
    guard (leb (length compressed) int_max) to_do
    let (_, decompressed) = L.decompress_safe compressed (resize original_size content)
    pure (true, decompressed)

  -- `bool load_blob(database, hash_code, content)`: what it returns, and `content` afterwards.
  unfoldable pub load_blob_into : Sha256HashCode → Bytes → Action S.Database (Bool × Bytes)
  unfolding with_statement bind read_row
  load_blob_into hash_code content = with_statement S select_blob do
    bind S (λ statement. S.bind_text statement 1 (to_string hash_code))
    code ← step S
    statement ← current S
    if code == sqlite_row
        then read_row (S.column_blob statement 0) (S.column_int64 statement 1) content
        else if code == sqlite_done
        then pure (false, content)
        else outside S (throw_sqlite_error S code)

  -- The overload that returns a `std::optional`.
  unfoldable pub load_blob : Sha256HashCode → Action S.Database (Option Bytes)
  unfolding load_blob_into
  load_blob hash_code = do
    (found, content) ← load_blob_into hash_code []
    pure (if found then some content else none)

  -- `store_blob` behind its early return.
  unfoldable pub insert_row : Sha256HashCode → Bytes → Action S.Database Sha256HashCode
  unfolding with_statement bind
  insert_row hash_code content = do
    guard (leb (length content) int_max) to_do
    let compressed_size_bound = L.compress_bound (length content)
    let compressed = L.compress_default content compressed_size_bound
    guard (leb (length compressed) compressed_size_bound) assertion_failed
    with_statement S insert_blob do
      bind S (λ statement. S.bind_text statement 1 (to_string hash_code))
      bind S (λ statement. S.bind_blob64 statement 2 compressed)
      bind S (λ statement. S.bind_int64 statement 3 (pos (length content)))
      code ← step S
      if code == sqlite_done then pure hash_code else outside S (throw_sqlite_error S code)

  -- `sha256` is the digest of OpenSSL.
  unfoldable pub store_blob : (Bytes → Sha256HashCode) → Bytes → Action S.Database Sha256HashCode
  unfolding load_blob insert_row
  store_blob sha256 content = do
    let hash_code = sha256 content
    existing ← load_blob hash_code
    elim existing [ some _ ↦ pure hash_code | none ↦ insert_row hash_code content ]
