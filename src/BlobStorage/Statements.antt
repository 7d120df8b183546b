-- ===== src/BlobStorage/Statements.antt =====
-- The calls of the blob storage and the handle of a database: each call finalizes the statement that
-- it prepared, whatever SQLite returns, so that the database can be closed.
use dogbox.Base.{ℕ, ◌≡◌, refl, ◌∙◌, inl, inr, false, Bool-cases}
use dogbox.Base.{List, [], ◌∷◌, ◌==◌, leb, some, none, length, Bytes, Option, Result}
use dogbox.Base.{ok, throw}
use dogbox.Base.Int.{ℤ, pos, negsuc}
use dogbox.Base.Action.{Action, pure, proceed, ◌>>◌}
use dogbox.External.Sqlite.{
  create_blob, Sqlite, TracksStatements, sqlite_ok, sqlite_row, sqlite_done,
}
use dogbox.External.Lz4.{Lz4}
use dogbox.HashCode.{Sha256HashCode, to_string}
use dogbox.BlobStorage.{
  read_row, load_blob_into, load_blob, insert_row, store_blob, count_blobs, initialize_blob_storage,
  open_sqlite, sqlite_deleter, int_max,
}
use dogbox.BlobStorage.Specification.{Call, store, load, count, perform, perform_all}
use dogbox.BlobStorage.Scopes.{
  Keeps, sequence-Keeps, bind_text-Keeps, bind_blob64-Keeps, bind_int64-Keeps, step-Keeps,
  pure-Keeps, throw_sqlite_error-Keeps, if-Keeps, with_statement-open, reading-Keeps,
  count_of_column-Keeps,
}

module _ (S : Sqlite) (T : TracksStatements S) where
  -- A second call for the database.
  proceed-open :
      {A B : Type 0} (r : Result A × S.Database) (f : A → Action S.Database B)
      → ((a : A) (db : S.Database) → T.open_statements (f a db).1 ≡ T.open_statements db)
      → T.open_statements (proceed r f).1 ≡ T.open_statements r.1
  proceed-open (ok a, db) f h = h a db
  proceed-open (throw e, db) f h = refl

  -- Counting leaves no statement behind.
  count_blobs-open :
      (db : S.Database) → T.open_statements (count_blobs S db).1 ≡ T.open_statements db
  unfolding count_blobs
  count_blobs-open = with_statement-open S T _ _ (inr (inr refl)) (
      sequence-Keeps S T _ _ (step-Keeps S T) λ code. reading-Keeps S T _ λ s.
        if-Keeps S T (code == sqlite_row) _ _ (count_of_column-Keeps S T (S.column_int64 s 0))
          (throw_sqlite_error-Keeps S T code))

  initialize-open :
      (db : S.Database) → T.open_statements (initialize_blob_storage S db).1 ≡ T.open_statements db
  unfolding initialize_blob_storage
  initialize-open db = elim (Bool-cases ((S.exec db create_blob).0 == sqlite_ok)) [
    | inl fine ↦ rw fine (T.exec-open db create_blob)
    | inr fails ↦ rw fails (T.exec-open db create_blob)
  ]

  module _ (L : Lz4) where
    read_row-Keeps :
        (compressed : Bytes) (size : ℤ) (content : Bytes)
        → Keeps S T (read_row S L compressed size content)
    unfolding read_row
    read_row-Keeps compressed (negsuc n) content = record { keeps = λ s db. (refl, refl) }
    read_row-Keeps compressed (pos n) content = record {
      keeps = λ s db. elim (Bool-cases (leb n int_max)) [
        | inr large ↦ rw large (refl, refl)
        | inl small ↦ elim (Bool-cases (leb (length compressed) int_max)) [
          | inr long ↦ rw (small, long) (refl, refl)
          | inl short ↦ rw (small, short) (refl, refl)
        ]
      ];
    }

    load_blob_into-open :
        (h : Sha256HashCode) (content : Bytes) (db : S.Database)
        → T.open_statements (load_blob_into S L h content db).1 ≡ T.open_statements db
    unfolding load_blob_into
    load_blob_into-open h content = with_statement-open S T _ _ (inr (inl refl)) (
        sequence-Keeps S T _ _ (bind_text-Keeps S T 1 (to_string h)) λ _.
          sequence-Keeps S T _ _ (step-Keeps S T) λ code. reading-Keeps S T _ λ s.
            if-Keeps S T (code == sqlite_row) _ _
              (read_row-Keeps (S.column_blob s 0) (S.column_int64 s 1) content)
              (if-Keeps S T (code == sqlite_done) _ _ (pure-Keeps S T (false, content))
                (throw_sqlite_error-Keeps S T code)))

    load_blob-open :
        (h : Sha256HashCode) (db : S.Database)
        → T.open_statements (load_blob S L h db).1 ≡ T.open_statements db
    unfolding load_blob
    load_blob-open h db =
        proceed-open (load_blob_into S L h [] db) _ (λ a db. refl) ∙ load_blob_into-open h [] db

    insert_row-open :
        (h : Sha256HashCode) (content : Bytes) (db : S.Database)
        → T.open_statements (insert_row S L h content db).1 ≡ T.open_statements db
    unfolding insert_row
    insert_row-open h content db =
        let bound = L.compress_bound (length content) in
        let compressed = L.compress_default content bound in
        let kept =
          with_statement-open S T _ _ (inl refl)
            (sequence-Keeps S T _ _ (bind_text-Keeps S T 1 (to_string h)) λ _.
              sequence-Keeps S T _ _ (bind_blob64-Keeps S T 2 compressed) λ _.
                sequence-Keeps S T _ _ (bind_int64-Keeps S T 3 (pos (length content))) λ _.
                  sequence-Keeps S T _ _ (step-Keeps S T) λ code.
                    if-Keeps S T (code == sqlite_done) _ _ (pure-Keeps S T h)
                      (throw_sqlite_error-Keeps S T code))
            db in
        elim (Bool-cases (leb (length content) int_max)) [
          | inr large ↦ rw large refl
          | inl fits ↦ elim (Bool-cases (leb (length compressed) bound)) [
            | inr over ↦ rw (fits, over) refl
            | inl within ↦ rw (fits, within) kept
          ]
        ]

    -- The cases of `store_blob` on what was loaded.
    insert_absent-open :
        (h : Sha256HashCode) (content : Bytes) (existing : Option Bytes) (db : S.Database)
        → T.open_statements
            ((elim existing as (λ _. Action S.Database Sha256HashCode) [
              | some _ ↦ pure h
              | none ↦ insert_row S L h content
            ])
              db).1
          ≡ T.open_statements db
    insert_absent-open h content (some _) db = refl
    insert_absent-open h content none db = insert_row-open h content db

    store_blob-open :
        (sha256 : Bytes → Sha256HashCode) (content : Bytes) (db : S.Database)
        → T.open_statements (store_blob S L sha256 content db).1 ≡ T.open_statements db
    unfolding store_blob
    store_blob-open sha256 content db =
        proceed-open (load_blob S L (sha256 content) db) _
          (insert_absent-open (sha256 content) content)
        ∙ load_blob-open (sha256 content) db

    module _ (sha256 : Bytes → Sha256HashCode) where
      perform-open :
          (call : Call) (db : S.Database)
          → T.open_statements (perform S L sha256 call db).1 ≡ T.open_statements db
      unfolding perform
      perform-open (store content) db =
          proceed-open (store_blob S L sha256 content db) _ (λ a db. refl)
          ∙ store_blob-open sha256 content db
      perform-open (load h) db =
          proceed-open (load_blob S L h db) _ (λ a db. refl) ∙ load_blob-open h db
      perform-open count db = proceed-open (count_blobs S db) _ (λ a db. refl) ∙ count_blobs-open db

      perform_all-open :
          (calls : List Call) (db : S.Database)
          → T.open_statements (perform_all S L sha256 calls db).1 ≡ T.open_statements db
      unfolding perform_all
      perform_all-open [] db = refl
      perform_all-open (call ∷ calls) db =
          proceed-open (perform S L sha256 call db) _ (λ a db.
            proceed-open (perform_all S L sha256 calls db) _ (λ a db. refl)
            ∙ perform_all-open calls db)
          ∙ perform-open call db

      -- Whatever codes, rows and errors SQLite returns, and whatever LZ4 and the digest return: a
      -- database that is opened without prepared statements, is initialized, and then stores, loads
      -- and counts in any order until a call throws or none is left, is closed by the deleter of its
      -- handle, where SQLite keeps its prepared statements as it documents.
      pub sqlite_deleter-perform_all :
          (sqlite3_open : Bytes → ℕ × S.Database) (name : Bytes) (calls : List Call)
          → T.open_statements (sqlite3_open name).1 ≡ []
          → sqlite_deleter S
              ((initialize_blob_storage S >> perform_all S L sha256 calls)
                (open_sqlite S sqlite3_open name)).1
            ≡ sqlite_ok
      unfolding open_sqlite sqlite_deleter
      sqlite_deleter-perform_all sqlite3_open name calls e =
          let db = (sqlite3_open name).1 in
          T.close-open _ (
            proceed-open (initialize_blob_storage S db) _ (λ _ db. perform_all-open calls db)
            ∙ initialize-open db
            ∙ e)
