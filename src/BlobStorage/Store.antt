-- ===== src/BlobStorage/Store.antt =====
-- `store_blob` over a working SQLite and a working LZ4: an invariant of the table, and what a call
-- adds to it.
use dogbox.Base.{
  suc, ◌≤◌, ◌<◌, [], nil_of_length, ◌≡◌, refl, sym, ap, ◌∙◌, ◌⊎◌, inl, inr, true, none, some,
}
use dogbox.Base.{arith, le→leb, if◌then◌else◌, Option-cases, length, Bytes, ok}
use dogbox.Base.{Bool-cases, bytes_eq, bytes_eq_iff, bytes_eq_refl}
use dogbox.Base.Int.{pos}
use dogbox.Base.Action.{proceed, pure}
use dogbox.External.Sqlite.{Sqlite, IsSqlite, Row, max_length, sqlite_ok, sqlite_done}
use dogbox.External.Sqlite
use dogbox.External.Lz4.{Lz4, IsLz4, max_input_size}
use dogbox.HashCode.{Sha256HashCode, to_string}
use dogbox.HashCode.RoundTrip.{to_string-injective}
use dogbox.BlobStorage.{int_max, insert_row, store_blob}
use dogbox.BlobStorage.Load.{packed, load_blob-packed, load_blob-none}
use dogbox.BlobStorage.Blobs.{IsDigest, IsStorable}

module _ (S : Sqlite) (I : IsSqlite S) (L : Lz4) (sha256 : Bytes → Sha256HashCode) where
  -- The table has the row of the blob.
  abbrev pub Holds : S.Database → Bytes → Type 0
  Holds db content = I.row db (to_string (sha256 content)) ≡ some (packed L content)

  -- Every row is that of a blob, under the blob's digest.
  pub record IsStore (Known : Bytes → Type 0) (db : S.Database) : Type 0 where
    pub table : I.has_table db ≡ true
    pub rows :
        (key : Bytes) (r : Row)
        → I.row db key ≡ some r
        → (content : Bytes) × (key ≡ to_string (sha256 content))
          × (r ≡ packed L content)
          × IsStorable L Known content

  -- The database behind the `INSERT` of a row.
  abbrev pub inserted : S.Database → Bytes → Row → S.Database
  inserted db key r =
      let (_, s, db1) = S.prepare db Sqlite.insert_blob in
      let s' = (S.bind_text s 1 key).1 in
      let s'' = (S.bind_blob64 s' 2 r.compressed_content).1 in
      let s''' = (S.bind_int64 s'' 3 r.original_size).1 in
      let (_, last, db2) = S.step db1 s''' in S.finalize last db2

  module _ (M : IsLz4 L) (Known : Bytes → Type 0) where
    insert_row-ok :
        (db : S.Database) (h : Sha256HashCode) (content : Bytes)
        → I.has_table db ≡ true
        → I.row db (to_string h) ≡ none
        → length content ≤ int_max
        → length (packed L content).compressed_content ≤ max_length
        → insert_row S L h content db ≡ (ok h, inserted db (to_string h) (packed L content))
    unfolding insert_row
    insert_row-ok db h content t e fits short =
        rw
          (
            le→leb (length content) int_max fits,
            le→leb (length (packed L content).compressed_content)
                (L.compress_bound (length content))
                (M.length-compress content (L.compress_bound (length content))),
          )
          (ground (arith, I.insert_row db (to_string h) (packed L content) t e short))

    length-packed :
        (content : Bytes)
        → max_input_size < length content
        → length (packed L content).compressed_content ≡ 0
    length-packed content large = omega (
      arith,
      M.length-compress content (L.compress_bound (length content)),
      M.bound_too_large (length content) large,
    )

    -- Storing a blob that is there already changes nothing.
    pub store_blob-held :
        (db : S.Database) (content : Bytes)
        → I.has_table db ≡ true
        → IsStorable L Known content
        → Holds db content
        → store_blob S L sha256 content db ≡ (ok (sha256 content), db)
    unfolding store_blob
    store_blob-held db content t v held =
        ap
          (λ r. proceed r (λ existing. elim existing [
            | some _ ↦ pure (sha256 content)
            | none ↦ insert_row S L (sha256 content) content
          ]))
          (load_blob-packed S I L M db (sha256 content) content t held v.small v.short)

    pub store_blob-absent :
        (db : S.Database) (content : Bytes)
        → I.has_table db ≡ true
        → length content ≤ int_max
        → length (packed L content).compressed_content ≤ max_length
        → I.row db (to_string (sha256 content)) ≡ none
        → store_blob S L sha256 content db
          ≡ (ok (sha256 content), inserted db (to_string (sha256 content)) (packed L content))
    unfolding store_blob
    store_blob-absent db content t fits short absent =
        ap
          (λ r. proceed r (λ existing. elim existing [
            | some _ ↦ pure (sha256 content)
            | none ↦ insert_row S L (sha256 content) content
          ]))
          (load_blob-none S I L db (sha256 content) t absent)
        ∙ insert_row-ok db (sha256 content) content t absent fits short

    -- A blob that is larger than LZ4 accepts, but no larger than an `int` can be, is reported as
    -- stored where no row had its digest; its row holds no byte of it.
    pub store_blob_too_large :
        (db : S.Database) (content : Bytes)
        → I.has_table db ≡ true
        → I.row db (to_string (sha256 content)) ≡ none
        → max_input_size < length content
        → length content ≤ int_max
        → (db' : S.Database) × (store_blob S L sha256 content db ≡ (ok (sha256 content), db'))
          × (I.row db' (to_string (sha256 content))
              ≡ some (record { compressed_content = []; original_size = pos (length content) }))
    store_blob_too_large db content t absent large fits =
        let empty = length-packed content large in
        (
          inserted db (to_string (sha256 content)) (packed L content),
          store_blob-absent db content t fits (omega (arith, empty)) absent,
          rw (bytes_eq_refl (to_string (sha256 content))) at (
                (I.insert_row db (to_string (sha256 content)) (packed L content) t absent
                    (omega (arith, empty))).6
                  (to_string (sha256 content)))
              ∙ ap
                  (λ (bytes : Bytes).
                    some
                      (record { compressed_content = bytes; original_size = pos (length content) }))
                  (nil_of_length (packed L content).compressed_content empty),
        )

    module _ (D : IsDigest sha256 Known) where
      -- In a store the row under the digest of a known blob is the row of that blob.
      pub held-of_row :
          (db : S.Database) (content : Bytes) (r : Row)
          → IsStore Known db
          → Known content
          → I.row db (to_string (sha256 content)) ≡ some r
          → Holds db content
      held-of_row db content r w k e =
          let (other, same_text, same_row, v) = w.rows (to_string (sha256 content)) r e in
          let same_digest : sha256 content ≡ sha256 other =
            to_string-injective (sha256 content) (sha256 other) (D.sha256-IsHashCode content)
              (D.sha256-IsHashCode other) same_text in
          let same : content ≡ other = D.no_collision content other k v.known same_digest in
          e ∙ ap some (same_row ∙ ap (packed L) (sym same))

      inserted-row :
          (db : S.Database) (content : Bytes)
          → IsStore Known db
          → IsStorable L Known content
          → I.row db (to_string (sha256 content)) ≡ none
          → (key : Bytes)
          → I.row (inserted db (to_string (sha256 content)) (packed L content)) key ≡ (
              if bytes_eq (to_string (sha256 content)) key
              then some (packed L content)
              else I.row db key)
      inserted-row db content w v absent =
          (I.insert_row db (to_string (sha256 content)) (packed L content) w.table absent v.short).6

      inserted-count :
          (db : S.Database) (content : Bytes)
          → IsStore Known db
          → IsStorable L Known content
          → I.row db (to_string (sha256 content)) ≡ none
          → I.count (inserted db (to_string (sha256 content)) (packed L content)) ≡ suc (I.count db)
      inserted-count db content w v absent =
          (I.insert_row db (to_string (sha256 content)) (packed L content) w.table absent v.short).7

      inserted-IsStore :
          (db : S.Database) (content : Bytes)
          → IsStore Known db
          → IsStorable L Known content
          → I.row db (to_string (sha256 content)) ≡ none
          → IsStore Known (inserted db (to_string (sha256 content)) (packed L content))
      inserted-IsStore db content w v absent = record {
        table =
            (I.insert_row db (to_string (sha256 content)) (packed L content) w.table absent
              v.short).5;
        rows = λ key r e. elim (Bool-cases (bytes_eq (to_string (sha256 content)) key)) [
          | inl same ↦ (
            content,
            sym ((bytes_eq_iff _ _).0 same),
            cc (rw same at (inserted-row db content w v absent key), e),
            v,
          )
          | inr other ↦
              w.rows key r (sym (rw other at (inserted-row db content w v absent key)) ∙ e)
        ];
      }

      inserted-Holds :
          (db : S.Database) (content : Bytes)
          → IsStore Known db
          → IsStorable L Known content
          → I.row db (to_string (sha256 content)) ≡ none
          → Holds (inserted db (to_string (sha256 content)) (packed L content)) content
      inserted-Holds db content w v absent =
          rw (bytes_eq_refl (to_string (sha256 content))) at
            (inserted-row db content w v absent (to_string (sha256 content)))

      inserted-keeps :
          (db : S.Database) (content other : Bytes)
          → IsStore Known db
          → IsStorable L Known content
          → I.row db (to_string (sha256 content)) ≡ none
          → Holds db other
          → Holds (inserted db (to_string (sha256 content)) (packed L content)) other
      inserted-keeps db content other w v absent held =
          let law = inserted-row db content w v absent (to_string (sha256 other)) in
          elim (Bool-cases (bytes_eq (to_string (sha256 content)) (to_string (sha256 other)))) [
            | inl same ↦
                let same_key = (bytes_eq_iff _ _).0 same in absurd (cc (absent, held, same_key))
            | inr other_key ↦ rw other_key at law ∙ held
          ]

      -- Into a store, a table in which every row is a known blob's, a blob is stored that is
      -- known, that LZ4 accepts and whose compressed bytes SQLite can hold: the call returns its
      -- digest, the table holds the blob and whatever it held before, and it is still a store. It
      -- has one more row if no row had the digest, and is unchanged otherwise.
      pub store_blob_lem :
          (db : S.Database) (content : Bytes)
          → IsStore Known db
          → IsStorable L Known content
          → (db' : S.Database) × (store_blob S L sha256 content db ≡ (ok (sha256 content), db'))
            × IsStore Known db'
            × Holds db' content
            × ((other : Bytes) → Holds db other → Holds db' other)
            × ((Holds db content × (db' ≡ db))
                ⊎ ((I.row db (to_string (sha256 content)) ≡ none)
                    × (I.count db' ≡ suc (I.count db))))
      store_blob_lem db content w v = elim (Option-cases (I.row db (to_string (sha256 content)))) [
        | inl absent ↦ (
          inserted db (to_string (sha256 content)) (packed L content),
          store_blob-absent db content w.table (omega (arith, v.small)) v.short absent,
          inserted-IsStore db content w v absent,
          inserted-Holds db content w v absent,
          λ other held. inserted-keeps db content other w v absent held,
          inr (absent, inserted-count db content w v absent),
        )
        | inr (r, e) ↦
            let held = held-of_row db content r w v.known e in
            (db, store_blob-held db content w.table v held, w, held, λ other h. h, inl (held, refl))
      ]
