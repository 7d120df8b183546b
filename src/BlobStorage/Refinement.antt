-- ===== src/BlobStorage/Refinement.antt =====
-- `blob_storage.cpp` does what BlobStorage/Specification says.
use dogbox.Base.{
  contains, ℕ, suc, ◌≡◌, refl, sym, ap, ◌∙◌, ◌↔◌, inl, inr, Bool, true, false, Option, none,
}
use dogbox.Base.{some, List, [], ◌∷◌, if◌then◌else◌, length, All, Bytes, bytes_eq, bytes_eq_iff}
use dogbox.Base.{Bool-cases, Option-cases, ok, arith}
use mathlib.Core.Path.{subst}
use dogbox.Base.Action.{pure, ◌>>◌, proceed}
use dogbox.External.Sqlite.{Sqlite, IsSqlite, Row, create_blob}
use dogbox.External.Lz4.{Lz4, IsLz4}
use dogbox.HashCode.{Sha256HashCode, IsHashCode, to_string, hash_code_eq}
use dogbox.HashCode.RoundTrip.{to_string-injective}
use dogbox.BlobStorage.{initialize_blob_storage, store_blob}
use dogbox.BlobStorage.Blobs.{IsDigest, IsStorable}
use dogbox.BlobStorage.Initialize.{initialize-ok, count_blobs_lem}
use dogbox.BlobStorage.Load.{packed, load_blob-packed, load_blob-none}
use dogbox.BlobStorage.Store.{inserted, store_blob-absent, store_blob-held}
use dogbox.BlobStorage.Specification.{Call, store, load, count, stored, loaded, counted}
use dogbox.BlobStorage.Specification.{find_digest, answer, answers, perform, perform_all}

hash_code_eq_iff : (g h : Sha256HashCode) → (hash_code_eq g h ≡ true) ↔ (g ≡ h)
unfolding hash_code_eq
hash_code_eq_iff g h = (
  λ e. ap (λ (d : Bytes). record { digits = d }) ((bytes_eq_iff g.digits h.digits).0 e),
  λ e. (bytes_eq_iff g.digits h.digits).1 (ap (λ (k : Sha256HashCode). k.digits) e),
)

-- Texts of digests compare as the digests do.
bytes_eq-to_string :
    (g h : Sha256HashCode)
    → IsHashCode g
    → IsHashCode h
    → bytes_eq (to_string g) (to_string h) ≡ hash_code_eq g h
bytes_eq-to_string g h v w = elim (Bool-cases (hash_code_eq g h)) [
  | inl same ↦ (bytes_eq_iff _ _).1 (ap to_string ((hash_code_eq_iff g h).0 same)) ∙ sym same
  | inr differ ↦ elim (Bool-cases (bytes_eq (to_string g) (to_string h))) [
    | inl same ↦
        let e = to_string-injective g h v w ((bytes_eq_iff _ _).0 same) in
        absurd (cc ((hash_code_eq_iff g h).1 e))
    | inr other ↦ other ∙ sym differ
  ]
]

module _ (S : Sqlite) (I : IsSqlite S) (L : Lz4) (M : IsLz4 L) (sha256 : Bytes → Sha256HashCode)
    (Known : Bytes → Type 0) (D : IsDigest sha256 Known) where
  -- The blobs under a digest: among storable ones, those that are the blob itself.
  find_digest-contains :
      (content : Bytes) (held : List Bytes)
      → IsStorable L Known content
      → All (IsStorable L Known) held
      → find_digest sha256 (sha256 content) held
        ≡ (if contains content held then some content else none)
  find_digest-contains content [] v all = refl
  find_digest-contains content (x ∷ held) v (u, all) =
      elim (Bool-cases (hash_code_eq (sha256 x) (sha256 content))) [
        | inl same ↦
            let e =
              D.no_collision x content u.known v.known
                ((hash_code_eq_iff (sha256 x) (sha256 content)).0 same) in
            let here = (bytes_eq_iff x content).1 e in rw (same, here) (ap some e)
        | inr differ ↦ elim (Bool-cases (bytes_eq x content)) [
          | inl here ↦
              let e = ap sha256 ((bytes_eq_iff x content).0 here) in
              absurd (cc ((hash_code_eq_iff (sha256 x) (sha256 content)).1 e))
          | inr other ↦ rw (differ, other) (find_digest-contains content held v all)
        ]
      ]

  abbrev row_of : Option Bytes → Option Row
  row_of none = none
  row_of (some content) = some (packed L content)

  find_digest-IsStorable :
      (h : Sha256HashCode) (content : Bytes) (held : List Bytes)
      → All (IsStorable L Known) held
      → find_digest sha256 h held ≡ some content
      → IsStorable L Known content
  find_digest-IsStorable h content [] all e = absurd (cc)
  find_digest-IsStorable h content (x ∷ held) (u, all) e =
      elim (Bool-cases (hash_code_eq (sha256 x) h)) [
        | inl here ↦
            let same : x ≡ content = cc (rw here at e) in
            subst (λ (c : Bytes). IsStorable L Known c) same u
        | inr later ↦ find_digest-IsStorable h content held all (rw later at e)
      ]

  row_of-if :
      (b : Bool) (content : Bytes) (found : Option Bytes)
      → (if b then some (packed L content) else row_of found)
        ≡ row_of (if b then some content else found)
  row_of-if true content found = refl
  row_of-if false content found = refl

  -- The table has exactly the rows of what is held.
  pub record Represents (db : S.Database) (held : List Bytes) : Type 0 where
    pub table : I.has_table db ≡ true
    pub rows :
        (h : Sha256HashCode)
        → IsHashCode h
        → I.row db (to_string h) ≡ row_of (find_digest sha256 h held)
    pub storable : All (IsStorable L Known) held
    pub counts : I.count db ≡ length held

  -- A blob that is not held is added, under its digest.
  store-new :
      (db : S.Database) (held : List Bytes) (content : Bytes)
      → Represents db held
      → IsStorable L Known content
      → find_digest sha256 (sha256 content) held ≡ none
      → (db' : S.Database) × (store_blob S L sha256 content db ≡ (ok (sha256 content), db'))
        × Represents db' (content ∷ held)
  store-new db held content w v missing =
      let h = sha256 content in
      let absent : I.row db (to_string h) ≡ none =
        w.rows h (D.sha256-IsHashCode content) ∙ ap row_of missing in
      let made = I.insert_row db (to_string h) (packed L content) w.table absent v.short in
      (
        inserted S I L sha256 db (to_string h) (packed L content),
        store_blob-absent S I L sha256 M Known db content w.table (omega (arith, v.small)) v.short
            absent,
        record {
          table = made.5;
          rows = λ g hashed.
              made.6 (to_string g)
              ∙ rw (bytes_eq-to_string h g (D.sha256-IsHashCode content) hashed, w.rows g hashed)
                  (row_of-if (hash_code_eq h g) content (find_digest sha256 g held));
          storable = (v, w.storable);
          counts = made.7 ∙ ap suc w.counts;
        },
      )

  -- A call that a client may make: a blob that is stored is known and fits, and a digest is one.
  abbrev pub IsAllowed : Call → Type 0
  IsAllowed (store content) = IsStorable L Known content
  IsAllowed (load h) = IsHashCode h
  IsAllowed count = Unit

  -- A call answers as the map does, and leaves a table of what the map then holds.
  abbrev Answers : Call → S.Database → List Bytes → Type 0
  Answers call db held =
      (db' : S.Database) × (perform S L sha256 call db ≡ (ok (answer sha256 call held).0, db'))
      × Represents db' (answer sha256 call held).1

  store-Answers :
      (db : S.Database) (held : List Bytes) (content : Bytes)
      → Represents db held
      → IsStorable L Known content
      → Answers (store content) db held
  unfolding perform
  store-Answers db held content w v =
      let found = find_digest-contains content held v w.storable in
      elim (Bool-cases (contains content held)) [
        | inl there ↦
            let row =
              w.rows (sha256 content) (D.sha256-IsHashCode content)
              ∙ ap row_of (rw there at found) in
            (
              db,
              ap (λ r. proceed r (λ h. pure (stored h)))
                  (store_blob-held S I L sha256 M Known db content w.table v row),
              rw there w,
            )
        | inr new ↦
            let (db', done, w') = store-new db held content w v (rw new at found) in
            (db', ap (λ r. proceed r (λ h. pure (stored h))) done, rw new w')
      ]

  perform-Answers :
      (call : Call) (db : S.Database) (held : List Bytes)
      → Represents db held
      → IsAllowed call
      → Answers call db held
  unfolding perform
  perform-Answers (store content) db held w v = store-Answers db held content w v
  perform-Answers (load h) db held w v = elim (Option-cases (find_digest sha256 h held)) [
    | inl missing ↦ (
      db,
      ap (λ r. proceed r (λ found. pure (loaded found)))
          (load_blob-none S I L db h w.table (w.rows h v ∙ ap row_of missing)
            ∙ ap (λ (o : Option Bytes). (ok o, db)) (sym missing)),
      w,
    )
    | inr (content, found) ↦
        let u = find_digest-IsStorable h content held w.storable found in
        (
          db,
          ap (λ r. proceed r (λ found. pure (loaded found)))
              (load_blob-packed S I L M db h content w.table (w.rows h v ∙ ap row_of found) u.small
                  u.short
                ∙ ap (λ (o : Option Bytes). (ok o, db)) (sym found)),
          w,
        )
  ]
  perform-Answers count db held w v = (
    db,
    ap (λ r. proceed r (λ n. pure (counted n)))
        (count_blobs_lem S I db w.table ∙ ap (λ (n : ℕ). (ok n, db)) w.counts),
    w,
  )

  perform_all-Answers :
      (calls : List Call) (db : S.Database) (held : List Bytes)
      → Represents db held
      → All IsAllowed calls
      → (db' : S.Database) × (perform_all S L sha256 calls db
          ≡ (ok (answers sha256 calls held).0, db'))
        × Represents db' (answers sha256 calls held).1
  unfolding perform_all
  perform_all-Answers [] db held w v = (db, refl, w)
  perform_all-Answers (call ∷ calls) db held w (v, vs) =
      let (db1, done, w1) = perform-Answers call db held w v in
      let (db2, rest, w2) = perform_all-Answers calls db1 (answer sha256 call held).1 w1 vs in
      (db2, rw (done, rest) refl, w2)

  initialize-Represents :
      (db : S.Database) → I.has_table db ≡ false → Represents (S.exec db create_blob).2 []
  initialize-Represents db absent =
      let created = I.exec-create db absent in
      record {
        table = created.1;
        rows = λ h v. created.2 (to_string h);
        storable = tt;
        counts = created.3;
      }

  -- In a database without the table, initializing succeeds. After that, whatever sequence of calls
  -- stores blobs that are known, that LZ4 accepts and whose compressed bytes SQLite can hold, loads
  -- by digests and counts: each call succeeds, and answers as a map from digests to the blobs stored
  -- so far does, in which a blob that is stored again is there once.
  pub perform_all-answers :
      (calls : List Call) (db : S.Database)
      → I.has_table db ≡ false
      → All IsAllowed calls
      → (db' : S.Database) × ((initialize_blob_storage S >> perform_all S L sha256 calls) db
          ≡ (ok (answers sha256 calls []).0, db'))
  perform_all-answers calls db absent v =
      let db1 = (S.exec db create_blob).2 in
      let (db2, done, _) = perform_all-Answers calls db1 [] (initialize-Represents db absent) v in
      (
        db2,
        ap (λ r. proceed r (λ _. perform_all S L sha256 calls)) (initialize-ok S I db absent)
            ∙ done,
      )
