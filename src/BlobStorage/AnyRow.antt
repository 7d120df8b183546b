-- ===== src/BlobStorage/AnyRow.antt =====
-- `load_blob` of a row that may be corrupt.
use dogbox.Base.{
  ℕ, zero, suc, replicate, ◌<◌, ◌-◌, ◌≡◌, ◌⊎◌, inl, inr, refl, ap, ◌∙◌, true, Bool-cases, some,
  none, [], arith, leb, length, Bytes, ok, throw, to_do,
}
use dogbox.Base.{if◌then◌else◌}
use dogbox.Base.Int.{ℤ, pos, negsuc}
use dogbox.Base.Action.{proceed, pure}
use dogbox.External.Sqlite.{Sqlite, IsSqlite, Row}
use dogbox.External.Lz4.{Lz4}
use dogbox.HashCode.{Sha256HashCode, to_string}
use dogbox.BlobStorage.{int_max, resize, read_row, load_blob}
use dogbox.BlobStorage.Load.{load_blob_into-row}

-- Both sizes of the row are ones that a 32-bit `int` can hold.
abbrev pub IsSized : Row → Type 0
IsSized r =
    (n : ℕ) × (r.original_size ≡ pos n)
    × (n < 2147483648)
    × (length r.compressed_content < 2147483648)

-- A vector that was empty, resized.
resize_empty : (n : ℕ) → resize n [] ≡ replicate n 0
unfolding resize
resize_empty zero = refl
resize_empty (suc n) =
    let whole : suc n - 0 ≡ suc n = omega arith in ap (λ (k : ℕ). replicate {A = ℕ} k 0) whole

module _ (S : Sqlite) (I : IsSqlite S) (L : Lz4) where
  read_row-cases :
      (compressed : Bytes) (size : ℤ) (db : S.Database)
      → ((n : ℕ) × ((size ≡ pos n) × (n < 2147483648) × (length compressed < 2147483648))
          × (read_row S L compressed size [] db
              ≡ (ok (true, (L.decompress_safe compressed (replicate n 0)).1), db)))
        ⊎ ((((n : ℕ) × (size ≡ pos n) × (n < 2147483648) × (length compressed < 2147483648)) → ⊥)
            × (read_row S L compressed size [] db ≡ (throw to_do, db)))
  unfolding read_row
  read_row-cases compressed (negsuc n) db = inr ((λ (m, e, _, _). absurd (cc)), refl)
  read_row-cases compressed (pos n) db = elim (Bool-cases (leb n int_max)) [
    | inr large ↦
        inr ((λ (m, e, small, _). let same : n ≡ m = cc in absurd (ground arith)), rw large refl)
    | inl small ↦ elim (Bool-cases (leb (length compressed) int_max)) [
      | inr long ↦ inr ((λ (m, e, _, short). absurd (ground arith)), rw (small, long) refl)
      | inl short ↦ inl (
        n,
        (refl, ground arith, ground arith),
        rw (small, short)
            (ap (λ (b : Bytes). (ok (true, (L.decompress_safe compressed b).1), db))
              (resize_empty n)),
      )
    ]
  ]

  -- Whatever row the table has for a digest: if both of its sizes are ones that a 32-bit `int` can hold,
  -- loading reports a blob as found, which is what LZ4 has left in a buffer of as many zeros as the row
  -- says, whatever code LZ4 returned, so also where it reported the content as malformed. If not, it
  -- throws. The database stays as it is.
  pub load_blob-any_row :
      (db : S.Database) (h : Sha256HashCode) (r : Row)
      → I.has_table db ≡ true
      → I.row db (to_string h) ≡ some r
      → ((n : ℕ) × ((r.original_size ≡ pos n)
            × (n < 2147483648)
            × (length r.compressed_content < 2147483648))
          × ((code : ℤ) × (left : Bytes) × (L.decompress_safe r.compressed_content (replicate n 0)
                ≡ (code, left))
              × (load_blob S L h db ≡ (ok (some left), db))))
        ⊎ ((IsSized r → ⊥) × (load_blob S L h db ≡ (throw to_do, db)))
  unfolding load_blob
  load_blob-any_row db h r t e =
      let loaded = load_blob_into-row S I L db h [] r t e in
      elim (read_row-cases r.compressed_content r.original_size db) [
        | inl (n, sized, found) ↦
            let (code, left) = L.decompress_safe r.compressed_content (replicate n 0) in
            inl (
              n,
              sized,
              (
                code,
                left,
                refl,
                ap (λ x. proceed x (λ (f, c). pure (if f then some c else none))) (loaded ∙ found),
              ),
            )
        | inr (apart, fails) ↦ inr (
          apart,
          ap (λ x. proceed x (λ (f, c). pure (if f then some c else none))) (loaded ∙ fails),
        )
      ]
