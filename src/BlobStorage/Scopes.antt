-- ===== src/BlobStorage/Scopes.antt =====
-- The code that uses a statement: it is finalized at the end, whether that code returns or throws.
use Prim.Native.String.{String}
use dogbox.Base.{ℕ, ◌≡◌, refl, sym, ap, ◌∙◌, inl, inr, Bool, true, false, Bool-cases}
use dogbox.Base.{◌∷◌, ◌==◌, if◌then◌else◌, Bytes, Result}
use dogbox.Base.{ok, throw}
use dogbox.Base.Int.{ℤ, pos, negsuc}
use dogbox.Base.Action.{Action, pure, proceed, ◌>>=◌}
use dogbox.External.Sqlite.{Sqlite, TracksStatements, IsSql, sqlite_ok}
use dogbox.BlobStorage.{
  current, Scope, outside, bind, step, with_statement, prepare, handle_sqlite_error,
  throw_sqlite_error, count_of_column,
}

module _ (S : Sqlite) (T : TracksStatements S) where
  -- Code in the scope of a statement that leaves it the same one, and prepares and finalizes none.
  pub record Keeps {A : Type 0} (body : Action (Scope S) A) : Type 0 where
    pub keeps :
        (s : S.Statement) (db : S.Database)
        → (T.number (body (s, db)).1.0 ≡ T.number s)
          × (T.open_statements (body (s, db)).1.1 ≡ T.open_statements db)

  -- What a call has left, compared with what it began with.
  abbrev IsKept : {A : Type 0} → Scope S → Result A × Scope S → Type 0
  IsKept (s, db) (_, (s', db')) =
      (T.number s' ≡ T.number s) × (T.open_statements db' ≡ T.open_statements db)

  proceed-IsKept :
      {A B : Type 0} (start : Scope S) (r : Result A × Scope S) (f : A → Action (Scope S) B)
      → IsKept start r
      → ((a : A) → Keeps (f a))
      → IsKept start (proceed r f)
  proceed-IsKept (s, db) (ok a, (s', db')) f (n, o) k =
      let (n', o') = (k a).keeps s' db' in (n' ∙ n, o' ∙ o)
  proceed-IsKept (s, db) (throw e, (s', db')) f h k = h

  pub sequence-Keeps :
      {A B : Type 0} (m : Action (Scope S) A) (f : A → Action (Scope S) B)
      → Keeps m
      → ((a : A) → Keeps (f a))
      → Keeps (m >>= f)
  sequence-Keeps m f h k = record {
    keeps = λ s db. proceed-IsKept (s, db) (m (s, db)) f (h.keeps s db) k;
  }

  bind-Keeps :
      (call : S.Statement → ℕ × S.Statement)
      → ((s : S.Statement) → T.number (call s).1 ≡ T.number s)
      → Keeps (bind S call)
  unfolding bind handle_sqlite_error throw_sqlite_error
  bind-Keeps call h = record {
    keeps = λ s db. elim (Bool-cases ((call s).0 == sqlite_ok)) [
      | inl fine ↦ rw fine (h s, refl)
      | inr fails ↦ rw fails (h s, refl)
    ];
  }

  pub bind_text-Keeps :
      (i : ℕ) (value : Bytes) → Keeps (bind S (λ statement. S.bind_text statement i value))
  bind_text-Keeps i value =
      bind-Keeps (λ statement. S.bind_text statement i value) λ s. T.bind_text-number s i value

  pub bind_blob64-Keeps :
      (i : ℕ) (value : Bytes) → Keeps (bind S (λ statement. S.bind_blob64 statement i value))
  bind_blob64-Keeps i value =
      bind-Keeps (λ statement. S.bind_blob64 statement i value) λ s. T.bind_blob64-number s i value

  pub bind_int64-Keeps :
      (i : ℕ) (value : ℤ) → Keeps (bind S (λ statement. S.bind_int64 statement i value))
  bind_int64-Keeps i value =
      bind-Keeps (λ statement. S.bind_int64 statement i value) λ s. T.bind_int64-number s i value

  pub step-Keeps : Keeps (step S)
  step-Keeps = record { keeps = λ s db. T.step-number db s }

  pub pure-Keeps : {A : Type 0} (a : A) → Keeps (pure {S = Scope S} a)
  pure-Keeps a = record { keeps = λ s db. (refl, refl) }

  pub throw_sqlite_error-Keeps :
      {A : Type 0} (code : ℕ) → Keeps (outside S (throw_sqlite_error S {A = A} code))
  unfolding throw_sqlite_error
  throw_sqlite_error-Keeps code = record { keeps = λ s db. (refl, refl) }

  pub if-Keeps :
      {A : Type 0} (b : Bool) (m n : Action (Scope S) A)
      → Keeps m
      → Keeps n
      → Keeps (if b then m else n)
  if-Keeps true m n h k = h
  if-Keeps false m n h k = k

  pub with_statement-open :
      {A : Type 0} (sql : String) (body : Action (Scope S) A)
      → IsSql sql
      → Keeps body
      → (db : S.Database)
      → T.open_statements (with_statement S sql body db).1 ≡ T.open_statements db
  unfolding with_statement prepare handle_sqlite_error throw_sqlite_error
  with_statement-open sql body i h db =
      let (code, s, db') = S.prepare db sql in
      elim (Bool-cases (code == sqlite_ok)) [
        | inl fine ↦
            let (same, kept) = h.keeps s db' in
            let prepared = rw fine at (T.prepare-open db sql i) in
            let (s', db'') = (body (s, db')).1 in
            rw fine (
              T.finalize-open s' db'' (T.open_statements db)
                (kept ∙ prepared ∙ ap (λ (n : ℕ). n ∷ T.open_statements db) (sym same)))
        | inr fails ↦ rw fails (rw fails at (T.prepare-open db sql i))
      ]

  -- Reading a column of the statement.
  pub reading-Keeps :
      {A : Type 0} (f : S.Statement → Action (Scope S) A)
      → ((s : S.Statement) → Keeps (f s))
      → Keeps (current S >>= f)
  reading-Keeps f h = record { keeps = λ s db. (h s).keeps s db }

  pub count_of_column-Keeps : (column : ℤ) → Keeps (count_of_column S column)
  unfolding count_of_column
  count_of_column-Keeps (pos n) = record { keeps = λ s db. (refl, refl) }
  count_of_column-Keeps (negsuc n) = record { keeps = λ s db. (refl, refl) }
