-- ===== src/Tests/World.antt =====
-- A SQLite, an LZ4 and a digest that meet what the program relies on.
use Prim.Native.String.{String}
use dogbox.Base.{
  ℕ, zero, suc, ◌+◌, ◌/◌, ◌%◌, ◌≤◌, ◌<◌, ◌≡◌, refl, ap, Bool, true, Option, none, some,
}
use dogbox.Base.{
  List, [], ◌∷◌, leb, ◌==◌, if◌then◌else◌, length, get_or, All, Bytes, IsByte, codes, bytes_eq,
}
use dogbox.Base.{arith, Bool-cases, inl, inr, ltb, ◌&&◌}
use dogbox.Base.Int.{ℤ, pos, negsuc}
use dogbox.External.Sqlite.{Sqlite, IsSqlite, Row}
use dogbox.External.Lz4.{Lz4, IsLz4, max_input_size}
use dogbox.HashCode.{Sha256HashCode}
use dogbox.BlobStorage.Blobs.{IsDigest}

-- Facts about each element of a list, by evaluation.
abbrev pub all_of : (ℕ → Bool) → Bytes → Bool
all_of p [] = true
all_of p (x ∷ xs) = p x && all_of p xs

pub all_of_sound :
    (p : ℕ → Bool) (P : ℕ → Type 0)
    → ((x : ℕ) → p x ≡ true → P x)
    → (xs : Bytes) → all_of p xs ≡ true
    → All P xs
all_of_sound p P h [] e = tt
all_of_sound p P h (x ∷ xs) e = elim (Bool-cases (p x)) [
  | inl holds ↦ (h x holds, all_of_sound p P h xs (rw holds at e))
  | inr fails ↦ absurd (cc (rw fails at e))
]

pub All-bytes : (xs : Bytes) → all_of (λ b. ltb b 256) xs ≡ true → All IsByte xs
All-bytes xs e = all_of_sound (λ b. ltb b 256) IsByte (λ b h. ground arith) xs e

pub record Table : Type 0 where
  pub created : Bool
  pub rows : List (Bytes × Row)

abbrev pub look_up : List (Bytes × Row) → Bytes → Option Row
look_up [] key = none
look_up ((k, r) ∷ rows) key = if bytes_eq k key then some r else look_up rows key

abbrev size_of : List (Bytes × Row) → ℕ
size_of [] = 0
size_of (r ∷ rows) = suc (size_of rows)

-- The eighth character of the text, which tells the four statements apart, and the values that are
-- bound or read.
pub record Call : Type 0 where
  pub kind : ℕ
  pub text : Bytes
  pub blob : Bytes
  pub int : ℤ

abbrev kind_of : String → ℕ
kind_of sql = get_or (codes sql) 7 0

abbrev insert_into : Table → Call → Option Row → ℕ × Call × Table
insert_into db c (some r) = (19, c, db)
insert_into db c none = (
  101,
  c,
  record db {
    rows = (c.text, record { compressed_content = c.blob; original_size = c.int }) ∷ db.rows;
  },
)

abbrev selected : Table → Call → Option Row → ℕ × Call × Table
selected db c (some r) = (100, record c { blob = r.compressed_content; int = r.original_size }, db)
selected db c none = (101, c, db)

abbrev run : Table → Call → ℕ × Call × Table
run db c =
    if c.kind == b'I'
    then insert_into db c (look_up db.rows c.text)
    else if c.kind == b'c'
    then selected db c (look_up db.rows c.text)
    else (100, record c { int = pos (size_of db.rows) }, db)

abbrev pub table_sqlite : Sqlite
table_sqlite = record {
  Database = Table;
  Statement = Call;
  exec =
      λ db sql. if db.created then (1, [], db) else (0, [], record { created = true; rows = [] });
  prepare = λ db sql. (
    (if db.created then 0 else 1),
    record { kind = kind_of sql; text = []; blob = []; int = pos 0 },
    db,
  );
  bind_text = λ c i value. (0, record c { text = value });
  bind_blob64 = λ c i value. (0, record c { blob = value });
  bind_int64 = λ c i value. (0, record c { int = value });
  step = run;
  finalize = λ c db. db;
  column_blob = λ c i. c.blob;
  column_int64 = λ c i. c.int;
  errmsg = λ db. [];
  close = λ db. 0;
}

unfoldable pub table_sqlite-IsSqlite : IsSqlite table_sqlite
table_sqlite-IsSqlite = record {
  has_table = λ db. db.created;
  row = λ db key. look_up db.rows key;
  count = λ db. size_of db.rows;
  exec-create = λ db e. rw e (refl, refl, λ key. refl, refl);
  exec-create_again = λ db e. rw e (λ q. absurd (omega (arith, q)));
  select_row = λ db key r t e. rw (t, e) (refl, refl, refl, refl, refl, refl);
  select_none = λ db key t e. rw (t, e) (refl, refl, refl, refl);
  insert_row =
      λ db key r t e short. rw (t, e) (refl, refl, refl, refl, refl, refl, λ key'. refl, refl);
  select_rows = λ db t. rw t (refl, refl, refl, refl);
}

-- Bytes that stand for themselves.
abbrev pub plain_lz4 : Lz4
plain_lz4 = record {
  compress_bound = λ size. if leb size max_input_size then size + size / 255 + 16 else 0;
  compress_default = λ source capacity. if leb (length source) capacity then source else [];
  decompress_safe = λ source target.
      if length source == length target then (pos (length source), source) else (negsuc 0, target);
}

pub plain_lz4-IsLz4 : IsLz4 plain_lz4
plain_lz4-IsLz4 = record {
  bound_too_large = λ size h. ground arith;
  length-compress = λ source capacity. ground arith;
  decompress-compress = λ source target h e. ground arith;
}

-- The first bytes of a list, filled up with zeros.
abbrev padded : ℕ → Bytes → Bytes
padded zero bytes = []
padded (suc n) [] = 0 ∷ padded n []
padded (suc n) (b ∷ bytes) = (b % 256) ∷ padded n bytes

length-padded :
    (n : ℕ) (bytes : Bytes) → (length (padded n bytes) ≡ n) × All IsByte (padded n bytes)
length-padded zero bytes = (refl, tt)
length-padded (suc n) [] =
    let (size, small) = length-padded n [] in (omega (arith, size), (omega arith, small))
length-padded (suc n) (b ∷ bytes) =
    let (size, small) = length-padded n bytes in (omega (arith, size), (omega arith, small))

padded-injective :
    (n : ℕ) (a b : Bytes)
    → length a ≡ length b
    → length a ≤ n
    → All IsByte a
    → All IsByte b
    → padded n a ≡ padded n b
    → a ≡ b
padded-injective n [] [] l h u v e = refl
padded-injective n [] (y ∷ b) l h u v e = absurd (omega (arith, l))
padded-injective n (x ∷ a) [] l h u v e = absurd (omega (arith, l))
padded-injective zero (x ∷ a) (y ∷ b) l h u v e = absurd (omega (arith, h))
padded-injective (suc n) (x ∷ a) (y ∷ b) l h (ux, u) (vy, v) e =
    ground (arith, padded-injective n a b)

-- The length and the content of a short blob.
abbrev pub toy_sha256 : Bytes → Sha256HashCode
toy_sha256 content = record { digits = padded 32 (length content ∷ content) }

abbrev pub Short : Bytes → Type 0
Short content = (length content < 32) × All IsByte content

pub toy_sha256-IsDigest : IsDigest toy_sha256 Short
toy_sha256-IsDigest = record {
  sha256-IsHashCode = λ content. length-padded 32 (length content ∷ content);
  no_collision = λ a b u v e.
      let same = ap (λ (h : Sha256HashCode). h.digits) e in
      let size : length a ≡ length b = ground (arith, same) in
      padded-injective 31 a b size (omega (arith, u.0)) u.1 v.1 (ground (arith, same));
}
