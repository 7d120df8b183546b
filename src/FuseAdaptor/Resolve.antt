-- ===== src/FuseAdaptor/Resolve.antt =====
-- `resolve_path` against the tree of directories that the blobs stand for.
use dogbox.Base.{ℕ, zero, suc, ◌≤◌, ◌≡◌, ◌≢◌, refl, ap, ◌∙◌, Option, none, some, List, [], ◌∷◌}
use dogbox.Base.{arith, length, Bool-cases, Option-cases, inl, inr, All}
use dogbox.Base.{Bytes, bytes_eq, bytes_eq_iff, find, ok}
use mathlib.Core.Path.{subst}
use dogbox.Base.Action.{Action}
use dogbox.HashCode.{Sha256HashCode}
use dogbox.BlobStorage.Interface.{BlobStore, IsBlobStore}
use dogbox.Trees.Directory.{regular_file, directory, DecodedEntry}
use dogbox.Paths.{split_path, path_text, IsName, path_text-some, split_path-path_text, longer}
use dogbox.FuseAdaptor.{DirectoryEntry, find_entry, resolve_entry}
use dogbox.FuseAdaptor.{resolve_path_loop, resolve_path}
use dogbox.Trees.DirectoryTree.{Node, file, folder, Entries, nothing, entry, entry_of, entries_of}
use dogbox.Trees.DirectoryTree.{directory_blob, child, HasDirectories, HasDirectory}
use dogbox.FuseAdaptor.FindEntry.{first_named, find_entry-entries}

-- What a path of names leads to: the node of the first name, and in a directory what the other names
-- lead to.
abbrev pub visit :
    List Bytes → (Entries → Option DirectoryEntry) → Option Node → Option DirectoryEntry
visit names within none = none
visit names within (some (folder entries)) = within entries
visit [] within (some (file h size)) =
    some (record { type = regular_file; hash_code = h; regular_file_size = size })
visit (n ∷ names) within (some (file h size)) = none

abbrev pub look_up : (Bytes → Sha256HashCode) → List Bytes → Entries → Option DirectoryEntry
look_up sha256 [] entries = some (record {
  type = directory;
  hash_code = sha256 (directory_blob sha256 entries);
  regular_file_size = 0;
})
look_up sha256 (name ∷ names) entries = visit names (look_up sha256 names) (child name entries)

-- The entry that a search finds for the child of a name.
abbrev found_child : (Bytes → Sha256HashCode) → Bytes → Option Node → Option DecodedEntry
found_child sha256 name none = none
found_child sha256 name (some node) = some (entry_of sha256 name node)

first_named-entries_of :
    (sha256 : Bytes → Sha256HashCode) (name : Bytes) (entries : Entries)
    → first_named name (entries_of sha256 entries) ≡ found_child sha256 name (child name entries)
first_named-entries_of sha256 name nothing = refl
first_named-entries_of sha256 name (entry n (file h size) entries) =
    elim (Bool-cases (bytes_eq n name)) [
      | inl same ↦ rw same (
          ap (λ (m : Bytes). some (entry_of sha256 m (file h size))) ((bytes_eq_iff n name).0 same))
      | inr other ↦ rw other (first_named-entries_of sha256 name entries)
    ]
first_named-entries_of sha256 name (entry n (folder inner) entries) =
    elim (Bool-cases (bytes_eq n name)) [
      | inl same ↦ rw same (
          ap (λ (m : Bytes). some (entry_of sha256 m (folder inner)))
            ((bytes_eq_iff n name).0 same))
      | inr other ↦ rw other (first_named-entries_of sha256 name entries)
    ]

file-folder :
    (d : Sha256HashCode) (size : ℕ) (inner : Entries)
    → ◌≢◌ {A = Option Node} (some (file d size)) (some (folder inner))
file-folder d size inner e = absurd (cc)

module _ (B : BlobStore) (sha256 : Bytes → Sha256HashCode) (I : IsBlobStore B sha256)
    (db : B.Database) (ready : I.IsReady db) where
  same_folder :
      (other inner : Entries)
      → HasDirectory B sha256 I db other
      → ◌≡◌ {A = Option Node} (some (folder other)) (some (folder inner))
      → HasDirectory B sha256 I db inner
  same_folder other inner h e =
      let same : other ≡ inner = cc in subst (λ (t : Entries). HasDirectory B sha256 I db t) same h

  -- A file is not looked into.
  below_file :
      (d : Sha256HashCode) (size : ℕ) (name tail : Bytes)
      (within : Sha256HashCode → Bytes → Action B.Database (Option DirectoryEntry))
      → 1 ≤ length tail
      → resolve_entry B
          (some (entry_of sha256 name (file d size)))
          tail
          (λ (h : Sha256HashCode). within h tail)
          db
        ≡ (ok none, db)
  below_file d size name [] within h = absurd (omega (arith, h))
  below_file d size name (x ∷ tail) within h = refl

  pub child-HasDirectory :
      (name : Bytes) (entries inner : Entries)
      → HasDirectories B sha256 I db entries
      → child name entries ≡ some (folder inner)
      → HasDirectory B sha256 I db inner
  child-HasDirectory name nothing inner h e = absurd (cc)
  child-HasDirectory name (entry n (file d size) entries) inner h e =
      elim (Bool-cases (bytes_eq n name)) [
        | inl same ↦ absurd (file-folder d size inner (rw same at e))
        | inr other ↦ child-HasDirectory name entries inner h (rw other at e)
      ]
  child-HasDirectory name (entry n (folder other) entries) inner h e =
      elim (Bool-cases (bytes_eq n name)) [
        | inl same ↦ same_folder other inner h.0 (rw same at e)
        | inr other ↦ child-HasDirectory name entries inner h.1 (rw other at e)
      ]

  -- One level of the recursion, where the path begins with a name.
  resolve_path_loop-step :
      (fuel : ℕ) (root : Sha256HashCode) (resolving : Bytes) (c : ℕ) (head tail blob : Bytes)
      (found : Option DecodedEntry)
      → split_path resolving ≡ record { head = c ∷ head; tail = tail }
      → B.load_blob root db ≡ (ok (some blob), db)
      → find_entry blob (c ∷ head) ≡ ok found
      → resolve_path_loop B (suc fuel) root resolving db
        ≡ resolve_entry B found tail (λ (h : Sha256HashCode). resolve_path_loop B fuel h tail) db
  unfolding resolve_path_loop
  resolve_path_loop-step fuel root resolving c head tail blob found a b e = ground (arith, a, b, e)

  resolve_path_loop-look_up :
      (names : List Bytes) (entries : Entries) (fuel : ℕ)
      → All IsName names
      → HasDirectory B sha256 I db entries
      → length (path_text names) ≤ fuel
      → resolve_path_loop B (suc fuel) (sha256 (directory_blob sha256 entries)) (path_text names) db
        ≡ (ok (look_up sha256 names entries), db)
  resolve_path_loop-look_up [] entries fuel v h f = unfold resolve_path_loop split_path find in refl
  resolve_path_loop-look_up ([] ∷ names) entries fuel v h f = absurd (omega (arith, v.0.0))
  resolve_path_loop-look_up ((c ∷ name) ∷ names) entries zero (v, vs) h f =
      absurd (omega (arith, f, path_text-some (c ∷ name) names v))
  resolve_path_loop-look_up ((c ∷ name) ∷ names) entries (suc fuel) (v, vs) (held, clean, inner) f =
      resolve_path_loop-step (suc fuel) _ (path_text ((c ∷ name) ∷ names)) c name (path_text names)
        (directory_blob sha256 entries) (found_child sha256 (c ∷ name) (child (c ∷ name) entries))
        (split_path-path_text (c ∷ name) names v)
        (I.load_blob-held db (directory_blob sha256 entries) ready held)
        (find_entry-entries (entries_of sha256 entries) (c ∷ name) clean
          ∙ ap ok (first_named-entries_of sha256 (c ∷ name) entries))
      ∙ elim (Option-cases (child (c ∷ name) entries)) [
        | inl missing ↦ rw missing refl
        | inr (file d size, e) ↦ rw e (at_file d size names vs)
        | inr (folder below, e) ↦ rw e (
            resolve_path_loop-look_up names below fuel vs
              (child-HasDirectory (c ∷ name) entries below inner e)
              (omega (arith, f, longer (c ∷ name) names v)))
      ]
    where
      at_file :
          (d : Sha256HashCode) (size : ℕ) (names : List Bytes)
          → All IsName names
          → resolve_entry B
              (some (entry_of sha256 (c ∷ name) (file d size)))
              (path_text names)
              (λ (h : Sha256HashCode). resolve_path_loop B (suc fuel) h (path_text names))
              db
            ≡ (ok (visit names (look_up sha256 names) (some (file d size))), db)
      at_file d size [] vs = refl
      at_file d size (n ∷ names) vs =
          below_file d size (c ∷ name) (path_text (n ∷ names))
            (λ (h : Sha256HashCode) (t : Bytes). resolve_path_loop B (suc fuel) h t)
            (path_text-some n names vs.0)

  -- From the digest of a stored tree of directories, a path of names, written with a slash between
  -- each two, resolves to what the tree has there: a directory, a file where the path ends with it, and
  -- nothing where a name is missing or a file is in the middle. The database stays as it is.
  pub resolve_path-look_up :
      (names : List Bytes) (entries : Entries)
      → All IsName names
      → HasDirectory B sha256 I db entries
      → resolve_path B (sha256 (directory_blob sha256 entries)) (path_text names) db
        ≡ (ok (look_up sha256 names entries), db)
  unfolding resolve_path
  resolve_path-look_up names entries v h =
      resolve_path_loop-look_up names entries (length (path_text names)) v h (omega arith)
