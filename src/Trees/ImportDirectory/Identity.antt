-- ===== src/Trees/ImportDirectory/Identity.antt =====
-- Which directories are imported under the same digest.
use dogbox.Base.{ℕ, ◌≤◌, ◌≡◌, ◌↔◌, refl, sym, ap, ◌∙◌, List, [], ◌∷◌, length, All, Bytes}
use dogbox.Base.{Result, ok, Option, some}
use dogbox.External.FileSystem.{File, content_of, Listing, end, entry, regular, directory, other}
use dogbox.HashCode.{Sha256HashCode}
use dogbox.BlobStorage.Interface.{BlobStore, IsBlobStore}
use dogbox.Trees.Directory.{DecodedEntry, decode_entry}
use dogbox.Trees.Directory.Format.{IsEntry}
use dogbox.Trees.Directory.RoundTrip.{decode-entry_bytes}
use dogbox.Trees.DirectoryTree.{directory_bytes, directory_blob, entry_of, entries_of}
use dogbox.Trees.DirectoryTree
use dogbox.Trees.RegularFileIndex.Load.{index_bytes}
use dogbox.Trees.Import.{Parallelism}
use dogbox.Trees.Import.Stored.{IsImportable}
use dogbox.Trees.ImportDirectory.{entry_path, from_filesystem_directory}
use dogbox.Trees.ImportDirectory.Tree.{tree_of, AreImportable, entries_of-IsEntry}
use dogbox.Trees.ImportDirectory.Stored.{from_filesystem_directory-HasDirectory}
use dogbox.Trees.ImportDirectory.SameIndex.{ok-injective, eq_of_index_bytes}

-- What a directory holds, in the order of its iterator: names, contents of files, subdirectories.
mutual
  pub data Item : Type 0 where
    file : Bytes → Item
    folder : Items → Item

  pub data Items : Type 0 where
    nothing : Items
    item : Bytes → Item → Items → Items

abbrev pub items_of : Listing → Items
items_of end = nothing
items_of (entry name (regular f stream) i) = item name (file (content_of f)) (items_of i)
items_of (entry name (directory inner) i) = item name (folder (items_of inner)) (items_of i)
items_of (entry name (other type) i) = items_of i

-- The tree is one of what the directory holds.
abbrev tree_of_items : (Bytes → Sha256HashCode) → Items → DirectoryTree.Entries
tree_of_items sha256 nothing = DirectoryTree.nothing
tree_of_items sha256 (item name (file content) i) =
    DirectoryTree.entry name
      (DirectoryTree.file (sha256 (index_bytes sha256 content)) (length content))
      (tree_of_items sha256 i)
tree_of_items sha256 (item name (folder inner) i) =
    DirectoryTree.entry name (DirectoryTree.folder (tree_of_items sha256 inner))
      (tree_of_items sha256 i)

tree_of-items_of :
    (sha256 : Bytes → Sha256HashCode) (listing : Listing)
    → tree_of sha256 listing ≡ tree_of_items sha256 (items_of listing)
tree_of-items_of sha256 end = refl
tree_of-items_of sha256 (entry name (regular f stream) i) = cc (tree_of-items_of sha256 i)
tree_of-items_of sha256 (entry name (directory inner) i) =
    cc (tree_of-items_of sha256 i, tree_of-items_of sha256 inner)
tree_of-items_of sha256 (entry name (other type) i) = tree_of-items_of sha256 i

cons-injective :
    (e e' : DecodedEntry) (es es' : List DecodedEntry) → e ∷ es ≡ e' ∷ es' → (e ≡ e') × (es ≡ es')
cons-injective e e' es es' same = (cc, cc)

-- The bytes of a directory tell its entries.
directory_bytes-injective :
    (es es' : List DecodedEntry)
    → All IsEntry es
    → All IsEntry es'
    → directory_bytes es ≡ directory_bytes es'
    → es ≡ es'
directory_bytes-injective [] [] v v' e = refl
directory_bytes-injective [] (e' ∷ es') v v' e = absurd (cc)
directory_bytes-injective (e ∷ es) [] v v' same = absurd (cc)
directory_bytes-injective (e ∷ es) (e' ∷ es') (v, vs) (v', vs') same =
    let decoded : ◌≡◌ {A = Option (DecodedEntry × Bytes)} (some (e, directory_bytes es))
        (some (e', directory_bytes es')) =
      sym (decode-entry_bytes e (directory_bytes es) v)
      ∙ ap decode_entry same
      ∙ decode-entry_bytes e' (directory_bytes es') v' in
    let rest : directory_bytes es ≡ directory_bytes es' = cc in
    cc (decoded, directory_bytes-injective es es' vs vs' rest)

module _ (B : BlobStore) (sha256 : Bytes → Sha256HashCode) (I : IsBlobStore B sha256)
    (no_collision : (a b : Bytes) → I.Fits a → I.Fits b → sha256 a ≡ sha256 b → a ≡ b) where
  -- Files with the same entry have the same content.
  file-same :
      (f f' : File)
      → IsImportable B sha256 I f (content_of f)
      → IsImportable B sha256 I f' (content_of f')
      → sha256 (index_bytes sha256 (content_of f)) ≡ sha256 (index_bytes sha256 (content_of f'))
      → length (content_of f) ≡ length (content_of f')
      → content_of f ≡ content_of f'
  file-same f f' v v' hash size =
      eq_of_index_bytes sha256 I.Fits no_collision (content_of f) (content_of f')
        I.sha256-IsHashCode v.piece-Fits v'.piece-Fits size
        (no_collision (index_bytes sha256 (content_of f)) (index_bytes sha256 (content_of f'))
          v.index-Fits v'.index-Fits hash)

  module _ (order order' : Bytes → List ℕ) (hardware_concurrency hardware_concurrency' : ℕ)
      (parallel parallel' : Parallelism) where
    abbrev Importable : Bytes → Listing → Type 0
    Importable = AreImportable B sha256 I order hardware_concurrency parallel

    abbrev Importable' : Bytes → Listing → Type 0
    Importable' = AreImportable B sha256 I order' hardware_concurrency' parallel'

    abbrev entries : Listing → List DecodedEntry
    entries listing = entries_of sha256 (tree_of sha256 listing)

    items_of-injective :
        (root root' : Bytes) (l l' : Listing)
        → Importable root l
        → Importable' root' l'
        → entries l ≡ entries l'
        → items_of l ≡ items_of l'
    items_of-injective root root' (entry name (other type) i) l' v v' e =
        items_of-injective root root' i l' v v' e
    items_of-injective root root' end (entry name' (other type) i') v v' e =
        items_of-injective root root' end i' v v' e
    items_of-injective root root' end end v v' e = refl
    items_of-injective root root' end (entry name' (regular f' s') i') v v' e = absurd (cc)
    items_of-injective root root' end (entry name' (directory inner') i') v v' e = absurd (cc)
    items_of-injective root root' (entry name (regular f s) i) end v v' e = absurd (cc)
    items_of-injective root root' (entry name (regular f s) i) (entry name' (other type) i') v v'
          e =
        items_of-injective root root' (entry name (regular f s) i) i' v v' e
    items_of-injective root root' (entry name (regular f s) i) (entry name' (regular f' s') i') v v'
          e =
        let (own, rest) = cons-injective _ _ (entries i) (entries i') e in
        let content =
          file-same f f' v.0.1 v'.0.1 (ap (λ (d : DecodedEntry). d.hash_code) own)
            (ap (λ (d : DecodedEntry). d.regular_file_size) own) in
        cc (
          ap (λ (d : DecodedEntry). d.name) own,
          content,
          items_of-injective root root' i i' v.1 v'.1 rest,
        )
    items_of-injective root root' (entry name (regular f s) i) (entry name' (directory inner') i') v
          v' e =
        let (own, rest) = cons-injective _ _ (entries i) (entries i') e in
        let type = ap (λ (d : DecodedEntry). d.type) own in absurd (cc)
    items_of-injective root root' (entry name (directory inner) i) end v v' e = absurd (cc)
    items_of-injective root root' (entry name (directory inner) i) (entry name' (other type) i') v
          v' e =
        items_of-injective root root' (entry name (directory inner) i) i' v v' e
    items_of-injective root root' (entry name (directory inner) i) (entry name' (regular f' s') i')
          v v' e =
        let (own, rest) = cons-injective _ _ (entries i) (entries i') e in
        let type = ap (λ (d : DecodedEntry). d.type) own in absurd (cc)
    items_of-injective root root' (entry name (directory inner) i)
          (entry name' (directory inner') i') v v' e =
        let (own, rest) = cons-injective _ _ (entries i) (entries i') e in
        let blob =
          no_collision (directory_blob sha256 (tree_of sha256 inner))
            (directory_blob sha256 (tree_of sha256 inner')) v.0.1 v'.0.1
            (ap (λ (d : DecodedEntry). d.hash_code) own) in
        let inside =
          directory_bytes-injective (entries inner) (entries inner')
            (entries_of-IsEntry B sha256 I order hardware_concurrency parallel
              (entry_path root name) inner v.0.2)
            (entries_of-IsEntry B sha256 I order' hardware_concurrency' parallel'
              (entry_path root' name') inner' v'.0.2)
            blob in
        let below =
          items_of-injective (entry_path root name) (entry_path root' name') inner inner' v.0.2
            v'.0.2 inside in
        cc (
          ap (λ (d : DecodedEntry). d.name) own,
          below,
          items_of-injective root root' i i' v.1 v'.1 rest,
        )

    -- Two directories, whose files can be imported and whose directories' blobs fit, are imported,
    -- each into a store that is ready, with at least one hardware thread and in any orders of the
    -- files' pieces. Where no two blobs that fit have the same digest, the two imports return the same
    -- exactly when the directories hold the same: the same names in the iterator's order, with the same
    -- contents of files and, at any depth, of directories. Neither the orders, nor the parallelism, nor
    -- what the stores held before, nor what is no file and no directory makes a difference.
    pub from_filesystem_directory-eq_iff :
        (root root' : Bytes) (listing listing' : Listing) (db db' : B.Database)
        → 1 ≤ hardware_concurrency
        → 1 ≤ hardware_concurrency'
        → I.IsReady db
        → I.IsReady db'
        → Importable root listing
        → Importable' root' listing'
        → I.Fits (directory_blob sha256 (tree_of sha256 listing))
        → I.Fits (directory_blob sha256 (tree_of sha256 listing'))
        → ((from_filesystem_directory B order hardware_concurrency parallel root listing db).0
            ≡ (from_filesystem_directory B order' hardware_concurrency' parallel' root' listing'
                db').0)
          ↔ (items_of listing ≡ items_of listing')
    from_filesystem_directory-eq_iff root root' listing listing' db db' h h' ready ready' v v' fits
          fits' =
        let run =
          from_filesystem_directory-HasDirectory B sha256 I order hardware_concurrency parallel root
            listing db h ready v fits in
        let run' =
          from_filesystem_directory-HasDirectory B sha256 I order' hardware_concurrency' parallel'
            root' listing' db' h' ready' v' fits' in
        let result = ap (λ (r : Result Sha256HashCode × B.Database). r.0) run.1 in
        let result' = ap (λ (r : Result Sha256HashCode × B.Database). r.0) run'.1 in
        (
          λ same. items_of-injective root root' listing listing' v v' (
              directory_bytes-injective (entries listing) (entries listing')
                (entries_of-IsEntry B sha256 I order hardware_concurrency parallel root listing v)
                (entries_of-IsEntry B sha256 I order' hardware_concurrency' parallel' root' listing'
                  v')
                (no_collision _ _ fits fits' (ok-injective _ _ (sym result ∙ same ∙ result')))),
          λ same.
              result
              ∙ ap ok (
                  ap (λ (t : DirectoryTree.Entries). sha256 (directory_blob sha256 t))
                    (tree_of-items_of sha256 listing
                      ∙ ap (tree_of_items sha256) same
                      ∙ sym (tree_of-items_of sha256 listing')))
              ∙ sym result',
        )
