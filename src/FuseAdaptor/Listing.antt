-- ===== src/FuseAdaptor/Listing.antt =====
-- What `adaptor_readdir` passes on of a directory's blob.
use dogbox.Base.{ℕ, zero, suc, ◌≤◌, ◌≡◌, refl, sym, ap, ◌∙◌, some, List, [], ◌∷◌, ◌++◌, arith}
use dogbox.Base.{append-nil, append_assoc, length, length-append, All, Bytes, ok}
use dogbox.Base.Int.{pos}
use dogbox.HashCode.{Sha256HashCode}
use dogbox.BlobStorage.Interface.{BlobStore, IsBlobStore}
use dogbox.Trees.Directory.{DecodedEntry, decode_entry}
use dogbox.Trees.Directory.RoundTrip.{decode-entry_bytes}
use dogbox.Trees.Directory.Format.{IsEntry, entry_bytes}
use dogbox.Trees.DirectoryTree.{directory_bytes}
use dogbox.FuseAdaptor.StatValues.{values_of}
use dogbox.Trees.Directory.{EntryType, regular_file, directory}
use dogbox.FuseAdaptor.Attributes.{
  stat_of, directory_entry_to_stat, Stat, UserData, filled, readdir_loop, read_directory,
}

-- The calls of the filler that are expected for the entries of a directory.
abbrev pub listed : List DecodedEntry → List (Bytes × Stat)
listed [] = []
listed (e ∷ entries) = (e.name, values_of e.type e.regular_file_size) ∷ listed entries

filled-eq : (e : DecodedEntry) → filled e ≡ (e.name, values_of e.type e.regular_file_size)
unfolding filled directory_entry_to_stat
filled-eq e = ap (λ (s : Stat). (e.name, s)) (by_type e.type e.regular_file_size)
  where
    by_type : (type : EntryType) (size : ℕ) → stat_of type size ≡ values_of type size
    by_type regular_file size = refl
    by_type directory size = refl

readdir_loop-step :
    (fuel b : ℕ) (cursor cursor' : Bytes) (calls : List (Bytes × Stat)) (e : DecodedEntry)
    → decode_entry (b ∷ cursor) ≡ some (e, cursor')
    → readdir_loop (suc fuel) (b ∷ cursor) calls
      ≡ readdir_loop fuel cursor' (calls ++ (e.name, values_of e.type e.regular_file_size) ∷ [])
unfolding readdir_loop
readdir_loop-step fuel b cursor cursor' calls e q = rw (sym (filled-eq e)) (ground (arith, q))

readdir_loop-entries :
    (fuel : ℕ) (entries : List DecodedEntry) (calls : List (Bytes × Stat))
    → All IsEntry entries
    → length (directory_bytes entries) ≤ fuel
    → readdir_loop fuel (directory_bytes entries) calls ≡ ok (calls ++ listed entries)
readdir_loop-entries fuel [] calls v f = unfold readdir_loop in ap ok (sym (append-nil calls))
readdir_loop-entries zero (e ∷ entries) calls v f = absurd (omega (arith, f))
readdir_loop-entries (suc fuel) (e ∷ entries) calls (v, vs) f =
    readdir_loop-step fuel _ _ (directory_bytes entries) calls e
      (decode-entry_bytes e (directory_bytes entries) v)
    ∙ readdir_loop-entries fuel entries
        (calls ++ (e.name, values_of e.type e.regular_file_size) ∷ []) vs
        (omega (arith, f, length-append (entry_bytes e) (directory_bytes entries)))
    ∙ ap ok
        (append_assoc calls ((e.name, values_of e.type e.regular_file_size) ∷ []) (listed entries))

-- In a store that is ready and holds the blob of a directory, whose entries the format can
-- express, the directory is listed whole: the filler is called for each entry, in order, with its
-- name and its attributes, the return code is 0, and nothing changes.
pub read_directory-entries :
    (B : BlobStore) (sha256 : Bytes → Sha256HashCode) (I : IsBlobStore B sha256)
    (entries : List DecodedEntry) (user : UserData) (db : B.Database)
    → All IsEntry entries
    → I.IsReady db
    → I.HoldsBlob db (directory_bytes entries)
    → read_directory B (sha256 (directory_bytes entries)) (user, db)
      ≡ (ok (pos 0, listed entries), (user, db))
unfolding read_directory
read_directory-entries B sha256 I entries user db v ready held =
    rw
      (
        I.load_blob-held db (directory_bytes entries) ready held,
        readdir_loop-entries (length (directory_bytes entries)) entries [] v (omega arith),
      )
      refl
