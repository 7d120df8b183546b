-- ===== src/Tests/Imports.antt =====
-- The theorems on which directories are imported alike, on files that cannot be read, and on listing.
use dogbox.Base.{ℕ, ◌+◌, ◌*◌, ◌≡◌, ◌↔◌, ◌≢◌, refl, inl, true, none, some, List, []}
use dogbox.Base.{◌∷◌, ◌==◌, if◌then◌else◌, arith, Bytes, codes, contains, bytes_eq, replicate}
use dogbox.Base.{ok, throw, to_do, ap}
use dogbox.Base.Int.{ℤ, pos}
use dogbox.Base.Action.{Action}
use dogbox.External.FileSystem.{File, FileType, Listing, end, entry, regular, directory, other}
use dogbox.External.Listings.{first}
use dogbox.HashCode.{Sha256HashCode}
use dogbox.Paths.{path_text}
use dogbox.Trees.ReadCaching.{ReadCaching}
use dogbox.Trees.RegularFile.{piece_length}
use dogbox.Trees.ParallelFor.{parallel_for, workers, Interleaving, done, next}
use dogbox.Trees.ParallelFor.Coverage.{occurrences}
use dogbox.Trees.ParallelFor.Attempts.{Achieves}
use dogbox.Trees.ParallelFor.Exceptions.{EndsFor, parallel_for-EndsFor}
use dogbox.Trees.Import
use dogbox.Trees.Import.{Parallelism}
use dogbox.Trees.Import.Unreadable.{import-unreadable}
use dogbox.Trees.ImportDirectory.{from_filesystem_directory}
use dogbox.Trees.ImportDirectory.Identity.{items_of, from_filesystem_directory-eq_iff}
use dogbox.Trees.ImportDirectory.Tree.{AreImportable}
use dogbox.FuseAdaptor.Attributes.{Stat, adaptor_readdir}
use dogbox.FuseAdaptor.Mounted.{mounted}
use dogbox.FrontEnds.Names.{names_of, is_some, IsIncreasing}
use dogbox.FrontEnds.Readdir.{hello_readdir-adaptor_readdir}
use dogbox.InMemory.{empty}
use dogbox.InMemory.Operations.{hello_readdir}
use dogbox.InMemory.Scan.{scanned}
use dogbox.Tests.World.{toy_sha256}
use dogbox.Tests.Storage.{text, fresh}
use dogbox.Tests.Files.{blobs, text_file, text_file-HasContent}
use dogbox.Tests.Fuse.{tree_blobs-IsBlobStore, no_collision, inner-IsStorable, text-Listed}
use dogbox.Tests.Directories.{
  listing, text_stream, fresh-IsReady, listing-AreImportable, listing-Fits, listing-AreScannable,
}

-- The same directory without the symbolic link.
abbrev plain : Listing
plain = entry (codes "d") (directory (entry (codes "f") (regular text_file text_stream) end)) end

plain-AreImportable :
    AreImportable blobs toy_sha256 tree_blobs-IsBlobStore
      (λ path. [])
      1
      Parallelism.none
      (codes "copy")
      plain
unfolding tree_blobs-IsBlobStore workers Import.concurrency_for replicate
plain-AreImportable = (
  (
    ((λ e. absurd (omega (arith, e))), tt),
    inner-IsStorable,
    (
      (
        ((λ e. absurd (omega (arith, e))), tt),
        record {
          readable = text_file-HasContent;
          piece-Fits = λ i h. absurd (omega (arith, h));
          index-Fits = text-Listed;
        },
        omega arith,
        done tt,
      ),
      tt,
    ),
  ),
  tt,
)

fitting_no_collision :
    (a b : Bytes)
    → tree_blobs-IsBlobStore.Fits a
    → tree_blobs-IsBlobStore.Fits b
    → toy_sha256 a ≡ toy_sha256 b
    → a ≡ b
unfolding tree_blobs-IsBlobStore
fitting_no_collision a b v w e = no_collision a b v.known w.known e

from_filesystem_directory-eq_iff_example :
    ((from_filesystem_directory blobs (λ path. []) 4 Parallelism.full [] listing fresh).0
      ≡ (from_filesystem_directory blobs
          (λ path. [])
          1
          Parallelism.none
          (codes "copy")
          plain
          fresh).0)
    ↔ (items_of listing ≡ items_of plain)
from_filesystem_directory-eq_iff_example =
    from_filesystem_directory-eq_iff blobs toy_sha256 tree_blobs-IsBlobStore fitting_no_collision
      (λ path. []) (λ path. []) 4 1 Parallelism.full Parallelism.none [] (codes "copy") listing
      plain fresh fresh (omega arith) (omega arith) fresh-IsReady fresh-IsReady
      listing-AreImportable plain-AreImportable listing-Fits listing-Fits

hello_readdir-adaptor_readdir_example :
    (imported : Sha256HashCode) × (db' : blobs.Database) × (calls : List (Bytes × Stat))
    × (shown : List Bytes) × (from_filesystem_directory blobs
          (λ path. [])
          4
          Parallelism.full
          []
          listing
          fresh
        ≡ (ok imported, db'))
    × (adaptor_readdir blobs
          (b'/' ∷ path_text (codes "d" ∷ []))
          (mounted imported ReadCaching.one_piece, db')
        ≡ (ok (pos 0, calls), (mounted imported ReadCaching.one_piece, db')))
    × (hello_readdir listing (b'/' ∷ path_text (codes "d" ∷ [])) none
        ≡ (ok (pos 0, codes "." ∷ codes ".." ∷ shown), some (scanned listing empty)))
    × IsIncreasing shown
    × ((name : Bytes)
        → (contains name shown ≡ contains name (names_of calls))
          × (contains name shown
              ≡ is_some (
                  first name (
                    entry
                      (codes "l")
                      (other FileType.not_found)
                      (entry (codes "f") (regular text_file text_stream) end)))))
unfolding bytes_eq
hello_readdir-adaptor_readdir_example =
    hello_readdir-adaptor_readdir blobs toy_sha256 tree_blobs-IsBlobStore (λ path. []) 4
      Parallelism.full [] listing fresh (omega arith) fresh-IsReady listing-AreImportable
      listing-Fits listing-AreScannable listing none refl ReadCaching.one_piece (codes "d" ∷ [])
      (entry (codes "l") (other FileType.not_found)
        (entry (codes "f") (regular text_file text_stream) end))
      ((omega arith, ((λ e. absurd (omega (arith, e))), tt)), tt) refl

-- The action at 1 throws, and the others note their index.
abbrev noting : ℕ → Action (List ℕ) Unit
noting k notes = if k == 1 then (throw to_do, notes) else (ok tt, k ∷ notes)

noting-Achieves : Achieves noting (λ notes. Unit) (λ k notes. occurrences k notes ≢ 0)
noting-Achieves = record {
  keeps = λ k notes v. tt;
  stays = λ j k notes v d. ground arith;
  does = λ k notes v e. ground arith;
}

-- Two workers, of which the second throws at its only index.
three_in_order : Interleaving (workers 2 3) (0 ∷ 1 ∷ 2 ∷ [])
unfolding workers
three_in_order =
    next [] 0 (2 ∷ []) ((1 ∷ []) ∷ []) refl
      (next ((2 ∷ []) ∷ []) 1 [] [] refl (next [] 2 [] ([] ∷ []) refl (done (refl, (refl, tt)))))

parallel_for-EndsFor_example :
    let (result, notes) = parallel_for (0 ∷ 1 ∷ 2 ∷ []) 3 2 noting [] in
    EndsFor noting
      (λ notes. Unit)
      (λ k notes. occurrences k notes ≢ 0)
      noting-Achieves
      3
      result
      notes
parallel_for-EndsFor_example =
    parallel_for-EndsFor noting (λ notes. Unit) (λ k notes. occurrences k notes ≢ 0) noting-Achieves
      3 2 [] (omega arith) three_in_order tt

-- The first worker goes on.
parallel_for-noting : parallel_for (0 ∷ 1 ∷ 2 ∷ []) 3 2 noting [] ≡ (throw to_do, 2 ∷ 0 ∷ [])
unfolding parallel_for
parallel_for-noting = refl

-- A file that was cut off to four bytes, behind the call that returned its size.
abbrev cut_off : File
cut_off = record {
  opens = true;
  seek_end = pos (piece_length + 4);
  seek_set = pos 0;
  pread = λ offset count. (pos 4, text);
}

one_piece : Interleaving (workers (Import.concurrency_for Parallelism.full 4 1) 1) (0 ∷ [])
unfolding workers Import.concurrency_for
one_piece = next [] 0 [] [] refl (done (refl, tt))

cut_off-fits :
    (k : ℕ) (bytes : Bytes)
    → cut_off.pread (k * piece_length) piece_length ≡ (pos piece_length, bytes)
    → tree_blobs-IsBlobStore.Fits bytes
cut_off-fits k bytes e =
    let sizes : pos 4 ≡ pos piece_length = ap (λ (r : ℤ × Bytes). r.0) e in
    absurd (ground (arith, sizes))

cut_off-read : (cut_off.pread (0 * piece_length) piece_length).0 ≢ pos piece_length
cut_off-read sizes = absurd (ground (arith, sizes))

import-unreadable_example :
    (db' : blobs.Database) × (Import.from_filesystem_regular_file blobs
        (0 ∷ [])
        4
        cut_off
        Parallelism.full
        fresh
      ≡ (throw to_do, db'))
    × tree_blobs-IsBlobStore.IsReady db'
    × ((other : Bytes)
        → tree_blobs-IsBlobStore.HoldsBlob fresh other
        → tree_blobs-IsBlobStore.HoldsBlob db' other)
import-unreadable_example =
    import-unreadable blobs toy_sha256 tree_blobs-IsBlobStore cut_off cut_off-fits fresh 4
      Parallelism.full (piece_length + 4) refl refl refl (omega arith) fresh-IsReady one_piece
      (inl (0, omega arith, cut_off-read))
