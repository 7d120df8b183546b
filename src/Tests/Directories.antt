-- ===== src/Tests/Directories.antt =====
-- The theorems on a directory of the file system: /d/f is a text, and /d/l a symbolic link to nothing.
use dogbox.Base.{ℕ, ◌≡◌, refl, true, Option, none, some}
use dogbox.Base.{[], ◌∷◌, ◌++◌, arith, length, take, drop, Bytes, codes, bytes_eq, replicate, ok}
use dogbox.Base.Int.{ℤ, pos}
use dogbox.External.FileSystem.{Stream, FileType, Listing, end, entry, regular, directory, other}
use dogbox.External.Listings.{first, content_at, AreScannable}
use dogbox.HashCode.{Sha256HashCode}
use dogbox.Paths.{path_text}
use dogbox.Trees.DirectoryTree.{directory_blob, HasDirectory}
use dogbox.Trees.ReadCaching.{ReadCaching}
use dogbox.Trees.ParallelFor.{workers, done}
use dogbox.Trees.Import
use dogbox.Trees.Import.{Parallelism}
use dogbox.Trees.ImportDirectory.{from_filesystem_directory}
use dogbox.Trees.ImportDirectory.Tree.{tree_of, AreImportable, HoldsFiles, Keeps}
use dogbox.Trees.ImportDirectory.Stored.{from_filesystem_directory-HasDirectory}
use dogbox.FuseAdaptor.Attributes.{UserData}
use dogbox.FuseAdaptor.Files.{adaptor_open, adaptor_read}
use dogbox.FuseAdaptor.Mounted.{mounted, adaptor_read-from_filesystem_directory}
use dogbox.InMemory.{Entries, empty, find, scan_directory}
use dogbox.InMemory
use dogbox.InMemory.Map.{IsMap}
use dogbox.InMemory.{directory_eq}
use dogbox.InMemory.Equality.{directory_eq_iff}
use dogbox.InMemory.Order.{Reordered, inside, swapped, scan_directory-Reordered}
use dogbox.Base.{◌↔◌, true, ap, get_or}
use dogbox.InMemory.Scan.{scanned, element_of, scan_directory-IsMap}
use dogbox.InMemory.Operations.{getattr_impl, hello_open, hello_read}
use dogbox.InMemory.Operations.Lookup.{getattr_impl-below_file}
use dogbox.FrontEnds.{hello_read-adaptor_read}
use dogbox.Tests.World.{table_sqlite-IsSqlite, toy_sha256}
use dogbox.Tests.Storage.{text, fresh}
use dogbox.Tests.Files.{blobs, text_file, text_file-HasContent}
use dogbox.Tests.Fuse.{
  root, tree_blobs-IsBlobStore, root-IsStorable, inner-IsStorable, text-Listed, names, names-IsName,
}

abbrev pub text_stream : Stream
text_stream = record {
  opens = true;
  at_beginning = pos 0;
  at_end = pos 4;
  read = λ n. (true, take n text);
}

abbrev pub listing : Listing
listing =
    entry (codes "d")
      (directory (
        entry (codes "l") (other FileType.not_found)
          (entry (codes "f") (regular text_file text_stream) end)))
      end

same_tree : tree_of toy_sha256 listing ≡ root
same_tree = refl

pub fresh-IsReady : tree_blobs-IsBlobStore.IsReady fresh
unfolding tree_blobs-IsBlobStore table_sqlite-IsSqlite
fresh-IsReady = record { table = refl; rows = λ key r e. absurd (cc) }

pub listing-AreImportable :
    AreImportable blobs toy_sha256 tree_blobs-IsBlobStore (λ path. []) 4 Parallelism.full [] listing
unfolding tree_blobs-IsBlobStore workers Import.concurrency_for replicate
listing-AreImportable = (
  (
    ((λ e. absurd (omega (arith, e))), tt),
    inner-IsStorable,
    (
      (
        ((λ e. absurd (omega (arith, e))), tt),
        record {
          readable = text_file-HasContent;
          piece-Fits = λ i h. absurd (omega (arith, h));
          index-Fits = text-Listed;
        },
        omega arith,
        done tt,
      ),
      tt,
    ),
  ),
  tt,
)

pub listing-Fits :
    tree_blobs-IsBlobStore.Fits (directory_blob toy_sha256 (tree_of toy_sha256 listing))
unfolding tree_blobs-IsBlobStore
listing-Fits = root-IsStorable

pub listing-AreScannable : AreScannable listing
listing-AreScannable =
    ((record { opens = refl; at_beginning = refl; at_end = refl; read = refl }, tt), tt)

pub found_text : content_at names listing ≡ some text
unfolding bytes_eq
found_text = refl

from_filesystem_directory-HasDirectory_example :
    (db' : blobs.Database) × (from_filesystem_directory blobs
        (λ path. [])
        4
        Parallelism.full
        []
        listing
        fresh
      ≡ (ok (toy_sha256 (directory_blob toy_sha256 (tree_of toy_sha256 listing))), db'))
    × tree_blobs-IsBlobStore.IsReady db'
    × HasDirectory blobs toy_sha256 tree_blobs-IsBlobStore db' (tree_of toy_sha256 listing)
    × HoldsFiles blobs toy_sha256 tree_blobs-IsBlobStore db' listing
    × Keeps blobs toy_sha256 tree_blobs-IsBlobStore fresh db'
from_filesystem_directory-HasDirectory_example =
    from_filesystem_directory-HasDirectory blobs toy_sha256 tree_blobs-IsBlobStore (λ path. []) 4
      Parallelism.full [] listing fresh (omega arith) fresh-IsReady listing-AreImportable
      listing-Fits

adaptor_read-from_filesystem_directory_example :
    let window = take 9 (drop 2 text) in
    (imported : Sha256HashCode) × (db' : blobs.Database) × (fh : ℕ) × (user user' : UserData)
    × (from_filesystem_directory blobs (λ path. []) 4 Parallelism.full [] listing fresh
        ≡ (ok imported, db'))
    × (adaptor_open blobs (b'/' ∷ path_text names) (mounted imported ReadCaching.none, db')
        ≡ (ok (pos 0, some fh), (user, db')))
    × (adaptor_read blobs 9 (pos 2) fh (user, db')
        ≡ (ok (pos (length window), window), (user', db')))
adaptor_read-from_filesystem_directory_example =
    adaptor_read-from_filesystem_directory blobs toy_sha256 tree_blobs-IsBlobStore (λ path. []) 4
      Parallelism.full [] listing fresh (omega arith) fresh-IsReady listing-AreImportable
      listing-Fits ReadCaching.none b'/' names text 9 2 names-IsName found_text (omega arith)
      (omega arith) (omega arith)

scan_directory-IsMap_example :
    (entries : Entries) × (scan_directory listing ≡ ok entries)
    × IsMap entries
    × ((name : Bytes) → find name entries ≡ element_of (first name listing))
scan_directory-IsMap_example = scan_directory-IsMap listing listing-AreScannable

-- /d/f/x
getattr_impl-below_file_example :
    getattr_impl (codes "d/f" ++ b'/' ∷ codes "x") (scanned listing empty)
    ≡ ok (some (record { st_mode = 0x8124; st_nlink = 1; st_size = pos 4 }))
getattr_impl-below_file_example =
    getattr_impl-below_file names listing (codes "x") text names-IsName found_text

abbrev one_file : Entries
one_file = InMemory.element (codes "f") (InMemory.regular_file text) empty

hello_read-adaptor_read_example :
    (imported : Sha256HashCode) × (db' : blobs.Database) × (fh : ℕ) × (handle : Option Bytes)
    × (user user' : UserData) × (result : ℤ × Bytes) × (from_filesystem_directory blobs
          (λ path. [])
          4
          Parallelism.full
          []
          listing
          fresh
        ≡ (ok imported, db'))
    × (adaptor_open blobs (b'/' ∷ path_text names) (mounted imported ReadCaching.none, db')
        ≡ (ok (pos 0, some fh), (user, db')))
    × (hello_open listing (b'/' ∷ path_text names) 0 none
        ≡ (ok (pos 0, handle), some (scanned listing empty)))
    × (adaptor_read blobs 9 (pos 2) fh (user, db') ≡ (ok result, (user', db')))
    × (hello_read handle 9 (pos 2) ≡ ok result)
hello_read-adaptor_read_example =
    hello_read-adaptor_read blobs toy_sha256 tree_blobs-IsBlobStore (λ path. []) 4 Parallelism.full
      [] listing fresh (omega arith) fresh-IsReady listing-AreImportable listing-Fits
      listing-AreScannable listing none refl ReadCaching.none 0 names text 9 2 refl names-IsName
      found_text (omega arith) (omega arith) (omega arith)

-- The same directory, of which the iterator comes across the file first.
abbrev reordered : Listing
reordered =
    entry (codes "d")
      (directory (
        entry (codes "f") (regular text_file text_stream)
          (entry (codes "l") (other FileType.not_found) end)))
      end

listing-Reordered : Reordered listing reordered
listing-Reordered =
    inside (codes "d")
      (entry (codes "l") (other FileType.not_found)
        (entry (codes "f") (regular text_file text_stream) end))
      (entry (codes "f") (regular text_file text_stream)
        (entry (codes "l") (other FileType.not_found) end))
      end
      (swapped (codes "l") (codes "f") (other FileType.not_found) (regular text_file text_stream)
        end
        (λ e.
          let first_byte : 108 ≡ 102 = ap (λ (t : Bytes). get_or t 0 0) e in
          absurd (omega (arith, first_byte)))
        refl refl)
      refl refl

scan_directory-Reordered_example : scan_directory listing ≡ scan_directory reordered
scan_directory-Reordered_example =
    scan_directory-Reordered listing reordered listing-Reordered listing-AreScannable
      listing-AreScannable

directory_eq_iff_example : (directory_eq one_file one_file ≡ true) ↔ (one_file ≡ one_file)
directory_eq_iff_example = directory_eq_iff one_file one_file
