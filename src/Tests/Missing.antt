-- ===== src/Tests/Missing.antt =====
-- A path at which there is nothing, in both front ends.
use dogbox.Base.{◌≡◌, refl, false, none, some, List, [], ◌∷◌, arith, All, Bytes, codes}
use dogbox.Base.{bytes_eq, ok}
use dogbox.Base.Int.{pos, negsuc}
use dogbox.HashCode.{Sha256HashCode}
use dogbox.Paths.{path_text, IsName}
use dogbox.External.Listings.{below_file}
use dogbox.Trees.ReadCaching.{ReadCaching}
use dogbox.Trees.Import.{Parallelism}
use dogbox.Trees.ImportDirectory.{from_filesystem_directory}
use dogbox.FuseAdaptor.Attributes.{adaptor_getattr, enoent}
use dogbox.FuseAdaptor.Files.{adaptor_open}
use dogbox.FuseAdaptor.Mounted.{mounted}
use dogbox.InMemory.{empty}
use dogbox.InMemory.Scan.{scanned}
use dogbox.InMemory.Operations.{hello_getattr, hello_open}
use dogbox.InMemory.Operations.Lookup.{stat_at}
use dogbox.FrontEnds.{answered, hello_getattr-adaptor_getattr}
use dogbox.FrontEnds.Opening.{hello_open-adaptor_open}
use dogbox.Tests.World.{toy_sha256}
use dogbox.Tests.Storage.{fresh}
use dogbox.Tests.Files.{blobs}
use dogbox.Tests.Fuse.{tree_blobs-IsBlobStore, names}
use dogbox.Tests.Directories.{
  listing, fresh-IsReady, listing-AreImportable, listing-Fits, listing-AreScannable,
}

abbrev missing : List Bytes
missing = codes "d" ∷ codes "x" ∷ []

missing-IsName : All IsName missing
missing-IsName = (
  (omega arith, ((λ e. absurd (omega (arith, e))), tt)),
  ((omega arith, ((λ e. absurd (omega (arith, e))), tt)), tt),
)

missing-answered :
    (below_file missing listing ≡ false)
    × (answered (stat_at missing listing) ≡ (negsuc 1, none))
    × (below_file names listing ≡ false)
    × (answered (stat_at names listing)
        ≡ (pos 0, some (record { st_mode = 0x8124; st_nlink = 1; st_size = pos 4 })))
unfolding bytes_eq
missing-answered = (refl, refl, refl, refl)

hello_getattr-adaptor_getattr_example :
    (imported : Sha256HashCode) × (db' : blobs.Database) × (from_filesystem_directory blobs
        (λ path. [])
        4
        Parallelism.full
        []
        listing
        fresh
      ≡ (ok imported, db'))
    × (adaptor_getattr blobs (b'/' ∷ path_text missing) (mounted imported ReadCaching.none, db')
        ≡ (ok (negsuc 1, none), (mounted imported ReadCaching.none, db')))
    × (hello_getattr listing (b'/' ∷ path_text missing) none ≡ (
      ok (negsuc 1, record { st_mode = 0; st_nlink = 0; st_size = pos 0 }),
      some (scanned listing empty),
    ))
unfolding bytes_eq
hello_getattr-adaptor_getattr_example =
    hello_getattr-adaptor_getattr blobs toy_sha256 tree_blobs-IsBlobStore (λ path. []) 4
      Parallelism.full [] listing fresh (omega arith) fresh-IsReady listing-AreImportable
      listing-Fits listing-AreScannable listing none refl ReadCaching.none missing missing-IsName
      missing-answered.0

hello_open-adaptor_open_example :
    (imported : Sha256HashCode) × (db' : blobs.Database) × (from_filesystem_directory blobs
        (λ path. [])
        4
        Parallelism.full
        []
        listing
        fresh
      ≡ (ok imported, db'))
    × (adaptor_open blobs (b'/' ∷ path_text missing) (mounted imported ReadCaching.none, db')
        ≡ (ok (enoent, none), (mounted imported ReadCaching.none, db')))
    × (hello_open listing (b'/' ∷ path_text missing) 0 none
        ≡ (ok (enoent, none), some (scanned listing empty)))
unfolding bytes_eq
hello_open-adaptor_open_example =
    hello_open-adaptor_open blobs toy_sha256 tree_blobs-IsBlobStore (λ path. []) 4 Parallelism.full
      [] listing fresh (omega arith) fresh-IsReady listing-AreImportable listing-Fits
      listing-AreScannable listing none refl ReadCaching.none 0 (codes "d") (codes "x" ∷ []) refl
      missing-IsName refl refl
