-- ===== src/Tests/Requests.antt =====
-- The theorems on sequences of requests: the file /d/f is opened and read in part.
use dogbox.Base.{ℕ, ◌≡◌, refl, none, some, ◌∷◌, arith, length, take, drop, ok}
use dogbox.Base.Int.{pos}
use dogbox.Paths.{path_text}
use dogbox.Trees.ReadCaching.{ReadCaching}
use dogbox.Trees.ImportDirectory.Tree.{HoldsFiles}
use dogbox.FuseAdaptor.Attributes.{UserState}
use dogbox.FuseAdaptor.Files.{adaptor_open, adaptor_release, adaptor_read}
use dogbox.FuseAdaptor.Mounted.{mounted}
use dogbox.FuseAdaptor.Requests.{Descriptors, update, Requests, start, open_request}
use dogbox.FuseAdaptor.Requests.Serving.{adaptor_open-Requests, adaptor_read-Requests}
use dogbox.Tests.World.{toy_sha256}
use dogbox.Tests.Storage.{text}
use dogbox.Tests.Files.{blobs}
use dogbox.Tests.Fuse.{root_blob, tree_stored, tree-IsReady, root-HasDirectory, text-HoldsBlob}
use dogbox.Tests.Fuse.{tree_blobs-IsBlobStore, names, names-IsName}
use dogbox.Tests.Directories.{listing, found_text}

abbrev first : UserState blobs
first = (mounted (toy_sha256 root_blob) ReadCaching.one_piece, tree_stored)

listing-HoldsFiles : HoldsFiles blobs toy_sha256 tree_blobs-IsBlobStore tree_stored listing
listing-HoldsFiles = (((λ i h. absurd (omega (arith, h)), text-HoldsBlob), tt), tt)

abbrev unused : Descriptors
unused fh = none

adaptor_open-Requests_example :
    (fh : ℕ) × (state' : UserState blobs) × (adaptor_open blobs (b'/' ∷ path_text names) first
      ≡ (ok (pos 0, some fh), state'))
    × (unused fh ≡ none)
adaptor_open-Requests_example =
    adaptor_open-Requests blobs toy_sha256 tree_blobs-IsBlobStore listing tree_stored tree-IsReady
      root-HasDirectory listing-HoldsFiles ReadCaching.one_piece first unused b'/' names text
      (start refl) names-IsName found_text

abbrev opened :
    (fh : ℕ) × (state : UserState blobs) × Requests blobs listing first state
      (update unused fh (some text))
opened =
    let (fh, state, run, _) =
      adaptor_open-Requests blobs toy_sha256 tree_blobs-IsBlobStore listing tree_stored tree-IsReady
        root-HasDirectory listing-HoldsFiles ReadCaching.one_piece first unused b'/' names text
        (start refl) names-IsName found_text in
    (fh, state, open_request b'/' names text (start refl) names-IsName found_text run)

adaptor_read-Requests_example :
    let window = take 9 (drop 2 text) in
    (state' state'' : UserState blobs) × (adaptor_read blobs 9 (pos 2) opened.0 opened.1
      ≡ (ok (pos (length window), window), state'))
    × (adaptor_release blobs opened.0 opened.1 ≡ (ok (pos 0), state''))
adaptor_read-Requests_example =
    adaptor_read-Requests blobs toy_sha256 tree_blobs-IsBlobStore listing tree_stored tree-IsReady
      root-HasDirectory listing-HoldsFiles ReadCaching.one_piece opened.1
      (update unused opened.0 (some text)) opened.0 9 2 text opened.2 (ground arith)
      (record { within = omega arith; below = omega arith; small = omega arith })
