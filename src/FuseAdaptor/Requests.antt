-- ===== src/FuseAdaptor/Requests.antt =====
-- Any sequence of requests (fuse_adaptor/operations.cpp) over an imported directory.
pub mod Slots
pub mod Steps
pub mod Serving
use dogbox.Base.{
  ℕ, ◌+◌, ◌/◌, ◌^◌, ◌≤◌, ◌<◌, ◌≡◌, Option, none, some, List, ◌∷◌, ◌==◌, if◌then◌else◌, All, Bytes,
  Result, ok,
}
use dogbox.Base.Int.{ℤ, pos}
use dogbox.HashCode.{Sha256HashCode}
use dogbox.BlobStorage.Interface.{BlobStore}
use dogbox.Paths.{path_text, IsName}
use dogbox.External.FileSystem.{Listing}
use dogbox.External.Listings.{content_at}
use dogbox.Trees.RegularFile.{piece_length}
use dogbox.Trees.Pieces.{piece_count}
use dogbox.Trees.ReadCaching.{ReadCaching}
use dogbox.FuseAdaptor.Attributes.{UserState, Stat, adaptor_getattr, adaptor_readdir}
use dogbox.FuseAdaptor.Files.{adaptor_open, adaptor_release, adaptor_read}
use dogbox.FuseAdaptor.Mounted.{mounted}

-- What the kernel knows: the content of the file that each descriptor was opened for.
abbrev pub Descriptors : Type 0
Descriptors = ℕ → Option Bytes

abbrev pub update : Descriptors → ℕ → Option Bytes → Descriptors
update descriptors fh content j = if j == fh then content else descriptors j

-- A read that starts within the pieces of the file, ends below 2^64, and has a size that an `int` holds.
pub record IsWindow (content : Bytes) (size offset : ℕ) : Type 0 where
  pub within : offset / piece_length ≤ piece_count content
  pub below : offset + size < 2 ^ 64
  pub small : size < 2 ^ 31

module _ (B : BlobStore) (listing : Listing) where
  -- The states that requests lead to, from the one that is mounted, and the descriptors that were
  -- handed out and not released. What a request returns is what the operation makes of the state.
  pub data Requests (first : UserState B) : UserState B → Descriptors → Type 0 where
    start : {state : UserState B} → state ≡ first → Requests first state (λ fh. none)
    open_request :
        {state state' : UserState B} {descriptors : Descriptors} {fh : ℕ} (slash : ℕ)
        (names : List Bytes) (content : Bytes)
        → Requests first state descriptors
        → All IsName names
        → content_at names listing ≡ some content
        → adaptor_open B (slash ∷ path_text names) state ≡ (ok (pos 0, some fh), state')
        → Requests first state' (update descriptors fh (some content))
    refused_request :
        {state state' : UserState B} {descriptors : Descriptors} {code : ℤ} (slash : ℕ)
        (names : List Bytes)
        → Requests first state descriptors
        → All IsName names
        → adaptor_open B (slash ∷ path_text names) state ≡ (ok (code, none), state')
        → Requests first state' descriptors
    getattr_request :
        {state state' : UserState B} {descriptors : Descriptors} {result : Result (ℤ × Option Stat)}
        (slash : ℕ) (names : List Bytes)
        → Requests first state descriptors
        → All IsName names
        → adaptor_getattr B (slash ∷ path_text names) state ≡ (result, state')
        → Requests first state' descriptors
    readdir_request :
        {state state' : UserState B} {descriptors : Descriptors}
        {result : Result (ℤ × List (Bytes × Stat))} (slash : ℕ) (names : List Bytes)
        → Requests first state descriptors
        → All IsName names
        → adaptor_readdir B (slash ∷ path_text names) state ≡ (result, state')
        → Requests first state' descriptors
    read_request :
        {state state' : UserState B} {descriptors : Descriptors} {result : Result (ℤ × Bytes)}
        (fh size offset : ℕ) (content : Bytes)
        → Requests first state descriptors
        → descriptors fh ≡ some content
        → IsWindow content size offset
        → adaptor_read B size (pos offset) fh state ≡ (result, state')
        → Requests first state' descriptors
    release_request :
        {state state' : UserState B} {descriptors : Descriptors} {result : Result ℤ} (fh : ℕ)
        (content : Bytes)
        → Requests first state descriptors
        → descriptors fh ≡ some content
        → adaptor_release B fh state ≡ (result, state')
        → Requests first state' (update descriptors fh none)
