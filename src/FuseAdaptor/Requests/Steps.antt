-- ===== src/FuseAdaptor/Requests/Steps.antt =====
-- What one request returns and leaves.
use dogbox.Base.{
  ℕ, ◌≡◌, refl, ◌∙◌, Option, none, some, List, ◌∷◌, lt→ltb, length, set, take, drop, All, Bytes, ok,
}
use dogbox.Base.Int.{ℤ, pos}
use dogbox.HashCode.{Sha256HashCode}
use dogbox.BlobStorage.Interface.{BlobStore, IsBlobStore}
use dogbox.Paths.{path_text, IsName}
use dogbox.External.FileSystem.{Listing}
use dogbox.External.Listings.{content_at}
use dogbox.Trees.Directory.{EntryType, regular_file, directory}
use dogbox.Trees.DirectoryTree.{directory_blob, HasDirectory}
use dogbox.Trees.ImportDirectory.Tree.{tree_of, HoldsFiles}
use dogbox.Trees.ImportDirectory.Contents.{content_at-HoldsFile}
use dogbox.Trees.ReadFile.{OpenFile}
use dogbox.FuseAdaptor.{DirectoryEntry}
use dogbox.FuseAdaptor.Attributes.{UserData, UserState}
use dogbox.FuseAdaptor.Files.{
  newly_opened, take_slot, open_entry, open_resolved, adaptor_open, adaptor_release, adaptor_read,
}
use dogbox.FuseAdaptor.OpenFiles.{Opens, get_elem?-inside}
use dogbox.FuseAdaptor.Handles.{adaptor_read-window}
use dogbox.FuseAdaptor.OpenRead.{file_of, newly_opened-IsOpen, resolve_request-look_up, open-eq}
use dogbox.FuseAdaptor.Resolve.{look_up}
use dogbox.FuseAdaptor.Mounted.{look_up-content_at}
use dogbox.FuseAdaptor.Requests.{Descriptors, update, IsWindow}
use dogbox.FuseAdaptor.Requests.Slots.{
  Slots, Slots-used, Slots-take_slot, Slots-release, Slots-read,
}

open_resolved-take_slot :
    (B : BlobStore) (resolved : DirectoryEntry) (user : UserData) (db : B.Database)
    → let (fh, files) = take_slot (newly_opened resolved) user.files in
      open_resolved B resolved (user, db)
      ≡ (ok (pos 0, some fh), (record user { files = files }, db))
unfolding open_resolved
open_resolved-take_slot B resolved user db = refl

adaptor_release-Opens :
    (B : BlobStore) (fh : ℕ) (opened : OpenFile) (user : UserData) (db : B.Database)
    → Opens user.files fh opened
    → adaptor_release B fh (user, db)
      ≡ (ok (pos 0), (record user { files = set user.files fh none }, db))
unfolding adaptor_release
adaptor_release-Opens B fh opened user db h =
    rw (lt→ltb fh (length user.files) (get_elem?-inside user.files fh (some opened) h)) refl

open_typed-none :
    (B : BlobStore) (type : EntryType) (hash_code : Sha256HashCode) (size : ℕ) (code : ℤ)
    (state state' : UserState B)
    → open_entry B
        (some (record { type = type; hash_code = hash_code; regular_file_size = size }))
        state
      ≡ (ok (code, none), state')
    → state' ≡ state
unfolding open_resolved
open_typed-none B directory hash_code size code state state' e = cc
open_typed-none B regular_file hash_code size code state state' e = absurd (cc)

open_entry-none :
    (B : BlobStore) (found : Option DirectoryEntry) (code : ℤ) (state state' : UserState B)
    → open_entry B found state ≡ (ok (code, none), state')
    → state' ≡ state
open_entry-none B none code state state' e = cc
open_entry-none B (some resolved) code state state' e =
    open_typed-none B resolved.type resolved.hash_code resolved.regular_file_size code state state'
      e

module _ (B : BlobStore) (sha256 : Bytes → Sha256HashCode) (I : IsBlobStore B sha256)
    (listing : Listing) (db : B.Database) (ready : I.IsReady db)
    (stored : HasDirectory B sha256 I db (tree_of sha256 listing))
    (files : HoldsFiles B sha256 I db listing) where
  abbrev pub root : Sha256HashCode
  root = sha256 (directory_blob sha256 (tree_of sha256 listing))

  -- The states that are left, with what was returned.
  pub adaptor_open-Slots :
      (user : UserData) (descriptors : Descriptors) (slash : ℕ) (names : List Bytes)
      (content : Bytes)
      → user.root ≡ root
      → Slots B sha256 I db user.files descriptors
      → All IsName names
      → content_at names listing ≡ some content
      → (fh : ℕ) × (files' : List (Option OpenFile)) × (adaptor_open B
            (slash ∷ path_text names)
            (user, db)
          ≡ (ok (pos 0, some fh), (record user { files = files' }, db)))
        × (descriptors fh ≡ none)
        × Slots B sha256 I db files' (update descriptors fh (some content))
  adaptor_open-Slots user descriptors slash names content rooted slots named found =
      let opened = newly_opened (file_of sha256 content) in
      let (fh, files') = take_slot opened user.files in
      let (unused, slots') =
        Slots-take_slot B sha256 I db user.files descriptors opened content slots
          (newly_opened-IsOpen sha256 content)
          (content_at-HoldsFile B sha256 I db names listing content files found) in
      (
        fh,
        files',
        open-eq B sha256 I db ready (tree_of sha256 listing) stored user rooted slash names named
              content (look_up-content_at sha256 names listing content found)
            ∙ open_resolved-take_slot B (file_of sha256 content) user db,
        unused,
        slots',
      )

  pub adaptor_open-refused :
      (user : UserData) (slash : ℕ) (names : List Bytes) (code : ℤ) (state' : UserState B)
      → user.root ≡ root
      → All IsName names
      → adaptor_open B (slash ∷ path_text names) (user, db) ≡ (ok (code, none), state')
      → state' ≡ (user, db)
  unfolding adaptor_open
  adaptor_open-refused user slash names code state' rooted named e =
      let resolved =
        resolve_request-look_up B sha256 I db ready (tree_of sha256 listing) stored user rooted
          slash names named in
      open_entry-none B (look_up sha256 names (tree_of sha256 listing)) code (user, db) state'
        (rw resolved at e)

  pub adaptor_read-Slots :
      (user : UserData) (descriptors : Descriptors) (fh size offset : ℕ) (content : Bytes)
      → Slots B sha256 I db user.files descriptors
      → descriptors fh ≡ some content
      → IsWindow content size offset
      → let window = take size (drop offset content) in
        (files' : List (Option OpenFile)) × (adaptor_read B size (pos offset) fh (user, db)
          ≡ (ok (pos (length window), window), (record user { files = files' }, db)))
        × Slots B sha256 I db files' descriptors
  adaptor_read-Slots user descriptors fh size offset content slots used w =
      let (opened, at, v, held) =
        Slots-used B sha256 I db user.files descriptors fh content slots used in
      let (opened', read, v') =
        adaptor_read-window B sha256 I content db ready held.0 held.1 size fh offset user opened at
          v w.within w.below w.small in
      (
        set user.files fh (some opened'),
        read,
        Slots-read B sha256 I db user.files descriptors fh content opened opened' slots used at v'
            held,
      )

  pub adaptor_release-Slots :
      (user : UserData) (descriptors : Descriptors) (fh : ℕ) (content : Bytes)
      → Slots B sha256 I db user.files descriptors
      → descriptors fh ≡ some content
      → (files' : List (Option OpenFile)) × (adaptor_release B fh (user, db)
          ≡ (ok (pos 0), (record user { files = files' }, db)))
        × Slots B sha256 I db files' (update descriptors fh none)
  adaptor_release-Slots user descriptors fh content slots used =
      let (opened, at, _, _) =
        Slots-used B sha256 I db user.files descriptors fh content slots used in
      (
        set user.files fh none,
        adaptor_release-Opens B fh opened user db at,
        Slots-release B sha256 I db user.files descriptors fh opened slots at,
      )
