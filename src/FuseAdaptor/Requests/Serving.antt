-- ===== src/FuseAdaptor/Requests/Serving.antt =====
-- What requests return after any others.
use dogbox.Base.{
  ℕ, inl, ◌≡◌, refl, sym, ap, ◌∙◌, Option, none, some, List, [], ◌∷◌, length, take, drop, All,
  Bytes, Result, ok,
}
use dogbox.Base.Int.{pos}
use dogbox.HashCode.{Sha256HashCode}
use dogbox.BlobStorage.Interface.{BlobStore, IsBlobStore}
use dogbox.Paths.{path_text, IsName}
use dogbox.External.FileSystem.{Listing}
use dogbox.External.Listings.{content_at}
use dogbox.Trees.DirectoryTree.{directory_blob, HasDirectory}
use dogbox.Trees.ReadCaching.{ReadCaching}
use dogbox.Trees.ImportDirectory.Tree.{tree_of, HoldsFiles}
use dogbox.Trees.ReadFile.{OpenFile}
use dogbox.FuseAdaptor.Attributes.{UserData, UserState, adaptor_getattr, adaptor_readdir}
use dogbox.FuseAdaptor.Files.{adaptor_open, adaptor_release, adaptor_read}
use dogbox.FuseAdaptor.OpenRead.{adaptor_getattr-look_up}
use dogbox.FuseAdaptor.Mounted.{mounted}
use dogbox.FuseAdaptor.Requests.{
  Descriptors, update, IsWindow, Requests, start, open_request, refused_request, getattr_request,
  readdir_request, read_request, release_request,
}
use dogbox.FuseAdaptor.Requests.Slots.{Slots}
use dogbox.FuseAdaptor.Requests.Steps.{
  adaptor_open-Slots, adaptor_open-refused, adaptor_read-Slots, adaptor_release-Slots,
}
use dogbox.FuseAdaptor.ListedPaths.{adaptor_readdir-listed_at}

module _ (B : BlobStore) (sha256 : Bytes → Sha256HashCode) (I : IsBlobStore B sha256)
    (listing : Listing) (db : B.Database) (ready : I.IsReady db)
    (stored : HasDirectory B sha256 I db (tree_of sha256 listing))
    (files : HoldsFiles B sha256 I db listing) where
  abbrev root : Sha256HashCode
  root = sha256 (directory_blob sha256 (tree_of sha256 listing))

  -- A state that requests can lead to.
  record Serves (state : UserState B) (descriptors : Descriptors) : Type 0 where
    database : state.1 ≡ db
    root : state.0.root ≡ sha256 (directory_blob sha256 (tree_of sha256 listing))
    slots : Slots B sha256 I db state.0.files descriptors

  with_files :
      (user : UserData) (files' : List (Option OpenFile)) (state' : UserState B)
      (descriptors : Descriptors)
      → state' ≡ (record user { files = files' }, db)
      → user.root ≡ root
      → Slots B sha256 I db files' descriptors
      → Serves state' descriptors
  with_files user files' state' descriptors e rooted slots = record {
    database = ap (λ (s : UserState B). s.1) e;
    root = ap (λ (s : UserState B). s.0.root) e ∙ rooted;
    slots = λ fh. rw (ap (λ (s : UserState B). s.0.files) e) (slots fh);
  }

  restored : (state : UserState B) → state.1 ≡ db → (state.0, db) ≡ state
  restored state e = ap (λ (d : B.Database). (state.0, d)) (sym e)

  -- An operation returns one result, and leaves one state.
  same_run :
      {A : Type 0} {known_result result : Result A} {known_state state' : UserState B}
      (operation : UserState B → Result A × UserState B) (state : UserState B)
      → state.1 ≡ db
      → operation (state.0, db) ≡ (known_result, known_state)
      → operation state ≡ (result, state')
      → (known_result ≡ result) × (state' ≡ known_state)
  same_run {A} operation state e known run =
      let same = sym known ∙ (ap operation (restored state e) ∙ run) in
      (
        ap (λ (r : Result A × UserState B). r.0) same,
        sym (ap (λ (r : Result A × UserState B). r.1) same),
      )

  Requests-Serves :
      (read_cache_mode : ReadCaching) (state : UserState B) (descriptors : Descriptors)
      → Requests B listing (mounted root read_cache_mode, db) state descriptors
      → Serves state descriptors
  Requests-Serves mode state descriptors (start e) =
      with_files (mounted root mode) [] state descriptors e refl (λ fh. inl refl)
  Requests-Serves mode state' _
        (open_request {state} {descriptors} {fh} slash names content r named found e) =
      let v = Requests-Serves mode state descriptors r in
      let (fh', files', known, _, slots) =
        adaptor_open-Slots B sha256 I listing db ready stored files state.0 descriptors slash names
          content v.root v.slots named found in
      let (result, after) =
        same_run (adaptor_open B (slash ∷ path_text names)) state v.database known e in
      let same : fh' ≡ fh = cc in
      with_files state.0 files' state' (update descriptors fh (some content)) after v.root
        (rw same at slots)
  Requests-Serves mode state' _
        (refused_request {state} {descriptors} {code} slash names r named e) =
      let v = Requests-Serves mode state descriptors r in
      let known = ap (adaptor_open B (slash ∷ path_text names)) (restored state v.database) ∙ e in
      with_files state.0 state.0.files state' descriptors
        (adaptor_open-refused B sha256 I listing db ready stored files state.0 slash names code
          state' v.root named known)
        v.root v.slots
  Requests-Serves mode state' _ (getattr_request {state} {descriptors} slash names r named e) =
      let v = Requests-Serves mode state descriptors r in
      let (_, after) =
        same_run (adaptor_getattr B (slash ∷ path_text names)) state v.database
          (adaptor_getattr-look_up B sha256 I db ready (tree_of sha256 listing) stored state.0
            v.root slash names named)
          e in
      with_files state.0 state.0.files state' descriptors after v.root v.slots
  Requests-Serves mode state' _ (readdir_request {state} {descriptors} slash names r named e) =
      let v = Requests-Serves mode state descriptors r in
      let (_, after) =
        same_run (adaptor_readdir B (slash ∷ path_text names)) state v.database
          (adaptor_readdir-listed_at B sha256 I db ready state.0 (tree_of sha256 listing) slash
            names stored v.root named)
          e in
      with_files state.0 state.0.files state' descriptors after v.root v.slots
  Requests-Serves mode state' _
        (read_request {state} {descriptors} fh size offset content r used w e) =
      let v = Requests-Serves mode state descriptors r in
      let (files', known, slots) =
        adaptor_read-Slots B sha256 I listing db ready stored files state.0 descriptors fh size
          offset content v.slots used w in
      let (_, after) = same_run (adaptor_read B size (pos offset) fh) state v.database known e in
      with_files state.0 files' state' descriptors after v.root slots
  Requests-Serves mode state' _ (release_request {state} {descriptors} fh content r used e) =
      let v = Requests-Serves mode state descriptors r in
      let (files', known, slots) =
        adaptor_release-Slots B sha256 I listing db ready stored files state.0 descriptors fh
          content v.slots used in
      let (_, after) = same_run (adaptor_release B fh) state v.database known e in
      with_files state.0 files' state' (update descriptors fh none) after v.root slots

  -- An adaptor is mounted over a store that is ready and holds the tree and the files of a directory. After
  -- any sequence of requests, which ask for attributes, list, open, read windows of the open files and release
  -- what was opened, at paths of names: a file of the directory opens under its path, and its descriptor
  -- is not in use.
  pub adaptor_open-Requests :
      (read_cache_mode : ReadCaching) (state : UserState B) (descriptors : Descriptors) (slash : ℕ)
      (names : List Bytes) (content : Bytes)
      → Requests B listing (mounted root read_cache_mode, db) state descriptors
      → All IsName names
      → content_at names listing ≡ some content
      → (fh : ℕ) × (state' : UserState B) × (adaptor_open B (slash ∷ path_text names) state
          ≡ (ok (pos 0, some fh), state'))
        × (descriptors fh ≡ none)
  adaptor_open-Requests mode state descriptors slash names content r named found =
      let v = Requests-Serves mode state descriptors r in
      let (fh, files', known, unused, _) =
        adaptor_open-Slots B sha256 I listing db ready stored files state.0 descriptors slash names
          content v.root v.slots named found in
      let state' : UserState B = (record state.0 { files = files' }, db) in
      (
        fh,
        state',
        ap (adaptor_open B (slash ∷ path_text names)) (sym (restored state v.database)) ∙ known,
        unused,
      )

  -- An adaptor is mounted over a store that is ready and holds the tree and the files of a directory. After
  -- any sequence of requests, which ask for attributes, list, open, read windows of the open files and
  -- release what was opened, at paths of names: through a descriptor that was handed out for a file and not released since,
  -- every window that starts within the file's pieces, ends below 2^64 and has a size that an `int` can hold
  -- reads as that window of the file's content, with its length as the return value, and releasing the
  -- descriptor returns 0.
  pub adaptor_read-Requests :
      (read_cache_mode : ReadCaching) (state : UserState B) (descriptors : Descriptors)
      (fh size offset : ℕ) (content : Bytes)
      → Requests B listing (mounted root read_cache_mode, db) state descriptors
      → descriptors fh ≡ some content
      → IsWindow content size offset
      → let window = take size (drop offset content) in
        (state' state'' : UserState B) × (adaptor_read B size (pos offset) fh state
          ≡ (ok (pos (length window), window), state'))
        × (adaptor_release B fh state ≡ (ok (pos 0), state''))
  adaptor_read-Requests mode state descriptors fh size offset content r used w =
      let v = Requests-Serves mode state descriptors r in
      let back = sym (restored state v.database) in
      let (files', read, _) =
        adaptor_read-Slots B sha256 I listing db ready stored files state.0 descriptors fh size
          offset content v.slots used w in
      let (files'', release, _) =
        adaptor_release-Slots B sha256 I listing db ready stored files state.0 descriptors fh
          content v.slots used in
      let state' : UserState B = (record state.0 { files = files' }, db) in
      let state'' : UserState B = (record state.0 { files = files'' }, db) in
      (
        state',
        state'',
        ap (adaptor_read B size (pos offset) fh) back ∙ read,
        ap (adaptor_release B fh) back ∙ release,
      )
