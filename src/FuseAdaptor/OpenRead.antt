-- ===== src/FuseAdaptor/OpenRead.antt =====
-- The operations on a path, over a stored tree of directories: attributes, opening and reading.
use dogbox.Base.{
  ℕ, ◌+◌, ◌/◌, ◌^◌, ◌≤◌, ◌<◌, ◌≡◌, ◌≢◌, refl, ◌∙◌, inl, Option, none, some, List, ◌∷◌,
}
use dogbox.Base.{length, set, take, drop, All, Bytes, ok}
use dogbox.Base.Int.{ℤ, pos}
use dogbox.HashCode.{Sha256HashCode}
use dogbox.BlobStorage.Interface.{BlobStore, IsBlobStore}
use dogbox.Trees.Directory.{regular_file}
use dogbox.Trees.RegularFile.{piece_length}
use dogbox.Trees.RegularFileIndex.Load.{index_bytes}
use dogbox.Trees.Pieces.{piece_count, piece}
use dogbox.Trees.ReadFile.{OpenFile}
use dogbox.FuseAdaptor.{DirectoryEntry}
use dogbox.FuseAdaptor.Attributes.{
  UserData, Stat, enoent, directory_entry_to_stat, resolve_request, adaptor_getattr,
}
use dogbox.FuseAdaptor.Files.{newly_opened, open_resolved, adaptor_open, adaptor_read}
use dogbox.FuseAdaptor.OpenFiles.{Opens}
use dogbox.FuseAdaptor.Handles.{IsOpen, open_resolved_lem, adaptor_read-window}
use dogbox.Trees.DirectoryTree.{Entries, directory_blob, HasDirectory}
use dogbox.Paths.{path_text, IsName}
use dogbox.FuseAdaptor.Resolve.{look_up}
use dogbox.FuseAdaptor.Resolve.{resolve_path-look_up}

-- What `stat` shows of what a path leads to.
abbrev pub shown : Option DirectoryEntry → ℤ × Option Stat
shown none = (enoent, none)
shown (some resolved) = (pos 0, some (directory_entry_to_stat resolved))

-- The entry of a file with a content.
abbrev pub file_of : (Bytes → Sha256HashCode) → Bytes → DirectoryEntry
file_of sha256 content = record {
  type = regular_file;
  hash_code = sha256 (index_bytes sha256 content);
  regular_file_size = length content;
}

pub newly_opened-IsOpen :
    (sha256 : Bytes → Sha256HashCode) (content : Bytes)
    → IsOpen sha256 content (newly_opened (file_of sha256 content))
newly_opened-IsOpen sha256 content = record {
  file_size = refl;
  hash_code = refl;
  index = inl refl;
  cache = tt;
}

module _ (B : BlobStore) (sha256 : Bytes → Sha256HashCode) (I : IsBlobStore B sha256)
    (db : B.Database) (ready : I.IsReady db) (entries : Entries)
    (stored : HasDirectory B sha256 I db entries) (user : UserData)
    (rooted : user.root ≡ sha256 (directory_blob sha256 entries)) (slash : ℕ) (names : List Bytes)
    (named : All IsName names) where
  -- The request path is the text of the names behind one character.
  pub resolve_request-look_up :
      resolve_request B (slash ∷ path_text names) (user, db)
      ≡ (ok (look_up sha256 names entries), (user, db))
  unfolding resolve_request
  resolve_request-look_up =
      rw (rooted, resolve_path-look_up B sha256 I db ready names entries named stored) refl

  shown-eq :
      (found : Option DirectoryEntry)
      → resolve_request B (slash ∷ path_text names) (user, db) ≡ (ok found, (user, db))
      → adaptor_getattr B (slash ∷ path_text names) (user, db) ≡ (ok (shown found), (user, db))
  unfolding adaptor_getattr
  shown-eq none e = rw e refl
  shown-eq (some resolved) e = rw e refl

  -- In a store that is ready and holds a tree of directories, the attributes of a path of names
  -- are those of what the tree has there, and -ENOENT where it has nothing; the state does not
  -- change.
  pub adaptor_getattr-look_up :
      adaptor_getattr B (slash ∷ path_text names) (user, db)
      ≡ (ok (shown (look_up sha256 names entries)), (user, db))
  adaptor_getattr-look_up = shown-eq (look_up sha256 names entries) resolve_request-look_up

  pub open-eq :
      (content : Bytes)
      → look_up sha256 names entries ≡ some (file_of sha256 content)
      → adaptor_open B (slash ∷ path_text names) (user, db)
        ≡ open_resolved B (file_of sha256 content) (user, db)
  unfolding adaptor_open
  open-eq content found = rw (resolve_request-look_up, found) refl

  -- In a store that is ready and holds a tree of directories, and where the tree has a file whose
  -- index and pieces are held, opening the file's path returns 0 and a descriptor of its own, and
  -- the open files stay open; from that descriptor, every window that starts within the file's
  -- pieces, ends below 2^64 and has a size that an `int` can hold reads as that window of the
  -- content, with its length as the return value.
  pub adaptor_read-adaptor_open :
      (content : Bytes)
      → look_up sha256 names entries ≡ some (file_of sha256 content)
      → ((i : ℕ) → i < piece_count content → I.HoldsBlob db (piece i content))
      → I.HoldsBlob db (index_bytes sha256 content)
      → (fh : ℕ) × (user' : UserData) × (adaptor_open B (slash ∷ path_text names) (user, db)
          ≡ (ok (pos 0, some fh), (user', db)))
        × ((j : ℕ) (other : OpenFile)
            → Opens user.files j other
            → (j ≢ fh) × Opens user'.files j other)
        × ((size offset : ℕ)
            → offset / piece_length ≤ piece_count content
            → offset + size < 2 ^ 64
            → size < 2 ^ 31
            → let window = take size (drop offset content) in
              (user'' : UserData) × (adaptor_read B size (pos offset) fh (user', db)
                ≡ (ok (pos (length window), window), (user'', db))))
  adaptor_read-adaptor_open content found pieces held =
      let (fh, files', opened, has, keeps) = open_resolved_lem B (file_of sha256 content) user db in
      let user' : UserData = record user { files = files' } in
      let new : OpenFile = newly_opened (file_of sha256 content) in
      let fits : IsOpen sha256 content new = newly_opened-IsOpen sha256 content in
      (
        fh,
        user',
        open-eq content found ∙ opened,
        keeps,
        λ size offset within below small.
            let (opened', read, _) =
              adaptor_read-window B sha256 I content db ready pieces held size fh offset user' new
                has fits within below small in
            (record user' { files = set files' fh (some opened') }, read),
      )
