-- ===== src/BlobStorage/Specification.antt =====
-- What a blob storage promises: to be a map from digests to the blobs that were stored. A client's
-- calls, one after the other, are answered as the map answers them.
use dogbox.Base.{contains, ℕ, Option, none}
use dogbox.Base.{some, List, [], ◌∷◌, if◌then◌else◌, length, Bytes}
use dogbox.Base.Action.{Action, pure, ◌>>=◌}
use dogbox.External.Sqlite.{Sqlite}
use dogbox.External.Lz4.{Lz4}
use dogbox.HashCode.{Sha256HashCode, hash_code_eq}
use dogbox.BlobStorage.{store_blob, load_blob, count_blobs}

pub data Call : Type 0 where
  store : Bytes → Call
  load : Sha256HashCode → Call
  count : Call

pub data Answer : Type 0 where
  stored : Sha256HashCode → Answer
  loaded : Option Bytes → Answer
  counted : ℕ → Answer

module _ (sha256 : Bytes → Sha256HashCode) where
  -- The blob under a digest, among those that are held.
  abbrev pub find_digest : Sha256HashCode → List Bytes → Option Bytes
  find_digest h [] = none
  find_digest h (content ∷ held) =
      if hash_code_eq (sha256 content) h then some content else find_digest h held

  -- What a call answers, and what is held then.
  abbrev pub answer : Call → List Bytes → Answer × List Bytes
  answer (store content) held =
      (stored (sha256 content), if contains content held then held else content ∷ held)
  answer (load h) held = (loaded (find_digest h held), held)
  answer count held = (counted (length held), held)

  abbrev pub answers : List Call → List Bytes → List Answer × List Bytes
  answers [] held = ([], held)
  answers (call ∷ calls) held =
      let (a, held') = answer call held in
      let (rest, held'') = answers calls held' in (a ∷ rest, held'')

module _ (S : Sqlite) (L : Lz4) (sha256 : Bytes → Sha256HashCode) where
  -- The call of the code.
  unfoldable pub perform : Call → Action S.Database Answer
  perform (store content) = do h ← store_blob S L sha256 content; pure (stored h)
  perform (load h) = do found ← load_blob S L h; pure (loaded found)
  perform count = do n ← count_blobs S; pure (counted n)

  unfoldable pub perform_all : List Call → Action S.Database (List Answer)
  unfolding perform
  perform_all [] = pure []
  perform_all (call ∷ calls) = do a ← perform call; rest ← perform_all calls; pure (a ∷ rest)
