-- ===== src/BlobStorage/Blobs.antt =====
-- The blobs that can be stored: what the program relies on of SHA-256, LZ4 and SQLite.
use dogbox.Base.{◌≤◌, ◌≡◌}
use dogbox.Base.{length, Bytes}
use dogbox.External.Sqlite.{max_length}
use dogbox.External.Lz4.{Lz4, max_input_size}
use dogbox.HashCode.{Sha256HashCode, IsHashCode}
use dogbox.BlobStorage.Load.{packed}

-- What the program relies on of SHA-256: a digest of 32 bytes, and no collision among the blobs in
-- question, `Known`. (Among all blobs there are collisions.)
pub record IsDigest (sha256 : Bytes → Sha256HashCode) (Known : Bytes → Type 0) : Type 0 where
  pub sha256-IsHashCode : (content : Bytes) → IsHashCode (sha256 content)
  pub no_collision : (a b : Bytes) → Known a → Known b → sha256 a ≡ sha256 b → a ≡ b

-- A blob that LZ4 compresses, into no more than SQLite takes.
pub record IsStorable (L : Lz4) (Known : Bytes → Type 0) (content : Bytes) : Type 0 where
  pub known : Known content
  pub small : length content ≤ max_input_size
  pub short : length (packed L content).compressed_content ≤ max_length
