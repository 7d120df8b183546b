-- ===== src/External/FileSystem.antt =====
-- What the calls of the operating system and of the standard library return of files and directories.
use dogbox.Base.{ℕ, ◌+◌, ◌≤◌, ◌≡◌, Bool, true, take, take_all, drop, length, Bytes, arith}
use dogbox.Base.Int.{ℤ, pos, negsuc}

-- A file by what the calls on it return.
pub record File : Type 0 where
  -- open(name, O_RDONLY) returns a descriptor.
  pub opens : Bool
  -- lseek64(handle, 0, SEEK_END), then lseek64(handle, 0, SEEK_SET)
  pub seek_end : ℤ
  pub seek_set : ℤ
  -- pread64(handle, into, count, offset), as a function of the offset and the count: what it returns,
  -- and the `count` bytes of the buffer.
  pub pread : ℕ → ℕ → ℤ × Bytes

-- A readable regular file that does not change while it is read.
pub record HasContent (file : File) (content : Bytes) : Type 0 where
  pub opens : file.opens ≡ true
  pub seek_end : file.seek_end ≡ pos (length content)
  pub seek_set : file.seek_set ≡ pos 0
  pub pread :
      (offset count : ℕ)
      → offset + count ≤ length content
      → file.pread offset count ≡ (pos count, take count (drop offset content))

-- What the calls on a `std::ifstream` of a file return, in the order of the program: the test of the
-- stream, `tellg` at the beginning and at the end, and, for each number of bytes, `read` from the
-- beginning: the test of the stream behind it, and the bytes.
pub record Stream : Type 0 where
  pub opens : Bool
  pub at_beginning : ℤ
  pub at_end : ℤ
  pub read : ℕ → Bool × Bytes

pub record StreamsContent (stream : Stream) (content : Bytes) : Type 0 where
  pub opens : stream.opens ≡ true
  pub at_beginning : stream.at_beginning ≡ pos 0
  pub at_end : stream.at_end ≡ pos (length content)
  pub read : stream.read (length content) ≡ (true, content)

-- The values of `std::filesystem::file_type` that are neither a regular file nor a directory.
pub data FileType : Type 0 where
  none : FileType
  not_found : FileType
  symlink : FileType
  block : FileType
  character : FileType
  fifo : FileType
  socket : FileType
  unknown : FileType

-- A directory as it stands while it is read: what a `std::filesystem::directory_iterator` comes
-- across, in its order, each with its filename, and with its `status().type()`, which follows symbolic
-- links.
mutual
  pub data Node : Type 0 where
    regular : File → Stream → Node
    directory : Listing → Node
    other : FileType → Node

  pub data Listing : Type 0 where
    end : Listing
    entry : Bytes → Node → Listing → Listing

-- What a file that has a content has.
abbrev size_of : ℤ → ℕ
size_of (pos n) = n
size_of (negsuc n) = 0

abbrev pub content_of : File → Bytes
content_of file = (file.pread 0 (size_of file.seek_end)).1

pub content_of-HasContent :
    (file : File) (content : Bytes) → HasContent file content → content_of file ≡ content
content_of-HasContent file content h =
    rw (h.seek_end, h.pread 0 (length content) (omega arith))
      (take_all (length content) content (omega arith))
