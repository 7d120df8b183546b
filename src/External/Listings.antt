-- ===== src/External/Listings.antt =====
-- Which file or directory a path of names leads to in a directory of the file system.
use dogbox.Base.{
  Bool, true, false, Option, none, some, List, [], ◌∷◌, if◌then◌else◌, Bytes, bytes_eq,
}
use dogbox.External.FileSystem.{
  content_of, StreamsContent, Node, Listing, end, entry, regular, directory, other,
}

-- The first regular file or directory with a name.
abbrev pub first : Bytes → Listing → Option Node
first name end = none
first name (entry n (regular file stream) i) =
    if bytes_eq n name then some (regular file stream) else first name i
first name (entry n (directory inner) i) =
    if bytes_eq n name then some (directory inner) else first name i
first name (entry n (other type) i) = first name i

abbrev pub content_below : List Bytes → (Listing → Option Bytes) → Option Node → Option Bytes
content_below names within none = none
content_below [] within (some (regular file stream)) = some (content_of file)
content_below (n ∷ names) within (some (regular file stream)) = none
content_below names within (some (directory inner)) = within inner
content_below names within (some (other type)) = none

-- The content of the file that a path of names leads to.
abbrev pub content_at : List Bytes → Listing → Option Bytes
content_at [] listing = none
content_at (name ∷ names) listing = content_below names (content_at names) (first name listing)

abbrev pub directory_below : (Listing → Option Listing) → Option Node → Option Listing
directory_below within none = none
directory_below within (some (regular file stream)) = none
directory_below within (some (directory inner)) = within inner
directory_below within (some (other type)) = none

-- The directory that a path of names leads to.
abbrev pub directory_at : List Bytes → Listing → Option Listing
directory_at [] listing = some listing
directory_at (name ∷ names) listing = directory_below (directory_at names) (first name listing)

abbrev pub below_file_node : List Bytes → (Listing → Bool) → Option Node → Bool
below_file_node names within none = false
below_file_node [] within (some (regular file stream)) = false
below_file_node (n ∷ names) within (some (regular file stream)) = true
below_file_node names within (some (directory inner)) = within inner
below_file_node names within (some (other type)) = false

-- Whether a path of names goes on behind a regular file.
abbrev pub below_file : List Bytes → Listing → Bool
below_file [] listing = false
below_file (name ∷ names) listing = below_file_node names (below_file names) (first name listing)

-- Every file can be read through a stream.
abbrev pub AreScannable : Listing → Type 0
AreScannable end = Unit
AreScannable (entry name (regular file stream) i) =
    StreamsContent stream (content_of file) × AreScannable i
AreScannable (entry name (directory inner) i) = AreScannable inner × AreScannable i
AreScannable (entry name (other type) i) = AreScannable i
