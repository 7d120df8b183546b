-- ===== src/InMemory.antt =====
-- in_memory_fuse_frontend_shared/directory.h and directory.cpp: a directory that is read into memory.
-- The children have the operations of in_memory_fuse_frontend/main.cpp.
pub mod Map
pub mod Equality
pub mod Scan
pub mod Order
pub mod Operations
pub mod Printing
pub mod Main
use dogbox.Base.{
  ℕ, zero, suc, ◌-◌, Bool, true, false, Option, none, some, List, [], ◌∷◌, ltb, leb, ◌==◌,
}
use dogbox.Base.{
  if◌then◌else◌, ◌&&◌, Bytes, bytes_eq, Result, ok, throw, to_do, length_error, ◌>>=◌, guard, ◌>>◌,
}
use dogbox.Base.Int.{ℤ, pos, negsuc, ◌-ℤ◌}
use dogbox.External.FileSystem.{Stream, Listing, end, entry}
use dogbox.External.FileSystem

-- `directory_entry`, and the `std::map` of a `directory`: its elements in the order of the iteration.
mutual
  pub data DirectoryEntry : Type 0 where
    regular_file : Bytes → DirectoryEntry
    directory : Entries → DirectoryEntry

  pub data Entries : Type 0 where
    empty : Entries
    element : Bytes → DirectoryEntry → Entries → Entries

-- The three `operator==`.
unfoldable mutual
  pub directory_entry_eq : DirectoryEntry → DirectoryEntry → Bool
  directory_entry_eq (regular_file left) (regular_file right) = bytes_eq left right
  directory_entry_eq (regular_file left) (directory right) = false
  directory_entry_eq (directory left) (regular_file right) = false
  directory_entry_eq (directory left) (directory right) = directory_eq left right

  pub directory_eq : Entries → Entries → Bool
  directory_eq empty empty = true
  directory_eq empty (element key value right) = false
  directory_eq (element key value left) empty = false
  directory_eq (element key value left) (element key' value' right) =
      bytes_eq key key' && (directory_entry_eq value value' && directory_eq left right)

-- `std::less<std::string>`, which compares characters as unsigned numbers.
unfoldable pub string_less : Bytes → Bytes → Bool
string_less [] [] = false
string_less [] (y ∷ ys) = true
string_less (x ∷ xs) [] = false
string_less (x ∷ xs) (y ∷ ys) = let rest = string_less xs ys in if x == y then rest else ltb x y

-- `std::map::insert`: an element that has the key stays as it is.
unfoldable pub insert : Bytes → DirectoryEntry → Entries → Entries
unfolding string_less
insert key value empty = element key value empty
insert key value (element key' value' entries) =
    let rest = insert key value entries in
    if string_less key key'
    then element key value (element key' value' entries)
    else if string_less key' key
    then element key' value' rest
    else element key' value' entries

-- `std::map::find`: two keys are the same where neither is less, which is where they are equal.
unfoldable pub find : Bytes → Entries → Option DirectoryEntry
find key empty = none
find key (element key' value entries) =
    let rest = find key entries in if bytes_eq key' key then some value else rest

-- The size of the vector, to which a negative difference converts as a number that no vector can have.
abbrev size_or_length_error : ℤ → Result ℕ
size_or_length_error (pos size) = ok size
size_or_length_error (negsuc n) = throw length_error

unfoldable pub scan_regular_file : Stream → Result Bytes
scan_regular_file file = do
  guard file.opens to_do
  size ← size_or_length_error (file.at_end -ℤ file.at_beginning)
  let (good, content) = file.read size
  guard good to_do
  ok content

-- The loop over the iterator, with the `entries` so far.
unfoldable pub scan_entries : Listing → Entries → Result Entries
unfolding scan_regular_file insert
scan_entries end entries = ok entries
scan_entries (entry name (FileSystem.regular file stream) i) entries = do
  content ← scan_regular_file stream
  scan_entries i (insert name (regular_file content) entries)
scan_entries (entry name (FileSystem.directory inner) i) entries = do
  subdirectory ← scan_entries inner empty
  scan_entries i (insert name (directory subdirectory) entries)
scan_entries (entry name (FileSystem.other type) i) entries = scan_entries i entries

unfoldable pub scan_directory : Listing → Result Entries
unfolding scan_entries
scan_directory input = scan_entries input empty
