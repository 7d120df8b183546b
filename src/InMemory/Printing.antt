-- ===== src/InMemory/Printing.antt =====
-- The `operator<<` of in_memory_fuse_frontend_shared/directory.h and directory.cpp: what the stream `out`
-- holds afterwards.
use dogbox.Base.{ℕ, suc, [], ◌∷◌, ◌++◌, length, Bytes, codes}
use dogbox.Base.Decimal.{decimal}
use dogbox.InMemory.{DirectoryEntry, regular_file, directory, Entries, empty, element}

unfoldable pub print_regular_file : Bytes → Bytes → Bytes
print_regular_file out content = (out ++ decimal (length content)) ++ codes " bytes"

-- `printed.entries.size()`
abbrev pub size : Entries → ℕ
size empty = 0
size (element key value entries) = suc (size entries)

abbrev pub print_title : Bytes → ℕ → Bytes
print_title out n = ((out ++ codes "Directory of ") ++ decimal n) ++ codes " entries: [" ++ 10 ∷ []

unfoldable mutual
  unfolding print_regular_file

  pub print_directory_entry : Bytes → DirectoryEntry → Bytes
  print_directory_entry out (regular_file content) = print_regular_file out content
  print_directory_entry out (directory subdirectory) =
      print_elements (print_title out (size subdirectory)) subdirectory ++ codes "]"

  -- The loop over the elements.
  pub print_elements : Bytes → Entries → Bytes
  print_elements out empty = out
  print_elements out (element key value entries) =
      print_elements (print_directory_entry ((out ++ key) ++ codes " = ") value ++ 10 ∷ []) entries

unfoldable pub print_directory : Bytes → Entries → Bytes
unfolding print_elements
print_directory out printed = print_elements (print_title out (size printed)) printed ++ codes "]"
