-- ===== src/FuseAdaptor/StatValues.antt =====
-- What the attributes and the return codes of the operations are to be, in the numbers of Linux and
-- independent of the code: the expected values of both front ends.
use dogbox.Base.{ℕ, ◌-◌, Option, none, some, if◌then◌else◌, ltb, Bytes, length}
use dogbox.Base.Int.{ℤ, pos, negsuc}
use dogbox.Trees.Directory.{EntryType, regular_file, directory}
use dogbox.FuseAdaptor.Attributes.{Stat}

-- A size as a 64-bit number in two's complement.
abbrev size_value : ℕ → ℤ
size_value n = if ltb n 9223372036854775808 then pos n else negsuc (18446744073709551615 - n)

-- A regular file that all may read, 0100444, with one link.
abbrev pub file_values : ℕ → Stat
file_values size = record { st_mode = 33060; st_nlink = 1; st_size = size_value size }

-- A directory that all may list and enter, 040755.
abbrev pub directory_values : Stat
directory_values = record { st_mode = 16877; st_nlink = 2; st_size = pos 0 }

abbrev pub values_of : EntryType → ℕ → Stat
values_of regular_file size = file_values size
values_of directory size = directory_values

abbrev pub content_values : Bytes → Stat
content_values content = file_values (length content)

-- The negative of ENOENT, which is 2.
abbrev pub no_entry : ℤ
no_entry = negsuc 1

-- 0 where something was found, and -ENOENT where not.
abbrev pub code_of : Option Stat → ℤ
code_of none = no_entry
code_of (some found) = pos 0

-- The buffer of a call that cleared it first.
abbrev pub or_zeros : Option Stat → Stat
or_zeros none = record { st_mode = 0; st_nlink = 0; st_size = pos 0 }
or_zeros (some found) = found
