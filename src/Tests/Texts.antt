-- ===== src/Tests/Texts.antt =====
-- What is printed, the command line, and a directory of random files.
use dogbox.Base.{◌+◌, ◌/◌, ◌%◌, ◌≡◌, refl, true, [], ◌∷◌, ◌++◌, length}
use dogbox.Base.{codes, replicate, length-replicate, ok}
use dogbox.Base.Int.{pos}
use dogbox.External.FileSystem.{File}
use dogbox.Base.Decimal.{decimal}
use dogbox.HashCode.{to_string, print_hash_code}
use dogbox.Trees.Directory.{DecodedEntry, regular_file, print_decoded_entry}
use dogbox.Trees.Directory.Printing.{print_decoded_entry-injective}
use dogbox.Trees.Import.{Parallelism, print_parallelism}
use dogbox.Trees.ReadCaching.{ReadCaching, print_read_caching}
use dogbox.InMemory
use dogbox.InMemory.{directory, element, empty}
use dogbox.InMemory.Printing.{print_directory}
use dogbox.InMemory.Main.{main}
use dogbox.RandomFiles.{Device}
use dogbox.RandomFiles.Directory.{
  Disk, Files, create_random_directory, create_random_directory-AreFiles,
}
use dogbox.RandomFiles.Directory.{AreFiles, HaveOwnNames, total_size}
use dogbox.RandomFiles.Directory
use dogbox.Tests.World.{toy_sha256, toy_sha256-IsDigest}

-- The name has spaces.
abbrev printed : DecodedEntry
printed = record {
  type = regular_file;
  name = codes "a b c";
  hash_code = toy_sha256 (codes "blob");
  regular_file_size = 1234;
}

print_decoded_entry_run :
    print_decoded_entry [] printed
    ≡ codes "regular_file a b c " ++ to_string (toy_sha256 (codes "blob")) ++ codes " 1234"
unfolding print_decoded_entry print_hash_code to_string decimal replicate
print_decoded_entry_run = refl

print_decoded_entry-injective_example : printed ≡ printed
print_decoded_entry-injective_example =
    print_decoded_entry-injective printed printed
      (toy_sha256-IsDigest.sha256-IsHashCode (codes "blob"))
      (toy_sha256-IsDigest.sha256-IsHashCode (codes "blob")) refl

print_parallelism_run : print_parallelism (codes "p=") Parallelism.full ≡ codes "p=full"
unfolding print_parallelism
print_parallelism_run = refl

print_read_caching_run : print_read_caching [] ReadCaching.one_piece ≡ codes "one_piece"
unfolding print_read_caching
print_read_caching_run = refl

print_directory_run :
    print_directory [] (
      element
        (codes "d")
        (directory empty)
        (element (codes "f") (InMemory.regular_file (replicate 12 0)) empty))
    ≡ codes "Directory of 2 entries: ["
      ++ 10 ∷ codes "d = Directory of 0 entries: ["
      ++ 10 ∷ codes "]"
      ++ 10 ∷ codes "f = 12 bytes"
      ++ 10 ∷ codes "]"
unfolding print_directory decimal replicate
print_directory_run = refl

main_without_directory : (main (λ argv oper user. pos 0) (codes "frontend" ∷ [])).0 ≡ pos 1
unfolding main
main_without_directory = refl

main_with_directory :
    (main (λ argv oper user. pos (length argv)) (codes "frontend" ∷ codes "in" ∷ codes "-f" ∷ [])).0
    ≡ pos 2
unfolding main
main_with_directory = refl

abbrev random_file : File
random_file = record {
  opens = true;
  seek_end = pos 0;
  seek_set = pos 0;
  pread = λ offset count. (pos 0, []);
}

abbrev zeros : Device
zeros = record {
  read = λ i n. (pos n, replicate n 0);
  write = λ i bytes. (pos (length bytes), bytes);
}

abbrev disk : Disk
disk = record {
  removes = true;
  creates = true;
  open_file = λ i. pos 3;
  random = λ i. random_file;
  device = λ i. zeros;
}

disk-IsWhole : Directory.IsWhole disk
disk-IsWhole = record {
  removes = refl;
  creates = refl;
  opens = λ i. (3, refl);
  random = λ i. refl;
  device = λ i. record {
    read = λ j n. (replicate n 0, refl, length-replicate n 0);
    write = λ j bytes. refl;
  };
}

create_random_directory-AreFiles_example :
    (files : Files) × (create_random_directory disk 3 100 [] ≡ (ok tt, files))
    × (length files ≡ 3)
    × HaveOwnNames files
    × AreFiles 3 0 (100 / 3) files
    × (total_size files + 100 % 3 ≡ 100)
create_random_directory-AreFiles_example =
    create_random_directory-AreFiles disk 3 100 [] disk-IsWhole
