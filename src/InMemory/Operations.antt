-- ===== src/InMemory/Operations.antt =====
-- in_memory_fuse_frontend/main.cpp: the operations of the file system over a directory in memory.
-- The result of an operation is its return code, with what it writes.
pub mod Lookup
pub mod Open
pub mod Read
use dogbox.Base.{
  ℕ, zero, suc, ◌+◌, ◌-◌, ◌^◌, min, bit_and, Bool, true, false, Option, none, some, List, [], ◌∷◌,
}
use dogbox.Base.{
  ◌++◌, ltb, ◌==◌, if◌then◌else◌, length, take, drop, Bytes, codes, Result, ok, throw, to_do,
}
use dogbox.Base.{assertion_failed, undefined_behaviour, out_of_fuel, ◌>>=◌}
use dogbox.Base
use dogbox.Base.Int.{ℤ, pos, negsuc}
use dogbox.Base.Action.{Action, proceed}
use dogbox.External.FileSystem.{Listing}
use dogbox.Paths.{PathSplitResult, split_at}
use dogbox.FuseAdaptor.Attributes.{Stat, file_mode, directory_mode, to_off_t, enoent}
use dogbox.FuseAdaptor.Files.{to_int}
use dogbox.InMemory.{
  DirectoryEntry, regular_file, directory, Entries, empty, element, find, scan_directory,
}

-- The tree of `our_fuse_user_data`, which is scanned when it is wanted for the first time. The
-- directory is given as it stands when the call is made.
unfoldable pub require_tree : Listing → Action (Option Entries) Entries
require_tree input_dir (some tree) = (ok tree, some tree)
require_tree input_dir none =
    proceed (scan_directory input_dir, none) λ tree _. (ok tree, some tree)

unfoldable pub split_path : Bytes → PathSplitResult
split_path original = split_at (Base.find b'/' original)

abbrev pub directory_stat : Stat
directory_stat = record { st_mode = directory_mode; st_nlink = 2; st_size = pos 0 }

abbrev pub regular_file_stat : Bytes → Stat
regular_file_stat content = record {
  st_mode = file_mode;
  st_nlink = 1;
  st_size = to_off_t (length content);
}

-- What `getattr_impl` does with the entry that it finds, and `getattr_impl` itself, on fuel: a path is
-- longer than what is behind its first slash.
abbrev getattr_entry :
    (Entries → Result (Option Stat)) → Option DirectoryEntry → Result (Option Stat)
getattr_entry on_directory none = ok none
getattr_entry on_directory (some (regular_file content)) = ok (some (regular_file_stat content))
getattr_entry on_directory (some (directory subdirectory)) = on_directory subdirectory

unfoldable pub getattr_loop : ℕ → Bytes → Entries → Result (Option Stat)
getattr_loop zero request_path current_root = throw out_of_fuel
getattr_loop (suc fuel) request_path current_root =
    let split = split_path request_path in
    let on_directory = λ (subdirectory : Entries). getattr_loop fuel split.tail subdirectory in
    elim split.head [
      | [] ↦ ok (some directory_stat)
      | c ∷ root_path ↦ getattr_entry on_directory (find (c ∷ root_path) current_root)
    ]

unfoldable pub getattr_impl : Bytes → Entries → Result (Option Stat)
unfolding getattr_loop split_path
getattr_impl request_path current_root =
    getattr_loop (suc (length request_path)) request_path current_root

-- `assert(request_path[0] == '/')` and `request_path + 1`
abbrev pub behind_slash : Bytes → Result Bytes
behind_slash [] = throw assertion_failed
behind_slash (c ∷ path) = if c == b'/' then ok path else throw assertion_failed

abbrev zero_stat : Stat
zero_stat = record { st_mode = 0; st_nlink = 0; st_size = pos 0 }

abbrev pub returned_stat : Option Stat → ℤ × Stat
returned_stat none = (enoent, zero_stat)
returned_stat (some result) = (pos 0, result)

unfoldable pub hello_getattr : Listing → Bytes → Action (Option Entries) (ℤ × Stat)
unfolding require_tree getattr_impl
hello_getattr input_dir request_path state =
    proceed (require_tree input_dir state) λ current_root state. (
      behind_slash request_path >>= λ path.
          getattr_impl path current_root >>= λ result. ok (returned_stat result),
      state,
    )

-- The names that `list_directory` hands over.
abbrev pub keys : Entries → List Bytes
keys empty = []
keys (element key value entries) = key ∷ keys entries

unfoldable pub list_directory : Entries → List Bytes
list_directory current_root = codes "." ∷ codes ".." ∷ keys current_root

abbrev readdir_entry :
    (Entries → Result (ℤ × List Bytes)) → Option DirectoryEntry → Result (ℤ × List Bytes)
readdir_entry on_directory none = ok (enoent, [])
readdir_entry on_directory (some (regular_file content)) = throw to_do
readdir_entry on_directory (some (directory subdirectory)) = on_directory subdirectory

unfoldable pub readdir_loop : ℕ → Bytes → Entries → Result (ℤ × List Bytes)
readdir_loop zero request_path current_root = throw out_of_fuel
readdir_loop (suc fuel) request_path current_root =
    let split = split_path request_path in
    let on_directory = λ (subdirectory : Entries). readdir_loop fuel split.tail subdirectory in
    elim split.head [
      | [] ↦ ok (pos 0, list_directory current_root)
      | c ∷ root_path ↦ readdir_entry on_directory (find (c ∷ root_path) current_root)
    ]

unfoldable pub readdir_impl : Bytes → Entries → Result (ℤ × List Bytes)
unfolding readdir_loop split_path
readdir_impl request_path current_root =
    readdir_loop (suc (length request_path)) request_path current_root

unfoldable pub hello_readdir : Listing → Bytes → Action (Option Entries) (ℤ × List Bytes)
unfolding require_tree readdir_impl
hello_readdir input_dir request_path state =
    proceed (require_tree input_dir state) λ current_root state.
      (behind_slash request_path >>= λ path. readdir_impl path current_root, state)

-- -EACCES
abbrev pub eacces : ℤ
eacces = negsuc 12

-- `open_result`: the return code, and the file that the handle points to. The tree does not change
-- behind the scan, so that a pointer to a regular file is its content, and `none` the null pointer.
abbrev pub OpenResult : Type 0
OpenResult = ℤ × Option Bytes

-- `std::visit` on the entry.
abbrev open_content : (Entries → Result OpenResult) → Bytes → DirectoryEntry → Result OpenResult
open_content on_directory [] (regular_file content) = ok (pos 0, some content)
open_content on_directory (c ∷ relative_path) (regular_file content) = throw to_do
open_content on_directory [] (directory subdirectory) = throw to_do
open_content on_directory (c ∷ relative_path) (directory subdirectory) = on_directory subdirectory

abbrev open_entry :
    ℕ → (Entries → Result OpenResult) → Bytes → Option DirectoryEntry → Result OpenResult
open_entry flags on_directory relative_path none = ok (enoent, none)
open_entry flags on_directory relative_path (some found) =
    if bit_and flags 3 == 0
    then open_content on_directory relative_path found
    else ok (eacces, none)

unfoldable pub open_loop : ℕ → ℕ → Bytes → Entries → Result OpenResult
open_loop zero flags request_path current_root = throw out_of_fuel
open_loop (suc fuel) flags request_path current_root =
    let split = split_path request_path in
    let on_directory = λ (subdirectory : Entries). open_loop fuel flags split.tail subdirectory in
    open_entry flags on_directory split.tail (find split.head current_root)

unfoldable pub open_impl : Bytes → Entries → ℕ → Result OpenResult
unfolding open_loop split_path
open_impl request_path current_root flags =
    open_loop (suc (length request_path)) flags request_path current_root

unfoldable pub hello_open : Listing → Bytes → ℕ → Action (Option Entries) OpenResult
unfolding require_tree open_impl
hello_open input_dir request_path flags state =
    proceed (require_tree input_dir state) λ current_root state.
      (behind_slash request_path >>= λ path. open_impl path current_root flags, state)

-- The return value and the bytes that are written to `buf`. A vector has less than 2^63 elements, so
-- that its size converts to `off_t` as it is; an offset below 0 leads to a read before the content.
unfoldable pub hello_read : Option Bytes → ℕ → ℤ → Result (ℤ × Bytes)
hello_read none size offset = throw undefined_behaviour
hello_read (some content) size (negsuc n) = throw undefined_behaviour
hello_read (some content) size (pos offset) =
    let offset' = if ltb (length content) offset then length content else offset in
    let actual_read_size = min size (length content - offset') in
    ok (to_int actual_read_size, take actual_read_size (drop offset' content))
