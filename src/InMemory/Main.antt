-- ===== src/InMemory/Main.antt =====
-- `main` of in_memory_fuse_frontend/main.cpp. libfuse's `fuse_main` is a parameter.
use dogbox.Base.{ℕ, Option, none, List, [], ◌∷◌, ◌++◌, Bytes, codes, Result}
use dogbox.Base.Int.{ℤ, pos}
use dogbox.Base.Action.{Action}
use dogbox.External.FileSystem.{Listing}
use dogbox.FuseAdaptor.Attributes.{Stat}
use dogbox.InMemory.{Entries}
use dogbox.InMemory.Operations.{OpenResult, hello_getattr, hello_readdir, hello_open, hello_read}

-- The members of `fuse_operations` that are set. The others are null.
pub record FuseOperations : Type 0 where
  pub getattr : Listing → Bytes → Action (Option Entries) (ℤ × Stat)
  pub readdir : Listing → Bytes → Action (Option Entries) (ℤ × List Bytes)
  pub open_file : Listing → Bytes → ℕ → Action (Option Entries) OpenResult
  pub read : Option Bytes → ℕ → ℤ → Result (ℤ × Bytes)

-- `our_fuse_user_data`, but for the mutex.
pub record OurFuseUserData : Type 0 where
  pub input_dir : Bytes
  pub tree : Option Entries

abbrev pub hello_oper : FuseOperations
hello_oper = record {
  getattr = hello_getattr;
  readdir = hello_readdir;
  open_file = hello_open;
  read = hello_read;
}

-- The exit code, and what is written to the standard error, where the program itself writes there. `argv`
-- has the name of the program first; libfuse is handed the directory in its place.
unfoldable pub main : (List Bytes → FuseOperations → OurFuseUserData → ℤ) → List Bytes → ℤ × Bytes
main fuse_main (program ∷ input_dir ∷ options) =
    (fuse_main (input_dir ∷ options) hello_oper (record { input_dir = input_dir; tree = none }), [])
main fuse_main argv =
    (pos 1, codes "Command line arguments: INPUT_DIR [FUSE OPTIONS]..." ++ 10 ∷ [])
