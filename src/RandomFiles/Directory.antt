-- ===== src/RandomFiles/Directory.antt =====
-- common/create_random_directory.h: a directory of random files.
use dogbox.Base.{
  ℕ, zero, suc, ◌+◌, ◌*◌, ◌/◌, ◌%◌, ◌<◌, ◌≡◌, ◌≢◌, refl, sym, ap, ◌∙◌, Bool, true, false,
}
use dogbox.Base.{List, [], ◌∷◌, ◌++◌, append_assoc, append-nil, length, All, Bytes, ok, throw}
use dogbox.Base.{filesystem_error, arith}
use dogbox.Base.Int.{ℤ, pos}
use dogbox.Base.Decimal.{decimal, decimal-injective}
use dogbox.Base.Action.{Action, pure, lift, guard, ◌>>=◌, ◌>>◌}
use native.Mathlib.Nat.{div-add-mod}
use dogbox.External.FileSystem.{File}
use dogbox.RandomFiles
use dogbox.RandomFiles.{Device, create_random_file, create_random_file-length}

-- The files of the directory, by their names, in the order in which they were created.
abbrev pub Files : Type 0
Files = List (Bytes × Bytes)

-- What the calls return: whether `remove_all` and `create_directories` succeed, what `open` returns for the
-- file of each number, and the device, which is opened for each file.
pub record Disk : Type 0 where
  pub removes : Bool
  pub creates : Bool
  pub open_file : ℕ → ℤ
  pub random : ℕ → File
  pub device : ℕ → Device

-- Files of a size, named by the numbers from `i` on.
abbrev pub AreFiles : ℕ → ℕ → ℕ → Files → Type 0
AreFiles zero i file_size files = files ≡ []
AreFiles (suc n) i file_size [] = ⊥
AreFiles (suc n) i file_size ((name, content) ∷ files) =
    (name ≡ decimal i) × (length content ≡ file_size) × AreFiles n (suc i) file_size files

abbrev pub total_size : Files → ℕ
total_size [] = 0
total_size ((name, content) ∷ files) = length content + total_size files

-- No two files have one name.
abbrev pub HaveOwnNames : Files → Type 0
HaveOwnNames [] = Unit
HaveOwnNames ((name, content) ∷ files) = All (λ f. name ≢ f.0) files × HaveOwnNames files

total_size-AreFiles :
    (n i file_size : ℕ) (files : Files)
    → AreFiles n i file_size files
    → (length files ≡ n) × (total_size files ≡ n * file_size)
total_size-AreFiles zero i file_size files e = rw e (refl, omega arith)
total_size-AreFiles (suc n) i file_size [] v = absurd v
total_size-AreFiles (suc n) i file_size ((name, content) ∷ files) (_, size, v) =
    let (count, total) = total_size-AreFiles n (suc i) file_size files v in
    (omega (arith, count), grind (arith, size, total))

other_names :
    (n i k file_size : ℕ) (files : Files)
    → k < i
    → AreFiles n i file_size files
    → All (λ f. decimal k ≢ f.0) files
other_names zero i k file_size files h e = rw e tt
other_names (suc n) i k file_size [] h v = absurd v
other_names (suc n) i k file_size ((name, content) ∷ files) h (named, _, v) = (
  λ same. let e = decimal-injective k i (same ∙ named) in omega (arith, e, h),
  other_names n (suc i) k file_size files (omega arith) v,
)

AreFiles-HaveOwnNames :
    (n i file_size : ℕ) (files : Files) → AreFiles n i file_size files → HaveOwnNames files
AreFiles-HaveOwnNames zero i file_size files e = rw e tt
AreFiles-HaveOwnNames (suc n) i file_size [] v = tt
AreFiles-HaveOwnNames (suc n) i file_size ((name, content) ∷ files) (named, _, v) = (
  rw named (other_names n (suc i) i file_size files (omega arith) v),
  AreFiles-HaveOwnNames n (suc i) file_size files v,
)

-- `remove_all(directory)`. What it leaves where it fails is open, and stands for nothing that is read.
abbrev remove_all : Bool → Action Files Unit
remove_all true files = (ok tt, [])
remove_all false files = (throw filesystem_error, files)

module _ (D : Disk) where
  -- One round of the loop: the file of the number `i`.
  unfoldable pub add_file : ℕ → ℕ → Action Files Unit
  add_file i file_size files =
      (do
        content ← lift (create_random_file (D.device i) (D.open_file i) (D.random i) file_size)
        λ files. (ok tt, files ++ (decimal i, content) ∷ []))
        files

  -- The loop, with the rounds that are left.
  unfoldable pub files_loop : ℕ → ℕ → ℕ → ℕ → Action Files Unit
  unfolding add_file
  files_loop zero i number_of_files total_file_size = pure tt
  files_loop (suc left) i number_of_files total_file_size = do
    add_file i (total_file_size / number_of_files)
    files_loop left (suc i) number_of_files total_file_size

  unfoldable pub create_random_directory : ℕ → ℕ → Action Files Unit
  unfolding files_loop
  create_random_directory number_of_files total_file_size = do
    remove_all D.removes
    guard D.creates filesystem_error
    files_loop number_of_files 0 number_of_files total_file_size

  -- Every file can be created, and every read and write takes part whole.
  pub record IsWhole : Type 0 where
    pub removes : D.removes ≡ true
    pub creates : D.creates ≡ true
    pub opens : (i : ℕ) → (fd : ℕ) × (D.open_file i ≡ pos fd)
    pub random : (i : ℕ) → (D.random i).opens ≡ true
    pub device : (i : ℕ) → RandomFiles.IsWhole (D.device i)

  add_file-IsWhole :
      (W : IsWhole) (i file_size : ℕ) (files : Files)
      → (content : Bytes) × (add_file i file_size files
          ≡ (ok tt, files ++ (decimal i, content) ∷ []))
        × (length content ≡ file_size)
  unfolding add_file
  add_file-IsWhole W i file_size files =
      let (fd, opened) = W.opens i in
      let (content, done, size) =
        create_random_file-length (D.device i) (W.device i) fd (D.random i) file_size
          (W.random i) in
      (content, rw (opened, done) refl, size)

  files_loop-AreFiles :
      (W : IsWhole) (left i number_of_files total_file_size : ℕ) (files : Files)
      → (more : Files) × (files_loop left i number_of_files total_file_size files
          ≡ (ok tt, files ++ more))
        × AreFiles left i (total_file_size / number_of_files) more
  unfolding files_loop
  files_loop-AreFiles W zero i number_of_files total_file_size files =
      ([], ap (λ (f : Files). (ok tt, f)) (sym (append-nil files)), refl)
  files_loop-AreFiles W (suc left) i number_of_files total_file_size files =
      let file_size = total_file_size / number_of_files in
      let (content, added, size) = add_file-IsWhole W i file_size files in
      let (more, done, all) =
        files_loop-AreFiles W left (suc i) number_of_files total_file_size
          (files ++ (decimal i, content) ∷ []) in
      (
        (decimal i, content) ∷ more,
        rw added (
            done
            ∙ ap (λ (f : Files). (ok tt, f)) (append_assoc files ((decimal i, content) ∷ []) more)),
        (refl, size, all),
      )

  -- Where the directory can be removed and created, the files can be created, the random device opens,
  -- and every read and every write is whole: whatever the directory had before, it then has as many files
  -- as were asked for, no two of one name, named by the numbers from 0 on, and each of the total size
  -- over their number, rounded down. Together they are short of the total by the remainder of that
  -- division; where no file is asked for, the remainder is the total.
  pub create_random_directory-AreFiles :
      (number_of_files total_file_size : ℕ) (before : Files)
      → IsWhole
      → (files : Files) × (create_random_directory number_of_files total_file_size before
          ≡ (ok tt, files))
        × (length files ≡ number_of_files)
        × HaveOwnNames files
        × AreFiles number_of_files 0 (total_file_size / number_of_files) files
        × (total_size files + total_file_size % number_of_files ≡ total_file_size)
  unfolding create_random_directory
  create_random_directory-AreFiles number_of_files total_file_size before W =
      let size = total_file_size / number_of_files in
      let (files, done, all) =
        files_loop-AreFiles W number_of_files 0 number_of_files total_file_size [] in
      let (count, total) = total_size-AreFiles number_of_files 0 size files all in
      (
        files,
        rw (W.removes, W.creates) done,
        count,
        AreFiles-HaveOwnNames number_of_files 0 size files all,
        all,
        rw total (div-add-mod total_file_size number_of_files),
      )
