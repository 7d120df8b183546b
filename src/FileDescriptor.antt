-- ===== src/FileDescriptor.antt =====
-- common/file_descriptor.h: opening a file and reading from it.
use dogbox.Base.{ℕ, ◌≡◌, Bool, false, ◌==◌, if◌then◌else◌, Bytes, Result, ok, throw, to_do}
use dogbox.Base.{
  refl, ◌≢◌, true, ap, ◌∙◌, inl, inr, Bool-cases, ◌+◌, ◌≤◌, length, take, drop, arith,
}
use dogbox.Base.Int.{ℤ, pos, negsuc}
use dogbox.External.FileSystem.{File, HasContent}

-- The descriptor is the file itself.
unfoldable pub open_file_for_reading : File → Result File
open_file_for_reading name = if name.opens then ok name else throw to_do

-- `result != static_cast<off_t>(count)`
abbrev whole : ℤ → ℕ → Bool
whole (pos n) count = n == count
whole (negsuc n) count = false

-- The bytes of the buffer `into`.
unfoldable pub read_at : File → ℕ → ℕ → Result Bytes
read_at handle offset count =
    let (result, into) = handle.pread offset count in
    if whole result count then ok into else throw to_do

whole-count : (result : ℤ) (count : ℕ) → whole result count ≡ true → result ≡ pos count
whole-count (pos n) count e = ap pos (ground (arith, e))
whole-count (negsuc n) count e = absurd (cc)

-- A read throws exactly where pread64 does not return the count.
pub read_at-ok :
    (file : File) (offset count : ℕ) (bytes : Bytes)
    → read_at file offset count ≡ ok bytes
    → file.pread offset count ≡ (pos count, bytes)
unfolding read_at
read_at-ok file offset count bytes e =
    let (result, into) = file.pread offset count in
    elim (Bool-cases (whole result count)) [
      | inr short ↦ absurd (cc (rw short at e))
      | inl enough ↦
          let same : into ≡ bytes = cc (rw enough at e) in
          ap (λ (r : ℤ). (r, into)) (whole-count result count enough)
          ∙ ap (λ (b : Bytes). (pos count, b)) same
    ]

pub read_at-short :
    (file : File) (offset count : ℕ)
    → (file.pread offset count).0 ≢ pos count
    → read_at file offset count ≡ throw to_do
unfolding read_at
read_at-short file offset count short =
    let (result, into) = file.pread offset count in
    elim (Bool-cases (whole result count)) [
      | inr fails ↦ rw fails refl
      | inl enough ↦ absurd (short (whole-count result count enough))
    ]

-- A window within the file is read whole.
pub read_at-HasContent :
    (file : File) (content : Bytes) (offset count : ℕ)
    → HasContent file content
    → offset + count ≤ length content
    → read_at file offset count ≡ ok (take count (drop offset content))
unfolding read_at
read_at-HasContent file content offset count h fits = rw (h.pread offset count fits) (ground arith)
