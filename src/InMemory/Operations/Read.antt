-- ===== src/InMemory/Operations/Read.antt =====
-- `hello_open` and `hello_read` over a scanned directory, and the tree that is scanned once.
use dogbox.Base.{ℕ, zero, suc, ◌-◌, ◌^◌, ◌<◌, min, ◌≡◌, refl, sym, ap, ◌∙◌, inl, inr, bit_and}
use dogbox.Base.{
  Option, none, some, List, [], ◌∷◌, arith, length, length-take, length-drop, take, drop,
}
use dogbox.Base.{drop_all, Bool-cases, ltb, ltb→lt, All, Bytes}
use dogbox.Base.{ok}
use dogbox.Base.Int.{ℤ, pos}
use dogbox.Base.Action.{proceed}
use dogbox.External.FileSystem.{Listing}
use dogbox.External.Listings.{content_at, AreScannable}
use dogbox.Paths.{path_text, IsName}
use dogbox.FuseAdaptor.Handles.{to_int_small}
use dogbox.InMemory.{Entries, empty, scan_directory}
use dogbox.InMemory.Scan.{scanned, scan_directory-scanned}
use dogbox.InMemory.Operations.{OpenResult, require_tree, open_impl}
use dogbox.InMemory.Operations.{hello_open, hello_read}
use dogbox.InMemory.Operations.Open.{open_impl-content_at}

take-min : (n : ℕ) (xs : Bytes) → take (min n (length xs)) xs ≡ take n xs
take-min zero xs = let e : min 0 (length xs) ≡ 0 = omega arith in ap (λ (k : ℕ). take k xs) e
take-min (suc n) [] = let e : min (suc n) 0 ≡ 0 = omega arith in ap (λ (k : ℕ). take {A = ℕ} k []) e
take-min (suc n) (x ∷ xs) =
    let e : min (suc n) (suc (length xs)) ≡ suc (min n (length xs)) = omega arith in
    ap (λ (k : ℕ). take k (x ∷ xs)) e ∙ ap (λ (t : Bytes). x ∷ t) (take-min n xs)

read_window :
    (size offset : ℕ) (content : Bytes)
    → take (min size (length content - offset)) (drop offset content)
      ≡ take size (drop offset content)
read_window size offset content =
    ap (λ (n : ℕ). take (min size n) (drop offset content)) (sym (length-drop offset content))
    ∙ take-min size (drop offset content)

-- From an open file, every window whose offset is not below 0 and whose size an `int` can hold reads as
-- that window of the content, with its length as the return value: nothing from the end of the file on.
pub hello_read-window :
    (content : Bytes) (size offset : ℕ)
    → size < 2 ^ 31
    → let window = take size (drop offset content) in
      hello_read (some content) size (pos offset) ≡ ok (pos (length window), window)
unfolding hello_read
hello_read-window content size offset small = elim (Bool-cases (ltb (length content) offset)) [
  | inl behind ↦
      let nothing : drop offset content ≡ [] =
        drop_all offset content (omega (arith, ltb→lt (length content) offset behind)) in
      let nothing' : drop (length content) content ≡ [] =
        drop_all (length content) content (omega arith) in
      let rest : min size (length content - length content) ≡ 0 = omega arith in
      rw behind
        (rw (rest, nothing) (ap (λ (t : Bytes). ok (pos (length t), t)) (sym (no_bytes size))))
  | inr within ↦ rw within (
      let n = min size (length content - offset) in
      let window = take size (drop offset content) in
      let count : n ≡ length window =
        omega (arith, length-take size (drop offset content), length-drop offset content) in
      ap (λ (z : ℤ). ok (z, take n (drop offset content)))
        (to_int_small n (omega arith) ∙ ap pos count)
      ∙ ap (λ (t : Bytes). ok (pos (length window), t)) (read_window size offset content))
]
  where
    no_bytes : (n : ℕ) → take {A = ℕ} n [] ≡ []
    no_bytes zero = refl
    no_bytes (suc n) = refl

-- The directory that the tree stands for: as it is now, where nothing was scanned yet, and as it was when
-- it was scanned, whatever it is now.
abbrev pub IsScanOf : Listing → Listing → Option Entries → Type 0
IsScanOf listing now none = now ≡ listing
IsScanOf listing now (some tree) = tree ≡ scanned listing empty

pub require_tree-IsScanOf :
    (listing now : Listing) (state : Option Entries)
    → AreScannable listing
    → IsScanOf listing now state
    → require_tree now state ≡ (ok (scanned listing empty), some (scanned listing empty))
unfolding require_tree
require_tree-IsScanOf listing now none v e =
    ap (λ (i : Listing). proceed (scan_directory i, none) λ tree _. (ok tree, some tree)) e
    ∙ rw (scan_directory-scanned listing v) refl
require_tree-IsScanOf listing now (some tree) v e = ap (λ (t : Entries). (ok t, some t)) e

pub hello_open-eq :
    (listing now : Listing) (state : Option Entries) (path : Bytes) (flags : ℕ)
    (result : OpenResult)
    → require_tree now state ≡ (ok (scanned listing empty), some (scanned listing empty))
    → open_impl path (scanned listing empty) flags ≡ ok result
    → hello_open now (b'/' ∷ path) flags state ≡ (ok result, some (scanned listing empty))
unfolding hello_open
hello_open-eq listing now state path flags result a b = rw (a, b) refl

-- Opened for reading, the path of a file of a directory that can be scanned returns 0 and a file; read
-- from there, every window whose size an `int` can hold is that window of the content, with its length
-- as the return value. The directory is the one that was scanned before, if one was.
pub hello_read-hello_open :
    (listing now : Listing) (state : Option Entries) (flags : ℕ) (names : List Bytes)
    (content : Bytes) (size offset : ℕ)
    → AreScannable listing
    → IsScanOf listing now state
    → bit_and flags 3 ≡ 0
    → All IsName names
    → content_at names listing ≡ some content
    → size < 2 ^ 31
    → let window = take size (drop offset content) in
      (handle : Option Bytes) × (hello_open now (b'/' ∷ path_text names) flags state
        ≡ (ok (pos 0, handle), some (scanned listing empty)))
      × (hello_read handle size (pos offset) ≡ ok (pos (length window), window))
hello_read-hello_open listing now state flags names content size offset v s r named found small = (
  some content,
  hello_open-eq listing now state (path_text names) flags (pos 0, some content)
      (require_tree-IsScanOf listing now state v s)
      (open_impl-content_at flags names listing content r named found),
  hello_read-window content size offset small,
)
