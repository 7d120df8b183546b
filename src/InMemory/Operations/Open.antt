-- ===== src/InMemory/Operations/Open.antt =====
-- `open_impl` over a scanned directory: what opening each path does.
use dogbox.Base.{ℕ, zero, suc, ◌≤◌, ◌≡◌, refl, ap, ◌∙◌, bit_and}
use dogbox.Base.{Option, none, some, List, [], ◌∷◌, arith, length}
use dogbox.Base.{◌==◌, All, Bytes, true}
use dogbox.Base.{ok, throw, to_do, Result, false}
use dogbox.Base.Int.{pos}
use dogbox.External.FileSystem.{content_of, Node, Listing, regular, directory, other}
use dogbox.External.Listings.{below_file, below_file_node, first, content_below, content_at}
use dogbox.Paths.{path_text, IsName, path_text-some, longer}
use dogbox.InMemory.{Entries, empty, find}
use dogbox.InMemory
use dogbox.InMemory.Scan.{scanned, element_of, find-scanned}
use dogbox.InMemory.Operations.{
  OpenResult, split_path, open_content, open_entry, open_loop, open_impl,
}
use dogbox.FuseAdaptor.Attributes.{enoent}
use dogbox.InMemory.Operations.Lookup.{stat_at, stat_of_node, split_path-names}

open_loop-step :
    (fuel flags : ℕ) (path name tail : Bytes) (root : Entries)
    → split_path path ≡ record { head = name; tail = tail }
    → open_loop (suc fuel) flags path root
      ≡ open_entry flags
          (λ (inner : Entries). open_loop fuel flags tail inner)
          tail
          (find name root)
unfolding open_loop
open_loop-step fuel flags path name tail root e = rw e refl

abbrev opened_below : List Bytes → (Listing → Result OpenResult) → Option Node → Result OpenResult
opened_below names within none = ok (enoent, none)
opened_below [] within (some (regular file stream)) = ok (pos 0, some (content_of file))
opened_below (n ∷ names) within (some (regular file stream)) = throw to_do
opened_below names within (some (directory inner)) = within inner
opened_below names within (some (other type)) = ok (enoent, none)

-- What opening a path of names for reading does: a file opens, what is not there is -ENOENT, and for a
-- directory or behind a file the code has a TO_DO.
abbrev pub opened_at : List Bytes → Listing → Result OpenResult
opened_at [] listing = throw to_do
opened_at (name ∷ names) listing = opened_below names (opened_at names) (first name listing)

open_loop-opened_at :
    (flags : ℕ) (name : Bytes) (names : List Bytes) (listing : Listing) (fuel : ℕ)
    → bit_and flags 3 ≡ 0
    → All IsName (name ∷ names)
    → length (path_text (name ∷ names)) ≤ fuel
    → open_loop (suc fuel) flags (path_text (name ∷ names)) (scanned listing empty)
      ≡ opened_at (name ∷ names) listing
open_loop-opened_at flags name names listing zero r (v, vs) f =
    absurd (omega (arith, f, path_text-some name names v))
open_loop-opened_at flags name names listing (suc fuel) r (v, vs) f =
    open_loop-step (suc fuel) flags (path_text (name ∷ names)) name (path_text names)
      (scanned listing empty) (split_path-names name names v)
    ∙ ap
        (open_entry flags (λ (inner : Entries). open_loop (suc fuel) flags (path_text names) inner)
          (path_text names))
        (find-scanned name listing)
    ∙ at_node names (first name listing) vs (omega (arith, f, longer name names v))
        (λ n rest inner. open_loop-opened_at flags n rest inner fuel r)
  where
    reads : (bit_and flags 3 == 0) ≡ true
    reads = ground arith

    at_node :
        (names : List Bytes) (node : Option Node)
        → All IsName names
        → length (path_text names) ≤ fuel
        → ((n : Bytes) (rest : List Bytes) (inner : Listing)
            → All IsName (n ∷ rest)
            → length (path_text (n ∷ rest)) ≤ fuel
            → open_loop (suc fuel) flags (path_text (n ∷ rest)) (scanned inner empty)
              ≡ opened_at (n ∷ rest) inner)
        → open_entry flags
            (λ (inner : Entries). open_loop (suc fuel) flags (path_text names) inner)
            (path_text names)
            (element_of node)
          ≡ opened_below names (opened_at names) node
    at_node names none vs f within = refl
    at_node names (some (other type)) vs f within = refl
    at_node [] (some (directory inner)) vs f within = rw reads refl
    at_node [] (some (regular file stream)) vs f within = rw reads refl
    at_node (n ∷ names) (some (regular file stream)) vs f within =
        rw reads (behind (path_text (n ∷ names)) (path_text-some n names vs.0))
      where
        behind :
            (tail : Bytes)
            → 1 ≤ length tail
            → open_content
                (λ (i : Entries). open_loop (suc fuel) flags tail i)
                tail
                (InMemory.regular_file (content_of file))
              ≡ throw to_do
        behind [] some_bytes = absurd (omega (arith, some_bytes))
        behind (c ∷ tail) some_bytes = refl
    at_node (n ∷ names) (some (directory inner)) vs f within =
        rw reads (
          descend (path_text (n ∷ names)) (path_text-some n names vs.0) ∙ within n names inner vs f)
      where
        descend :
            (tail : Bytes)
            → 1 ≤ length tail
            → open_content
                (λ (i : Entries). open_loop (suc fuel) flags tail i)
                tail
                (InMemory.directory (scanned inner empty))
              ≡ open_loop (suc fuel) flags tail (scanned inner empty)
        descend [] some_bytes = absurd (omega (arith, some_bytes))
        descend (c ∷ tail) some_bytes = refl

pub open_impl-opened_at :
    (flags : ℕ) (name : Bytes) (names : List Bytes) (listing : Listing)
    → bit_and flags 3 ≡ 0
    → All IsName (name ∷ names)
    → open_impl (path_text (name ∷ names)) (scanned listing empty) flags
      ≡ opened_at (name ∷ names) listing
unfolding open_impl
open_impl-opened_at flags name names listing r v =
    open_loop-opened_at flags name names listing (length (path_text (name ∷ names))) r v
      (omega arith)

opened_at-content_at :
    (names : List Bytes) (listing : Listing) (content : Bytes)
    → content_at names listing ≡ some content
    → opened_at names listing ≡ ok (pos 0, some content)
opened_at-content_at [] listing content e = absurd (cc)
opened_at-content_at (name ∷ names) listing content e =
    below names (first name listing) e (λ inner. opened_at-content_at names inner content)
  where
    below :
        (names : List Bytes) (node : Option Node)
        → content_below names (content_at names) node ≡ some content
        → ((inner : Listing)
            → content_at names inner ≡ some content
            → opened_at names inner ≡ ok (pos 0, some content))
        → opened_below names (opened_at names) node ≡ ok (pos 0, some content)
    below names none e within = absurd (cc)
    below names (some (other type)) e within = absurd (cc)
    below names (some (directory inner)) e within = within inner e
    below (n ∷ names) (some (regular file stream)) e within = absurd (cc)
    below [] (some (regular file stream)) e within =
        let same : content_of file ≡ content = cc in ap (λ (t : Bytes). ok (pos 0, some t)) same

pub open_impl-content_at :
    (flags : ℕ) (names : List Bytes) (listing : Listing) (content : Bytes)
    → bit_and flags 3 ≡ 0
    → All IsName names
    → content_at names listing ≡ some content
    → open_impl (path_text names) (scanned listing empty) flags ≡ ok (pos 0, some content)
open_impl-content_at flags [] listing content r v e = absurd (cc)
open_impl-content_at flags (name ∷ names) listing content r v e =
    open_impl-opened_at flags name names listing r v
    ∙ opened_at-content_at (name ∷ names) listing content e

-- What is not there does not open.
pub opened_at-missing :
    (names : List Bytes) (listing : Listing)
    → below_file names listing ≡ false
    → stat_at names listing ≡ none
    → opened_at names listing ≡ ok (enoent, none)
opened_at-missing [] listing above e = absurd (cc)
opened_at-missing (name ∷ names) listing above e =
    below names (first name listing) above e (opened_at-missing names)
  where
    below :
        (names : List Bytes) (node : Option Node)
        → below_file_node names (below_file names) node ≡ false
        → stat_of_node (stat_at names) node ≡ none
        → ((inner : Listing)
            → below_file names inner ≡ false
            → stat_at names inner ≡ none
            → opened_at names inner ≡ ok (enoent, none))
        → opened_below names (opened_at names) node ≡ ok (enoent, none)
    below names none above e within = refl
    below names (some (other type)) above e within = refl
    below names (some (directory inner)) above e within = within inner above e
    below names (some (regular file stream)) above e within = absurd (cc)
