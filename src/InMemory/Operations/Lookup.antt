-- ===== src/InMemory/Operations/Lookup.antt =====
-- `getattr_impl` and `readdir_impl` over a scanned directory, against the directory itself.
use dogbox.Base.{
  ℕ, zero, suc, ◌≤◌, ◌≡◌, ◌≢◌, ◌++◌, refl, ap, ◌∙◌, Option, none, some, List, [], ◌∷◌, arith,
  length, length-append, append_assoc, All, Bytes,
}
use dogbox.Base.{codes, Result, ok, throw, to_do}
use dogbox.Base
use dogbox.Base.Int.{ℤ, pos}
use dogbox.External.FileSystem.{content_of, Node, Listing, regular, directory, other}
use dogbox.External.Listings.{first, content_below, content_at}
use dogbox.Paths
use dogbox.Paths.{path_text, IsName, path_text-some, split_path-path_text, longer}
use dogbox.FuseAdaptor.Attributes.{Stat, enoent}
use dogbox.FuseAdaptor.StatValues.{content_values, directory_values}
use dogbox.InMemory.{Entries, empty, find}
use dogbox.InMemory.Scan.{scanned, element_of, find-scanned}
use dogbox.InMemory.Operations.{split_path, getattr_entry, getattr_loop}
use dogbox.InMemory.Operations.{
  getattr_impl, list_directory, readdir_entry, readdir_loop, readdir_impl,
}

-- Both front ends split a path alike.
pub split_path-eq : (path : Bytes) → split_path path ≡ Paths.split_path path
unfolding split_path Paths.split_path
split_path-eq path = refl

pub split_path-names :
    (name : Bytes) (names : List Bytes)
    → IsName name
    → split_path (path_text (name ∷ names)) ≡ record { head = name; tail = path_text names }
split_path-names name names v =
    split_path-eq (path_text (name ∷ names)) ∙ split_path-path_text name names v

-- The expected attributes of what a path of names leads to. Whatever follows the name of a regular file is not
-- looked at.
abbrev pub stat_of_node : (Listing → Option Stat) → Option Node → Option Stat
stat_of_node within none = none
stat_of_node within (some (regular file stream)) = some (content_values (content_of file))
stat_of_node within (some (directory inner)) = within inner
stat_of_node within (some (other type)) = none

abbrev pub stat_at : List Bytes → Listing → Option Stat
stat_at [] listing = some directory_values
stat_at (name ∷ names) listing = stat_of_node (stat_at names) (first name listing)

getattr_loop-step :
    (fuel c : ℕ) (path name tail : Bytes) (root : Entries)
    → split_path path ≡ record { head = c ∷ name; tail = tail }
    → getattr_loop (suc fuel) path root
      ≡ getattr_entry (λ (inner : Entries). getattr_loop fuel tail inner) (find (c ∷ name) root)
unfolding getattr_loop
getattr_loop-step fuel c path name tail root e = ground (arith, e)

-- The rest of a path of names with a text behind it.
abbrev rest_text : List Bytes → Bytes → Bytes
rest_text [] tail = tail
rest_text (next ∷ names) tail = path_text (next ∷ names) ++ b'/' ∷ tail

split_path-longer :
    (name : Bytes) (names : List Bytes) (tail : Bytes)
    → IsName name
    → split_path (path_text (name ∷ names) ++ b'/' ∷ tail)
      ≡ record { head = name; tail = rest_text names tail }
unfolding split_path
split_path-longer name [] tail v = rw (Base.find-first b'/' name tail v.1) refl
split_path-longer name (next ∷ names) tail v =
    rw
      (
        append_assoc name (b'/' ∷ path_text (next ∷ names)) (b'/' ∷ tail),
        Base.find-first b'/' name (path_text (next ∷ names) ++ b'/' ∷ tail) v.1,
      )
      refl

getattr_loop-stat_at :
    (names : List Bytes) (listing : Listing) (fuel : ℕ)
    → All IsName names
    → length (path_text names) ≤ fuel
    → getattr_loop (suc fuel) (path_text names) (scanned listing empty) ≡ ok (stat_at names listing)
getattr_loop-stat_at [] listing fuel v f = unfold getattr_loop split_path Base.find in refl
getattr_loop-stat_at ([] ∷ names) listing fuel v f = absurd (omega (arith, v.0.0))
getattr_loop-stat_at ((c ∷ name) ∷ names) listing zero (v, vs) f =
    absurd (omega (arith, f, path_text-some (c ∷ name) names v))
getattr_loop-stat_at ((c ∷ name) ∷ names) listing (suc fuel) (v, vs) f =
    getattr_loop-step (suc fuel) c (path_text ((c ∷ name) ∷ names)) name (path_text names)
      (scanned listing empty) (split_path-names (c ∷ name) names v)
    ∙ ap (getattr_entry (λ (inner : Entries). getattr_loop (suc fuel) (path_text names) inner))
        (find-scanned (c ∷ name) listing)
    ∙ at_node (first (c ∷ name) listing) (λ inner.
      getattr_loop-stat_at names inner fuel vs (omega (arith, f, longer (c ∷ name) names v)))
  where
    at_node :
        (node : Option Node)
        → ((inner : Listing)
            → getattr_loop (suc fuel) (path_text names) (scanned inner empty)
              ≡ ok (stat_at names inner))
        → getattr_entry
            (λ (inner : Entries). getattr_loop (suc fuel) (path_text names) inner)
            (element_of node)
          ≡ ok (stat_of_node (stat_at names) node)
    at_node none within = refl
    at_node (some (regular file stream)) within = refl
    at_node (some (directory inner)) within = within inner
    at_node (some (other type)) within = refl

-- Over a scanned directory, the attributes of a path of names are those of what the names lead to; the
-- recursion ends.
pub getattr_impl-stat_at :
    (names : List Bytes) (listing : Listing)
    → All IsName names
    → getattr_impl (path_text names) (scanned listing empty) ≡ ok (stat_at names listing)
unfolding getattr_impl
getattr_impl-stat_at names listing v =
    getattr_loop-stat_at names listing (length (path_text names)) v (omega arith)

-- What a path of names lists.
abbrev pub listed_node : (Listing → Result (ℤ × List Bytes)) → Option Node → Result (ℤ × List Bytes)
listed_node within none = ok (enoent, [])
listed_node within (some (regular file stream)) = throw to_do
listed_node within (some (directory inner)) = within inner
listed_node within (some (other type)) = ok (enoent, [])

abbrev pub listed_at : List Bytes → Listing → Result (ℤ × List Bytes)
listed_at [] listing = ok (pos 0, list_directory (scanned listing empty))
listed_at (name ∷ names) listing = listed_node (listed_at names) (first name listing)

readdir_loop-step :
    (fuel c : ℕ) (path name tail : Bytes) (root : Entries)
    → split_path path ≡ record { head = c ∷ name; tail = tail }
    → readdir_loop (suc fuel) path root
      ≡ readdir_entry (λ (inner : Entries). readdir_loop fuel tail inner) (find (c ∷ name) root)
unfolding readdir_loop
readdir_loop-step fuel c path name tail root e = ground (arith, e)

readdir_loop-listed_at :
    (names : List Bytes) (listing : Listing) (fuel : ℕ)
    → All IsName names
    → length (path_text names) ≤ fuel
    → readdir_loop (suc fuel) (path_text names) (scanned listing empty) ≡ listed_at names listing
readdir_loop-listed_at [] listing fuel v f = unfold readdir_loop split_path Base.find in refl
readdir_loop-listed_at ([] ∷ names) listing fuel v f = absurd (omega (arith, v.0.0))
readdir_loop-listed_at ((c ∷ name) ∷ names) listing zero (v, vs) f =
    absurd (omega (arith, f, path_text-some (c ∷ name) names v))
readdir_loop-listed_at ((c ∷ name) ∷ names) listing (suc fuel) (v, vs) f =
    readdir_loop-step (suc fuel) c (path_text ((c ∷ name) ∷ names)) name (path_text names)
      (scanned listing empty) (split_path-names (c ∷ name) names v)
    ∙ ap (readdir_entry (λ (inner : Entries). readdir_loop (suc fuel) (path_text names) inner))
        (find-scanned (c ∷ name) listing)
    ∙ at_node (first (c ∷ name) listing) (λ inner.
      readdir_loop-listed_at names inner fuel vs (omega (arith, f, longer (c ∷ name) names v)))
  where
    at_node :
        (node : Option Node)
        → ((inner : Listing)
            → readdir_loop (suc fuel) (path_text names) (scanned inner empty)
              ≡ listed_at names inner)
        → readdir_entry
            (λ (inner : Entries). readdir_loop (suc fuel) (path_text names) inner)
            (element_of node)
          ≡ listed_node (listed_at names) node
    at_node none within = refl
    at_node (some (regular file stream)) within = refl
    at_node (some (directory inner)) within = within inner
    at_node (some (other type)) within = refl

-- Over a scanned directory, listing a path of names hands over a dot, two dots and the keys of the
-- directory there, returns -ENOENT where nothing is, and throws for a regular file; the recursion ends.
pub readdir_impl-listed_at :
    (names : List Bytes) (listing : Listing)
    → All IsName names
    → readdir_impl (path_text names) (scanned listing empty) ≡ listed_at names listing
unfolding readdir_impl
readdir_impl-listed_at names listing v =
    readdir_loop-listed_at names listing (length (path_text names)) v (omega arith)

getattr_loop-below_file :
    (names : List Bytes) (listing : Listing) (tail content : Bytes) (fuel : ℕ)
    → All IsName names
    → content_at names listing ≡ some content
    → length (path_text names) ≤ fuel
    → getattr_loop (suc fuel) (path_text names ++ b'/' ∷ tail) (scanned listing empty)
      ≡ ok (some (content_values content))
getattr_loop-below_file [] listing tail content fuel v e f = absurd (cc)
getattr_loop-below_file ([] ∷ names) listing tail content fuel v e f = absurd (omega (arith, v.0.0))
getattr_loop-below_file ((c ∷ name) ∷ names) listing tail content zero (v, vs) e f =
    absurd (omega (arith, f, path_text-some (c ∷ name) names v))
getattr_loop-below_file ((c ∷ name) ∷ names) listing tail content (suc fuel) (v, vs) e f =
    getattr_loop-step (suc fuel) c (path_text ((c ∷ name) ∷ names) ++ b'/' ∷ tail) name
      (rest_text names tail) (scanned listing empty) (split_path-longer (c ∷ name) names tail v)
    ∙ ap (getattr_entry (λ (inner : Entries). getattr_loop (suc fuel) (rest_text names tail) inner))
        (find-scanned (c ∷ name) listing)
    ∙ at_node names (first (c ∷ name) listing) e
        (λ next rest inner vs' e' f'.
          getattr_loop-below_file (next ∷ rest) inner tail content fuel vs' e' f')
        vs (omega (arith, f, longer (c ∷ name) names v))
  where
    at_node :
        (names : List Bytes) (node : Option Node)
        → content_below names (content_at names) node ≡ some content
        → ((next : Bytes) (rest : List Bytes) (inner : Listing)
            → All IsName (next ∷ rest)
            → content_at (next ∷ rest) inner ≡ some content
            → length (path_text (next ∷ rest)) ≤ fuel
            → getattr_loop (suc fuel) (path_text (next ∷ rest) ++ b'/' ∷ tail) (scanned inner empty)
              ≡ ok (some (content_values content)))
        → All IsName names
        → length (path_text names) ≤ fuel
        → getattr_entry
            (λ (inner : Entries). getattr_loop (suc fuel) (rest_text names tail) inner)
            (element_of node)
          ≡ ok (some (content_values content))
    at_node names none e within vs f = absurd (cc)
    at_node names (some (other type)) e within vs f = absurd (cc)
    at_node [] (some (regular file stream)) e within vs f =
        let same : content_of file ≡ content = cc in
        ap (λ (t : Bytes). ok (some (content_values t))) same
    at_node (next ∷ rest) (some (regular file stream)) e within vs f = absurd (cc)
    at_node [] (some (directory inner)) e within vs f = absurd (cc)
    at_node (next ∷ rest) (some (directory inner)) e within vs f = within next rest inner vs e f

-- Over a scanned directory, where names lead to a regular file, at any depth, the text behind a slash
-- after them is ignored, whatever it is: the attributes are those of the file, where nothing is.
pub getattr_impl-below_file :
    (names : List Bytes) (listing : Listing) (tail content : Bytes)
    → All IsName names
    → content_at names listing ≡ some content
    → getattr_impl (path_text names ++ b'/' ∷ tail) (scanned listing empty)
      ≡ ok (some (content_values content))
unfolding getattr_impl
getattr_impl-below_file names listing tail content v e =
    getattr_loop-below_file names listing tail content (length (path_text names ++ b'/' ∷ tail)) v e
      (omega (arith, length-append (path_text names) (b'/' ∷ tail)))
