-- ===== src/InMemory/Scan.antt =====
-- What the scan of a directory leaves in memory.
use dogbox.Base.{
  ℕ, ◌≡◌, refl, ap, ◌∙◌, inl, inr, Bool-cases, Option, none, some, Bytes, bytes_eq, length,
}
use dogbox.Base.{if◌then◌else◌, Bool, true, false, sym, ok, arith}
use dogbox.Base.Int.{pos, ◌-ℤ◌}
use dogbox.External.FileSystem.{Stream, StreamsContent, content_of, Listing, end, entry}
use dogbox.External.FileSystem
use dogbox.External.Listings.{first, AreScannable}
use dogbox.InMemory.{DirectoryEntry, regular_file, directory, Entries, empty, insert, find}
use dogbox.InMemory.{scan_regular_file, scan_entries, scan_directory}
use dogbox.InMemory.Map.{IsMap, insert-IsMap, or_inserted, find-insert}

-- The elements of a directory, inserted one by one.
abbrev pub scanned : Listing → Entries → Entries
scanned end entries = entries
scanned (entry name (FileSystem.regular file stream) i) entries =
    scanned i (insert name (regular_file (content_of file)) entries)
scanned (entry name (FileSystem.directory inner) i) entries =
    scanned i (insert name (directory (scanned inner empty)) entries)
scanned (entry name (FileSystem.other type) i) entries = scanned i entries

minus_zero : (n : ℕ) → pos n -ℤ pos 0 ≡ pos n
minus_zero n = ground arith

pub scan_regular_file-StreamsContent :
    (stream : Stream) (content : Bytes)
    → StreamsContent stream content
    → scan_regular_file stream ≡ ok content
unfolding scan_regular_file
scan_regular_file-StreamsContent stream content h =
    rw (h.opens, h.at_beginning, h.at_end, minus_zero (length content)) (rw (h.read) refl)

scan_entries-scanned :
    (listing : Listing) (entries : Entries)
    → AreScannable listing
    → scan_entries listing entries ≡ ok (scanned listing entries)
unfolding scan_entries
scan_entries-scanned end entries h = refl
scan_entries-scanned (entry name (FileSystem.regular file stream) i) entries (content, h) =
    rw (scan_regular_file-StreamsContent stream (content_of file) content)
      (scan_entries-scanned i (insert name (regular_file (content_of file)) entries) h)
scan_entries-scanned (entry name (FileSystem.directory inner) i) entries (below, h) =
    rw (scan_entries-scanned inner empty below)
      (scan_entries-scanned i (insert name (directory (scanned inner empty)) entries) h)
scan_entries-scanned (entry name (FileSystem.other type) i) entries h =
    scan_entries-scanned i entries h

pub scanned-IsMap :
    (listing : Listing) (entries : Entries) → IsMap entries → IsMap (scanned listing entries)
scanned-IsMap end entries h = h
scanned-IsMap (entry name (FileSystem.regular file stream) i) entries h =
    scanned-IsMap i (insert name (regular_file (content_of file)) entries)
      (insert-IsMap name (regular_file (content_of file)) entries tt h)
scanned-IsMap (entry name (FileSystem.directory inner) i) entries h =
    scanned-IsMap i (insert name (directory (scanned inner empty)) entries)
      (insert-IsMap name (directory (scanned inner empty)) entries (scanned-IsMap inner empty tt) h)
scanned-IsMap (entry name (FileSystem.other type) i) entries h = scanned-IsMap i entries h

-- The element for a node of the file system.
abbrev pub element_of : Option FileSystem.Node → Option DirectoryEntry
element_of none = none
element_of (some (FileSystem.regular file stream)) = some (regular_file (content_of file))
element_of (some (FileSystem.directory inner)) = some (directory (scanned inner empty))
element_of (some (FileSystem.other type)) = none

abbrev or_else : Option DirectoryEntry → Option DirectoryEntry → Option DirectoryEntry
or_else none second = second
or_else (some first) second = some first

-- One more element, before the others.
or_else-element :
    (key name : Bytes) (value : DirectoryEntry) (found later : Option DirectoryEntry)
    → or_else (or_inserted key name value found) later
      ≡ or_else found (if bytes_eq name key then some value else later)
or_else-element key name value (some old) later = refl
or_else-element key name value none later = elim (Bool-cases (bytes_eq name key)) [
  | inl same ↦ rw same refl
  | inr differs ↦ rw differs refl
]

push_if :
    (b : Bool) (node : FileSystem.Node) (rest : Option FileSystem.Node)
    → element_of (if b then some node else rest)
      ≡ (if b then element_of (some node) else element_of rest)
push_if true node rest = refl
push_if false node rest = refl

find-scanned_onto :
    (key : Bytes) (listing : Listing) (entries : Entries)
    → IsMap entries
    → find key (scanned listing entries)
      ≡ or_else (find key entries) (element_of (first key listing))
find-scanned_onto key end entries h = nothing_more (find key entries)
  where
    nothing_more : (found : Option DirectoryEntry) → found ≡ or_else found none
    nothing_more none = refl
    nothing_more (some old) = refl
find-scanned_onto key (entry name (FileSystem.regular file stream) i) entries h =
    let value = regular_file (content_of file) in
    find-scanned_onto key i (insert name value entries) (insert-IsMap name value entries tt h)
    ∙ ap (λ t. or_else t (element_of (first key i))) (find-insert key name value entries h)
    ∙ or_else-element key name value (find key entries) (element_of (first key i))
    ∙ ap (or_else (find key entries))
        (sym (push_if (bytes_eq name key) (FileSystem.regular file stream) (first key i)))
find-scanned_onto key (entry name (FileSystem.directory inner) i) entries h =
    let value = directory (scanned inner empty) in
    find-scanned_onto key i (insert name value entries)
      (insert-IsMap name value entries (scanned-IsMap inner empty tt) h)
    ∙ ap (λ t. or_else t (element_of (first key i))) (find-insert key name value entries h)
    ∙ or_else-element key name value (find key entries) (element_of (first key i))
    ∙ ap (or_else (find key entries))
        (sym (push_if (bytes_eq name key) (FileSystem.directory inner) (first key i)))
find-scanned_onto key (entry name (FileSystem.other type) i) entries h =
    find-scanned_onto key i entries h

pub find-scanned :
    (key : Bytes) (listing : Listing)
    → find key (scanned listing empty) ≡ element_of (first key listing)
find-scanned key listing = unfold find in find-scanned_onto key listing empty tt

pub scan_directory-scanned :
    (listing : Listing) → AreScannable listing → scan_directory listing ≡ ok (scanned listing empty)
unfolding scan_directory
scan_directory-scanned listing h = scan_entries-scanned listing empty h

-- A directory whose files can be read is scanned to a map whose keys increase, at any depth; under each
-- name it has the first regular file, with its content, or directory that has the name, in whatever order
-- the iterator came across them, and nothing else.
pub scan_directory-IsMap :
    (listing : Listing)
    → AreScannable listing
    → (entries : Entries) × (scan_directory listing ≡ ok entries)
      × IsMap entries
      × ((name : Bytes) → find name entries ≡ element_of (first name listing))
scan_directory-IsMap listing h = (
  scanned listing empty,
  scan_directory-scanned listing h,
  scanned-IsMap listing empty tt,
  λ name. find-scanned name listing,
)
