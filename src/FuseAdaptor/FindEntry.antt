-- ===== src/FuseAdaptor/FindEntry.antt =====
-- Looking up a name in the entries of an encoded directory.
use dogbox.Base.{ℕ, zero, suc, ◌≤◌, ◌≡◌, refl, ◌∙◌, Option, none, some, List, [], ◌∷◌, ◌++◌, arith}
use dogbox.Base.{
  length, length-append, if◌then◌else◌, Bool-cases, Option-cases, inl, inr, All, Bytes, IsByte,
  bytes_eq, bytes_eq_iff,
}
use dogbox.Base.{ap, sym, ◌≢◌, append_assoc, Result, ok, throw, to_do, All-of_append}
use dogbox.Trees.Directory.{DecodedEntry, decode_entry}
use dogbox.Trees.Directory.RoundTrip.{decode-entry_bytes}
use dogbox.Trees.Directory.Format.{IsEntry, entry_bytes, encode, encode-append}
use dogbox.Trees.Directory.RoundTrip.{decode_entry-IsEntry, decode_entry-length}
use dogbox.Trees.DirectoryTree.{directory_bytes}
use dogbox.FuseAdaptor.{find_entry_loop, find_entry}

-- The first entry with a name.
abbrev pub first_named : Bytes → List DecodedEntry → Option DecodedEntry
first_named name [] = none
first_named name (e ∷ entries) = if bytes_eq e.name name then some e else first_named name entries

find_entry_loop-step :
    (fuel : ℕ) (b : ℕ) (cursor cursor' name : Bytes) (e : DecodedEntry)
    → decode_entry (b ∷ cursor) ≡ some (e, cursor')
    → find_entry_loop (suc fuel) (b ∷ cursor) name
      ≡ (if bytes_eq e.name name then ok (some e) else find_entry_loop fuel cursor' name)
unfolding find_entry_loop
find_entry_loop-step fuel b cursor cursor' name e q = ground (arith, q)

find_entry_loop-broken :
    (fuel b : ℕ) (cursor name : Bytes)
    → decode_entry (b ∷ cursor) ≡ none
    → find_entry_loop (suc fuel) (b ∷ cursor) name ≡ throw to_do
unfolding find_entry_loop
find_entry_loop-broken fuel b cursor name q = ground (arith, q)

find_entry_loop-entries :
    (fuel : ℕ) (entries : List DecodedEntry) (name : Bytes)
    → All IsEntry entries
    → length (directory_bytes entries) ≤ fuel
    → find_entry_loop fuel (directory_bytes entries) name ≡ ok (first_named name entries)
find_entry_loop-entries fuel [] name v f = unfold find_entry_loop in refl
find_entry_loop-entries zero (e ∷ entries) name v f = absurd (omega (arith, f))
find_entry_loop-entries (suc fuel) (e ∷ entries) name (v, vs) f =
    find_entry_loop-step fuel _ _ (directory_bytes entries) name e
      (decode-entry_bytes e (directory_bytes entries) v)
    ∙ elim (Bool-cases (bytes_eq e.name name)) [
      | inl same ↦ rw same refl
      | inr other ↦ rw other (
          find_entry_loop-entries fuel entries name vs
            (omega (arith, f, length-append (entry_bytes e) (directory_bytes entries))))
    ]

-- In the encoding of a list of entries that the format can express, the first one with the name is
-- found, or none where no entry has it.
pub find_entry-entries :
    (entries : List DecodedEntry) (name : Bytes)
    → All IsEntry entries
    → find_entry (directory_bytes entries) name ≡ ok (first_named name entries)
unfolding find_entry
find_entry-entries entries name v =
    find_entry_loop-entries (length (directory_bytes entries)) entries name v (omega arith)

-- What a search is to come to, for any bytes. The bytes are the encoding of some entries, none of which
-- has the name, and behind them nothing, an entry that has it, or bytes that begin with no entry.
pub data Outcome (blob name : Bytes) (result : Result (Option DecodedEntry)) : Type 0 where
  absent :
      (entries : List DecodedEntry)
      → All IsEntry entries
      → All (λ e. e.name ≢ name) entries
      → blob ≡ directory_bytes entries
      → result ≡ ok none
      → Outcome blob name result
  present :
      (before : List DecodedEntry) (e : DecodedEntry) (rest : Bytes)
      → All IsEntry before
      → All (λ e. e.name ≢ name) before
      → IsEntry e
      → e.name ≡ name
      → blob ≡ directory_bytes before ++ (entry_bytes e ++ rest)
      → result ≡ ok (some e)
      → Outcome blob name result
  broken :
      (before : List DecodedEntry) (rest : Bytes)
      → All IsEntry before
      → All (λ e. e.name ≢ name) before
      → rest ≢ []
      → ((e : DecodedEntry) (left : Bytes) → IsEntry e → rest ≡ entry_bytes e ++ left → ⊥)
      → blob ≡ directory_bytes before ++ rest
      → result ≡ throw to_do
      → Outcome blob name result

-- An entry with another name in front.
pass :
    (e : DecodedEntry) (blob rest name : Bytes) (result : Result (Option DecodedEntry))
    → IsEntry e
    → e.name ≢ name
    → blob ≡ entry_bytes e ++ rest
    → Outcome rest name result
    → Outcome blob name result
pass e blob rest name result v other text (absent entries vs others split done) =
    absent (e ∷ entries) (v, vs) (other, others)
      (text ∙ ap (λ (t : Bytes). entry_bytes e ++ t) split) done
pass e blob rest name result v other text (present before found left vs others w same split done) =
    present (e ∷ before) found left (v, vs) (other, others) w same
      (text
        ∙ ap (λ (t : Bytes). entry_bytes e ++ t) split
        ∙ sym (append_assoc (entry_bytes e) (directory_bytes before) (entry_bytes found ++ left)))
      done
pass e blob rest name result v other text
      (broken before left vs others some_left none_there split done) =
    broken (e ∷ before) left (v, vs) (other, others) some_left none_there
      (text
        ∙ ap (λ (t : Bytes). entry_bytes e ++ t) split
        ∙ sym (append_assoc (entry_bytes e) (directory_bytes before) left))
      done

-- Bytes that do not decode begin with no entry.
undecoded :
    (cursor : Bytes) (e : DecodedEntry) (left : Bytes)
    → decode_entry cursor ≡ none
    → IsEntry e
    → cursor ≡ entry_bytes e ++ left
    → ⊥
undecoded cursor e left q v text =
    let read = ap decode_entry text ∙ decode-entry_bytes e left v in absurd (cc)

bytes_left :
    (input rest : Bytes) (e : DecodedEntry)
    → All IsByte input
    → input ≡ encode e [] ++ rest
    → All IsByte rest
bytes_left input rest e v text = (All-of_append IsByte (encode e []) rest (rw text at v)).1

find_entry_loop-Outcome :
    (fuel : ℕ) (cursor name : Bytes)
    → All IsByte cursor
    → length cursor ≤ fuel
    → Outcome cursor name (find_entry_loop fuel cursor name)
find_entry_loop-Outcome fuel [] name v f = absent [] tt tt refl (unfold find_entry_loop in refl)
find_entry_loop-Outcome zero (b ∷ cursor) name v f = absurd (omega (arith, f))
find_entry_loop-Outcome (suc fuel) (b ∷ cursor) name v f =
    elim (Option-cases (decode_entry (b ∷ cursor))) [
      | inl fails ↦
          broken [] (b ∷ cursor) tt tt (λ q. absurd (cc))
            (λ e left w text. undecoded (b ∷ cursor) e left fails w text) refl
            (find_entry_loop-broken fuel b cursor name fails)
      | inr ((e, cursor'), q) ↦
          let (sound, text) = decode_entry-IsEntry (b ∷ cursor) cursor' e v q in
          let left = bytes_left (b ∷ cursor) cursor' e v text in
          let split : b ∷ cursor ≡ entry_bytes e ++ cursor' =
            text ∙ ap (λ (t : Bytes). t ++ cursor') (encode-append e []) in
          rw (find_entry_loop-step fuel b cursor cursor' name e q)
            (elim (Bool-cases (bytes_eq e.name name)) [
              | inl same ↦
                  rw same (
                    present [] e cursor' tt tt sound ((bytes_eq_iff e.name name).0 same) split refl)
              | inr other ↦ rw other (
                  pass e (b ∷ cursor) cursor' name (find_entry_loop fuel cursor' name) sound
                    (λ same. absurd (cc ((bytes_eq_iff e.name name).1 same))) split
                    (find_entry_loop-Outcome fuel cursor' name left
                      (omega (arith, f, decode_entry-length (b ∷ cursor) cursor' e v q))))
            ])
    ]

-- The search ends for every blob, within the loop's bound, and passes over the entries in front that have
-- another name. Behind them it finds the end of the blob and returns nothing, or an entry of the name,
-- which it returns, or bytes with which no entry that the format can express begins; then it throws.
pub find_entry-Outcome :
    (blob name : Bytes) → All IsByte blob → Outcome blob name (find_entry blob name)
unfolding find_entry
find_entry-Outcome blob name v = find_entry_loop-Outcome (length blob) blob name v (omega arith)
