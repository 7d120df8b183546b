-- ===== src/FuseAdaptor/Requests/Slots.antt =====
-- The slots of the open files stand for the descriptors that were handed out.
use dogbox.Base.{ℕ, ◌≡◌, ◌≢◌, refl, sym, ◌⊎◌, inl, inr, Bool-cases, ◌==◌, ==_iff}
use dogbox.Base.{
  Option, none, some, Option-cases, List, get_elem?, set, get_elem?-set_self, get_elem?-set_ne,
}
use dogbox.Base.{Bytes}
use dogbox.HashCode.{Sha256HashCode}
use dogbox.BlobStorage.Interface.{BlobStore, IsBlobStore}
use dogbox.Trees.ImportDirectory.Tree.{HoldsFile}
use dogbox.Trees.ReadFile.{OpenFile}
use dogbox.FuseAdaptor.Files.{take_slot}
use dogbox.FuseAdaptor.OpenFiles.{Opens, take_slot-other, take_slot_lem, get_elem?-inside}
use dogbox.FuseAdaptor.Handles.{IsOpen}
use dogbox.FuseAdaptor.Requests.{Descriptors, update}

module _ (B : BlobStore) (sha256 : Bytes → Sha256HashCode) (I : IsBlobStore B sha256)
    (db : B.Database) where
  -- The slot of a descriptor: free, or out of range, where it is not in use; otherwise a file of its
  -- content, whose pieces and index are stored.
  abbrev pub SlotOf : Option Bytes → Option (Option OpenFile) → Type 0
  SlotOf none slot = (slot ≡ none) ⊎ (slot ≡ some none)
  SlotOf (some content) slot =
      (opened : OpenFile) × (slot ≡ some (some opened))
      × IsOpen sha256 content opened
      × HoldsFile B sha256 I db content

  abbrev pub Slots : List (Option OpenFile) → Descriptors → Type 0
  Slots files descriptors = (fh : ℕ) → SlotOf (descriptors fh) (get_elem? files fh)

  -- One slot changes, with its descriptor.
  Slots-update :
      (files files' : List (Option OpenFile)) (descriptors : Descriptors) (fh : ℕ)
      (content : Option Bytes)
      → Slots files descriptors
      → ((j : ℕ) → j ≢ fh → get_elem? files' j ≡ get_elem? files j)
      → SlotOf content (get_elem? files' fh)
      → Slots files' (update descriptors fh content)
  Slots-update files files' descriptors fh content slots others here j =
      elim (Bool-cases (j == fh)) [
        | inl same ↦ rw (same, (==_iff j fh).0 same) here
        | inr apart ↦ rw (apart, others j (λ e. absurd (cc (apart, (==_iff j fh).1 e)))) (slots j)
      ]

  -- A descriptor in use has an open file of its content, and another one has none.
  pub Slots-used :
      (files : List (Option OpenFile)) (descriptors : Descriptors) (fh : ℕ) (content : Bytes)
      → Slots files descriptors
      → descriptors fh ≡ some content
      → SlotOf (some content) (get_elem? files fh)
  Slots-used files descriptors fh content slots used = rw used at (slots fh)

  Slots-free :
      (files : List (Option OpenFile)) (descriptors : Descriptors) (fh : ℕ)
      → Slots files descriptors
      → ((opened : OpenFile) → Opens files fh opened → ⊥)
      → descriptors fh ≡ none
  Slots-free files descriptors fh slots free = elim (Option-cases (descriptors fh)) [
    | inl unused ↦ unused
    | inr (content, used) ↦
        let (opened, at, _, _) = Slots-used files descriptors fh content slots used in
        absurd (free opened at)
  ]

  -- What opening, reading and releasing make of the slots.
  pub Slots-take_slot :
      (files : List (Option OpenFile)) (descriptors : Descriptors) (opened : OpenFile)
      (content : Bytes)
      → Slots files descriptors
      → IsOpen sha256 content opened
      → HoldsFile B sha256 I db content
      → let (fh, files') = take_slot opened files in
        (descriptors fh ≡ none) × Slots files' (update descriptors fh (some content))
  Slots-take_slot files descriptors opened content slots v held =
      let (fh, files') = take_slot opened files in
      let (here, keeps) = take_slot_lem opened files in
      (
        Slots-free files descriptors fh slots (λ o h. (keeps fh o h).0 refl),
        Slots-update files files' descriptors fh (some content) slots (take_slot-other opened files)
            (opened, here, v, held),
      )

  Slots-set :
      (files : List (Option OpenFile)) (descriptors : Descriptors) (fh : ℕ) (content : Option Bytes)
      (opened : OpenFile) (slot : Option OpenFile)
      → Slots files descriptors
      → Opens files fh opened
      → SlotOf content (some slot)
      → Slots (set files fh slot) (update descriptors fh content)
  Slots-set files descriptors fh content opened slot slots h here =
      Slots-update files (set files fh slot) descriptors fh content slots
        (λ j apart. get_elem?-set_ne files fh j slot (λ e. apart (sym e)))
        (rw (get_elem?-set_self files fh slot (get_elem?-inside files fh (some opened) h)) here)

  pub Slots-release :
      (files : List (Option OpenFile)) (descriptors : Descriptors) (fh : ℕ) (opened : OpenFile)
      → Slots files descriptors
      → Opens files fh opened
      → Slots (set files fh none) (update descriptors fh none)
  Slots-release files descriptors fh opened slots h =
      Slots-set files descriptors fh none opened none slots h (inr refl)

  pub Slots-read :
      (files : List (Option OpenFile)) (descriptors : Descriptors) (fh : ℕ) (content : Bytes)
      (opened opened' : OpenFile)
      → Slots files descriptors
      → descriptors fh ≡ some content
      → Opens files fh opened
      → IsOpen sha256 content opened'
      → HoldsFile B sha256 I db content
      → Slots (set files fh (some opened')) descriptors
  Slots-read files descriptors fh content opened opened' slots used h v held j =
      rw (unchanged j) at (
        Slots-set files descriptors fh (some content) opened (some opened') slots h
          (opened', refl, v, held) j)
    where
      unchanged : (j : ℕ) → update descriptors fh (some content) j ≡ descriptors j
      unchanged j = elim (Bool-cases (j == fh)) [
        | inl same ↦ rw (same, (==_iff j fh).0 same) (sym used)
        | inr apart ↦ rw apart refl
      ]
