-- ===== src/Notes/Lookup.antt =====
-- The searches of core/api/core.cpp over the notes: the first match in the items of all notes, in
-- the order of the notes.
use open_core_analysis_kit.Base.{
  ℕ, bit_and, ◌≡◌, ◌≢◌, refl, sym, ap, ◌∙◌, ◌==◌, Bool, true, false, Bool-cases, inl, inr, Option,
  none, some, Option-cases, List, [], ◌∷◌, ◌++◌, All, arith,
}
use open_core_analysis_kit.Notes.{
  NoteBlock, File, file_contains, foreach_item, foreach_block, find_item, find_block, file_callback,
  find_file, find_auxv, Auxv,
}

abbrev pub items_of : {A : Type 0} → (NoteBlock → List A) → List NoteBlock → List A
items_of items [] = []
items_of items (b ∷ rest) = items b ++ items_of items rest

-- The first item of a kind, or none if there is none.
abbrev pub IsFirst : {A : Type 0} → (A → Bool) → List A → Option A → Type 0
IsFirst test items none = All (λ a. test a ≡ false) items
IsFirst {A = A} test items (some a) =
    (before after : List A) × (items ≡ before ++ (a ∷ after))
    × (test a ≡ true)
    × All (λ b. test b ≡ false) before

module _ {A : Type 0} (test : A → Bool) where
  IsFirst-cons :
      (a : A) (items : List A) (found : Option A)
      → test a ≡ false
      → IsFirst test items found
      → IsFirst test (a ∷ items) found
  IsFirst-cons a items none other h = (other, h)
  IsFirst-cons a items (some b) other (before, after, e, yes', h) =
      (a ∷ before, after, ap (λ l. a ∷ l) e, yes', (other, h))

  pub find_item-IsFirst : (items : List A) → IsFirst test items (find_item test items)
  unfolding find_item
  find_item-IsFirst [] = tt
  find_item-IsFirst (a ∷ rest) = elim (Bool-cases (test a)) [
    | inl here ↦ rw (find_item, here) ([], rest, refl, here, tt)
    | inr other ↦
        rw (find_item, other)
          (IsFirst-cons a rest (find_item test rest) other (find_item-IsFirst rest))
  ]

  find_item-append :
      (xs ys : List A)
      → find_item test (xs ++ ys)
        ≡ elim (find_item test xs) [ some a ↦ some a | none ↦ find_item test ys ]
  unfolding find_item
  find_item-append [] ys = refl
  find_item-append (a ∷ rest) ys = elim (Bool-cases (test a)) [
    | inl here ↦ rw (find_item, here) refl
    | inr other ↦ rw (find_item, other) (find_item-append rest ys)
  ]

  find_block-items :
      (items : NoteBlock → List A) (notes : List NoteBlock)
      → find_block test items notes ≡ find_item test (items_of items notes)
  unfolding find_block find_item
  find_block-items items [] = refl
  find_block-items items (b ∷ rest) =
      ap (λ (later : Option A). elim (find_item test (items b)) [ some a ↦ some a | none ↦ later ])
        (find_block-items items rest)
      ∙ sym (find_item-append (items b) (items_of items rest))

-- `findAuxv` gives the value of the first item of the type in all notes, and 0 if there is none.
pub find_auxv-IsFirst :
    (notes : List NoteBlock) (type : ℕ)
    → (found : Option Auxv) × IsFirst (λ a. a.type == type) (items_of (λ b. b.auxv) notes) found
      × (find_auxv notes type ≡ elim found [ none ↦ 0 | some a ↦ a.value ])
unfolding find_auxv
find_auxv-IsFirst notes type =
    let test = λ (a : Auxv). a.type == type in
    let all = items_of (λ b. b.auxv) notes in
    (
      find_item test all,
      find_item-IsFirst test all,
      ap (λ (f : Option Auxv). elim f [ none ↦ 0 | some a ↦ a.value ])
          (find_block-items test (λ b. b.auxv) notes),
    )

module _ (vaddr : ℕ) where
  abbrev holds : File → Bool
  holds f = file_contains f vaddr

  abbrev told : Option File → Option File × Bool
  told none = (none, false)
  told (some f) = (some f, true)

  foreach_item-find :
      (files : List File)
      → foreach_item (file_callback vaddr) files none ≡ told (find_item holds files)
  unfolding foreach_item find_item
  foreach_item-find [] = refl
  foreach_item-find (f ∷ rest) = elim (Bool-cases (file_contains f vaddr)) [
    | inl here ↦
        let got : file_callback vaddr f none ≡ (some f, true) = rw here refl in
        rw (foreach_item, find_item, here, got) refl
    | inr other ↦
        let got : file_callback vaddr f none ≡ (none, false) = rw other refl in
        rw (foreach_item, find_item, other, got) (foreach_item-find rest)
  ]

  foreach_block-find :
      (notes : List NoteBlock)
      → foreach_block (file_callback vaddr) (λ b. b.files) notes none
        ≡ find_block holds (λ b. b.files) notes
  unfolding foreach_block find_block
  foreach_block-find [] = refl
  foreach_block-find (b ∷ rest) =
      let first = foreach_item-find b.files in
      elim (Option-cases (find_item holds b.files)) [
        | inl e ↦
            let got : foreach_item (file_callback vaddr) b.files none ≡ (none, false) =
              first ∙ rw e refl in
            rw (foreach_block, find_block, got, e, got) (foreach_block-find rest)
        | inr (f, e) ↦
            let got : foreach_item (file_callback vaddr) b.files none ≡ (some f, true) =
              first ∙ rw e refl in
            rw (foreach_block, find_block, got, e, got) refl
      ]

-- `FindFile` of a nonzero address gives the first file of all notes whose range holds the address
-- under the mask, and none if there is none.
pub find_file-IsFirst :
    (vabits_mask : ℕ) (notes : List NoteBlock) (vaddr : ℕ)
    → vaddr ≢ 0
    → IsFirst
        (λ f. file_contains f (bit_and vaddr vabits_mask))
        (items_of (λ b. b.files) notes)
        (find_file vabits_mask notes vaddr)
unfolding find_file
find_file-IsFirst vabits_mask notes vaddr nz =
    let there : (vaddr == 0) ≡ false = ground (arith, nz) in
    let a = bit_and vaddr vabits_mask in
    let test = λ (f : File). file_contains f a in
    let eq : find_file vabits_mask notes vaddr ≡ find_item test (items_of (λ b. b.files) notes) =
      rw (find_file, there)
        (foreach_block-find a notes ∙ find_block-items test (λ b. b.files) notes) in
    rw eq (find_item-IsFirst test (items_of (λ b. b.files) notes))
