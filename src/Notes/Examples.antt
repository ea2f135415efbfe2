-- ===== src/Notes/Examples.antt =====
-- Two note segments, and the theorems at them.
use open_core_analysis_kit.Base.{
  ◌+◌, ◌≤◌, ◌<◌, ◌≡◌, refl, bit_and, ◌==◌, if◌then◌else◌, Bool-cases, inl, inr, Option, none, some,
  [], ◌∷◌, Memory, arith,
}
use open_core_analysis_kit.Notes.{
  NoteBlock, Auxv, File, find_auxv, find_file, file_contains, append_auxv_item,
}
use open_core_analysis_kit.Notes.Lookup.{IsFirst, items_of, find_auxv-IsFirst, find_file-IsFirst}
use open_core_analysis_kit.Notes.Append.{appended, append_auxv_item-appended}
use open_core_analysis_kit.Notes.Parse.{read_notes}
use open_core_analysis_kit.Notes.Ends.{Returns, HasNul, read_notes-Returns}

abbrev page_item : Auxv
page_item = record { address = 2000; type = 6; value = 4096 }

abbrev end_item : Auxv
end_item = record { address = 2016; type = 0; value = 0 }

abbrev library : File
library = record { begin = 0x7000; end = 0x9000; offset = 0; name = b'l' ∷ [] }

abbrev first_note : NoteBlock
first_note = record {
  oraddr = 1000;
  real_size = 28;
  overlay = none;
  auxv = page_item ∷ end_item ∷ [];
  auxv_max = 4;
  files = [];
  threads = [];
}

abbrev second_note : NoteBlock
second_note = record first_note { auxv = []; files = library ∷ [] }

-- A note of a thread with a name of four bytes, and one without name and data.
abbrev memory : Memory
memory a = if a == 1000 then 4 else (if a == 1008 then 1 else 0)

memory-HasNul : HasNul memory 2
memory-HasNul a = elim (Bool-cases (a == 1000)) [
  | inl e ↦ let at : a ≡ 1000 = ground (arith, e) in (1, omega arith, rw at refl)
  | inr e ↦ elim (Bool-cases (a == 1008)) [
    | inl f ↦ let at : a ≡ 1008 = ground (arith, f) in (1, omega arith, rw at refl)
    | inr f ↦ (0, omega arith, (let same : a + 0 ≡ a = omega arith in rw same (rw (e, f) refl)))
  ]
]

find_auxv-IsFirst_example :
    (found : Option Auxv) × IsFirst
      (λ a. a.type == 6)
      (items_of (λ b. b.auxv) (first_note ∷ second_note ∷ []))
      found
    × (find_auxv (first_note ∷ second_note ∷ []) 6 ≡ elim found [ none ↦ 0 | some a ↦ a.value ])
find_auxv-IsFirst_example = find_auxv-IsFirst (first_note ∷ second_note ∷ []) 6

find_file-IsFirst_example :
    IsFirst
      (λ f. file_contains f (bit_and 0x8000 0xffffffffffff))
      (items_of (λ b. b.files) (first_note ∷ second_note ∷ []))
      (find_file 0xffffffffffff (first_note ∷ second_note ∷ []) 0x8000)
find_file-IsFirst_example =
    find_file-IsFirst 0xffffffffffff (first_note ∷ second_note ∷ []) 0x8000 (omega arith)

append_auxv_item-appended_example :
    (2 < 4
      → (append_auxv_item (some 0x5000) 8 33 0x7000 (memory, first_note)).1.auxv
        ≡ appended 8 33 0x7000 (page_item ∷ []) 2016)
    × (4 ≤ 2
        → append_auxv_item (some 0x5000) 8 33 0x7000 (memory, first_note) ≡ (memory, first_note))
append_auxv_item-appended_example =
    append_auxv_item-appended (some 0x5000) 8 33 0x7000 (page_item ∷ []) end_item memory first_note
      (omega arith, tt) refl refl

read_notes-Returns_example : Returns (read_notes memory (λ type pos context. 77) 2 28 first_note)
read_notes-Returns_example =
    read_notes-Returns memory (λ type pos context. 77) 2 28 first_note memory-HasNul (omega arith)
      (omega arith)
