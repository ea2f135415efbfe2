-- ===== src/Notes.antt =====
-- The notes of a core file: `NoteBlock`, `Auxv` and `File` of core/common, and the searches of
-- core/api/core.cpp.
pub mod Parse
pub mod Lookup
pub mod Append
pub mod Ends
mod Examples
use open_core_analysis_kit.Base.{
  ℕ, zero, suc, ◌+◌, ◌*◌, ◌/◌, ◌%◌, ◌^◌, bit_and, ltb, leb, ◌==◌, if◌then◌else◌, ◌&&◌, not, Bool,
  true, false, Option, none, some, List, [], ◌∷◌, ◌++◌, length, Memory, add64, sub64, u64_mod,
}
use open_core_analysis_kit.Load.Block.{MemoryMap, anon_map, memcpy}

pub record Auxv : Type 0 where
  pub address : ℕ
  pub type : ℕ
  pub value : ℕ

pub record File : Type 0 where
  pub begin : ℕ
  pub end : ℕ
  pub offset : ℕ
  pub name : List ℕ

-- A thread is the context that an architecture's callback makes.
pub record NoteBlock : Type 0 where
  pub oraddr : ℕ
  pub real_size : ℕ
  pub overlay : Option MemoryMap
  pub auxv : List Auxv
  pub auxv_max : ℕ
  pub files : List File
  pub threads : List ℕ

abbrev pub at_null : ℕ
at_null = 0

abbrev pub at_pagesz : ℕ
at_pagesz = 6

unfoldable pub set_auxv_max_count : ℕ → NoteBlock → NoteBlock
set_auxv_max_count max b = record b { auxv_max = max }

unfoldable pub add_auxv_item : ℕ → ℕ → ℕ → NoteBlock → NoteBlock
add_auxv_item addr type value b = record b {
  auxv = b.auxv ++ (record { address = addr; type = type; value = value } ∷ []);
}

-- `newOverlay`: a copy of the note; `anon` is what `mmap` returns, or `none` for MAP_FAILED.
unfoldable pub note_new_overlay : Option ℕ → Memory → NoteBlock → Memory × NoteBlock
note_new_overlay anon m b = elim b.overlay [
  | some o ↦ (m, b)
  | none ↦ elim anon [
    | none ↦ (m, b)
    | some addr ↦ (
      memcpy m addr (λ i. m (b.oraddr + i)) b.real_size,
      record b { overlay = some (anon_map addr b.real_size) },
    )
  ]
]

-- `setOverlay`.
unfoldable pub note_set_overlay :
    Option ℕ → ℕ → (ℕ → ℕ) → ℕ → Memory × NoteBlock → Memory × NoteBlock
unfolding note_new_overlay
note_set_overlay anon addr buf n (m, b) =
    let r = note_new_overlay anon m b in
    elim r.1.overlay [
      | none ↦ r
      | some o ↦ (memcpy r.0 (add64 o.data_at (sub64 addr b.oraddr)) buf n, r.1)
    ]

unfoldable pub note_remove_overlay : NoteBlock → NoteBlock
note_remove_overlay b = record b { overlay = none }

-- The bytes of a number, lowest first.
abbrev pub byte_of : ℕ → ℕ → ℕ
byte_of value zero = value % 256
byte_of value (suc i) = byte_of (value / 256) i

abbrev pub retype : ℕ → ℕ → ℕ → List Auxv → List Auxv
retype i type value [] = []
retype zero type value (a ∷ rest) = record a { type = type; value = value } ∷ rest
retype (suc i) type value (a ∷ rest) = a ∷ retype i type value rest

-- `setTypeAndValue` of the item at a position: the overlay, and the item.
unfoldable pub set_type_and_value :
    Option ℕ
    → (point_size : ℕ) → (i type value : ℕ) → Auxv
    → Memory × NoteBlock
    → Memory × NoteBlock
unfolding note_set_overlay
set_type_and_value anon point_size i type value a s =
    let s1 = note_set_overlay anon a.address (byte_of type) point_size s in
    let s2 = note_set_overlay anon (add64 a.address point_size) (byte_of value) point_size s1 in
    (s2.0, record s2.1 { auxv = retype i type value s2.1.auxv })

-- The loop of `appendAuxvItem`, from position `i` on: the first AT_NULL takes the item, and a new
-- AT_NULL follows the items.
unfoldable pub append_at :
    Option ℕ → (point_size type value i : ℕ) → List Auxv → Memory × NoteBlock → Memory × NoteBlock
unfolding set_type_and_value add_auxv_item
append_at anon point_size type value i [] s = s
append_at anon point_size type value i (a ∷ rest) s = elim (a.type == at_null) [
  | false ↦ append_at anon point_size type value (suc i) rest s
  | true ↦
      let set = set_type_and_value anon point_size i type value a s in
      (set.0, add_auxv_item (add64 a.address (2 * point_size)) at_null 0 set.1)
]

-- `appendAuxvItem`.
unfoldable pub append_auxv_item :
    Option ℕ → (point_size type value : ℕ) → Memory × NoteBlock → Memory × NoteBlock
unfolding append_at
append_auxv_item anon point_size type value s =
    if ltb (length s.1.auxv) s.1.auxv_max
    then append_at anon point_size type value 0 s.1.auxv s
    else s

-- Whether a text begins with another one, and whether it has it somewhere: `std::string::find`.
unfoldable pub begins : List ℕ → List ℕ → Bool
begins [] text = true
begins (c ∷ cs) [] = false
begins (c ∷ cs) (d ∷ ds) = c == d && begins cs ds

unfoldable pub occurs : List ℕ → List ℕ → Bool
unfolding begins
occurs word [] = begins word []
occurs word (c ∷ cs) = if begins word (c ∷ cs) then true else occurs word cs

abbrev pub drop : ℕ → List ℕ → List ℕ
drop zero text = text
drop (suc n) [] = []
drop (suc n) (c ∷ cs) = drop n cs

-- "/first_stage_ramdisk".
abbrev pub first_stage_ramdisk : List ℕ
first_stage_ramdisk =
    0x2f ∷ 0x66 ∷ 0x69 ∷ 0x72 ∷ 0x73 ∷ 0x74 ∷ 0x5f ∷ 0x73 ∷ 0x74 ∷ 0x61 ∷ 0x67 ∷ 0x65 ∷ 0x5f ∷ 0x72
    ∷ 0x61 ∷ 0x6d ∷ 0x64 ∷ 0x69 ∷ 0x73 ∷ 0x6b ∷ []

-- The constructor of `File`: the name loses its first bytes if the word is anywhere in it.
unfoldable pub new_file : (begin end offset : ℕ) → List ℕ → File
unfolding occurs
new_file begin end offset name = record {
  begin = begin;
  end = end;
  offset = offset;
  name = if occurs first_stage_ramdisk name then drop (length first_stage_ramdisk) name else name;
}

-- `addFileItem`; offsets are counted in pages of 4096 bytes.
unfoldable pub add_file_item : (begin end offset : ℕ) → List ℕ → NoteBlock → NoteBlock
unfolding new_file
add_file_item begin end offset name b = record b {
  files = b.files ++ (new_file begin end (offset * 2 ^ 12 % u64_mod) name ∷ []);
}

-- `addThreadItem`.
unfoldable pub add_thread_item : ℕ → NoteBlock → NoteBlock
add_thread_item thread b =
    if thread == 0 then b else record b { threads = b.threads ++ (thread ∷ []) }

-- `contains`.
abbrev pub file_contains : File → ℕ → Bool
file_contains f vaddr = leb f.begin vaddr && ltb vaddr f.end

module _ {ℓ κ} {A : Type ℓ} {S : Type κ} (callback : A → S → S × Bool) where
  -- Two nested loops over the items of all blocks, which end at a callback that returns true.
  unfoldable pub foreach_item : List A → S → S × Bool
  foreach_item [] s = (s, false)
  foreach_item (a ∷ rest) s =
      let r = callback a s in elim r.1 [ true ↦ (r.0, true) | false ↦ foreach_item rest r.0 ]

  unfoldable pub foreach_block : (NoteBlock → List A) → List NoteBlock → S → S
  unfolding foreach_item
  foreach_block items [] s = s
  foreach_block items (b ∷ rest) s =
      let r = foreach_item (items b) s in
      elim r.1 [ true ↦ r.0 | false ↦ foreach_block items rest r.0 ]

module _ {ℓ} {A : Type ℓ} (test : A → Bool) where
  -- Two nested loops that return the first item of a kind.
  unfoldable pub find_item : List A → Option A
  find_item [] = none
  find_item (a ∷ rest) = elim (test a) [ true ↦ some a | false ↦ find_item rest ]

  unfoldable pub find_block : (NoteBlock → List A) → List NoteBlock → Option A
  unfolding find_item
  find_block items [] = none
  find_block items (b ∷ rest) = elim (find_item (items b)) [
    | some a ↦ some a
    | none ↦ find_block items rest
  ]

-- `findAuxv`.
unfoldable pub find_auxv : List NoteBlock → ℕ → ℕ
unfolding find_block
find_auxv notes type = elim (find_block (λ a. a.type == type) (λ b. b.auxv) notes) [
  | none ↦ 0
  | some a ↦ a.value
]

-- `findThread`; `pid` is what the architecture's thread answers.
unfoldable pub find_thread : (ℕ → ℕ) → List NoteBlock → ℕ → Option ℕ
unfolding find_block
find_thread pid notes tid = find_block (λ thread. pid thread == tid) (λ b. b.threads) notes

-- `FindFile`, by a callback for `foreachFile`.
abbrev pub file_callback : ℕ → File → Option File → Option File × Bool
file_callback vaddr file result =
    if file_contains file vaddr then (some file, true) else (result, false)

unfoldable pub find_file : ℕ → List NoteBlock → ℕ → Option File
unfolding foreach_block
find_file vabits_mask notes vaddr =
    if vaddr == 0
    then none
    else foreach_block (file_callback (bit_and vaddr vabits_mask)) (λ b. b.files) notes none

-- `getPageSize`, and the size that it keeps.
unfoldable pub get_page_size : ℕ → List NoteBlock → ℕ
unfolding find_auxv
get_page_size page_size notes =
    if page_size == 0
    then (if find_auxv notes at_pagesz == 0 then 0x1000 else find_auxv notes at_pagesz)
    else page_size
