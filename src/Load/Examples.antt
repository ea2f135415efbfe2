-- ===== src/Load/Examples.antt =====
-- A core file of two segments, one with an overlay, and a theorem at each of its addresses.
use open_core_analysis_kit.Base.{
  ℕ, zero, suc, ◌+◌, ◌⊎◌, ◌%◌, ◌≤◌, ◌<◌, ◌≡◌, refl, bit_and, ◌==◌, if◌then◌else◌, true, false, none,
  some, [], ◌∷◌, Memory, arith, u64_mod, add64, insert_at,
}
use open_core_analysis_kit.Load.Block.{
  MemoryMap, LoadBlock, new_block, anon_map, is_valid, opt_read_all, size, overlay_fill, begin,
  real_contains, source, select, is_valid_block,
}
use open_core_analysis_kit.Load.Table.{
  Core, nth, start_at, end_at, search, find_in, get_loads, find_load_block, ok, invalid_address,
  v2r, r2v, r2v_in, read, write,
}
use open_core_analysis_kit.Load.Search.{
  IsSortedTable, FindsBlock, find_load_block-FindsBlock, find_load_block_complete,
}
use open_core_analysis_kit.Load.Translate.{Mapped, host_address, r2v-v2r, read_clamped, read_tagged}
use open_core_analysis_kit.Load.Write.{Located, offset_in, write_overlay, write_copies}
use open_core_analysis_kit.Load.Alloc.{page_size, round_down, round_up, load_place, new_load_block}
use open_core_analysis_kit.Load.Alloc.Places.{
  Fits, limit, load_place-Fits, Above, new_load_block_unsorted,
}
use open_core_analysis_kit.Load.Ref.{real, move_ptr}
use open_core_analysis_kit.Load.Ref.Coherent.{
  IsLoaded, IsCoherent, Yields, real-v2r, move_ptr-IsCoherent,
}
use open_core_analysis_kit.Load.Reads.{returned, core_load, core_load-v2r}
use open_core_analysis_kit.Dwarf.Text.{le_bytes}

abbrev mask : ℕ
mask = 0xffffffffffff

abbrev text : LoadBlock
text = record (new_block 5 0x1000 0x1000 0 0x1000 0x2000 0x1000) {
  oraddr = 0x10000;
  vabits_mask = 0xffffffffffff;
}

abbrev data_map : MemoryMap
data_map = anon_map 0x80000 0x1000

abbrev data_block : LoadBlock
data_block = record (new_block 6 0x2000 0x4000 0 0x1000 0x1000 0x1000) {
  oraddr = 0x12000;
  overlay = some data_map;
  vabits_mask = 0xffffffffffff;
}

abbrev core : Core
core = record {
  mem = λ a. a % 256;
  block = λ k. if k == 0 then text else data_block;
  next = 2;
  loads = 0 ∷ 1 ∷ [];
  quick = 0 ∷ 1 ∷ [];
  vabits_mask = 0xffffffffffff;
  pointer_mask = 0xffffffffffff;
  quick_enabled = true;
}

sorted : IsSortedTable core (0 ∷ 1 ∷ [])
sorted = record { forward = forward; apart = apart }
  where
    forward : (i : ℕ) → i < 2 → start_at core (0 ∷ 1 ∷ []) i ≤ end_at core (0 ∷ 1 ∷ []) i
    forward zero h = omega arith
    forward (suc zero) h = omega arith
    forward (suc (suc i)) h = absurd (omega arith)

    apart : (i j : ℕ) → i < j → j < 2 → end_at core (0 ∷ 1 ∷ []) i ≤ start_at core (0 ∷ 1 ∷ []) j
    apart zero (suc zero) h k = omega arith
    apart zero zero h k = absurd (omega arith)
    apart (suc i) (suc zero) h k = absurd (omega arith)
    apart (suc i) zero h k = absurd (omega arith)
    apart i (suc (suc j)) h k = absurd (omega arith)

sorted_quick : IsSortedTable core (get_loads core true)
unfolding get_loads
sorted_quick = sorted

found_text : find_load_block core 0x1800 true ≡ some 0
unfolding search find_in get_loads find_load_block
found_text = refl

found_data : find_load_block core 0x4100 true ≡ some 1
unfolding search find_in get_loads find_load_block
found_data = refl

hit_and_miss :
    (find_load_block core 0x3000 true ≡ none)
    × (v2r core 0x1800 opt_read_all ≡ ok 0x10800)
    × (r2v core 0x10800 ≡ ok 0x1800)
    × (v2r core 0x4100 opt_read_all ≡ ok 0x80100)
    × (r2v core 0x80100 ≡ ok 0x4100)
    × (v2r core 0x3000 opt_read_all ≡ invalid_address 0x3000)
unfolding found_data v2r r2v r2v_in begin is_valid size source select is_valid_block real_contains
hit_and_miss = (refl, refl, refl, refl, refl, refl)

text-Mapped : Mapped core 0x1800 0
unfolding is_valid is_valid_block size begin source select
text-Mapped = record {
  found = found_text;
  valid = refl;
  mask = refl;
  above = omega arith;
  inside = omega arith;
  host = omega arith;
  room = omega arith;
  small = omega arith;
}

only_text :
    (j : ℕ)
    → j < 2
    → real_contains (core.block (nth (0 ∷ 1 ∷ []) j)) (host_address core 0x1800 0) ≡ true
    → nth (0 ∷ 1 ∷ []) j ≡ 0
unfolding real_contains size begin source select
only_text zero h e = refl
only_text (suc zero) h e = absurd (ground (arith, e))
only_text (suc (suc j)) h e = absurd (omega arith)

text_size : 0x1000 + size text opt_read_all < u64_mod
unfolding size source select
text_size = omega arith

find_load_block-FindsBlock_example :
    FindsBlock core (get_loads core true) (bit_and 0x1800 mask) (find_load_block core 0x1800 true)
find_load_block-FindsBlock_example = find_load_block-FindsBlock core 0x1800 true sorted_quick

find_load_block_complete_example : find_load_block core 0x4100 true ≡ some 1
unfolding get_loads
find_load_block_complete_example =
    find_load_block_complete core 0x4100 true 1 sorted (omega arith) (omega arith, omega arith)

r2v-v2r_example :
    (v2r core 0x1800 opt_read_all ≡ ok (host_address core 0x1800 0))
    × (r2v core (host_address core 0x1800 0) ≡ ok (bit_and 0x1800 mask))
r2v-v2r_example = r2v-v2r core 0x1800 0 0 text-Mapped (omega arith) refl only_text

read_clamped_example :
    (count : ℕ) × (read core 0x1800 0x2000 opt_read_all
      ≡ ok (some (record { from = host_address core 0x1800 0; count = count })))
    × (count ≤ 0x2000)
    × (0x1800 + count ≤ 0x1000 + size text opt_read_all)
    × (0x1800 + 0x2000 ≤ 0x1000 + size text opt_read_all → count ≡ 0x2000)
    × (0x1000 + size text opt_read_all < 0x1800 + 0x2000
        → 0x1800 + count ≡ 0x1000 + size text opt_read_all)
read_clamped_example = read_clamped core 0x1800 0x2000 0 text-Mapped refl (omega arith) text_size

-- The address of `text` with a tag in the top byte.
abbrev tagged : ℕ
tagged = 0xb400000000001800

tagged-Mapped : Mapped core 0xb400000000001800 0
unfolding search find_in get_loads find_load_block is_valid is_valid_block size begin source select
tagged-Mapped = record {
  found = refl;
  valid = refl;
  mask = refl;
  above = omega arith;
  inside = omega arith;
  host = omega arith;
  room = omega arith;
  small = omega arith;
}

text_small : 0x1000 + size text opt_read_all < 0xb400000000001800
unfolding size source select
text_small = omega arith

read_tagged_example :
    (count : ℕ) × (read core 0xb400000000001800 8 opt_read_all
      ≡ ok (some (record { from = host_address core 0xb400000000001800 0; count = count })))
    × (8 < count)
read_tagged_example = read_tagged core 0xb400000000001800 8 0 tagged-Mapped text_small (omega arith)

data-Located : Located core 0x4100 1
data-Located = record { found = found_data; mask = refl; above = omega arith; small = omega arith }

text-Located : Located core 0x1800 0
text-Located = record { found = found_text; mask = refl; above = omega arith; small = omega arith }

write_overlay_example :
    (m' : Memory) × (block' : ℕ → LoadBlock) × (write none core 0x4100 (λ i. i + 7) 4
      ≡ ok (record core { mem = m'; block = block' }))
    × ((i : ℕ) → i < 4 → m' (data_map.data_at + offset_in core 0x4100 1 + i) ≡ i + 7)
    × ((a : ℕ)
        → (a < data_map.data_at + offset_in core 0x4100 1)
          ⊎ (data_map.data_at + offset_in core 0x4100 1 + 4 ≤ a)
        → m' a ≡ core.mem a)
write_overlay_example =
    write_overlay none core 0x4100 (λ i. i + 7) 4 1 data_map data-Located refl (omega arith)

text_valid : is_valid text ≡ true
unfolding is_valid is_valid_block
text_valid = refl

text_fill : overlay_fill text ≤ 0x2000
unfolding overlay_fill size source select
text_fill = omega arith

write_copies_example :
    (m' : Memory) × (block' : ℕ → LoadBlock) × (write (some 0x90000) core 0x1800 (λ i. i + 7) 4
      ≡ ok (record core { mem = m'; block = block' }))
    × ((block' 0).overlay ≡ some (anon_map 0x90000 0x2000))
    × ((i : ℕ) → i < 4 → m' (0x90000 + offset_in core 0x1800 0 + i) ≡ i + 7)
    × ((i : ℕ)
        → i < overlay_fill text
        → (i < offset_in core 0x1800 0) ⊎ (offset_in core 0x1800 0 + 4 ≤ i)
        → m' (0x90000 + i) ≡ core.mem (begin text opt_read_all + i))
    × ((i : ℕ)
        → overlay_fill text ≤ i
        → i < 0x2000
        → (i < offset_in core 0x1800 0) ⊎ (offset_in core 0x1800 0 + 4 ≤ i)
        → m' (0x90000 + i) ≡ 0)
    × ((a : ℕ) → (a < 0x90000) ⊎ (0x90000 + 0x2000 ≤ a) → m' a ≡ core.mem a)
write_copies_example =
    write_copies core 0x1800 (λ i. i + 7) 4 0 0x90000 text-Located refl text_valid text_fill
      (omega arith) (omega arith)

load_place-Fits_example :
    (i : ℕ) × Fits core 0x800 (0 ∷ 1 ∷ []) i
    × (0x800 + 0x1000 ≤ limit core (0 ∷ 1 ∷ []) i
        → load_place core 0x800 0x1000 (0 ∷ 1 ∷ []) 0 ≡ some (0 + i))
    × (limit core (0 ∷ 1 ∷ []) i < 0x800 + 0x1000
        → load_place core 0x800 0x1000 (0 ∷ 1 ∷ []) 0 ≡ none)
load_place-Fits_example = load_place-Fits core 0x800 0x1000 0 (1 ∷ []) 0 (omega arith)

data-Above : Above core 0x8000 0x1000
unfolding round_up round_down search find_in get_loads find_load_block
data-Above = record {
  filled = omega arith;
  fresh = (omega arith, (omega arith, tt));
  begin_pos = omega arith;
  size_pos = omega arith;
  sorted = sorted;
  behind = omega arith;
  free = refl;
  no_wrap = omega arith;
  fits = omega arith;
}

new_load_block_unsorted_example :
    (c' : Core) × (new_load_block (some 0xa0000) core 0x8000 0x1000 6
      ≡ (c', round_up (bit_and 0x8000 mask) page_size))
    × (c'.loads ≡ insert_at (0 ∷ 1 ∷ []) 1 2)
    × ((c'.block 2).vaddr ≡ round_up (bit_and 0x8000 mask) page_size)
    × (¬ (IsSortedTable c' c'.loads))
new_load_block_unsorted_example = new_load_block_unsorted core 0x8000 0x1000 0xa0000 6 data-Above

data_placed : 0 < begin data_block opt_read_all
unfolding size begin source select
data_placed = omega arith

loaded : IsLoaded core
unfolding get_loads is_valid is_valid_block size begin source select
loaded = record { sorted = sorted; mask = same_mask; placed = placed }
  where
    same_mask : (k : ℕ) → (core.block k).vabits_mask ≡ core.vabits_mask
    same_mask zero = refl
    same_mask (suc k) = let far : (suc k == 0) ≡ false = ground arith in rw (core, far) refl

    placed : (k : ℕ) → is_valid (core.block k) ≡ true → 0 < begin (core.block k) opt_read_all
    placed zero h = omega arith
    placed (suc k) h = let far : (suc k == 0) ≡ false = ground arith in rw (core, far) (data_placed)

real-v2r_example :
    real core (record { vaddr = 0x1800; block = none }) ≡ v2r core 0x1800 opt_read_all
real-v2r_example = real-v2r core (record { vaddr = 0x1800; block = none }) loaded tt (omega arith)

move_ptr-IsCoherent_example :
    Yields (IsCoherent core) (move_ptr core 8 (record { vaddr = 0x1800; block = none }))
move_ptr-IsCoherent_example =
    move_ptr-IsCoherent core 8 (record { vaddr = 0x1800; block = none }) loaded tt

core_load-v2r_example :
    core_load core 0x1800 0 8
    ≡ returned {A = ℕ} (elim (v2r core 0x1800 opt_read_all) [
      | invalid_address a ↦ invalid_address a
      | ok raddr ↦ ok (le_bytes core.mem (add64 raddr 0) 8)
    ])
core_load-v2r_example = core_load-v2r core 0x1800 0 8 loaded (omega arith)
