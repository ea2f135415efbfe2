-- ===== src/Load/Ref.antt =====
-- `api::MemoryRef` of core/api/memory_ref.h and `Bridge::FindLoadBlock` of core/api/bridge.cpp: an
-- address of the target with the block that it was last found in.
pub mod Coherent
use open_core_analysis_kit.Base.{
  ℕ, bit_and, ◌==◌, if◌then◌else◌, ◌||◌, Bool, true, false, Option, none, some, add64, sub64,
}
use open_core_analysis_kit.Load.Block.{is_valid, is_some, begin, virtual_contains, opt_read_all}
use open_core_analysis_kit.Load.Table.{Core, find_load_block, Access, ok, invalid_address}
use open_core_analysis_kit.Dwarf.Text.{le_bytes}

pub record MemoryRef : Type 0 where
  pub vaddr : ℕ
  pub block : Option ℕ

abbrev pub is_valid_at : Core → Option ℕ → Bool
is_valid_at c none = false
is_valid_at c (some k) = is_valid (c.block k)

-- `FindLoadBlock(vaddr, check)` over the quick table.
unfoldable pub find_checked : Core → ℕ → Bool → Access (Option ℕ)
find_checked c vaddr check =
    let found = find_load_block c vaddr true in
    if check then (if is_valid_at c found then ok found else invalid_address vaddr) else ok found

-- `checkCopyBlock` and `copyRef`: another reference's block, if it holds the address.
unfoldable pub check_copy_block : Core → Option ℕ → MemoryRef → MemoryRef
check_copy_block c none r = r
check_copy_block c (some k) r =
    if virtual_contains (c.block k) r.vaddr then record r { block = some k } else r

abbrev pub copy_ref : Core → MemoryRef → MemoryRef → MemoryRef
copy_ref c from r = check_copy_block c from.block r

-- The address `v` with what `ref` knows of its block.
abbrev pub ref_near : Core → ℕ → MemoryRef → MemoryRef
ref_near c v ref = copy_ref c ref (record { vaddr = v; block = none })

-- `Prepare`.
unfoldable pub prepare : Core → Bool → MemoryRef → Access MemoryRef
unfolding find_checked
prepare c check r =
    let looked : Access MemoryRef = elim (find_checked c r.vaddr check) [
      | invalid_address a ↦ invalid_address a
      | ok b ↦ ok (record r { block = b })
    ] in
    if is_some r.block || r.vaddr == 0 then ok r else looked

-- `Real`, for a reference that was prepared.
unfoldable pub real_in : Core → MemoryRef → Option ℕ → Access ℕ
real_in c r none = invalid_address r.vaddr
real_in c r (some k) =
    let b = c.block k in
    if is_valid b
    then ok (add64 (begin b opt_read_all) (sub64 (bit_and r.vaddr b.vabits_mask) b.vaddr))
    else invalid_address r.vaddr

-- `Real`; the reference keeps the block that it found.
unfoldable pub real : Core → MemoryRef → Access ℕ
unfolding prepare real_in
real c r = elim (prepare c true r) [
  | invalid_address a ↦ invalid_address a
  | ok r' ↦ real_in c r' r'.block
]

-- `MovePtr`: the block is kept if it holds the new address too, and forgotten if not.
unfoldable pub moved_to : Core → ℕ → MemoryRef → Option ℕ → MemoryRef
moved_to c v r none = record { vaddr = v; block = none }
moved_to c v r (some k) =
    if virtual_contains (c.block k) v
    then record { vaddr = v; block = some k }
    else record { vaddr = v; block = none }

unfoldable pub move_ptr : Core → ℕ → MemoryRef → Access MemoryRef
unfolding prepare moved_to
move_ptr c length r = elim (prepare c true r) [
  | invalid_address a ↦ invalid_address a
  | ok r' ↦ ok (moved_to c (add64 r'.vaddr length) r' r'.block)
]

-- `IsValid`.
unfoldable pub ref_is_valid : Core → MemoryRef → Bool
unfolding prepare
ref_is_valid c r = elim (prepare c false r) [
  | invalid_address a ↦ false
  | ok r' ↦ is_valid_at c r'.block
]

-- `value64Of` and its kin: `n` bytes at an offset from the object's place in host memory.
unfoldable pub value_of : Core → MemoryRef → ℕ → ℕ → Access ℕ
unfolding real le_bytes
value_of c r offset n = elim (real c r) [
  | invalid_address a ↦ invalid_address a
  | ok raddr ↦ ok (le_bytes c.mem (add64 raddr offset) n)
]
