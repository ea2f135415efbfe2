-- ===== src/Elf/OnCore.antt =====
-- The memory that the readers of ELF structures see, filled by a core: `IsValid`, `Block` and `Real`
-- of core/api/memory_ref.h.
use open_core_analysis_kit.Base.{ℕ, Bool, true, false, none, some, List, Option, IsBytes}
use open_core_analysis_kit.Dwarf.Text.{c_string}
use open_core_analysis_kit.Load.Block.{virtual_contains}
use open_core_analysis_kit.Load.Table.{Core, find_load_block, ok, invalid_address}
use open_core_analysis_kit.Load.Ref.{MemoryRef, real, ref_is_valid}
use open_core_analysis_kit.Load.Reads.{core_target}
use open_core_analysis_kit.Elf.{Space}

abbrev pub fresh_ref : ℕ → MemoryRef
fresh_ref vaddr = record { vaddr = vaddr; block = none }

-- `a.Block()->virtualContains(b)`, behind a call that prepares `a`.
abbrev pub block_contains : Core → ℕ → ℕ → Bool
block_contains c a b = elim (find_load_block c a true) [
  | none ↦ false
  | some k ↦ virtual_contains (c.block k) b
]

-- The text at `Real()`, of at most `limit` bytes.
abbrev pub text_at : Core → ℕ → ℕ → Option (List ℕ)
text_at c limit a = elim (real c (fresh_ref a)) [
  | invalid_address v ↦ none
  | ok raddr ↦ some (c_string limit c.mem raddr)
]

abbrev pub core_space : (c : Core) → IsBytes c.mem → (limit bits : ℕ) → Space
core_space c bytes limit bits = record {
  target = core_target c bytes;
  valid = λ a. ref_is_valid c (fresh_ref a);
  same_block = block_contains c;
  text = text_at c limit;
  vabits_mask = c.vabits_mask;
  bits = bits;
}
