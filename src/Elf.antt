-- ===== src/Elf.antt =====
-- ELF structures in target memory: `Elf` of core/api/elf.h and elf.cpp,
-- up to the dynamic section.
pub mod Entry
pub mod Dynamic
pub mod Symbols
pub mod Region
pub mod OnCore
mod Examples
use open_core_analysis_kit.Base.{
  ℕ, zero, suc, ◌+◌, ◌-◌, ◌*◌, ◌/◌, ◌%◌, bit_and, ltb, leb, ◌==◌, if◌then◌else◌, ◌&&◌, ◌||◌, not,
  Bool, true, false, Option, none, some, List, [], ◌∷◌, length, add64, sub64,
}
use open_core_analysis_kit.Target.{Target, word, Run, threw, running, done, ◌>>=◌, fetch}

-- Target memory, with what a `MemoryRef` says of blocks and of the text at an address.
pub record Space : Type 0 where
  pub target : Target
  -- `IsValid()`.
  pub valid : ℕ → Bool
  -- `ref.Block()->virtualContains(address)`.
  pub same_block : ℕ → ℕ → Bool
  -- The NUL-terminated text at `Real()`; `none` is an exception.
  pub text : ℕ → Option (List ℕ)
  pub vabits_mask : ℕ
  pub bits : ℕ

abbrev pub field : ℕ → ℕ → ℕ → ℕ
field bits wide narrow = if bits == 64 then wide else narrow

abbrev pub pt_dynamic : ℕ
pt_dynamic = 2

abbrev pub pt_phdr : ℕ
pt_phdr = 6

abbrev pub dt_strtab : ℕ
dt_strtab = 5

abbrev pub dt_symtab : ℕ
dt_symtab = 6

abbrev pub dt_syment : ℕ
dt_syment = 11

abbrev pub dt_debug : ℕ
dt_debug = 21

abbrev pub dt_versym : ℕ
dt_versym = 0x6ffffff0

module _ (s : Space) where
  open s use {target, bits}

  -- `Elfx_Dynamic`, `Elfx_Phdr`, `Elfx_Sym`, and `LinkMap`.
  abbrev pub d_type : ℕ → Option ℕ
  d_type p = word target p 0

  abbrev pub d_val : ℕ → Option ℕ
  d_val p = word target p (8 / (64 / bits))

  abbrev pub dynamic_size : ℕ
  dynamic_size = 16 / (64 / bits)

  abbrev pub p_type : ℕ → Option ℕ
  p_type p = target.load p 0 4

  abbrev pub p_offset : ℕ → Option ℕ
  p_offset p = word target p (field bits 8 4)

  abbrev pub p_vaddr : ℕ → Option ℕ
  p_vaddr p = word target p (field bits 16 8)

  abbrev pub phdr_size : ℕ
  phdr_size = field bits 56 32

  abbrev pub e_phnum : ℕ → Option ℕ
  e_phnum p = target.load p (field bits 56 44) 2

  abbrev pub ehdr_size : ℕ
  ehdr_size = field bits 64 52

  abbrev pub st_name : ℕ → Option ℕ
  st_name p = target.load p 0 4

  abbrev pub st_value : ℕ → Option ℕ
  st_value p = word target p (field bits 8 4)

  abbrev pub st_size : ℕ → Option ℕ
  st_size p = word target p (field bits 16 8)

  abbrev pub st_info : ℕ → Option ℕ
  st_info p = target.load p (field bits 4 12) 1

  abbrev pub l_addr : ℕ → Option ℕ
  l_addr handle = word target handle 0

  abbrev pub l_ld : ℕ → Option ℕ
  l_ld handle = word target handle (16 / (64 / bits))

  -- The loop of `FindDynamicEntry`: the test of the tag comes first, the one for the end behind it.
  unfoldable pub dynamic_loop : ℕ → ℕ → ℕ → Run ℕ
  dynamic_loop zero type p = running
  dynamic_loop (suc fuel) type p = fetch (d_type p) >>= λ tag. elim (tag == type) [
    | true ↦ fetch (d_val p)
    | false ↦ fetch (d_type (add64 p dynamic_size)) >>= λ next. elim (next == 0) [
      | true ↦ done 0
      | false ↦ dynamic_loop fuel type (add64 p dynamic_size)
    ]
  ]

  unfoldable pub find_dynamic_entry : ℕ → ℕ → ℕ → Run ℕ
  unfolding dynamic_loop
  find_dynamic_entry fuel dynamic type =
      if s.valid dynamic then dynamic_loop fuel type dynamic else done 0

  -- `IsElf`: the magic number.
  unfoldable pub is_elf : ℕ → Run Bool
  is_elf p =
      if s.valid p
      then (fetch (target.load p 0 4) >>= λ magic. done (magic == 0x464c457f))
      else done false

  -- A PT_PHDR whose offset is not its address: the library is relocated.
  abbrev pub moved_phdr : ℕ → ℕ → Run Bool
  moved_phdr type p =
      if type == pt_phdr
      then (fetch (p_offset p) >>= λ offset.
          fetch (p_vaddr p) >>= λ vaddr. done (not (offset == vaddr)))
      else done false

  -- The loop of `FindDynamic` over `phnum` program headers.
  unfoldable pub dynamic_phdr : ℕ → ℕ → ℕ → Run ℕ
  dynamic_phdr zero base p = done 0
  dynamic_phdr (suc phnum) base p = fetch (p_type p) >>= λ type. moved_phdr type p >>= λ moved.
      elim moved [
        | true ↦ done 0
        | false ↦ elim (type == pt_dynamic) [
          | true ↦ fetch (p_vaddr p) >>= λ vaddr. done (add64 base vaddr)
          | false ↦ dynamic_phdr phnum base (add64 p phdr_size)
        ]
      ]

  -- `FindDynamic`.
  unfoldable pub find_dynamic : ℕ → Run ℕ
  unfolding is_elf dynamic_phdr
  find_dynamic handle = fetch (l_ld handle) >>= λ ld.
      if ld == 0
      then (fetch (l_addr handle) >>= λ base. is_elf base >>= λ elf.
          if elf
          then (fetch (e_phnum base) >>= λ phnum. dynamic_phdr phnum base (add64 base ehdr_size))
          else done 0)
      else done ld

  -- The loop of `GetDebug`, for the auxiliary vector's program headers.
  unfoldable pub debug_phdr : ℕ → ℕ → ℕ → Run ℕ
  debug_phdr zero phdr p = done 0
  debug_phdr (suc phnum) phdr p = fetch (p_type p) >>= λ type. elim (type == pt_dynamic) [
    | true ↦ fetch (p_vaddr phdr) >>= λ own.
        fetch (p_vaddr p) >>= λ vaddr. done (add64 (sub64 phdr own) vaddr)
    | false ↦ debug_phdr phnum phdr (add64 p phdr_size)
  ]

  -- `GetDebug`, given what it has found before, and AT_PHDR and AT_PHNUM.
  unfoldable pub get_debug : ℕ → ℕ → ℕ → ℕ → Run ℕ
  unfolding debug_phdr find_dynamic_entry
  get_debug fuel debug phdr phnum =
      if debug == 0
      then (if s.valid phdr
          then (debug_phdr phnum phdr phdr >>= λ dynamic.
              if s.valid dynamic then find_dynamic_entry fuel dynamic dt_debug else done debug)
          else done debug)
      else done debug
