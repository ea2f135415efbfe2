-- ===== src/Load/Block.antt =====
-- `Block` and `LoadBlock` of core/common/block.h, load_block.h and load_block.cpp.
use open_core_analysis_kit.Base.{
  ℕ, ◌+◌, ◌-◌, bit_and, ltb, leb, ◌==◌, if◌then◌else◌, ◌&&◌, ◌||◌, not, Bool, true, false, Option,
  none, some, Memory, add64, sub64,
}

-- `MemoryMap`: a mapped region of host memory.
pub record MemoryMap : Type 0 where
  pub data_at : ℕ
  pub size : ℕ
  pub offset : ℕ
  pub real_size : ℕ

pub record LoadBlock : Type 0 where
  pub flags : ℕ
  pub offset : ℕ
  pub vaddr : ℕ
  pub paddr : ℕ
  pub file_size : ℕ
  pub mem_size : ℕ
  pub align : ℕ
  pub oraddr : ℕ
  pub truncated : Bool
  pub fake : Bool
  pub overlay : Option MemoryMap
  pub mmap : Option MemoryMap
  pub vabits_mask : ℕ
  pub point_mask : ℕ

-- The constructor: no data, no masks.
abbrev pub new_block : (flags offset vaddr paddr file_size mem_size align : ℕ) → LoadBlock
new_block flags offset vaddr paddr file_size mem_size align = record {
  flags = flags;
  offset = offset;
  vaddr = vaddr;
  paddr = paddr;
  file_size = file_size;
  mem_size = mem_size;
  align = align;
  oraddr = 0;
  truncated = false;
  fake = false;
  overlay = none;
  mmap = none;
  vabits_mask = 0;
  point_mask = 0;
}

abbrev pub opt_read_or : ℕ
opt_read_or = 1

abbrev pub opt_read_mmap : ℕ
opt_read_mmap = 2

abbrev pub opt_read_overlay : ℕ
opt_read_overlay = 4

abbrev pub opt_read_all : ℕ
opt_read_all = 7

-- `x & flag` as a condition.
abbrev pub has : ℕ → ℕ → Bool
has x flag = not (bit_and x flag == 0)

abbrev pub is_some {ℓ} : {A : Type ℓ} → Option A → Bool
is_some none = false
is_some (some a) = true

unfoldable pub is_valid_block : LoadBlock → Bool
is_valid_block b = not b.truncated && ltb 0 b.file_size

unfoldable pub set_ori_addr : ℕ → LoadBlock → LoadBlock
set_ori_addr addr b = if is_valid_block b then record b { oraddr = addr } else b

-- What is read of a block: the overlay, else the mapped file, else the core file.
pub data Source : Type 0 where
  mapped : MemoryMap → Source
  core_file : Source
  nowhere : Source

-- The map that an option bit and its presence select.
unfoldable pub select : Option MemoryMap → Bool → Source → Source
select (some map') true other = mapped map'
select (some map') false other = other
select none allowed other = other

unfoldable pub source : LoadBlock → ℕ → Source
unfolding select
source b opt = select b.overlay (has opt opt_read_overlay) (
    select b.mmap (has opt opt_read_mmap)
      (if not (b.oraddr == 0) && has opt opt_read_or then core_file else nowhere))

unfoldable pub begin : LoadBlock → ℕ → ℕ
unfolding source
begin b opt = elim (source b opt) [ mapped m ↦ m.data_at | core_file ↦ b.oraddr | nowhere ↦ 0 ]

unfoldable pub size : LoadBlock → ℕ → ℕ
unfolding source
size b opt = elim (source b opt) [ mapped m ↦ m.size | core_file ↦ b.file_size | nowhere ↦ 0 ]

unfoldable pub is_valid : LoadBlock → Bool
unfolding is_valid_block
is_valid b = is_valid_block b || is_some b.mmap || is_some b.overlay

-- The end of the segment, as the code computes it.
abbrev pub vend : LoadBlock → ℕ
vend b = add64 b.vaddr b.mem_size

unfoldable pub virtual_contains : LoadBlock → ℕ → Bool
virtual_contains b addr =
    let a = bit_and addr b.vabits_mask in not (ltb a b.vaddr || leb (vend b) a)

-- The range of `MemoryMap` data, or of the core file, of `size()` bytes.
abbrev pub in_range : ℕ → ℕ → ℕ → Bool
in_range raddr start n = leb start raddr && ltb raddr (add64 start n)

unfoldable pub real_contains : LoadBlock → ℕ → Bool
unfolding size
real_contains b raddr = elim b.overlay [
  | some m ↦ in_range raddr m.data_at (size b opt_read_all)
  | none ↦ elim b.mmap [
    | some m ↦ in_range raddr m.data_at (size b opt_read_all)
    | none ↦ if b.oraddr == 0 then false else in_range raddr b.oraddr (size b opt_read_all)
  ]
]

-- `CheckCanMmap`; `ehdr` is `CoreApi::FindAuxv(AT_SYSINFO_EHDR)`.
unfoldable pub check_can_mmap : LoadBlock → ℕ → ℕ → Bool
check_can_mmap b header ehdr =
    if b.fake
    then true
    else if b.flags == 0
    then false
    else if not (has b.flags 4) && not (has b.flags 1)
    then false
    else if has b.flags 2 && not (has b.flags 1)
    then false
    else if not (header == b.vaddr)
    then false
    else if b.vaddr == ehdr
    then false
    else true

-- `memcpy(dst, buf, n)` on host memory.
unfoldable pub memcpy : Memory → ℕ → (ℕ → ℕ) → ℕ → Memory
memcpy m dst buf n = λ a. if leb dst a && ltb a (dst + n) then buf (a - dst) else m a

-- The map of `MmapMem` or `MmapZeroMem`: zeroed, writable, of the size that is asked for.
abbrev pub anon_map : ℕ → ℕ → MemoryMap
anon_map addr n = record { data_at = addr; size = n; offset = 0; real_size = n }

-- The bytes that `newOverlay` copies in: `!isMmapBlock()? realSize() : mMmap->realSize()`.
unfoldable pub overlay_fill : LoadBlock → ℕ
overlay_fill b = elim b.mmap [ none ↦ b.file_size | some m ↦ m.real_size ]

-- `newOverlay`. `anon` is what `mmap` returns: an address, or `none` for MAP_FAILED.
unfoldable pub new_overlay : Option ℕ → Memory → LoadBlock → Memory × LoadBlock × Bool
new_overlay anon m b =
    let zeroed = λ (addr : ℕ). memcpy m addr (λ i. 0) b.mem_size in
    let filled = λ (addr : ℕ).
      if is_valid b
      then memcpy (zeroed addr) addr (λ i. m (begin b opt_read_all + i)) (overlay_fill b)
      else zeroed addr in
    elim b.overlay [
      | some o ↦ (m, b, true)
      | none ↦ elim anon [
        | none ↦ (m, b, false)
        | some addr ↦ (filled addr, record b { overlay = some (anon_map addr b.mem_size) }, true)
      ]
    ]

-- `setOverlay`: the bytes go to the address's place in the overlay.
unfoldable pub set_overlay : Option ℕ → ℕ → (ℕ → ℕ) → ℕ → Memory → LoadBlock → Memory × LoadBlock
set_overlay anon addr buf n m b =
    let r = new_overlay anon m b in
    let at = sub64 (bit_and addr b.vabits_mask) b.vaddr in
    elim r.1.overlay [ none ↦ (r.0, r.1) | some o ↦ (memcpy r.0 (add64 o.data_at at) buf n, r.1) ]

unfoldable pub remove_mmap : LoadBlock → LoadBlock
remove_mmap b = record b { mmap = none }

-- A fake block has nothing but its overlay, and keeps it.
unfoldable pub remove_overlay : LoadBlock → LoadBlock
remove_overlay b = if b.fake then b else record b { overlay = none }
