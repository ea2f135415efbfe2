-- ===== src/Load/Table.antt =====
-- The block tables of `CoreApi` in core/api/core.h and core.cpp. Both tables share their blocks, so
-- they hold the numbers of blocks in one store.
use open_core_analysis_kit.Base.{
  ℕ, zero, suc, ◌+◌, ◌-◌, ◌/◌, bit_and, ltb, leb, ◌==◌, if◌then◌else◌, ◌||◌, not, Bool, true, false,
  Option, none, some, List, [], ◌∷◌, ◌++◌, length, Memory, add64, sub64,
}
use open_core_analysis_kit.Load.Block.{
  LoadBlock, vend, is_valid, begin, size, real_contains, set_overlay, opt_read_all,
}

pub record Core : Type 0 where
  pub mem : Memory
  pub block : ℕ → LoadBlock
  pub next : ℕ
  pub loads : List ℕ
  pub quick : List ℕ
  pub vabits_mask : ℕ
  pub pointer_mask : ℕ
  pub quick_enabled : Bool

-- A table as an array; the code reads it below its length only.
abbrev pub nth : List ℕ → ℕ → ℕ
nth [] i = 0
nth (x ∷ xs) zero = x
nth (x ∷ xs) (suc i) = nth xs i

abbrev pub start_at : Core → List ℕ → ℕ → ℕ
start_at c table i = (c.block (nth table i)).vaddr

abbrev pub end_at : Core → List ℕ → ℕ → ℕ
end_at c table i = vend (c.block (nth table i))

-- The `while (left < right)` of `findLoadBlock` over the starts and ends of a table.
unfoldable pub search : (ℕ → ℕ) → (ℕ → ℕ) → ℕ → ℕ → ℕ → ℕ → Option ℕ
search start end a zero left right = none
search start end a (suc fuel) left right =
    let mid = left + (right - left) / 2 in
    let lower = search start end a fuel left mid in
    let upper = search start end a fuel (mid + 1) right in
    if ltb left right
    then (if ltb a (start mid) then lower else (if ltb a (end mid) then some mid else upper))
    else none

-- The position of the block that holds the address: each round narrows the range by one at least.
unfoldable pub find_in : Core → List ℕ → ℕ → Option ℕ
unfolding search
find_in c table vaddr =
    let n = length table in
    let a = bit_and vaddr c.vabits_mask in
    if n == 0
    then none
    else (if ltb a (start_at c table 0) || leb (end_at c table (n - 1)) a
        then none
        else search (start_at c table) (end_at c table) a n 0 n)

unfoldable pub get_loads : Core → Bool → List ℕ
get_loads c quick = if quick then c.quick else c.loads

-- `findLoadBlock`: the number of the block.
unfoldable pub find_load_block : Core → ℕ → Bool → Option ℕ
unfolding find_in get_loads
find_load_block c vaddr quick = elim (find_in c (get_loads c quick) vaddr) [
  | none ↦ none
  | some i ↦ some (nth (get_loads c quick) i)
]

-- A result, or `InvalidAddressException`.
pub data Access {ℓ} (A : Type ℓ) : Type ℓ where
  ok : A → Access A
  invalid_address : ℕ → Access A

-- `v2r`: the host address of a virtual address, 0 where the options allow no data.
unfoldable pub v2r : Core → ℕ → ℕ → Access ℕ
v2r c vaddr opt = elim (find_load_block c vaddr true) [
  | none ↦ invalid_address vaddr
  | some k ↦
      let b = c.block k in
      let raddr = begin b opt in
      if is_valid b
      then ok (if raddr == 0 then 0 else add64 raddr (sub64 (bit_and vaddr b.vabits_mask) b.vaddr))
      else invalid_address vaddr
]

-- `r2v`: the first block of the quick table whose data holds the host address.
unfoldable pub r2v_in : Core → List ℕ → ℕ → Access ℕ
r2v_in c [] raddr = invalid_address raddr
r2v_in c (k ∷ rest) raddr =
    let b = c.block k in
    let later = r2v_in c rest raddr in
    if real_contains b raddr then ok (add64 b.vaddr (sub64 raddr (begin b opt_read_all))) else later

unfoldable pub r2v : Core → ℕ → Access ℕ
r2v c raddr = r2v_in c c.quick raddr

unfoldable pub virtual_valid : Core → ℕ → Bool
virtual_valid c vaddr = elim (find_load_block c vaddr true) [
  | none ↦ false
  | some k ↦ is_valid (c.block k)
]

-- What `Read` copies: from where, and how many bytes. `none` is the result `false`.
pub record Copy : Type 0 where
  pub from : ℕ
  pub count : ℕ

-- `Read`: a range past the data of the block is cut at its end.
unfoldable pub read : Core → ℕ → ℕ → ℕ → Access (Option Copy)
read c vaddr n opt = elim (find_load_block c vaddr true) [
  | none ↦ invalid_address vaddr
  | some k ↦
      let b = c.block k in
      let last = add64 b.vaddr (size b opt_read_all) in
      let cut = if ltb last (add64 vaddr n) then sub64 last vaddr else n in
      let copied : Access (Option Copy) = elim (v2r c vaddr opt) [
        | invalid_address a ↦ invalid_address a
        | ok raddr ↦ ok (if raddr == 0 then none else some (record { from = raddr; count = cut }))
      ] in
      if is_valid b then copied else invalid_address vaddr
]

abbrev pub set_block : Core → ℕ → LoadBlock → (ℕ → LoadBlock)
set_block c k b j = if j == k then b else c.block j

-- `Write`: any block of the quick table takes an overlay.
unfoldable pub write : Option ℕ → Core → ℕ → (ℕ → ℕ) → ℕ → Access Core
write anon c vaddr buf n = elim (find_load_block c vaddr true) [
  | none ↦ invalid_address vaddr
  | some k ↦
      let r = set_overlay anon vaddr buf n c.mem (c.block k) in
      ok (record c { mem = r.0; block = set_block c k r.1 })
]

-- `addLoadBlock`: a block without access flags stays out of the quick table.
unfoldable pub add_load_block : LoadBlock → Core → Core
add_load_block b c = record c {
  block = set_block c c.next b;
  next = c.next + 1;
  loads = c.loads ++ (c.next ∷ []);
  quick = if not c.quick_enabled || not (b.flags == 0) then c.quick ++ (c.next ∷ []) else c.quick;
}
