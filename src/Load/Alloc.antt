-- ===== src/Load/Alloc.antt =====
-- `CoreApi::newLoadBlock` of core/api/core.cpp: a fake segment in free address space.
pub mod Places
use open_core_analysis_kit.Base.{
  ℕ, zero, suc, ◌+◌, ◌-◌, ◌*◌, ◌%◌, ◌≤◌, ◌<◌, ◌≡◌, refl, bit_and, ltb, leb, ◌==◌, if◌then◌else◌,
  ◌&&◌, ◌||◌, not, Bool, true, false, Option, none, some, List, [], ◌∷◌, length, insert_at, add64,
  sub64, u64_mod, ◌>>=◌,
}
use open_core_analysis_kit.Load.Block.{LoadBlock, new_block, vend, new_overlay, is_some}
use open_core_analysis_kit.Load.Table.{Core, nth, find_load_block, set_block}

abbrev pub page_size : ℕ
page_size = 0x1000

abbrev pub fake_load_begin : ℕ
fake_load_begin = 0x100000

-- `RoundUp` of core/common/bit.h: `(x + n - 1) & -n` on uint64_t.
unfoldable pub round_down : ℕ → ℕ → ℕ
round_down x n = bit_and x (sub64 0 n)

unfoldable pub round_up : ℕ → ℕ → ℕ
unfolding round_down
round_up x n = round_down (sub64 (add64 x n) 1) n

-- Where the segment goes: its address, and its places in the two tables.
pub record Place : Type 0 where
  pub begin : ℕ
  pub in_load : ℕ
  pub in_quick : ℕ

-- `if (mQuickLoad[idxInQuick]->vaddr() > begin) break;`
unfoldable pub quick_place : Core → ℕ → List ℕ → ℕ → ℕ
quick_place c begin [] idx = idx
quick_place c begin (k ∷ rest) idx =
    let later = quick_place c begin rest (idx + 1) in
    if ltb begin (c.block k).vaddr then idx else later

-- The loop over `mLoad` for a given address: the first block above it, or the last block, bounds
-- the segment; the last one by the mask instead of by its own start.
unfoldable pub load_place : Core → ℕ → ℕ → List ℕ → ℕ → Option ℕ
load_place c begin size [] idx = some idx
load_place c begin size (k ∷ []) idx =
    if ltb c.vabits_mask (add64 begin size) then none else some idx
load_place c begin size (k ∷ k' ∷ rest) idx =
    let later = load_place c begin size (k' ∷ rest) (idx + 1) in
    let here : Option ℕ = (if ltb (c.block k).vaddr (add64 begin size) then none else some idx) in
    if ltb begin (c.block k).vaddr then here else later

-- The first gap of the size between neighbours: where it begins, and the place in `mLoad`.
unfoldable pub gap_place : Core → ℕ → ℕ → List ℕ → ℕ → Option (ℕ × ℕ)
gap_place c size left [] idx = none
gap_place c size left (right ∷ rest) idx =
    let later = gap_place c size right rest (idx + 1) in
    if leb size (sub64 (c.block right).vaddr (vend (c.block left)))
    then some (vend (c.block left), idx)
    else later

-- With no address given: below the first block, or in the first gap.
unfoldable pub place_anywhere : Core → ℕ → ℕ → List ℕ → Option Place
place_anywhere c size first rest =
    if leb (add64 fake_load_begin size) (c.block first).vaddr
    then some (record { begin = fake_load_begin; in_load = 0; in_quick = 0 })
    else (gap_place c size first rest 1 >>= λ g.
        if g.0 == 0
        then none
        else some (record { begin = g.0; in_load = g.1; in_quick = quick_place c g.0 c.quick 0 }))

unfoldable pub place_at : Core → ℕ → ℕ → Option Place
place_at c begin size = load_place c begin size c.loads 0 >>= λ i.
    some (record { begin = begin; in_load = i; in_quick = quick_place c begin c.quick 0 })

-- With no block in the table: at the address, or at the default one.
unfoldable pub place_first : Core → ℕ → ℕ → Option Place
place_first c begin size =
    let at : ℕ = (if begin == 0 then fake_load_begin else begin) in
    if ltb c.vabits_mask (add64 at size)
    then none
    else some (record { begin = at; in_load = 0; in_quick = 0 })

-- The part of the function that chooses the place, with its early returns.
unfoldable pub choose_place : Core → ℕ → ℕ → Option Place
choose_place c begin size =
    let among : Option Place = elim c.loads [
      | [] ↦ place_first c begin size
      | first ∷ rest ↦
          if is_some (find_load_block c begin false)
          then none
          else (if begin == 0 then place_anywhere c size first rest else place_at c begin size)
    ] in
    if size == 0 then none else among

-- The fake block, with its masks.
unfoldable pub fake_block : Core → ℕ → ℕ → ℕ → LoadBlock
fake_block c begin size flags = record (new_block flags 0 begin 0 0 size 0x1000) {
  fake = true;
  vabits_mask = c.vabits_mask;
  point_mask = c.pointer_mask;
}

-- The block goes into both tables once it has its overlay.
unfoldable pub insert_block : Option ℕ → Core → ℕ → ℕ → Place → Core × ℕ
insert_block anon c size flags p =
    let r = new_overlay anon c.mem (fake_block c p.begin size flags) in
    if r.2
    then (
      record c {
        mem = r.0;
        block = set_block c c.next r.1;
        next = c.next + 1;
        loads = insert_at c.loads p.in_load c.next;
        quick =
            if not c.quick_enabled || not (flags == 0)
            then insert_at c.quick p.in_quick c.next
            else c.quick;
      },
      p.begin,
    )
    else (c, 0)

-- The address of the new segment, 0 if there is none.
unfoldable pub new_load_block : Option ℕ → Core → ℕ → ℕ → ℕ → Core × ℕ
new_load_block anon c vaddr old_size flags =
    let begin = round_up (bit_and vaddr c.vabits_mask) page_size in
    let size = round_up old_size page_size in
    elim (choose_place c begin size) [ none ↦ (c, 0) | some p ↦ insert_block anon c size flags p ]
