-- ===== src/Load/Write.antt =====
-- `CoreApi::Write` of core/api/core.cpp and the overlays of core/common/load_block.cpp.
use open_core_analysis_kit.Base.{
  ℕ, ◌+◌, ◌-◌, ◌≤◌, ◌<◌, ◌≡◌, refl, ap, ◌∙◌, bit_and, ltb, leb, ◌==◌, ◌&&◌, true, false, Option,
  none, some, arith, ◌⊎◌, inr, add64, sub64, u64_mod, Memory,
}
use open_core_analysis_kit.Load.Block.{
  MemoryMap, LoadBlock, is_valid, begin, opt_read_all, memcpy, anon_map, overlay_fill, new_overlay,
  set_overlay,
}
use open_core_analysis_kit.Load.Table.{Core, find_load_block, ok, write, set_block}

-- The bytes of a region of host memory after `n` bytes of `buf` were written at `dst`.
memcpy_lem :
    (m : Memory) (dst : ℕ) (buf : ℕ → ℕ) (n a : ℕ)
    → ((i : ℕ) → i < n → a ≡ dst + i → memcpy m dst buf n a ≡ buf i)
      × ((a < dst) ⊎ (dst + n ≤ a) → memcpy m dst buf n a ≡ m a)
unfolding memcpy
memcpy_lem m dst buf n a = (
  λ i h e.
      let in' : (leb dst a && ltb a (dst + n)) ≡ true = ground arith in
      let same : a - dst ≡ i = omega arith in rw (in', same),
  λ out. let no' : (leb dst a && ltb a (dst + n)) ≡ false = ground arith in rw no',
)

write_found :
    (anon : Option ℕ) (c : Core) (vaddr : ℕ) (buf : ℕ → ℕ) (n k : ℕ)
    → find_load_block c vaddr true ≡ some k
    → write anon c vaddr buf n
      ≡ ok (record c {
        mem = (set_overlay anon vaddr buf n c.mem (c.block k)).0;
        block = set_block c k (set_overlay anon vaddr buf n c.mem (c.block k)).1;
      })
unfolding write
write_found anon c vaddr buf n k e = rw (e, write)

-- The offset of an address in its block.
abbrev pub offset_in : Core → ℕ → ℕ → ℕ
offset_in c vaddr k = bit_and vaddr c.vabits_mask - (c.block k).vaddr

-- A block that the address belongs to.
pub record Located (c : Core) (vaddr k : ℕ) : Type 0 where
  pub found : find_load_block c vaddr true ≡ some k
  pub mask : (c.block k).vabits_mask ≡ c.vabits_mask
  pub above : (c.block k).vaddr ≤ bit_and vaddr c.vabits_mask
  pub small : bit_and vaddr c.vabits_mask < u64_mod

offset_exact :
    (c : Core) (vaddr k : ℕ)
    → Located c vaddr k
    → sub64 (bit_and vaddr (c.block k).vabits_mask) (c.block k).vaddr ≡ offset_in c vaddr k
offset_exact c vaddr k l =
    ap (λ (t : ℕ). sub64 (bit_and vaddr t) (c.block k).vaddr) l.mask
    ∙ omega (arith, l.above, l.small)

set_overlay-some :
    (anon : Option ℕ) (vaddr : ℕ) (buf : ℕ → ℕ) (n : ℕ) (m : Memory) (b : LoadBlock) (o : MemoryMap)
    → b.overlay ≡ some o
    → (set_overlay anon vaddr buf n m b).0
      ≡ memcpy m (add64 o.data_at (sub64 (bit_and vaddr b.vabits_mask) b.vaddr)) buf n
unfolding set_overlay new_overlay
set_overlay-some anon vaddr buf n m b o e = ground arith

-- A write to a block that has an overlay puts the bytes at the address's offset in the overlay,
-- and changes no other byte of host memory.
pub write_overlay :
    (anon : Option ℕ) (c : Core) (vaddr : ℕ) (buf : ℕ → ℕ) (n k : ℕ) (o : MemoryMap)
    → Located c vaddr k
    → (c.block k).overlay ≡ some o
    → o.data_at + offset_in c vaddr k < u64_mod
    → (m' : Memory) × (block' : ℕ → LoadBlock) × (write anon c vaddr buf n
        ≡ ok (record c { mem = m'; block = block' }))
      × ((i : ℕ) → i < n → m' (o.data_at + offset_in c vaddr k + i) ≡ buf i)
      × ((a : ℕ)
          → (a < o.data_at + offset_in c vaddr k) ⊎ (o.data_at + offset_in c vaddr k + n ≤ a)
          → m' a ≡ c.mem a)
write_overlay anon c vaddr buf n k o l e h =
    let dst = o.data_at + offset_in c vaddr k in
    let place : add64 o.data_at (sub64 (bit_and vaddr (c.block k).vabits_mask) (c.block k).vaddr)
        ≡ dst =
      rw (offset_exact c vaddr k l) (omega (arith, h)) in
    let result : (set_overlay anon vaddr buf n c.mem (c.block k)).0 ≡ memcpy c.mem dst buf n =
      set_overlay-some anon vaddr buf n c.mem (c.block k) o e
      ∙ ap (λ (d : ℕ). memcpy c.mem d buf n) place in
    (
      (set_overlay anon vaddr buf n c.mem (c.block k)).0,
      _,
      write_found anon c vaddr buf n k l.found,
      λ i lt. rw result ((memcpy_lem c.mem dst buf n (dst + i)).0 i lt refl),
      λ a out. rw result ((memcpy_lem c.mem dst buf n a).1 out),
    )

-- The memory behind a first write.
abbrev first_copy : Memory → LoadBlock → ℕ → Memory
first_copy m b addr =
    memcpy (memcpy m addr (λ i. 0) b.mem_size) addr (λ i. m (begin b opt_read_all + i))
      (overlay_fill b)

new_overlay-none :
    (addr : ℕ) (m : Memory) (b : LoadBlock)
    → b.overlay ≡ none
    → is_valid b ≡ true
    → new_overlay (some addr) m b
      ≡ (first_copy m b addr, record b { overlay = some (anon_map addr b.mem_size) }, true)
unfolding new_overlay
new_overlay-none addr m b e v = ground arith

set_overlay-none :
    (vaddr : ℕ) (buf : ℕ → ℕ) (n addr : ℕ) (m : Memory) (b : LoadBlock)
    → b.overlay ≡ none
    → is_valid b ≡ true
    → set_overlay (some addr) vaddr buf n m b ≡ (
      memcpy (first_copy m b addr) (add64 addr (sub64 (bit_and vaddr b.vabits_mask) b.vaddr)) buf n,
      record b { overlay = some (anon_map addr b.mem_size) },
    )
unfolding set_overlay
set_overlay-none vaddr buf n addr m b e v =
    rw (new_overlay-none addr m b e v, set_overlay) (rw (new_overlay-none addr m b e v))

-- A byte of the copied data that the write leaves alone.
kept_byte :
    (m : Memory) (b : LoadBlock) (addr dst n i : ℕ) (buf : ℕ → ℕ)
    → i < overlay_fill b
    → (addr + i < dst) ⊎ (dst + n ≤ addr + i)
    → memcpy (first_copy m b addr) dst buf n (addr + i) ≡ m (begin b opt_read_all + i)
kept_byte m b addr dst n i buf h out =
    (memcpy_lem (first_copy m b addr) dst buf n (addr + i)).1 out
    ∙ (memcpy_lem (memcpy m addr (λ j. 0) b.mem_size) addr (λ j. m (begin b opt_read_all + j))
          (overlay_fill b) (addr + i)).0
        i h refl

-- A byte behind the copied data that the write leaves alone.
zero_byte :
    (m : Memory) (b : LoadBlock) (addr dst n i : ℕ) (buf : ℕ → ℕ)
    → overlay_fill b ≤ i
    → i < b.mem_size
    → (addr + i < dst) ⊎ (dst + n ≤ addr + i)
    → memcpy (first_copy m b addr) dst buf n (addr + i) ≡ 0
zero_byte m b addr dst n i buf h lt out =
    (memcpy_lem (first_copy m b addr) dst buf n (addr + i)).1 out
    ∙ (memcpy_lem (memcpy m addr (λ j. 0) b.mem_size) addr (λ j. m (begin b opt_read_all + j))
          (overlay_fill b) (addr + i)).1
        (inr (omega (arith, h)))
    ∙ (memcpy_lem m addr (λ j. 0) b.mem_size (addr + i)).0 i lt refl

-- Without an overlay, a first write of a valid block, whose map succeeds and whose bytes fit into the
-- segment, makes an overlay of the segment's size: the bytes that are written, around them the data
-- that was readable before, and zeros behind that. No other byte of host memory changes.
pub write_copies :
    (c : Core) (vaddr : ℕ) (buf : ℕ → ℕ) (n k addr : ℕ)
    → Located c vaddr k
    → (c.block k).overlay ≡ none
    → is_valid (c.block k) ≡ true
    → overlay_fill (c.block k) ≤ (c.block k).mem_size
    → addr + (c.block k).mem_size < u64_mod
    → offset_in c vaddr k + n ≤ (c.block k).mem_size
    → (m' : Memory) × (block' : ℕ → LoadBlock) × (write (some addr) c vaddr buf n
        ≡ ok (record c { mem = m'; block = block' }))
      × ((block' k).overlay ≡ some (anon_map addr (c.block k).mem_size))
      × ((i : ℕ) → i < n → m' (addr + offset_in c vaddr k + i) ≡ buf i)
      × ((i : ℕ)
          → i < overlay_fill (c.block k)
          → (i < offset_in c vaddr k) ⊎ (offset_in c vaddr k + n ≤ i)
          → m' (addr + i) ≡ c.mem (begin (c.block k) opt_read_all + i))
      × ((i : ℕ)
          → overlay_fill (c.block k) ≤ i
          → i < (c.block k).mem_size
          → (i < offset_in c vaddr k) ⊎ (offset_in c vaddr k + n ≤ i)
          → m' (addr + i) ≡ 0)
      × ((a : ℕ) → (a < addr) ⊎ (addr + (c.block k).mem_size ≤ a) → m' a ≡ c.mem a)
write_copies c vaddr buf n k addr l e valid fill room fits =
    let b = c.block k in
    let at = offset_in c vaddr k in
    let place : add64 addr (sub64 (bit_and vaddr b.vabits_mask) b.vaddr) ≡ addr + at =
      rw (offset_exact c vaddr k l) (omega arith) in
    let m' = memcpy (first_copy c.mem b addr) (addr + at) buf n in
    let b' = record b { overlay = some (anon_map addr b.mem_size) } in
    let same : (k == k) ≡ true = ground arith in
    let result : set_overlay (some addr) vaddr buf n c.mem b ≡ (m', b') =
      set_overlay-none vaddr buf n addr c.mem b e valid
      ∙ ap
          (λ (d : ℕ).
            let r : Memory × LoadBlock = (memcpy (first_copy c.mem b addr) d buf n, b') in r)
          place in
    (
      m',
      set_block c k b',
      write_found (some addr) c vaddr buf n k l.found
          ∙ ap (λ (r : Memory × LoadBlock). ok (record c { mem = r.0; block = set_block c k r.1 }))
              result,
      rw same,
      λ i lt. (memcpy_lem (first_copy c.mem b addr) (addr + at) buf n (addr + at + i)).0 i lt refl,
      λ i lt out. kept_byte c.mem b addr (addr + at) n i buf lt (omega (arith, out)),
      λ i le lt out. zero_byte c.mem b addr (addr + at) n i buf le lt (omega (arith, out)),
      λ a out.
          (memcpy_lem (first_copy c.mem b addr) (addr + at) buf n a).1 (omega (arith, out, fits))
          ∙ (memcpy_lem (memcpy c.mem addr (λ j. 0) b.mem_size) addr
                (λ j. c.mem (begin b opt_read_all + j)) (overlay_fill b) a).1
              (omega (arith, out, fill))
          ∙ (memcpy_lem c.mem addr (λ j. 0) b.mem_size a).1 out,
    )
