-- ===== src/Load/Translate.antt =====
-- `v2r`, `r2v` and `Read` of core/api/core.cpp: virtual addresses, host addresses, and bytes.
use open_core_analysis_kit.Base.{
  ℕ, zero, suc, ◌+◌, ◌-◌, ◌≤◌, ◌<◌, ◌≡◌, ap, ◌∙◌, bit_and, ltb, ◌==◌, if◌then◌else◌, true, false,
  some, List, [], ◌∷◌, length, arith, Bool-cases, inl, inr, add64, sub64, u64_mod,
}
use open_core_analysis_kit.Load.Block.{
  LoadBlock, is_valid, begin, size, real_contains, in_range, opt_read_all,
}
use open_core_analysis_kit.Load.Table.{Core, nth, find_load_block, ok, v2r, r2v_in, r2v, read}

-- An address that the quick table maps to data of block `k`.
pub record Mapped (c : Core) (vaddr k : ℕ) : Type 0 where
  pub found : find_load_block c vaddr true ≡ some k
  pub valid : is_valid (c.block k) ≡ true
  pub mask : (c.block k).vabits_mask ≡ c.vabits_mask
  pub above : (c.block k).vaddr ≤ bit_and vaddr c.vabits_mask
  pub inside : bit_and vaddr c.vabits_mask < (c.block k).vaddr + size (c.block k) opt_read_all
  pub host : 0 < begin (c.block k) opt_read_all
  pub room : begin (c.block k) opt_read_all + size (c.block k) opt_read_all < u64_mod
  pub small : bit_and vaddr c.vabits_mask < u64_mod

-- The place of the address in the data of the block.
abbrev pub host_address : Core → ℕ → ℕ → ℕ
host_address c vaddr k =
    begin (c.block k) opt_read_all + (bit_and vaddr c.vabits_mask - (c.block k).vaddr)

v2r_found :
    (c : Core) (vaddr opt k : ℕ)
    → find_load_block c vaddr true ≡ some k
    → is_valid (c.block k) ≡ true
    → v2r c vaddr opt
      ≡ ok (
          if begin (c.block k) opt == 0
          then 0
          else add64
              (begin (c.block k) opt)
              (sub64 (bit_and vaddr (c.block k).vabits_mask) (c.block k).vaddr))
unfolding v2r
v2r_found c vaddr opt k e h = ground arith

-- On mapped data `v2r` is the offset into the data, with no wrap-around.
v2r-Mapped :
    (c : Core) (vaddr k : ℕ)
    → Mapped c vaddr k
    → v2r c vaddr opt_read_all ≡ ok (host_address c vaddr k)
v2r-Mapped c vaddr k m =
    let b = c.block k in
    let filled : (begin b opt_read_all == 0) ≡ false = ground (arith, m.host) in
    let place : sub64 (bit_and vaddr b.vabits_mask) b.vaddr
        ≡ bit_and vaddr c.vabits_mask - b.vaddr =
      ap (λ (t : ℕ). sub64 (bit_and vaddr t) b.vaddr) m.mask ∙ omega (arith, m.above, m.small) in
    v2r_found c vaddr opt_read_all k m.found m.valid
    ∙ rw (filled, place) (ap ok (omega (arith, m.above, m.inside, m.room)))

real_contains_lem :
    (b : LoadBlock) (raddr : ℕ)
    → 0 < begin b opt_read_all
    → real_contains b raddr ≡ in_range raddr (begin b opt_read_all) (size b opt_read_all)
unfolding real_contains begin size
real_contains_lem b raddr h = ground arith

Mapped-real_contains :
    (c : Core) (vaddr k : ℕ)
    → Mapped c vaddr k
    → real_contains (c.block k) (host_address c vaddr k) ≡ true
Mapped-real_contains c vaddr k m =
    rw (real_contains_lem (c.block k) (host_address c vaddr k) m.host)
      (ground (arith, m.above, m.inside, m.room, m.small))

r2v_in_first :
    (c : Core) (table : List ℕ) (raddr k i : ℕ)
    → i < length table
    → nth table i ≡ k
    → real_contains (c.block k) raddr ≡ true
    → ((j : ℕ)
        → j < length table
        → real_contains (c.block (nth table j)) raddr ≡ true
        → nth table j ≡ k)
    → r2v_in c table raddr
      ≡ ok (add64 (c.block k).vaddr (sub64 raddr (begin (c.block k) opt_read_all)))
unfolding r2v_in
r2v_in_first c [] raddr k i h e real only = absurd (omega arith)
r2v_in_first c (x ∷ rest) raddr k zero h e real only = rw (e, real)
r2v_in_first c (x ∷ rest) raddr k (suc i) h e real only =
    elim (Bool-cases (real_contains (c.block x) raddr)) [
      | inl hit ↦ let same : x ≡ k = only 0 (omega arith) hit in rw (same, real)
      | inr miss ↦ rw miss (
          r2v_in_first c rest raddr k i (omega arith) e real
            (λ j p q. only (suc j) (omega arith) q))
    ]

-- `GetVirtual` takes the host address that `GetReal` gives for mapped data back to the masked
-- virtual address, where no other block of the quick table has data at that host address.
pub r2v-v2r :
    (c : Core) (vaddr k i : ℕ)
    → Mapped c vaddr k
    → i < length c.quick
    → nth c.quick i ≡ k
    → ((j : ℕ)
        → j < length c.quick
        → real_contains (c.block (nth c.quick j)) (host_address c vaddr k) ≡ true
        → nth c.quick j ≡ k)
    → (v2r c vaddr opt_read_all ≡ ok (host_address c vaddr k))
      × (r2v c (host_address c vaddr k) ≡ ok (bit_and vaddr c.vabits_mask))
unfolding r2v
r2v-v2r c vaddr k i m h e only = (
  v2r-Mapped c vaddr k m,
  r2v_in_first c c.quick (host_address c vaddr k) k i h e (Mapped-real_contains c vaddr k m) only
      ∙ ap ok (omega (arith, m.above, m.inside, m.room, m.small)),
)

read_found :
    (c : Core) (vaddr n opt k raddr : ℕ)
    → find_load_block c vaddr true ≡ some k
    → is_valid (c.block k) ≡ true
    → v2r c vaddr opt ≡ ok raddr
    → 0 < raddr
    → read c vaddr n opt
      ≡ ok (
          some (record {
            from = raddr;
            count =
                if ltb (add64 (c.block k).vaddr (size (c.block k) opt_read_all)) (add64 vaddr n)
                then sub64 (add64 (c.block k).vaddr (size (c.block k) opt_read_all)) vaddr
                else n;
          }))
unfolding read
read_found c vaddr n opt k raddr e h v pos = ground arith

-- A read of mapped data at an address without tag bits, whose range does not wrap, copies exactly
-- what was asked for if that lies inside the data, and else exactly the bytes up to the end of the
-- data.
pub read_clamped :
    (c : Core) (vaddr n k : ℕ)
    → Mapped c vaddr k
    → bit_and vaddr c.vabits_mask ≡ vaddr
    → vaddr + n < u64_mod
    → (c.block k).vaddr + size (c.block k) opt_read_all < u64_mod
    → (count : ℕ) × (read c vaddr n opt_read_all
        ≡ ok (some (record { from = host_address c vaddr k; count = count })))
      × (count ≤ n)
      × (vaddr + count ≤ (c.block k).vaddr + size (c.block k) opt_read_all)
      × (vaddr + n ≤ (c.block k).vaddr + size (c.block k) opt_read_all → count ≡ n)
      × ((c.block k).vaddr + size (c.block k) opt_read_all < vaddr + n
          → vaddr + count ≡ (c.block k).vaddr + size (c.block k) opt_read_all)
read_clamped c vaddr n k m tag hn hs = (
  if ltb (add64 (c.block k).vaddr (size (c.block k) opt_read_all)) (add64 vaddr n)
      then sub64 (add64 (c.block k).vaddr (size (c.block k) opt_read_all)) vaddr
      else n,
  read_found c vaddr n opt_read_all k (host_address c vaddr k) m.found m.valid
      (v2r-Mapped c vaddr k m) (omega (arith, m.host)),
  ground (arith, m.inside, tag, hn, hs),
  ground (arith, m.inside, tag, hn, hs),
  λ fits. ground (arith, m.inside, tag, hn, hs, fits),
  λ long. ground (arith, m.inside, tag, hn, hs, long),
)

-- At an address with tag bits, which the lookup masks off and the bound does not, the cut wraps
-- round: `Read` copies more than was asked for.
pub read_tagged :
    (c : Core) (vaddr n k : ℕ)
    → Mapped c vaddr k
    → (c.block k).vaddr + size (c.block k) opt_read_all < vaddr
    → vaddr + n < u64_mod
    → (count : ℕ) × (read c vaddr n opt_read_all
        ≡ ok (some (record { from = host_address c vaddr k; count = count })))
      × (n < count)
read_tagged c vaddr n k m tag hn = (
  if ltb (add64 (c.block k).vaddr (size (c.block k) opt_read_all)) (add64 vaddr n)
      then sub64 (add64 (c.block k).vaddr (size (c.block k) opt_read_all)) vaddr
      else n,
  read_found c vaddr n opt_read_all k (host_address c vaddr k) m.found m.valid
      (v2r-Mapped c vaddr k m) (omega (arith, m.host)),
  ground (arith, m.inside, tag, hn),
)
