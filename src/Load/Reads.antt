-- ===== src/Load/Reads.antt =====
-- The interface that readers of objects see, `Target`, filled by the core: `value64Of` and its kin
-- through a fresh `MemoryRef`.
use open_core_analysis_kit.Base.{
  ℕ, ◌*◌, ◌^◌, ◌≤◌, ◌<◌, ◌≡◌, Option, none, some, IsBytes, arith, ap, add64,
}
use open_core_analysis_kit.Target.{Target}
use open_core_analysis_kit.Dwarf.Text.{le_bytes}
use open_core_analysis_kit.Dwarf.Text.Bytes.{le_sum-lt, le_bytes-le_sum}
use open_core_analysis_kit.Load.Block.{opt_read_all}
use open_core_analysis_kit.Load.Table.{Core, Access, ok, invalid_address, v2r}
use open_core_analysis_kit.Load.Ref.{real, value_of}
use open_core_analysis_kit.Load.Ref.Coherent.{IsLoaded, real-v2r}

-- An exception is `none`.
abbrev pub returned {ℓ} : {A : Type ℓ} → Access A → Option A
returned (ok a) = some a
returned (invalid_address v) = none

abbrev pub core_load : Core → ℕ → ℕ → ℕ → Option ℕ
core_load c vaddr offset n = returned (value_of c (record { vaddr = vaddr; block = none }) offset n)

returned_small :
    (a : Access ℕ) (f : ℕ → ℕ) (bound : ℕ) {v : ℕ}
    → ((r : ℕ) → f r < bound)
    → returned {A = ℕ} (elim a [ invalid_address x ↦ invalid_address x | ok r ↦ ok (f r) ]) ≡ some v
    → v < bound
returned_small (invalid_address x) f bound h e = absurd (ground (arith, e))
returned_small (ok r) f bound {v} h e = let same : f r ≡ v = cc in rw (← same) (h r)

le_bytes-lt : (m : ℕ → ℕ) (p n : ℕ) → IsBytes m → n ≤ 8 → le_bytes m p n < 2 ^ (8 * n)
le_bytes-lt m p n bytes h = rw (le_bytes-le_sum m p n bytes h) (le_sum-lt m p n bytes)

pub core_load_small :
    (c : Core)
    → IsBytes c.mem
    → (vaddr offset n : ℕ) {v : ℕ} → n ≤ 8
    → core_load c vaddr offset n ≡ some v
    → v < 2 ^ (8 * n)
unfolding value_of
core_load_small c bytes vaddr offset n h e =
    returned_small (real c (record { vaddr = vaddr; block = none }))
      (λ raddr. le_bytes c.mem (add64 raddr offset) n) (2 ^ (8 * n))
      (λ raddr. le_bytes-lt c.mem (add64 raddr offset) n bytes h) e

-- The memory of a core, for readers of objects.
abbrev pub core_target : (c : Core) → IsBytes c.mem → Target
core_target c bytes = record {
  load = core_load c;
  small = core_load_small c bytes;
  point_mask = c.pointer_mask;
}

-- On a loaded core, a field of an object at a nonzero address is read at the host address that
-- `GetReal` gives for the object: the reader throws exactly if that throws.
pub core_load-v2r :
    (c : Core) (vaddr offset n : ℕ)
    → IsLoaded c
    → 0 < vaddr
    → core_load c vaddr offset n
      ≡ returned {A = ℕ} (elim (v2r c vaddr opt_read_all) [
        | invalid_address a ↦ invalid_address a
        | ok raddr ↦ ok (le_bytes c.mem (add64 raddr offset) n)
      ])
unfolding value_of
core_load-v2r c vaddr offset n loaded pos =
    ap
      (λ (a : Access ℕ). returned {A = ℕ} (elim a [
        | invalid_address x ↦ invalid_address x
        | ok raddr ↦ ok (le_bytes c.mem (add64 raddr offset) n)
      ]))
      (real-v2r c (record { vaddr = vaddr; block = none }) loaded tt pos)
