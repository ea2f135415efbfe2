-- ===== src/Load/Ref/Coherent.antt =====
-- The block that a `MemoryRef` carries is the one that `findLoadBlock` gives for its address.
use open_core_analysis_kit.Base.{
  ℕ, zero, suc, Bool, ◌≤◌, ◌<◌, ◌≡◌, refl, bit_and, ◌==◌, true, false, Option, none, some, length,
  arith, Bool-cases, Option-cases, inl, inr, add64,
}
use open_core_analysis_kit.Load.Block.{
  LoadBlock, is_valid, begin, virtual_contains, vend, opt_read_all,
}
use open_core_analysis_kit.Load.Table.{
  Core, nth, start_at, end_at, find_load_block, get_loads, Access, ok, invalid_address, v2r,
}
use open_core_analysis_kit.Load.Search.{
  IsSortedTable, find_load_block-FindsBlock, find_load_block_complete,
}
use open_core_analysis_kit.Load.Ref.{
  MemoryRef, is_valid_at, find_checked, prepare, real_in, real, moved_to, move_ptr,
}

-- A core whose quick table is sorted, and whose blocks have the core's mask and a place for data.
pub record IsLoaded (c : Core) : Type 0 where
  pub sorted : IsSortedTable c (get_loads c true)
  pub mask : (k : ℕ) → (c.block k).vabits_mask ≡ c.vabits_mask
  pub placed : (k : ℕ) → is_valid (c.block k) ≡ true → 0 < begin (c.block k) opt_read_all

-- The block that is carried stands in the quick table and holds the address.
abbrev pub Carries : Core → ℕ → Option ℕ → Type 0
Carries c v none = Unit
Carries c v (some k) =
    (i : ℕ) × (i < length (get_loads c true))
    × (nth (get_loads c true) i ≡ k)
    × (virtual_contains (c.block k) v ≡ true)

abbrev pub IsCoherent : Core → MemoryRef → Type 0
IsCoherent c r = Carries c r.vaddr r.block

-- What is returned, if no exception is thrown.
abbrev pub Yields {ℓ κ} : {A : Type ℓ} → (A → Type κ) → Access A → Type κ
Yields P (ok a) = P a
Yields P (invalid_address v) = Unit

Yields-then {ℓ κ} :
    {A B : Type ℓ} (P : A → Type κ) (Q : B → Type κ) (m : Access A) (f : A → B)
    → ((a : A) → P a → Q (f a))
    → Yields P m
    → Yields Q (elim m [ invalid_address v ↦ invalid_address v | ok a ↦ ok (f a) ])
Yields-then P Q (ok a) f keep h = keep a h
Yields-then P Q (invalid_address v) f keep h = tt

contains-range :
    (b : LoadBlock) (v mask : ℕ)
    → b.vabits_mask ≡ mask
    → virtual_contains b v ≡ true
    → (b.vaddr ≤ bit_and v mask) × (bit_and v mask < vend b)
unfolding virtual_contains
contains-range b v mask e h = rw (← e) (ground (arith, h))

range-contains :
    (b : LoadBlock) (v mask : ℕ)
    → b.vabits_mask ≡ mask
    → (b.vaddr ≤ bit_and v mask) × (bit_and v mask < vend b)
    → virtual_contains b v ≡ true
unfolding virtual_contains
range-contains b v mask e (low, high) =
    let a = bit_and v b.vabits_mask in
    let same : a ≡ bit_and v mask = rw e refl in
    let low' : b.vaddr ≤ a = omega arith in let high' : a < vend b = omega arith in ground arith

module _ (c : Core) (loaded : IsLoaded c) where
  contains-found : (v k : ℕ) → Carries c v (some k) → find_load_block c v true ≡ some k
  contains-found v k (i, lt, e, h) =
      let range = contains-range (c.block k) v c.vabits_mask (loaded.mask k) h in
      rw e at
        (find_load_block_complete c v true i loaded.sorted lt (rw (start_at, end_at, e) range))

  found-Carries : (v k : ℕ) → find_load_block c v true ≡ some k → Carries c v (some k)
  found-Carries v k e =
      let (i, lt, same, holds) = (rw e at (find_load_block-FindsBlock c v true loaded.sorted)) in
      (i, lt, rw same, range-contains (c.block k) v c.vabits_mask (loaded.mask k) (rw same holds))

  find-Carries : (v : ℕ) → Carries c v (find_load_block c v true)
  find-Carries v = elim (Option-cases (find_load_block c v true)) [
    | inl e ↦ rw e tt
    | inr (k, e) ↦ rw e (found-Carries v k e)
  ]

  -- A block that is carried is found again.
  real_in-v2r :
      (r : MemoryRef) (b : Option ℕ)
      → find_load_block c r.vaddr true ≡ b
      → real_in c r b ≡ v2r c r.vaddr opt_read_all
  unfolding real_in v2r
  real_in-v2r r none e = rw (v2r, e) refl
  real_in-v2r r (some k) e =
      rw (v2r, e)
        (elim (Bool-cases (is_valid (c.block k))) [
          | inl v ↦
              let filled : (begin (c.block k) opt_read_all == 0) ≡ false =
                ground (arith, loaded.placed k v) in
              rw (v, filled) refl
          | inr v ↦ rw v refl
        ])

  not_found :
      (v : ℕ)
      → is_valid_at c (find_load_block c v true) ≡ false
      → invalid_address v ≡ v2r c v opt_read_all
  unfolding v2r
  not_found v h = elim (Option-cases (find_load_block c v true)) [
    | inl e ↦ rw (v2r, e) refl
    | inr (k, e) ↦ let bad : is_valid (c.block k) ≡ false = (rw e at h) in rw (v2r, e) (rw bad refl)
  ]

  prepare_found :
      (v : ℕ) (b : Option ℕ)
      → 0 < v
      → find_load_block c v true ≡ b
      → is_valid_at c b ≡ true
      → prepare c true (record { vaddr = v; block = none }) ≡ ok (record { vaddr = v; block = b })
  unfolding prepare find_checked
  prepare_found v b pos e h =
      let place : (v == 0) ≡ false = ground arith in rw (prepare, place, e, h) refl

  prepare_missing :
      (v : ℕ)
      → 0 < v
      → is_valid_at c (find_load_block c v true) ≡ false
      → prepare c true (record { vaddr = v; block = none }) ≡ invalid_address v
  unfolding prepare find_checked
  prepare_missing v pos h =
      let place : (v == 0) ≡ false = ground arith in rw (prepare, place, h) refl

  real_at :
      (v : ℕ) (b : Option ℕ)
      → Carries c v b
      → 0 < v
      → real c (record { vaddr = v; block = b }) ≡ v2r c v opt_read_all
  unfolding real
  real_at v (some k) h pos =
      unfold prepare in
      real_in-v2r (record { vaddr = v; block = some k }) (some k) (contains-found v k h)
  real_at v none h pos = elim (Bool-cases (is_valid_at c (find_load_block c v true))) [
    | inl ok' ↦
        rw (real, prepare_found v (find_load_block c v true) pos refl ok')
          (real_in-v2r (record { vaddr = v; block = find_load_block c v true })
            (find_load_block c v true) refl)
    | inr bad ↦ rw (real, prepare_missing v pos bad) (not_found v bad)
  ]

  prepared-IsCoherent :
      (check : Bool) (v : ℕ) (b : Option ℕ)
      → Carries c v b
      → Yields (IsCoherent c) (prepare c check (record { vaddr = v; block = b }))
  unfolding prepare find_checked
  prepared-IsCoherent check v (some k) h = h
  prepared-IsCoherent check zero none h = tt
  prepared-IsCoherent false (suc v) none h =
      let place : (suc v == 0) ≡ false = ground arith in rw (prepare, place) (find-Carries (suc v))
  prepared-IsCoherent true (suc v) none h =
      let place : (suc v == 0) ≡ false = ground arith in
      elim (Bool-cases (is_valid_at c (find_load_block c (suc v) true))) [
        | inl good ↦ rw (prepare, place, good) (find-Carries (suc v))
        | inr bad ↦ rw (prepare, place, bad) tt
      ]

  moved-Carries :
      (v : ℕ) (r : MemoryRef) (b : Option ℕ) → Carries c r.vaddr b → IsCoherent c (moved_to c v r b)
  unfolding moved_to
  moved-Carries v r none h = tt
  moved-Carries v r (some k) (i, lt, e, old) = elim (Bool-cases (virtual_contains (c.block k) v)) [
    | inl holds ↦ rw holds (i, lt, e, holds)
    | inr other ↦ rw other tt
  ]

-- On a loaded core, for a reference to a nonzero address that carries the block of its address, or
-- none: `Real` is `GetReal` of the address, and both throw the same exception.
pub real-v2r :
    (c : Core) (r : MemoryRef)
    → IsLoaded c
    → IsCoherent c r
    → 0 < r.vaddr
    → real c r ≡ v2r c r.vaddr opt_read_all
real-v2r c r loaded h pos = real_at c loaded r.vaddr r.block h pos

-- On a loaded core, for a reference that carries the block of its address, or none: `MovePtr` keeps
-- the block only if it holds the new address. The reference that it leaves carries the block of its
-- address, or none.
pub move_ptr-IsCoherent :
    (c : Core) (length : ℕ) (r : MemoryRef)
    → IsLoaded c
    → IsCoherent c r
    → Yields (IsCoherent c) (move_ptr c length r)
unfolding move_ptr
move_ptr-IsCoherent c length r loaded h =
    Yields-then (IsCoherent c) (IsCoherent c) (prepare c true r)
      (λ r'. moved_to c (add64 r'.vaddr length) r' r'.block)
      (λ r' k. moved-Carries c loaded (add64 r'.vaddr length) r' r'.block k)
      (prepared-IsCoherent c loaded true r.vaddr r.block h)
