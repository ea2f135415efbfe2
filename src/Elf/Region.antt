-- ===== src/Elf/Region.antt =====
-- `LinkMap::DlRegionSymEntry` of core/common/link_map.cpp: the symbol that covers an address.
use open_core_analysis_kit.Base.{
  ℕ, suc, ◌+◌, ◌≤◌, ◌<◌, ◌≡◌, ◌⊎◌, inl, inr, refl, bit_and, leb, Bool, true, false, Bool-cases,
  some, List, [], ◌∷◌, All, get_elem?, sub64, u64_mod, arith,
}
use open_core_analysis_kit.Elf.Entry.{
  SymbolEntry, invalid_entry, entry_offset, region_test, find_if, dl_region_sym_entry,
}

-- The range of a symbol holds an offset.
abbrev pub Covers : Bool → ℕ → ℕ → SymbolEntry → Type 0
Covers arm point_mask offset e =
    (entry_offset arm point_mask e ≤ offset) × (offset < entry_offset arm point_mask e + e.size)

abbrev pub EndsFit : Bool → ℕ → SymbolEntry → Type 0
EndsFit arm point_mask e = entry_offset arm point_mask e + e.size < u64_mod

-- A symbol of the list that covers the offset, or no symbol covers it.
abbrev pub Finds : Bool → ℕ → ℕ → List SymbolEntry → SymbolEntry → Type 0
Finds arm point_mask offset symbols e =
    ((i : ℕ) × (get_elem? symbols i ≡ some e) × Covers arm point_mask offset e)
    ⊎ ((e ≡ invalid_entry) × All (λ s. ¬ (Covers arm point_mask offset s)) symbols)

module _ (arm : Bool) (point_mask offset : ℕ) where
  test-Covers :
      (e : SymbolEntry)
      → EndsFit arm point_mask e
      → region_test arm point_mask offset e ≡ true
      → Covers arm point_mask offset e
  test-Covers e fits h =
      let at = entry_offset arm point_mask e in
      let low : at ≤ offset = ground (arith, h) in
      let high : offset < at + e.size = ground (arith, h, fits) in (low, high)

  miss-Covers :
      (e : SymbolEntry)
      → EndsFit arm point_mask e
      → region_test arm point_mask offset e ≡ false
      → ¬ (Covers arm point_mask offset e)
  miss-Covers e fits h (low, high) = ground (arith, h, fits, low, high)

  find_if-Finds :
      (symbols : List SymbolEntry)
      → All (EndsFit arm point_mask) symbols
      → Finds arm point_mask offset symbols (find_if (region_test arm point_mask offset) symbols)
  unfolding find_if
  find_if-Finds [] fit = inr (refl, tt)
  find_if-Finds (s ∷ symbols) (fits, fit) =
      elim (Bool-cases (region_test arm point_mask offset s)) [
        | inl here ↦ rw (find_if, here) (inl (0, refl, test-Covers s fits here))
        | inr other ↦
            rw (find_if, other)
              (elim (find_if-Finds symbols fit) [
                | inl (i, e, c) ↦ inl (suc i, e, c)
                | inr (e, rest) ↦ inr (e, (miss-Covers s fits other, rest))
              ])
      ]

-- For symbols whose ends do not wrap, and an address above the library's base: `DlRegionSymEntry`
-- gives a symbol whose range holds the address's offset, or the invalid symbol if there is none. At
-- the base or below it gives the invalid symbol.
pub dl_region_sym_entry-Finds :
    (arm : Bool) (point_mask vabits_mask base : ℕ) (symbols : List SymbolEntry) (addr : ℕ)
    → All (EndsFit arm point_mask) symbols
    → (base < bit_and addr vabits_mask
        → Finds arm point_mask
            (sub64 (bit_and addr vabits_mask) base)
            symbols
            (dl_region_sym_entry arm point_mask vabits_mask base symbols addr))
      × (bit_and addr vabits_mask ≤ base
          → dl_region_sym_entry arm point_mask vabits_mask base symbols addr ≡ invalid_entry)
unfolding dl_region_sym_entry
dl_region_sym_entry-Finds arm point_mask vabits_mask base symbols addr fit = (above, below)
  where
    above :
        base < bit_and addr vabits_mask
        → Finds arm point_mask
            (sub64 (bit_and addr vabits_mask) base)
            symbols
            (dl_region_sym_entry arm point_mask vabits_mask base symbols addr)
    above h =
        let test : leb (bit_and addr vabits_mask) base ≡ false = ground (arith, h) in
        rw (dl_region_sym_entry, test)
          (find_if-Finds arm point_mask (sub64 (bit_and addr vabits_mask) base) symbols fit)

    below :
        bit_and addr vabits_mask ≤ base
        → dl_region_sym_entry arm point_mask vabits_mask base symbols addr ≡ invalid_entry
    below h =
        let test : leb (bit_and addr vabits_mask) base ≡ true = ground (arith, h) in
        rw (dl_region_sym_entry, test) refl
