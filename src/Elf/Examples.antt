-- ===== src/Elf/Examples.antt =====
-- A dynamic section of two entries, a table of three symbols, and the theorems at them.
use open_core_analysis_kit.Base.{
  ℕ, ◌+◌, ◌*◌, ◌^◌, ◌≤◌, ◌<◌, ◌≡◌, refl, ltb, ltb→lt, ◌==◌, if◌then◌else◌, true, Option, none, some,
  [], ◌∷◌, arith, Bool-cases, inl, inr,
}
use open_core_analysis_kit.Target.{done}
use open_core_analysis_kit.Elf.{Space, find_dynamic_entry}
use open_core_analysis_kit.Elf.Dynamic.{Section, last, entry, find_dynamic_entry-value}
use open_core_analysis_kit.Elf.Entry.{SymbolEntry, symbol_loop}
use open_core_analysis_kit.Elf.Entry.{dl_region_sym_entry, invalid_entry}
use open_core_analysis_kit.Elf.Region.{Finds, dl_region_sym_entry-Finds}
use open_core_analysis_kit.Base.{bit_and, sub64, false}
use open_core_analysis_kit.Elf.Symbols.{
  Named, Table, start, blank, kept, label, insert_all, symbol_loop-until_label,
}

-- The section is at 64: DT_STRTAB is 500, and DT_SYMTAB is 600. The symbols are at 128.
abbrev at : ℕ → ℕ
at a =
    if a == 64
    then 5
    else (if a == 72
        then 500
        else (if a == 80
            then 6
            else (if a == 88
                then 600
                else (if a == 152
                    then 1
                    else (if a == 160
                        then 1000
                        else (if a == 168
                            then 16
                            else (if a == 176
                                then 2
                                else (if a == 184 then 2000 else (if a == 192 then 8 else 0)))))))))

abbrev load : ℕ → ℕ → ℕ → Option ℕ
load p o n = if ltb (at (p + o)) (2 ^ (8 * n)) then some (at (p + o)) else none

load_small : (p o n : ℕ) {v : ℕ} → n ≤ 8 → load p o n ≡ some v → v < 2 ^ (8 * n)
load_small p o n {v} h e = elim (Bool-cases (ltb (at (p + o)) (2 ^ (8 * n)))) [
  | inl fits ↦
      let same : at (p + o) ≡ v = ground (arith, rw fits at e) in
      rw (← same) (ltb→lt (at (p + o)) (2 ^ (8 * n)) fits)
  | inr large ↦ absurd (ground (arith, rw large at e))
]

abbrev space : Space
space = record {
  target = record { load = load; small = load_small; point_mask = 0xffffffffffffffff };
  valid = λ a. true;
  same_block = λ a b. true;
  text = λ a. some (if a == 302 then b'$' ∷ [] else b'a' ∷ []);
  vabits_mask = 0xffffffffffff;
  bits = 64;
}

two_entries : Section space 64 ((5, 500) ∷ (6, 600) ∷ [])
two_entries = entry refl (omega arith) refl (entry refl (omega arith) refl (last refl))

find_dynamic_entry-value_example : find_dynamic_entry space 2 64 6 ≡ done 600
find_dynamic_entry-value_example =
    find_dynamic_entry-value space 2 64 6 5 500 ((6, 600) ∷ []) refl two_entries (omega arith)

abbrev symbol_a : SymbolEntry
symbol_a = record { offset = 1000; type = 0; size = 16; symbol = b'a' ∷ [] }

abbrev symbol_label : SymbolEntry
symbol_label = record { offset = 2000; type = 0; size = 8; symbol = b'$' ∷ [] }

symbol_a-Named : Named space 24 300 152 symbol_a
symbol_a-Named = record {
  name = 1;
  value = refl;
  value_pos = omega arith;
  size = refl;
  size_pos = omega arith;
  at = refl;
  below = omega arith;
  inside = refl;
  info = refl;
  text = refl;
}

symbol_label-Named : Named space 24 300 176 symbol_label
symbol_label-Named = record {
  name = 2;
  value = refl;
  value_pos = omega arith;
  size = refl;
  size_pos = omega arith;
  at = refl;
  below = omega arith;
  inside = refl;
  info = refl;
  text = refl;
}

three_symbols : Table space 24 300 5 128 (symbol_a ∷ []) 3 176
three_symbols = blank refl (kept symbol_a-Named refl start)

symbol_loop-until_label_example :
    symbol_loop space 5 24 300 128 [] ≡ insert_all space 24 300 (symbol_a ∷ []) []
symbol_loop-until_label_example =
    symbol_loop-until_label space 24 300 5 128 3 176 (symbol_a ∷ []) [] three_symbols
      (label symbol_label symbol_label-Named refl)

dl_region_sym_entry-Finds_example :
    (0x10000 < bit_and 0x103f0 0xffffffffffff
      → Finds false 0xffffffffffffffff
          (sub64 (bit_and 0x103f0 0xffffffffffff) 0x10000)
          (symbol_label ∷ symbol_a ∷ [])
          (dl_region_sym_entry false 0xffffffffffffffff 0xffffffffffff 0x10000
            (symbol_label ∷ symbol_a ∷ [])
            0x103f0))
    × (bit_and 0x103f0 0xffffffffffff ≤ 0x10000
        → dl_region_sym_entry false 0xffffffffffffffff 0xffffffffffff 0x10000
            (symbol_label ∷ symbol_a ∷ [])
            0x103f0
          ≡ invalid_entry)
dl_region_sym_entry-Finds_example =
    dl_region_sym_entry-Finds false 0xffffffffffffffff 0xffffffffffff 0x10000
      (symbol_label ∷ symbol_a ∷ []) 0x103f0 (omega arith, (omega arith, tt))
