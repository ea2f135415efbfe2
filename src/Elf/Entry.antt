-- ===== src/Elf/Entry.antt =====
-- Symbols: `SymbolEntry` of core/common/syment.h, `Elf::ReadSymbols` of core/api/elf.cpp, and the
-- searches of core/common/link_map.cpp.
use open_core_analysis_kit.Base.{
  ℕ, zero, suc, ◌/◌, ◌%◌, ◌^◌, bit_and, ltb, leb, ◌==◌, if◌then◌else◌, ◌&&◌, ◌||◌, not, Bool, true,
  false, Option, none, some, List, [], ◌∷◌, add64, sub64,
}
use open_core_analysis_kit.Target.{Run, threw, running, done, ◌>>=◌, fetch}
use open_core_analysis_kit.Elf.{
  Space, dt_strtab, dt_symtab, dt_syment, dt_versym, st_name, st_value, st_size, st_info, l_addr,
  find_dynamic, find_dynamic_entry,
}

-- `SymbolEntry`; entries are equal if they agree up to the name.
pub record SymbolEntry : Type 0 where
  pub offset : ℕ
  pub type : ℕ
  pub size : ℕ
  pub symbol : List ℕ

abbrev pub same_entry : SymbolEntry → SymbolEntry → Bool
same_entry a b = a.offset == b.offset && (a.type == b.type && a.size == b.size)

abbrev pub invalid_entry : SymbolEntry
invalid_entry = record { offset = 0; type = 0; size = 0; symbol = [] }

abbrev pub entry_is_valid : SymbolEntry → Bool
entry_is_valid e = not (e.offset == 0) && not (e.size == 0)

unfoldable pub contains_entry : SymbolEntry → List SymbolEntry → Bool
contains_entry e [] = false
contains_entry e (x ∷ xs) = same_entry x e || contains_entry e xs

-- `std::unordered_set::insert`.
unfoldable pub insert_entry : SymbolEntry → List SymbolEntry → List SymbolEntry
unfolding contains_entry
insert_entry e xs = if contains_entry e xs then xs else e ∷ xs

-- Mapping symbols and internal labels.
abbrev pub is_label : List ℕ → Bool
is_label [] = false
is_label (c ∷ cs) = c == b'$' || c == b'.'

-- What the body of the loop of `ReadSymbols` comes to: `continue`, `break`, an exception, or the
-- end of the body, where the loop moves on.
pub data Round : Type 0 where
  skip stop fault : Round
  move : List SymbolEntry → Round

module _ (s : Space) where
  open s use {target, bits}

  abbrev pub named : ℕ → ℕ → ℕ → ℕ → List SymbolEntry → List ℕ → Round
  named value size p info found symbol =
      if is_label symbol
      then skip
      else move (
          insert_entry (record { offset = value; type = info; size = size; symbol = symbol }) found)

  abbrev pub or_fault : {A : Type 0} → Option A → (A → Round) → Round
  or_fault none f = fault
  or_fault (some a) f = f a

  unfoldable pub symbol_round : ℕ → ℕ → List SymbolEntry → Round
  unfolding insert_entry
  symbol_round tables p found = or_fault (st_value s p) (λ value.
      if value == 0
      then move found
      else or_fault (st_size s p) (λ size.
        if size == 0
        then move found
        else or_fault (st_name s p) (λ name.
          let symname = add64 tables name in
          if leb target.point_mask symname
          then skip
          else (if s.same_block tables symname
              then or_fault (st_info s p)
                  (λ info. or_fault (s.text symname) (named value size p info found))
              else stop))))

  -- The loop; `continue` does not reach `symbols.MovePtr(syment)`. What was inserted stays, also if
  -- an exception ends the loop.
  unfoldable pub symbol_loop : ℕ → ℕ → ℕ → ℕ → List SymbolEntry → List SymbolEntry
  symbol_loop zero syment tables p found = found
  symbol_loop (suc count) syment tables p found = elim (symbol_round tables p found) [
    | skip ↦ symbol_loop count syment tables p found
    | stop ↦ found
    | fault ↦ found
    | move found' ↦ symbol_loop count syment tables (add64 p syment) found'
  ]

  abbrev pub above : ℕ → ℕ → ℕ
  above base table = if leb base table then table else add64 base table

  -- The size of the symbol table, up to the versions or the strings behind it.
  abbrev pub symbols_size : ℕ → ℕ → ℕ → ℕ
  symbols_size strtab symtab versym =
      if ltb versym strtab then sub64 versym symtab else sub64 strtab symtab

  -- `ReadSymbols` behind its four entries.
  unfoldable pub read_tables : ℕ → ℕ → ℕ → ℕ → ℕ → List SymbolEntry
  unfolding symbol_loop
  read_tables base strtab symtab syment versym =
      let symsz = symbols_size strtab symtab versym in
      if syment == 0
      then []
      else (if symsz == 0 || leb (2 ^ 63) symsz || not (symsz % syment == 0)
          then []
          else (if not (s.valid (above base strtab)) || not (s.valid (above base symtab))
              then []
              else symbol_loop (symsz / syment) syment (above base strtab) (above base symtab) []))

  -- `ReadSymbols`.
  unfoldable pub read_symbols : ℕ → ℕ → Run (List SymbolEntry)
  unfolding find_dynamic find_dynamic_entry read_tables
  read_symbols fuel handle = fetch (l_addr s handle) >>= λ base.
      if base == 0
      then done []
      else (find_dynamic s handle >>= λ dynamic.
          find_dynamic_entry s fuel dynamic dt_strtab >>= λ strtab.
          find_dynamic_entry s fuel dynamic dt_symtab >>= λ symtab.
          find_dynamic_entry s fuel dynamic dt_syment >>= λ syment.
          find_dynamic_entry s fuel dynamic dt_versym >>= λ versym.
          done (read_tables base strtab symtab syment versym))

-- `catch (InvalidAddressException& e) {}`, with the set as it was left: empty.
abbrev pub caught : Run (List SymbolEntry) → Run (List SymbolEntry)
caught threw = done []
caught running = running
caught (done symbols) = done symbols

-- `ReadDynsyms`.
unfoldable pub read_dynsyms : Space → ℕ → ℕ → Run (List SymbolEntry)
unfolding read_symbols
read_dynsyms s fuel handle = caught (read_symbols s fuel handle)

-- `std::find_if` over a set, in the order of its elements.
unfoldable pub find_if : (SymbolEntry → Bool) → List SymbolEntry → SymbolEntry
find_if test [] = invalid_entry
find_if test (x ∷ xs) = elim (test x) [ true ↦ x | false ↦ find_if test xs ]

-- `DlSymEntry`.
same_text : List ℕ → List ℕ → Bool
same_text [] [] = true
same_text [] (c ∷ cs) = false
same_text (b ∷ bs) [] = false
same_text (b ∷ bs) (c ∷ cs) = b == c && same_text bs cs

unfoldable pub dl_sym_entry : List SymbolEntry → List ℕ → SymbolEntry
unfolding find_if same_text
dl_sym_entry symbols name = find_if (λ e. same_text e.symbol name) symbols

-- The lambda of `DlRegionSymEntry`; on ARM the lowest bit of an offset is the Thumb flag.
abbrev pub entry_offset : Bool → ℕ → SymbolEntry → ℕ
entry_offset arm point_mask e = if arm then bit_and e.offset (sub64 point_mask 1) else e.offset

abbrev pub region_test : Bool → ℕ → ℕ → SymbolEntry → Bool
region_test arm point_mask cloc_offset e =
    let offset = entry_offset arm point_mask e in
    if ltb cloc_offset offset then false else ltb cloc_offset (add64 offset e.size)

-- `DlRegionSymEntry` of a link map at `base`.
unfoldable pub dl_region_sym_entry :
    Bool → (point_mask vabits_mask base : ℕ) → List SymbolEntry → ℕ → SymbolEntry
unfolding find_if
dl_region_sym_entry arm point_mask vabits_mask base symbols addr =
    let cloc_addr = bit_and addr vabits_mask in
    if leb cloc_addr base
    then invalid_entry
    else find_if (region_test arm point_mask (sub64 cloc_addr base)) symbols
