-- ===== src/Dwarf/CompileUnit.antt =====
-- `ParseCompileUnit` and `ParseInfoSection` of core/api/dwarf.cpp.
use open_core_analysis_kit.Base.{
  ℕ, zero, suc, ◌+◌, ◌-◌, ltb, leb, ◌==◌, if◌then◌else◌, ◌||◌, not, Bool, true, false, Option, none,
  some, List, [], ◌∷◌, add64, to_u32,
}
use open_core_analysis_kit.Dwarf.Leb.{read_uleb128}
use open_core_analysis_kit.Dwarf.Types.{AttrSpec, StructInfo, Sections, form_implicit_const}
use open_core_analysis_kit.Dwarf.Text.{le_bytes}
use open_core_analysis_kit.Dwarf.Attr.{Request, read_attr_value}
use open_core_analysis_kit.Dwarf.Abbrev.{find, AbbrevTable, AbbrevMap}
use open_core_analysis_kit.Dwarf.Die.{Walk, value_or_zero}
use open_core_analysis_kit.Dwarf.Tree.{Outcome, finished, failed, stuck, parse_die_tree}
use open_core_analysis_kit.Dwarf.Resolve.{resolve_types}

-- The length field of a unit: where the unit starts and ends behind it, and its encoding.
pub record Extent : Type 0 where
  pub start : ℕ
  pub cu_end : ℕ
  pub dwarf64 : Bool

-- `none` if the section ends before the unit does.
pub read_extent : Sections → ℕ → ℕ → Option Extent
read_extent s ptr end =
    let short = le_bytes s.mem ptr 4 in
    let long = le_bytes s.mem (ptr + 4) 8 in
    let narrow : Extent = record {
      start = ptr + 4;
      cu_end = add64 (ptr + 4) short;
      dwarf64 = false;
    } in
    let wide : Extent = record {
      start = ptr + 12;
      cu_end = add64 (ptr + 12) long;
      dwarf64 = true;
    } in
    if ltb end (ptr + 4)
    then none
    else (if short == 0xffff_ffff
        then (if ltb end (ptr + 12) || ltb end wide.cu_end then none else some wide)
        else (if ltb end narrow.cu_end then none else some narrow))

-- What the rest of the header says.
pub record Header : Type 0 where
  pub ptr : ℕ
  pub abbrev_offset : ℕ
  pub addr_size : ℕ

abbrev word_size : Bool → ℕ
word_size dwarf64 = if dwarf64 then 8 else 4

-- DWARF 5: unit type, address size, abbreviation offset. Only compile units are read.
pub read_header_5 : Sections → Extent → ℕ → Option Header
read_header_5 s u ptr =
    let n = word_size u.dwarf64 in
    if ltb u.cu_end (ptr + 2)
    then none
    else (if not (s.mem ptr == 0x01)
        then none
        else (if ltb u.cu_end (ptr + 2 + n)
            then none
            else some (record {
              ptr = ptr + 2 + n;
              abbrev_offset = le_bytes s.mem (ptr + 2) n;
              addr_size = s.mem (ptr + 1);
            })))

-- DWARF 2 to 4: abbreviation offset, address size.
pub read_header_4 : Sections → Extent → ℕ → Option Header
read_header_4 s u ptr =
    let n = word_size u.dwarf64 in
    if ltb u.cu_end (ptr + n)
    then none
    else (if ltb u.cu_end (ptr + n + 1)
        then none
        else some (record {
          ptr = ptr + n + 1;
          abbrev_offset = le_bytes s.mem ptr n;
          addr_size = s.mem (ptr + n);
        }))

-- `none` where the unit is skipped: `return cu_end`.
pub read_header : Sections → Extent → Option Header
read_header s u =
    let version = le_bytes s.mem u.start 2 in
    if ltb u.cu_end (u.start + 2)
    then none
    else (if leb 5 version
        then read_header_5 s u (u.start + 2)
        else read_header_4 s u (u.start + 2))

-- What is fixed while a unit is read.
pub unit_request : Sections → Extent → Header → ℕ → Request
unit_request s u h str_offsets_base = record {
  sections = s;
  end = u.cu_end;
  addr_size = h.addr_size;
  dwarf64 = u.dwarf64;
  str_offsets_base = str_offsets_base;
  want_value = true;
  want_str = true;
}

-- The peek at the first entry for DW_AT_str_offsets_base (0x72); 0 where it is not found.
pub peek_attrs : Request → List AttrSpec → ℕ → ℕ
peek_attrs r [] ptr = 0
peek_attrs r (a ∷ rest) ptr =
    let wanted = a.name == 0x72 in
    let read = read_attr_value (record r { want_value = wanted; want_str = false }) ptr a.form in
    let constant : ℕ =
      (let next = peek_attrs r rest ptr in if wanted then a.implicit_const else next) in
    let value : ℕ = elim read [
      | none ↦ 0
      | some x ↦ if wanted then value_or_zero x.value else peek_attrs r rest x.ptr
    ] in
    if a.form == form_implicit_const then constant else value

pub peek_str_offsets_base : Request → AbbrevTable → ℕ → ℕ
peek_str_offsets_base r table ptr =
    let (code, p) = read_uleb128 r.sections.mem ptr r.end in
    elim (find (to_u32 code) table) [ none ↦ 0 | some e ↦ peek_attrs r e.attrs p ]

-- The tables of the loader behind a walk; `stuck` has none.
pub tables_of : Outcome → Option Walk
tables_of (finished ptr w) = some w
tables_of (failed w) = some w
tables_of stuck = none

-- The unit behind its extent: the loader's tables. The caller goes on at `cu_end` in any case.
pub read_unit : Sections → AbbrevMap → Extent → ℕ → Walk → Option Walk
read_unit s map' u cu_start w = elim (read_header s u) [
  | none ↦ some w
  | some h ↦ elim (find h.abbrev_offset map') [
    | none ↦ some w
    | some table ↦
        let base = peek_str_offsets_base (unit_request s u h 0) table h.ptr in
        tables_of (parse_die_tree (unit_request s u h base) table (cu_start - s.info_data) h.ptr w)
  ]
]

-- `ParseInfoSection`'s loop: it stops where a unit cannot be read or does not move on.
pub info_loop : ℕ → Sections → AbbrevMap → ℕ → ℕ → Walk → Option Walk
info_loop zero s map' ptr end w = some w
info_loop (suc fuel) s map' ptr end w =
    let next : Option Walk = elim (read_extent s ptr end) [
      | none ↦ some w
      | some u ↦ elim (read_unit s map' u ptr w) [
        | none ↦ none
        | some w' ↦ elim (leb u.cu_end ptr) [
          | true ↦ some w'
          | false ↦ info_loop fuel s map' u.cu_end end w'
        ]
      ]
    ] in
    if leb end ptr then some w else next

abbrev pub start_walk : Walk
start_walk = record {
  structs = [];
  registry = [];
  pending = [];
  stack = [];
  cur_ns = [];
  cur_struct = none;
}

-- All units of .debug_info, then the names of the types: the structs of the file.
pub parse_info_section : Sections → AbbrevMap → Option (List StructInfo)
parse_info_section s map' =
    let resolved : Option (List StructInfo) =
      elim (info_loop (suc s.info_size) s map' s.info_data (s.info_data + s.info_size) start_walk) [
        | none ↦ none
        | some w ↦ some (resolve_types w.registry w.pending w.structs)
      ] in
    if s.info_data == 0 then some [] else resolved
