-- ===== src/Dwarf/Abbrev.antt =====
-- `ParseAbbrevTable` and `ParseAbbrevSection` of core/api/dwarf.cpp. An `unordered_map` is an
-- association list in which the first entry of a key counts.
use open_core_analysis_kit.Base.{
  ℕ, zero, suc, ◌+◌, ◌-◌, leb, ◌==◌, if◌then◌else◌, ◌&&◌, Option, none, some, List, [], ◌∷◌, ◌++◌,
  Memory, to_u32,
}
use open_core_analysis_kit.Dwarf.Leb.{read_uleb128, read_sleb128}
use open_core_analysis_kit.Dwarf.Types.{AttrSpec, AbbrevEntry, Sections, form_implicit_const}

module _ {ℓ} {V : Type ℓ} where
  unfoldable pub find : ℕ → List (ℕ × V) → Option V
  find k [] = none
  find k ((j, v) ∷ rest) = if j == k then some v else find k rest

abbrev pub AbbrevTable : Type 0
AbbrevTable = List (ℕ × AbbrevEntry)

abbrev pub AbbrevMap : Type 0
AbbrevMap = List (ℕ × AbbrevTable)

-- What an inner loop hands on: the pointer, and what it has gathered.
pub record Specs : Type 0 where
  pub ptr : ℕ
  pub attrs : List AttrSpec

-- One attribute specification at `ptr`, with the constant of `DW_FORM_implicit_const`.
pub read_spec : Memory → ℕ → ℕ → ℕ × AttrSpec
read_spec m ptr end =
    let (name, p) = read_uleb128 m ptr end in
    let (form, q) = read_uleb128 m p end in
    let (const', c) = read_sleb128 m q end in
    if to_u32 form == form_implicit_const
    then (c, record { name = to_u32 name; form = to_u32 form; implicit_const = const' })
    else (q, record { name = to_u32 name; form = to_u32 form; implicit_const = 0 })

-- The attribute loop, up to a pair of zeros or the end.
pub read_specs : ℕ → Memory → ℕ → Specs → Specs
read_specs zero m end s = s
read_specs (suc fuel) m end s =
    let (p, spec) = read_spec m s.ptr end in
    let more = read_specs fuel m end (record { ptr = p; attrs = s.attrs ++ (spec ∷ []) }) in
    if leb end s.ptr
    then s
    else (if spec.name == 0 && spec.form == 0 then record s { ptr = p } else more)

pub record Table : Type 0 where
  pub ptr : ℕ
  pub entries : AbbrevTable

-- The rest of one entry behind its code: `none` if the section ends before the children flag.
pub read_entry : Memory → ℕ → ℕ → ℕ → Option (ℕ × AbbrevEntry)
read_entry m code ptr end =
    let (tag, p) = read_uleb128 m ptr end in
    let s = read_specs (end - p) m end (record { ptr = p + 1; attrs = [] }) in
    if leb end p
    then none
    else some (
      s.ptr,
      record { code = to_u32 code; tag = to_u32 tag; has_children = m p == 1; attrs = s.attrs },
    )

-- The loop of `ParseAbbrevTable`: up to a zero code or the end.
pub read_entries : ℕ → Memory → ℕ → Table → Table
read_entries zero m end t = t
read_entries (suc fuel) m end t =
    let (code, p) = read_uleb128 m t.ptr end in
    let more : Table = elim (read_entry m code p end) [
      | none ↦ record t { ptr = (read_uleb128 m p end).1 }
      | some (q, e) ↦
          read_entries fuel m end (record { ptr = q; entries = (e.code, e) ∷ t.entries })
    ] in
    if leb end t.ptr then t else (if code == 0 then record t { ptr = p } else more)

-- The pointer behind the table, and the map with the table at its offset.
pub parse_abbrev_table : Memory → ℕ → ℕ → ℕ → AbbrevMap → ℕ × AbbrevMap
parse_abbrev_table m ptr end base_offset map' =
    let t = read_entries (end - ptr) m end (record { ptr = ptr; entries = [] }) in
    (t.ptr, (base_offset, t.entries) ∷ map')

abbrev_tables : ℕ → Memory → ℕ → ℕ → ℕ → AbbrevMap → AbbrevMap
abbrev_tables zero m start ptr end map' = map'
abbrev_tables (suc fuel) m start ptr end map' =
    let (next, map'') = parse_abbrev_table m ptr end (ptr - start) map' in
    let more = abbrev_tables fuel m start next end map'' in
    if leb end ptr then map' else (if leb next ptr then map'' else more)

pub parse_abbrev_section : Sections → AbbrevMap → AbbrevMap
parse_abbrev_section s map' =
    if s.abbrev_data == 0
    then map'
    else abbrev_tables s.abbrev_size s.mem s.abbrev_data s.abbrev_data
        (s.abbrev_data + s.abbrev_size) map'
