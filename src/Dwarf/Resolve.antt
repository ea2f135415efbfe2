-- ===== src/Dwarf/Resolve.antt =====
-- `ResolveTypeName` and `ResolveTypes` of core/api/dwarf.cpp.
pub mod Names
use open_core_analysis_kit.Base.{
  ℕ, zero, suc, ◌+◌, ◌==◌, if◌then◌else◌, Bool, true, false, Option, none, some, List, [], ◌∷◌,
  ◌++◌, modify,
}
use open_core_analysis_kit.Dwarf.Types.{BaseInfo, MemberInfo, StructInfo, TypeEntry, PendingRef}
use open_core_analysis_kit.Dwarf.Abbrev.{find}
use open_core_analysis_kit.Dwarf.Die.{is_empty}

abbrev pub Registry : Type 0
Registry = List (ℕ × TypeEntry)

-- "const" and "volatile".
abbrev pub const_text : List ℕ
const_text = b'c' ∷ b'o' ∷ b'n' ∷ b's' ∷ b't' ∷ []

abbrev pub volatile_text : List ℕ
volatile_text = b'v' ∷ b'o' ∷ b'l' ∷ b'a' ∷ b't' ∷ b'i' ∷ b'l' ∷ b'e' ∷ []

-- `s.empty() ? word : word + " " + s`
pub prefixed : List ℕ → List ℕ → List ℕ
prefixed word s = if is_empty s then word else word ++ (b' ' ∷ s)

-- The switch over the qualifier; `inner` is the resolved name of the referenced type.
pub decorate : TypeEntry → List ℕ → List ℕ
decorate e inner =
    if e.qualifier == 0
    then e.name
    else if e.qualifier == 1
    then inner ++ (b'*' ∷ [])
    else if e.qualifier == 2
    then inner ++ (b'&' ∷ [])
    else if e.qualifier == 3
    then prefixed const_text inner
    else if e.qualifier == 4
    then prefixed volatile_text inner
    else if e.qualifier == 5
    then (if is_empty e.name then inner else e.name)
    else if e.qualifier == 6
    then inner ++ (b'[' ∷ b']' ∷ [])
    else e.name

-- `levels` is 9 - depth: `depth > 8` stops the recursion, also on a cycle.
pub resolve_name : ℕ → Registry → ℕ → List ℕ
resolve_name zero reg offset = []
resolve_name (suc levels) reg offset =
    let found : List ℕ = elim (find offset reg) [
      | none ↦ []
      | some e ↦ decorate e (resolve_name levels reg e.type_ref)
    ] in
    if offset == 0 then [] else found

pub resolve_type_name : Registry → ℕ → List ℕ
resolve_type_name reg offset = resolve_name 9 reg offset

abbrev pub name_base : List ℕ → BaseInfo → BaseInfo
name_base name b = record b { type_name = name }

abbrev pub name_member : List ℕ → MemberInfo → MemberInfo
name_member name b = record b { type_name = name }

pub set_type_name : PendingRef → List ℕ → StructInfo → StructInfo
set_type_name p name si =
    if p.is_base
    then record si { bases = modify si.bases p.item_idx (name_base name) }
    else record si { members = modify si.members p.item_idx (name_member name) }

pub resolve_pending : Registry → PendingRef → List StructInfo → List StructInfo
resolve_pending reg p structs =
    let name = resolve_type_name reg p.type_offset in
    if p.type_offset == 0
    then structs
    else (if is_empty name then structs else modify structs p.struct_idx (set_type_name p name))

pub resolve_types : Registry → List PendingRef → List StructInfo → List StructInfo
resolve_types reg [] structs = structs
resolve_types reg (p ∷ rest) structs = resolve_types reg rest (resolve_pending reg p structs)
