-- ===== src/Dwarf/Die.antt =====
-- `ParseDIETree` of core/api/dwarf.cpp: the walk over the debugging entries of a unit.
use open_core_analysis_kit.Base.{
  ℕ, zero, suc, ◌+◌, ◌==◌, if◌then◌else◌, Bool, true, false, Option, none, some, List, [], ◌∷◌,
  ◌++◌, length, u64_mod, to_u32, ◌>>=◌, ◌%◌,
}
use open_core_analysis_kit.Dwarf.Types.{
  AttrSpec, StructInfo, TypeEntry, PendingRef, form_implicit_const, is_rel_ref,
}
use open_core_analysis_kit.Dwarf.Attr.{Request, read_attr_value}

-- What the attributes of one entry say.
pub record Die : Type 0 where
  pub name : List ℕ
  pub member_loc : ℕ
  pub has_member_loc : Bool
  pub byte_size : ℕ
  pub has_byte_size : Bool
  pub type_ref : ℕ
  pub type_ref_form : ℕ

abbrev pub empty_die : Die
empty_die = record {
  name = [];
  member_loc = 0;
  has_member_loc = false;
  byte_size = 0;
  has_byte_size = false;
  type_ref = 0;
  type_ref_form = 0;
}

unfoldable pub is_empty : List ℕ → Bool
is_empty [] = true
is_empty (c ∷ cs) = false

-- `switch (attr.name)`: DW_AT_name, data_member_location, byte_size and type.
pub store_attr : AttrSpec → ℕ → List ℕ → Die → Die
store_attr a v s d =
    if a.name == 0x03
    then (if is_empty s then d else record d { name = s })
    else (if a.name == 0x38
        then record d { member_loc = v; has_member_loc = true }
        else (if a.name == 0x0b
            then record d { byte_size = v; has_byte_size = true }
            else (if a.name == 0x49 then record d { type_ref = v; type_ref_form = a.form } else d)))

-- `uint64_t v = 0; std::string s;` keep their initial values unless something is written.
abbrev pub value_or_zero : Option ℕ → ℕ
value_or_zero none = 0
value_or_zero (some v) = v

abbrev pub text_or_empty : Option (List ℕ) → List ℕ
text_or_empty none = []
text_or_empty (some s) = s

-- One attribute: an implicit constant takes no bytes.
unfoldable pub read_attr : Request → AttrSpec → ℕ → Die → Option (ℕ × Die)
read_attr r a ptr d =
    if a.form == form_implicit_const
    then some (ptr, store_attr a a.implicit_const [] d)
    else (read_attr_value r ptr a.form >>= λ x.
        some (x.ptr, store_attr a (value_or_zero x.value) (text_or_empty x.str) d))

unfoldable pub read_attrs : Request → List AttrSpec → ℕ → Die → Option (ℕ × Die)
read_attrs r [] ptr d = some (ptr, d)
read_attrs r (a ∷ rest) ptr d = read_attr r a ptr d >>= λ x. read_attrs r rest x.0 x.1

-- The absolute .debug_info offset of the type, 0 if the entry names none.
pub abs_type_ref : ℕ → Die → ℕ
abs_type_ref cu_base d =
    if d.type_ref_form == 0
    then 0
    else (if is_rel_ref d.type_ref_form then (cu_base + d.type_ref) % u64_mod else d.type_ref)

-- A saved scope: the namespace, and the index of the enclosing struct (`kNoStruct` is `none`).
pub record Frame : Type 0 where
  pub ns_prefix : List ℕ
  pub struct_idx : Option ℕ

-- The loader's tables and the local variables of the walk.
pub record Walk : Type 0 where
  pub structs : List StructInfo
  pub registry : List (ℕ × TypeEntry)
  pub pending : List PendingRef
  pub stack : List Frame
  pub cur_ns : List ℕ
  pub cur_struct : Option ℕ

-- `cur_ns.empty() ? die_name : cur_ns + "::" + die_name`
unfoldable pub qualify : List ℕ → List ℕ → List ℕ
qualify ns name = if is_empty ns then name else ns ++ (58 ∷ 58 ∷ name)

abbrev pub push_scope : Walk → Walk
push_scope w = record w {
  stack = record { ns_prefix = w.cur_ns; struct_idx = w.cur_struct } ∷ w.stack;
}

-- `if (entry.has_children) { stk.push(...); cur_struct_idx = ...; }`
unfoldable pub enter : Bool → Option ℕ → Walk → Walk
enter has_children idx w = if has_children then record (push_scope w) { cur_struct = idx } else w

unfoldable pub register : ℕ → List ℕ → ℕ → ℕ → Walk → Walk
register offset name type_ref qualifier w = record w {
  registry =
      (offset, record { name = name; type_ref = type_ref; qualifier = qualifier }) ∷ w.registry;
}

abbrev pub new_struct : List ℕ → Die → StructInfo
new_struct name d = record {
  name = name;
  byte_size = to_u32 d.byte_size;
  has_size = d.has_byte_size;
  bases = [];
  members = [];
}

-- A reference to be resolved later, unless there is none.
unfoldable pub add_pending : ℕ → Bool → ℕ → ℕ → List PendingRef → List PendingRef
add_pending idx is_base item type_offset refs =
    if type_offset == 0
    then refs
    else refs
      ++ (record { struct_idx = idx; is_base = is_base; item_idx = item; type_offset = type_offset }
          ∷ [])

abbrev pub push_member : Die → StructInfo → StructInfo
push_member d si = record si {
  members =
      si.members
      ++ (record {
        name = d.name;
        type_name = [];
        offset = to_u32 d.member_loc;
        has_offset = d.has_member_loc;
      }
          ∷ []);
}

abbrev pub push_base : Die → StructInfo → StructInfo
push_base d si = record si {
  bases =
      si.bases
      ++ (record { type_name = []; offset = to_u32 d.member_loc; has_offset = d.has_member_loc }
          ∷ []);
}

-- The number of members or bases of the struct at an index.
abbrev pub member_count : List StructInfo → ℕ → ℕ
member_count [] i = 0
member_count (si ∷ rest) zero = length si.members
member_count (si ∷ rest) (suc i) = member_count rest i

abbrev pub base_count : List StructInfo → ℕ → ℕ
base_count [] i = 0
base_count (si ∷ rest) zero = length si.bases
base_count (si ∷ rest) (suc i) = base_count rest i
