-- ===== src/Dwarf/Tree.antt =====
-- The switch over tags of `ParseDIETree` in core/api/dwarf.cpp, and its loop.
pub mod Scope
pub mod Valid
pub mod Invariant
pub mod Returns
use open_core_analysis_kit.Base.{
  ℕ, zero, suc, ◌+◌, ◌-◌, ltb, leb, ◌==◌, if◌then◌else◌, ◌||◌, not, Bool, true, false, Option, none,
  some, List, [], ◌∷◌, ◌++◌, length, modify, to_u32, ◌⊎◌, inl, inr,
}
use open_core_analysis_kit.Dwarf.Leb.{read_uleb128}
use open_core_analysis_kit.Dwarf.Types.{AbbrevEntry, Sections}
use open_core_analysis_kit.Dwarf.Attr.{Request}
use open_core_analysis_kit.Dwarf.Abbrev.{find, AbbrevTable}
use open_core_analysis_kit.Dwarf.Die.{
  Die, empty_die, read_attrs, abs_type_ref, is_empty, Frame, Walk, qualify, push_scope, enter,
  register, new_struct, add_pending, push_member, push_base, member_count, base_count,
}

-- The `DW_TAG_*` constants; `other` is any tag that the switch has no case for.
pub data Tag : Type 0 where
  array_type class_type enumeration_type member pointer_type reference_type typedef union_type : Tag
  inheritance structure_type base_type const_type volatile_type namespace rvalue_reference_type :
      Tag
  other : Tag

pub tag_of : ℕ → Tag
tag_of n =
    if n == 0x01
    then Tag.array_type
    else if n == 0x02
    then Tag.class_type
    else if n == 0x04
    then Tag.enumeration_type
    else if n == 0x0d
    then Tag.member
    else if n == 0x0f
    then Tag.pointer_type
    else if n == 0x10
    then Tag.reference_type
    else if n == 0x16
    then Tag.typedef
    else if n == 0x17
    then Tag.union_type
    else if n == 0x1c
    then Tag.inheritance
    else if n == 0x13
    then Tag.structure_type
    else if n == 0x24
    then Tag.base_type
    else if n == 0x26
    then Tag.const_type
    else if n == 0x35
    then Tag.volatile_type
    else if n == 0x39
    then Tag.namespace
    else if n == 0x42
    then Tag.rvalue_reference_type
    else Tag.other

-- One entry as the switch sees it: its offset in .debug_info, its attributes, its type.
pub record Entry : Type 0 where
  pub offset : ℕ
  pub die : Die
  pub has_children : Bool
  pub type_ref : ℕ

pub on_namespace : Entry → Walk → Walk
on_namespace e w =
    if e.has_children then record (push_scope w) { cur_ns = qualify w.cur_ns e.die.name } else w

pub on_struct : Entry → Walk → Walk
on_struct e w =
    let full_name = qualify w.cur_ns e.die.name in
    let named = register e.offset full_name 0 0 w in
    if is_empty e.die.name
    then enter e.has_children none w
    else enter e.has_children (some (length w.structs))
        (record named { structs = w.structs ++ (new_struct full_name e.die ∷ []) })

-- `structs_[idx].members.push_back(...)`, and the member's pending type.
pub add_member : Entry → ℕ → Walk → Walk
add_member e i w = record w {
  structs = modify w.structs i (push_member e.die);
  pending = add_pending i false (member_count w.structs i) e.type_ref w.pending;
}

pub add_base : Entry → ℕ → Walk → Walk
add_base e i w = record w {
  structs = modify w.structs i (push_base e.die);
  pending = add_pending i true (base_count w.structs i) e.type_ref w.pending;
}

pub on_member : Entry → Walk → Walk
on_member e w =
    let added : Walk = elim w.cur_struct [ none ↦ w | some i ↦ add_member e i w ] in
    enter e.has_children none (if is_empty e.die.name then w else added)

pub on_inheritance : Entry → Walk → Walk
on_inheritance e w =
    let added : Walk = elim w.cur_struct [ none ↦ w | some i ↦ add_base e i w ] in
    enter e.has_children none added

-- Base types, enumerations, unions and typedefs are registered under their full name.
pub on_named : Entry → ℕ → ℕ → Walk → Walk
on_named e type_ref qualifier w = enter e.has_children none (
    if is_empty e.die.name
    then w
    else register e.offset (qualify w.cur_ns e.die.name) type_ref qualifier w)

-- Pointers, references, const, volatile and arrays are registered without a name.
pub on_unnamed : Entry → ℕ → Walk → Walk
on_unnamed e qualifier w = enter e.has_children none (register e.offset [] e.type_ref qualifier w)

pub on_tag : Tag → Entry → Walk → Walk
on_tag Tag.namespace e w = on_namespace e w
on_tag Tag.structure_type e w = on_struct e w
on_tag Tag.class_type e w = on_struct e w
on_tag Tag.member e w = on_member e w
on_tag Tag.inheritance e w = on_inheritance e w
on_tag Tag.base_type e w = on_named e 0 0 w
on_tag Tag.enumeration_type e w = on_named e 0 0 w
on_tag Tag.union_type e w = on_named e 0 0 w
on_tag Tag.typedef e w = on_named e e.type_ref 5 w
on_tag Tag.pointer_type e w = on_unnamed e 1 w
on_tag Tag.rvalue_reference_type e w = on_unnamed e 1 w
on_tag Tag.reference_type e w = on_unnamed e 2 w
on_tag Tag.const_type e w = on_unnamed e 3 w
on_tag Tag.volatile_type e w = on_unnamed e 4 w
on_tag Tag.array_type e w = on_unnamed e 6 w
on_tag Tag.other e w = enter e.has_children none w

-- How a walk ends. The tables keep what was read before an error; `stuck` is the end of the fuel.
pub data Outcome : Type 0 where
  finished : ℕ → Walk → Outcome
  failed : Walk → Outcome
  stuck : Outcome

-- `cur_ns = stk.top().ns_prefix; cur_struct_idx = ...; stk.pop();`
pub pop_scope : Frame → List Frame → Walk → Walk
pop_scope f rest w = record w { stack = rest; cur_ns = f.ns_prefix; cur_struct = f.struct_idx }

-- The entry at `ptr` behind its abbreviation code: `none` on a parse error.
pub read_die : Request → ℕ → ℕ → ℕ → AbbrevEntry → Walk → Option (ℕ × Walk)
read_die r cu_base offset ptr a w = elim (read_attrs r a.attrs ptr empty_die) [
  | none ↦ none
  | some (p, d) ↦ some (
    p,
    on_tag (tag_of a.tag)
        (record {
          offset = offset;
          die = d;
          has_children = a.has_children;
          type_ref = abs_type_ref cu_base d;
        })
        w,
  )
]

-- A null entry: the saved scope comes back, and with none saved the walk is over.
pub pop_or_finish : ℕ → Walk → Outcome ⊎ (ℕ × Walk)
pop_or_finish ptr w = elim w.stack [
  | [] ↦ inl (finished ptr w)
  | f ∷ rest ↦ inr (ptr, pop_scope f rest w)
]

module _ (r : Request) (table : AbbrevTable) (cu_base : ℕ) where
  -- An entry with a known abbreviation code; any other code ends the walk.
  pub enter_die : ℕ → ℕ → ℕ → Walk → Outcome ⊎ (ℕ × Walk)
  enter_die code offset ptr w = elim (find (to_u32 code) table) [
    | none ↦ inl (failed w)
    | some a ↦ elim (read_die r cu_base offset ptr a w) [ none ↦ inl (failed w) | some x ↦ inr x ]
  ]

  -- One round at `ptr < cu_end`: an end, or the pointer and tables to go on with.
  pub walk_step : ℕ → Walk → Outcome ⊎ (ℕ × Walk)
  walk_step ptr w =
      let (code, p) = read_uleb128 r.sections.mem ptr r.end in
      if code == 0 then pop_or_finish p w else enter_die code (ptr - r.sections.info_data) p w

  pub walk_loop : ℕ → ℕ → Walk → Outcome
  walk_loop zero ptr w = stuck
  walk_loop (suc fuel) ptr w =
      let next : Outcome = elim (walk_step ptr w) [
        | inl o ↦ o
        | inr (p, w') ↦ walk_loop fuel p w'
      ] in
      if leb r.end ptr then finished ptr w else next

-- `ParseDIETree` with an empty namespace prefix. Each round takes a byte at least.
pub parse_die_tree : Request → AbbrevTable → ℕ → ℕ → Walk → Outcome
parse_die_tree r table cu_base ptr w =
    walk_loop r table cu_base (suc (r.end - ptr)) ptr
      (record w { stack = []; cur_ns = []; cur_struct = none })
