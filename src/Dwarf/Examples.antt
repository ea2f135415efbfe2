-- ===== src/Dwarf/Examples.antt =====
-- Numbers, attributes and a small tree of types, and a theorem at each.
use open_core_analysis_kit.Base.{
  ℕ, zero, suc, ◌+◌, ◌-◌, ◌%◌, ◌≤◌, ◌<◌, ◌≡◌, ◌≢◌, sym, ◌∙◌, ◌++◌, refl, true, false, none, some,
  List, [], ◌∷◌, Memory, IsBytes, u64_mod, arith,
}
use open_core_analysis_kit.Dwarf.Leb.{uleb_loop, read_uleb128, sleb_loop, sign_extend, read_sleb128}
use open_core_analysis_kit.Dwarf.Leb.Value.{groups, read_uleb128-groups}
use open_core_analysis_kit.Dwarf.Leb.Chain.{Chain, last, more, read_uleb128-Chain}
use open_core_analysis_kit.Dwarf.Leb.Extend.{read_sleb128-Chain}
use open_core_analysis_kit.Dwarf.Types.{Sections, AbbrevEntry, form_of}
use open_core_analysis_kit.Dwarf.Text.{le_bytes}
use open_core_analysis_kit.Dwarf.Text.Bytes.{le_bytes-le_sum}
use open_core_analysis_kit.Dwarf.Attr.{Request, Attr, read_attr_value}
use open_core_analysis_kit.Dwarf.Attr.Bounds.{Inside, read_attr_value-Inside}
use open_core_analysis_kit.Dwarf.Attr.Forward.{Low, Onward, read_attr_value-Onward, exprloc_wraps}
use open_core_analysis_kit.Dwarf.Abbrev.{AbbrevTable, find}
use open_core_analysis_kit.Dwarf.Die.{Walk, empty_die}
use open_core_analysis_kit.Dwarf.Tree.{Tag, Entry, on_tag, parse_die_tree}
use open_core_analysis_kit.Dwarf.Tree.Scope.{Scoped, on_tag-Scoped}
use open_core_analysis_kit.Dwarf.Tree.Valid.{IsValid}
use open_core_analysis_kit.Dwarf.Tree.Returns.{IsPlainTable, Returns, parse_die_tree-Returns}
use open_core_analysis_kit.Dwarf.Resolve.{
  Registry, resolve_type_name, resolve_name, prefixed, const_text,
}
use open_core_analysis_kit.Dwarf.Resolve.Names.{
  Refers, const', pointer, resolve_named, resolve_type_name-ambiguous,
}

abbrev byte_at : List ℕ → ℕ → ℕ
byte_at [] i = 0
byte_at (b ∷ bs) zero = b
byte_at (b ∷ bs) (suc i) = byte_at bs i

-- The bytes of a list at address 100.
abbrev loaded : List ℕ → Memory
loaded bs a = byte_at bs (a - 100) % 256

loaded-IsBytes : (bs : List ℕ) → IsBytes (loaded bs)
loaded-IsBytes bs a = omega arith

abbrev number : List ℕ
number = 0xe5 ∷ 0x8e ∷ 0x26 ∷ []

abbrev negative : List ℕ
negative = 0xc0 ∷ 0xbb ∷ 0x78 ∷ []

number-Chain : Chain (loaded number) 100 3
number-Chain = more (omega arith) (more (omega arith) (last (omega arith)))

negative-Chain : Chain (loaded negative) 100 3
negative-Chain = more (omega arith) (more (omega arith) (last (omega arith)))

leb_runs :
    (read_uleb128 (loaded number) 100 200 ≡ (624485, 103))
    × (read_sleb128 (loaded negative) 100 200 ≡ (u64_mod - 123456, 103))
unfolding uleb_loop read_uleb128 sleb_loop sign_extend read_sleb128
leb_runs = (refl, refl)

read_uleb128-groups_example :
    (n : ℕ) × ((read_uleb128 (loaded number) 100 200).1 ≡ 100 + n)
    × (100 + n ≤ 200)
    × (n ≤ 10)
    × (100 < 200 → 0 < n)
    × ((read_uleb128 (loaded number) 100 200).0 ≡ groups (loaded number) 100 n % u64_mod)
read_uleb128-groups_example =
    read_uleb128-groups (loaded number) 100 200 (loaded-IsBytes number) (omega arith)

read_uleb128-Chain_example : read_uleb128 (loaded number) 100 200 ≡ (624485, 103)
read_uleb128-Chain_example =
    read_uleb128-Chain (loaded number) 200 number-Chain (loaded-IsBytes number) (omega arith)
      (omega arith)

read_sleb128-Chain_example : read_sleb128 (loaded negative) 100 200 ≡ (u64_mod - 123456, 103)
read_sleb128-Chain_example =
    read_sleb128-Chain (loaded negative) 200 negative-Chain (loaded-IsBytes negative) (omega arith)
      (omega arith)

le_bytes-le_sum_example : le_bytes (loaded number) 100 3 ≡ 0x268ee5
le_bytes-le_sum_example =
    le_bytes-le_sum (loaded number) 100 3 (loaded-IsBytes number) (omega arith)

abbrev sections : List ℕ → Sections
sections bs = record {
  mem = loaded bs;
  abbrev_data = 0;
  abbrev_size = 0;
  info_data = 100;
  info_size = 100;
  str_data = 0;
  str_size = 0;
  str_offsets_data = 0;
  str_offsets_size = 0;
}

abbrev request : List ℕ → Request
request bs = record {
  sections = sections bs;
  end = 200;
  addr_size = 8;
  dwarf64 = false;
  str_offsets_base = 8;
  want_value = true;
  want_str = true;
}

read_attr_value-Inside_example : Inside 200 (read_attr_value (request number) 100 0x0f)
read_attr_value-Inside_example =
    read_attr_value-Inside (request number) 100 0x0f (loaded-IsBytes number)

low : (bs : List ℕ) → Low (request bs)
low bs = record { bytes = loaded-IsBytes bs; below = omega arith; addr = omega arith }

read_attr_value-Onward_example : Onward 100 (read_attr_value (request number) 100 0x0f)
unfolding form_of
read_attr_value-Onward_example = read_attr_value-Onward (request number) 100 0x0f (low number) tt

-- The length 2 ^ 64 - 10 in ten bytes.
abbrev huge : List ℕ
huge = 0xf6 ∷ 0xff ∷ 0xff ∷ 0xff ∷ 0xff ∷ 0xff ∷ 0xff ∷ 0xff ∷ 0xff ∷ 0x01 ∷ []

huge_length : read_uleb128 (loaded huge) 100 200 ≡ (u64_mod - 10, 110)
unfolding uleb_loop read_uleb128
huge_length = refl

exprloc_wraps_example :
    (a : Attr) × (read_attr_value (request huge) 100 0x18 ≡ some a) × (a.ptr < 110)
exprloc_wraps_example =
    exprloc_wraps (request huge) 100 (u64_mod - 10) 110 (omega arith) (omega arith) huge_length
      (omega arith) (omega arith) (omega arith) (omega arith)

-- `struct A { }` as an entry with children, its null entry, and the one behind the unit.
abbrev tree : List ℕ
tree = 0x01 ∷ b'A' ∷ 0x00 ∷ 0x00 ∷ 0x00 ∷ []

abbrev struct_abbrev : AbbrevEntry
struct_abbrev = record {
  code = 1;
  tag = 0x13;
  has_children = true;
  attrs = record { name = 0x03; form = 0x08; implicit_const = 0 } ∷ [];
}

abbrev table : AbbrevTable
table = (1, struct_abbrev) ∷ []

-- Inside `struct S { int x; }`, whose member waits for its type.
abbrev walk : Walk
walk = record {
  structs =
      record {
        name = b'S' ∷ [];
        byte_size = 4;
        has_size = true;
        bases = [];
        members = record { name = b'x' ∷ []; type_name = []; offset = 0; has_offset = true } ∷ [];
      }
      ∷ [];
  registry = [];
  pending = record { struct_idx = 0; is_base = false; item_idx = 0; type_offset = 64 } ∷ [];
  stack = record { ns_prefix = []; struct_idx = none } ∷ [];
  cur_ns = b'S' ∷ [];
  cur_struct = some 0;
}

walk-IsValid : IsValid walk
walk-IsValid = record {
  pending = ((omega arith, omega arith), tt);
  stack = (tt, tt);
  current = omega arith;
}

table_plain : IsPlainTable table
unfolding form_of
table_plain = ((tt, tt), tt)

parse_die_tree-Returns_example : Returns (parse_die_tree (request tree) table 100 100 walk)
parse_die_tree-Returns_example =
    parse_die_tree-Returns (request tree) table 100 100 walk (low tree) table_plain walk-IsValid

abbrev entry : Entry
entry = record { offset = 70; die = empty_die; has_children = true; type_ref = 0 }

on_tag-Scoped_example : Scoped true walk (on_tag Tag.structure_type entry walk)
on_tag-Scoped_example = on_tag-Scoped Tag.structure_type entry walk

-- `S` at 64; a const pointer to it at 96, and a pointer to a const one at 128.
abbrev registry : Registry
registry =
    (64, record { name = b'S' ∷ []; type_ref = 0; qualifier = 0 })
    ∷ (80, record { name = []; type_ref = 64; qualifier = 1 })
    ∷ (96, record { name = []; type_ref = 80; qualifier = 3 })
    ∷ (112, record { name = []; type_ref = 64; qualifier = 3 })
    ∷ (128, record { name = []; type_ref = 112; qualifier = 1 })
    ∷ []

const_pointer : Refers registry 96 3 80
unfolding find
const_pointer = record {
  entry = record { name = []; type_ref = 80; qualifier = 3 };
  place = omega arith;
  found = refl;
  is = refl;
  to = refl;
}

its_pointer : Refers registry 80 1 64
unfolding find
its_pointer = record {
  entry = record { name = []; type_ref = 64; qualifier = 1 };
  place = omega arith;
  found = refl;
  is = refl;
  to = refl;
}

pointer_const : Refers registry 128 1 112
unfolding find
pointer_const = record {
  entry = record { name = []; type_ref = 112; qualifier = 1 };
  place = omega arith;
  found = refl;
  is = refl;
  to = refl;
}

its_const : Refers registry 112 3 64
unfolding find
its_const = record {
  entry = record { name = []; type_ref = 64; qualifier = 3 };
  place = omega arith;
  found = refl;
  is = refl;
  to = refl;
}

s_entry : Refers registry 64 0 0
unfolding find
s_entry = record {
  entry = record { name = b'S' ∷ []; type_ref = 0; qualifier = 0 };
  place = omega arith;
  found = refl;
  is = refl;
  to = refl;
}

s_named : resolve_name 7 registry 64 ≢ []
unfolding s_entry
s_named e =
    let bad : b'S' ∷ [] ≡ [] = sym (resolve_named registry 6 s_entry) ∙ e in
    absurd (ground (arith, bad))

resolve_type_name-ambiguous_example :
    (resolve_type_name registry 96 ≡ resolve_type_name registry 128)
    × (resolve_type_name registry 96
        ≡ prefixed const_text (resolve_name 7 registry 64) ++ (b'*' ∷ []))
resolve_type_name-ambiguous_example =
    resolve_type_name-ambiguous registry 96 80 128 112 64 3 1 const_text (b'*' ∷ []) const' pointer
      const_pointer its_pointer pointer_const its_const s_named
