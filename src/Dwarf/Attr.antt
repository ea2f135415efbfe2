-- ===== src/Dwarf/Attr.antt =====
-- `ParseExprloc` and `ReadAttrValue` of core/api/dwarf.cpp. A pointer is an address, and pointer
-- sums wrap at 64 bits; the null pointer that reports an error is `none`.
pub mod Bounds
pub mod Forward
use open_core_analysis_kit.Base.{
  ℕ, zero, suc, ◌+◌, ◌-◌, ltb, leb, ◌==◌, if◌then◌else◌, ◌||◌, ◌&&◌, not, Bool, true, false, Option,
  none, some, List, Memory, add64, to_u32, guard, ◌>>=◌, ◌>>◌,
}
use mathlib.Core.Option
use open_core_analysis_kit.Dwarf.Leb.{read_uleb128, read_sleb128}
use open_core_analysis_kit.Dwarf.Types.{Sections, Form, form_of}
use open_core_analysis_kit.Dwarf.Text.{le_bytes, scan_nul, c_string, get_debug_str, get_debug_str_x}

-- Offsets in `DW_OP_plus_uconst` and `DW_OP_constu` expressions.
pub parse_exprloc : Memory → ℕ → ℕ → Option ℕ
parse_exprloc m ptr size =
    let operand : Option ℕ =
      (if leb (add64 ptr size) (ptr + 1)
        then none
        else some (read_uleb128 m (ptr + 1) (add64 ptr size)).0) in
    if ptr == 0 || size == 0
    then none
    else (if m ptr == 0x23 then operand else (if m ptr == 0x10 then operand else none))

-- What is fixed while one attribute is read; the last two say which out-pointers are not null.
pub record Request : Type 0 where
  pub sections : Sections
  pub end : ℕ
  pub addr_size : ℕ
  pub dwarf64 : Bool
  pub str_offsets_base : ℕ
  pub want_value : Bool
  pub want_str : Bool

-- The pointer behind the attribute, and what was written through the out-pointers.
pub record Attr : Type 0 where
  pub ptr : ℕ
  pub value : Option ℕ
  pub str : Option (List ℕ)

abbrev pub moved : ℕ → Attr
moved p = record { ptr = p; value = none; str = none }

abbrev pub valued : Request → ℕ → Option ℕ → Attr
valued r p v = record { ptr = p; value = if r.want_value then v else none; str = none }

abbrev pub texted : Request → ℕ → Option ℕ → Attr
texted r p s = record {
  ptr = p;
  value = none;
  str = if r.want_str then Option.map (c_string r.sections.str_size r.sections.mem) s else none;
}

-- `if (ptr + n > end) return nullptr;`
abbrev pub room : Request → ℕ → ℕ → Option (Unit {0})
room r ptr n = guard (not (ltb r.end (add64 ptr n)))

-- `DW_FORM_addr`, and the forms of 1, 2, 4 and 8 bytes.
pub read_fixed : Request → ℕ → ℕ → Option Attr
read_fixed r ptr n =
    room r ptr n >> some (valued r (add64 ptr n) (some (le_bytes r.sections.mem ptr n)))

-- `DW_FORM_data16` and `DW_FORM_addrx1` to `addrx4`.
pub skip_fixed : Request → ℕ → ℕ → Option Attr
skip_fixed r ptr n = room r ptr n >> some (moved (add64 ptr n))

-- `DW_FORM_strx`.
pub read_strx : Request → ℕ → Option Attr
read_strx r ptr =
    let (index, p) = read_uleb128 r.sections.mem ptr r.end in
    some (texted r p (get_debug_str_x r.sections index r.str_offsets_base r.dwarf64))

-- `DW_FORM_strx1` to `strx4`.
pub read_strx_fixed : Request → ℕ → ℕ → Option Attr
read_strx_fixed r ptr n =
    room r ptr n
    >> some (
        texted r (add64 ptr n)
          (get_debug_str_x r.sections (le_bytes r.sections.mem ptr n) r.str_offsets_base r.dwarf64))

-- `DW_FORM_string`.
pub read_string : Request → ℕ → Option Attr
read_string r ptr =
    let m = r.sections.mem in
    let p = scan_nul (r.end - ptr) m ptr r.end in
    if leb r.end p
    then none
    else some (record {
      ptr = p + 1;
      value = none;
      str = if r.want_str then some (c_string (r.end - ptr) m ptr) else none;
    })

-- The size of an offset in the unit's encoding.
pub offset_size : Request → ℕ
offset_size r = if r.dwarf64 then 8 else 4

-- `DW_FORM_strp`, `strp_sup` and `line_strp`: only the first is looked up.
pub read_strp : Request → ℕ → Bool → Option Attr
read_strp r ptr lookup =
    let n = offset_size r in
    room r ptr n
    >> some (
        if lookup
        then texted r (add64 ptr n) (get_debug_str r.sections (le_bytes r.sections.mem ptr n))
        else moved (add64 ptr n))

-- The expression of `len` bytes at `ptr`.
pub read_expr : Request → ℕ → ℕ → Option Attr
read_expr r ptr len =
    room r ptr len >> some (valued r (add64 ptr len) (parse_exprloc r.sections.mem ptr len))

-- `DW_FORM_block1`, `block2` and `block4`.
pub read_block_fixed : Request → ℕ → ℕ → Option Attr
read_block_fixed r ptr n = room r ptr n >> read_expr r (add64 ptr n) (le_bytes r.sections.mem ptr n)

-- `DW_FORM_block` and `exprloc`.
pub read_block : Request → ℕ → Option Attr
read_block r ptr = let (len, p) = read_uleb128 r.sections.mem ptr r.end in read_expr r p len

-- The switch; `again` is the call for the form that `DW_FORM_indirect` reads.
pub read_form : (ℕ → ℕ → Option Attr) → Request → ℕ → Form → Option Attr
read_form again r ptr Form.addr = read_fixed r ptr r.addr_size
read_form again r ptr Form.data1 = read_fixed r ptr 1
read_form again r ptr Form.data2 = read_fixed r ptr 2
read_form again r ptr Form.data4 = read_fixed r ptr 4
read_form again r ptr Form.data8 = read_fixed r ptr 8
read_form again r ptr Form.data16 = skip_fixed r ptr 16
read_form again r ptr Form.udata =
    let (v, p) = read_uleb128 r.sections.mem ptr r.end in some (valued r p (some v))
read_form again r ptr Form.ref_udata =
    let (v, p) = read_uleb128 r.sections.mem ptr r.end in some (valued r p (some v))
read_form again r ptr Form.loclistx = some (moved (read_uleb128 r.sections.mem ptr r.end).1)
read_form again r ptr Form.rnglistx = some (moved (read_uleb128 r.sections.mem ptr r.end).1)
read_form again r ptr Form.addrx = some (moved (read_uleb128 r.sections.mem ptr r.end).1)
read_form again r ptr Form.strx = read_strx r ptr
read_form again r ptr Form.addrx1 = skip_fixed r ptr 1
read_form again r ptr Form.addrx2 = skip_fixed r ptr 2
read_form again r ptr Form.addrx3 = skip_fixed r ptr 3
read_form again r ptr Form.addrx4 = skip_fixed r ptr 4
read_form again r ptr Form.strx1 = read_strx_fixed r ptr 1
read_form again r ptr Form.strx2 = read_strx_fixed r ptr 2
read_form again r ptr Form.strx3 = read_strx_fixed r ptr 3
read_form again r ptr Form.strx4 = read_strx_fixed r ptr 4
read_form again r ptr Form.sdata =
    let (v, p) = read_sleb128 r.sections.mem ptr r.end in some (valued r p (some v))
read_form again r ptr Form.string = read_string r ptr
read_form again r ptr Form.strp = read_strp r ptr true
read_form again r ptr Form.strp_sup = read_strp r ptr false
read_form again r ptr Form.line_strp = read_strp r ptr false
read_form again r ptr Form.block1 = read_block_fixed r ptr 1
read_form again r ptr Form.block2 = read_block_fixed r ptr 2
read_form again r ptr Form.block4 = read_block_fixed r ptr 4
read_form again r ptr Form.block = read_block r ptr
read_form again r ptr Form.exprloc = read_block r ptr
read_form again r ptr Form.flag = read_fixed r ptr 1
read_form again r ptr Form.flag_present = some (valued r ptr (some 1))
read_form again r ptr Form.ref1 = read_fixed r ptr 1
read_form again r ptr Form.ref2 = read_fixed r ptr 2
read_form again r ptr Form.ref4 = read_fixed r ptr 4
read_form again r ptr Form.ref_sup4 = read_fixed r ptr 4
read_form again r ptr Form.ref8 = read_fixed r ptr 8
read_form again r ptr Form.ref_sup8 = read_fixed r ptr 8
read_form again r ptr Form.ref_sig8 = read_fixed r ptr 8
read_form again r ptr Form.ref_addr = read_fixed r ptr (offset_size r)
read_form again r ptr Form.sec_offset = read_fixed r ptr (offset_size r)
read_form again r ptr Form.indirect =
    let (form, p) = read_uleb128 r.sections.mem ptr r.end in again p (to_u32 form)
read_form again r ptr Form.implicit_const = some (moved ptr)
read_form again r ptr Form.unknown = none

-- Each indirection takes a byte, so a fuel above the bytes left is never used up.
pub read_attr_fuel : ℕ → Request → ℕ → ℕ → Option Attr
read_attr_fuel zero r ptr form = none
read_attr_fuel (suc fuel) r ptr form =
    let again = read_attr_fuel fuel r in
    if ptr == 0 || leb r.end ptr then none else read_form again r ptr (form_of form)

pub read_attr_value : Request → ℕ → ℕ → Option Attr
read_attr_value r ptr form = read_attr_fuel (suc (r.end - ptr)) r ptr form
