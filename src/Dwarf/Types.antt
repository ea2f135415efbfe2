-- ===== src/Dwarf/Types.antt =====
-- The data of core/api/dwarf.h and the form codes of dwarf.cpp. Texts are lists of bytes.
use open_core_analysis_kit.Base.{ℕ, List, Bool, ◌==◌, ◌||◌, if◌then◌else◌, Memory}

-- The `DW_FORM_*` constants; `unknown` is any other number.
pub data Form : Type 0 where
  addr block2 block4 data2 data4 data8 string block block1 data1 flag sdata strp udata ref_addr ref1
        ref2 ref4 ref8 ref_udata indirect sec_offset exprloc flag_present strx addrx ref_sup4
        strp_sup data16 line_strp ref_sig8 implicit_const loclistx rnglistx ref_sup8 strx1 strx2
        strx3 strx4 addrx1 addrx2 addrx3 addrx4 unknown :
      Form

unfoldable pub form_of : ℕ → Form
form_of n =
    if n == 0x01
    then Form.addr
    else if n == 0x03
    then Form.block2
    else if n == 0x04
    then Form.block4
    else if n == 0x05
    then Form.data2
    else if n == 0x06
    then Form.data4
    else if n == 0x07
    then Form.data8
    else if n == 0x08
    then Form.string
    else if n == 0x09
    then Form.block
    else if n == 0x0a
    then Form.block1
    else if n == 0x0b
    then Form.data1
    else if n == 0x0c
    then Form.flag
    else if n == 0x0d
    then Form.sdata
    else if n == 0x0e
    then Form.strp
    else if n == 0x0f
    then Form.udata
    else if n == 0x10
    then Form.ref_addr
    else if n == 0x11
    then Form.ref1
    else if n == 0x12
    then Form.ref2
    else if n == 0x13
    then Form.ref4
    else if n == 0x14
    then Form.ref8
    else if n == 0x15
    then Form.ref_udata
    else if n == 0x16
    then Form.indirect
    else if n == 0x17
    then Form.sec_offset
    else if n == 0x18
    then Form.exprloc
    else if n == 0x19
    then Form.flag_present
    else if n == 0x1a
    then Form.strx
    else if n == 0x1b
    then Form.addrx
    else if n == 0x1c
    then Form.ref_sup4
    else if n == 0x1d
    then Form.strp_sup
    else if n == 0x1e
    then Form.data16
    else if n == 0x1f
    then Form.line_strp
    else if n == 0x20
    then Form.ref_sig8
    else if n == 0x21
    then Form.implicit_const
    else if n == 0x22
    then Form.loclistx
    else if n == 0x23
    then Form.rnglistx
    else if n == 0x24
    then Form.ref_sup8
    else if n == 0x25
    then Form.strx1
    else if n == 0x26
    then Form.strx2
    else if n == 0x27
    then Form.strx3
    else if n == 0x28
    then Form.strx4
    else if n == 0x29
    then Form.addrx1
    else if n == 0x2a
    then Form.addrx2
    else if n == 0x2b
    then Form.addrx3
    else if n == 0x2c
    then Form.addrx4
    else Form.unknown

abbrev pub form_implicit_const : ℕ
form_implicit_const = 0x21

-- `IsRelRef`: the reference forms that count from the start of the unit.
pub is_rel_ref : ℕ → Bool
is_rel_ref form = form == 0x11 || form == 0x12 || form == 0x13 || form == 0x14 || form == 0x15

pub record AttrSpec : Type 0 where
  pub name : ℕ
  pub form : ℕ
  pub implicit_const : ℕ

pub record AbbrevEntry : Type 0 where
  pub code : ℕ
  pub tag : ℕ
  pub has_children : Bool
  pub attrs : List AttrSpec

pub record BaseInfo : Type 0 where
  pub type_name : List ℕ
  pub offset : ℕ
  pub has_offset : Bool

pub record MemberInfo : Type 0 where
  pub name : List ℕ
  pub type_name : List ℕ
  pub offset : ℕ
  pub has_offset : Bool

pub record StructInfo : Type 0 where
  pub name : List ℕ
  pub byte_size : ℕ
  pub has_size : Bool
  pub bases : List BaseInfo
  pub members : List MemberInfo

pub record TypeEntry : Type 0 where
  pub name : List ℕ
  pub type_ref : ℕ
  pub qualifier : ℕ

pub record PendingRef : Type 0 where
  pub struct_idx : ℕ
  pub is_base : Bool
  pub item_idx : ℕ
  pub type_offset : ℕ

-- The sections of a loaded file: addresses into host memory, 0 where a section is missing.
pub record Sections : Type 0 where
  pub mem : Memory
  pub abbrev_data : ℕ
  pub abbrev_size : ℕ
  pub info_data : ℕ
  pub info_size : ℕ
  pub str_data : ℕ
  pub str_size : ℕ
  pub str_offsets_data : ℕ
  pub str_offsets_size : ℕ
