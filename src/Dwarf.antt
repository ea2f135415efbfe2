-- ===== src/Dwarf.antt =====
-- core/api/dwarf.cpp: the reader of DWARF debug sections.
mod Examples
pub mod Leb
pub mod Types
pub mod Text
pub mod Attr
pub mod Abbrev
pub mod Die
pub mod Tree
pub mod Resolve
pub mod CompileUnit
pub mod Locate
