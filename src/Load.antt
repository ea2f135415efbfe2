-- ===== src/Load.antt =====
-- The load segments of a core file: core/common/block.h, load_block.h, load_block.cpp and the
-- tables of core/api/core.h and core.cpp.
mod Examples
pub mod Block
pub mod Table
pub mod Search
pub mod Translate
pub mod Write
pub mod Alloc
pub mod Ref
pub mod Reads
pub mod Headers
