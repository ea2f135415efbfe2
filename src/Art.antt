-- ===== src/Art.antt =====
-- Parts of the Android runtime's reader, android/art: bit regions, bit tables and LEB128.
pub mod Region
pub mod Bits
pub mod Chunks
pub mod Table
mod Examples
