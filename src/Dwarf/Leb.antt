-- ===== src/Dwarf/Leb.antt =====
-- `DwarfLoader::ReadULEB128` and `ReadSLEB128` of core/api/dwarf.cpp. A `const uint8_t**` goes in
-- as an address and comes back beside the value; an `int64_t` is its 64-bit pattern.
pub mod Value
pub mod Chain
pub mod Extend
use open_core_analysis_kit.Base.{
  ℕ, zero, suc, ◌+◌, ◌-◌, ◌*◌, ◌%◌, ◌^◌, bit_and, bit_or, ltb, ◌==◌, if◌then◌else◌, ◌&&◌, not,
  Memory, u64_mod,
}

-- `result |= (uint64_t)(b & 0x7f) << shift;`
abbrev pub or_group : ℕ → ℕ → ℕ → ℕ
or_group result b shift = bit_or result (bit_and b 0x7f * 2 ^ shift % u64_mod)

-- The loop, with the rounds left as fuel: `shift < 64` allows ten.
unfoldable pub uleb_loop : ℕ → Memory → ℕ → ℕ → ℕ → ℕ → ℕ × ℕ
uleb_loop zero m end ptr result shift = (result, ptr)
uleb_loop (suc fuel) m end ptr result shift =
    let b = m ptr in
    let result' = or_group result b shift in
    let more = uleb_loop fuel m end (ptr + 1) result' (shift + 7) in
    if ltb ptr end && ltb shift 64
    then (if bit_and b 0x80 == 0 then (result', ptr + 1) else more)
    else (result, ptr)

unfoldable pub read_uleb128 : Memory → ℕ → ℕ → ℕ × ℕ
read_uleb128 m ptr end = uleb_loop 10 m end ptr 0 0

-- What the loop of `ReadSLEB128` leaves in its variables.
pub record Signed : Type 0 where
  pub result : ℕ
  pub shift : ℕ
  pub b : ℕ
  pub ptr : ℕ

unfoldable pub sleb_loop : ℕ → Memory → ℕ → Signed → Signed
sleb_loop zero m end s = s
sleb_loop (suc fuel) m end s =
    let b' = m s.ptr in
    let s' : Signed = record {
      result = or_group s.result b' s.shift;
      shift = s.shift + 7;
      b = b';
      ptr = s.ptr + 1;
    } in
    let more = sleb_loop fuel m end s' in
    if ltb s.ptr end && ltb s.shift 64 then (if bit_and b' 0x80 == 0 then s' else more) else s

-- `if (shift < 64 && (b & 0x40)) result |= -(int64_t)(1LL << shift);`
unfoldable pub sign_extend : Signed → ℕ
sign_extend s =
    if ltb s.shift 64 && not (bit_and s.b 0x40 == 0)
    then bit_or s.result (u64_mod - 2 ^ s.shift)
    else s.result

unfoldable pub read_sleb128 : Memory → ℕ → ℕ → ℕ × ℕ
read_sleb128 m ptr end =
    let s = sleb_loop 10 m end (record { result = 0; shift = 0; b = 0; ptr = ptr }) in
    (sign_extend s, s.ptr)
