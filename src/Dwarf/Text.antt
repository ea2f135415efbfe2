-- ===== src/Dwarf/Text.antt =====
-- `GetDebugStr`, `GetDebugStrX`, the little-endian reads and the texts of core/api/dwarf.cpp.
pub mod Bytes
use open_core_analysis_kit.Base.{
  ℕ, zero, suc, ◌+◌, ◌-◌, ◌*◌, ◌%◌, ◌^◌, bit_or, ltb, leb, ◌==◌, if◌then◌else◌, ◌||◌, ◌&&◌, not,
  Bool, Option, none, some, List, [], ◌∷◌, Memory, u64_mod, add64, guard, ◌>>=◌, ◌>>◌,
}
use open_core_analysis_kit.Dwarf.Types.{Sections}

-- `for (i = 0; i < n; ++i) v |= (uint64_t)ptr[i] << (8 * i);`
unfoldable pub le_bytes : Memory → ℕ → ℕ → ℕ
le_bytes m ptr zero = 0
le_bytes m ptr (suc n) = bit_or (le_bytes m ptr n) (m (ptr + n) * 2 ^ (8 * n) % u64_mod)

-- `while (p < end && *p) ++p;`, with `end - p` rounds as fuel.
unfoldable pub scan_nul : ℕ → Memory → ℕ → ℕ → ℕ
scan_nul zero m p end = p
scan_nul (suc fuel) m p end =
    let more = scan_nul fuel m (p + 1) end in if ltb p end && not (m p == 0) then more else p

-- The bytes of the C string at `p`, of at most `limit`.
unfoldable pub c_string : ℕ → Memory → ℕ → List ℕ
c_string zero m p = []
c_string (suc limit) m p =
    let more = c_string limit m (p + 1) in if m p == 0 then [] else m p ∷ more

-- The address of a NUL-terminated text inside .debug_str, or `nullptr`.
unfoldable pub get_debug_str : Sections → ℕ → Option ℕ
get_debug_str s offset =
    let start = s.str_data + offset in
    let end = s.str_data + s.str_size in
    if s.str_data == 0 || leb s.str_size offset
    then none
    else (if leb end (scan_nul (end - start) s.mem start end) then none else some start)

-- DWARF 5: an index into .debug_str_offsets, and the text that the entry there points to.
unfoldable pub get_debug_str_x : Sections → ℕ → ℕ → Bool → Option ℕ
get_debug_str_x s index str_offsets_base dwarf64 =
    let entry_size : ℕ = (if dwarf64 then 8 else 4) in
    let off = (str_offsets_base + index * entry_size) % u64_mod in
    let str_off = le_bytes s.mem (s.str_offsets_data + off) entry_size in
    if s.str_offsets_data == 0 || ltb s.str_offsets_size (add64 off entry_size)
    then none
    else get_debug_str s str_off
