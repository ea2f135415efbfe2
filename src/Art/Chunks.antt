-- ===== src/Art/Chunks.antt =====
-- `VisitChunks` and `PopCount` of android/art/base/bit_memory_region.cpp.
pub mod Count
use open_core_analysis_kit.Base.{
  ℕ, zero, suc, ◌+◌, ◌-◌, ◌*◌, ◌/◌, ◌%◌, ◌^◌, bit_and, ltb, leb, ◌==◌, if◌then◌else◌, Bool, true,
  false, Option, none, some, add64, u64_mod, ◌>>=◌,
}
use open_core_analysis_kit.Target.{Target, word}
use open_core_analysis_kit.Art.Region.{BitRegion, subregion}

-- `value & ~(max << bits)`, for fewer than 64 bits.
abbrev pub keep_low : ℕ → ℕ → ℕ
keep_low bits value = bit_and value (u64_mod - 1 - (u64_mod - 1) * 2 ^ bits % u64_mod)

-- `__builtin_popcountll`.
unfoldable pub popcount : ℕ → ℕ → ℕ
popcount zero v = 0
popcount (suc bits) v = v % 2 + popcount bits (v / 2)

module _ {κ} {S : Type κ} (t : Target) (bits : ℕ)
    (visitor : (offset num_bits value : ℕ) → S → S × Bool) where
  -- `data.MovePtr(n)` throws if the data are not there.
  abbrev pub move : ℕ → ℕ → Option ℕ
  move data' n = t.load data' 0 0 >>= λ _. some (add64 data' n)

  -- What is left of the bits: fewer than a chunk.
  unfoldable pub visit_rest : (data' offset remaining : ℕ) → S → Option (S × Bool)
  visit_rest data' offset remaining s =
      if remaining == 0
      then some (s, true)
      else (word t data' 0 >>= λ v. some (visitor offset remaining (keep_low remaining v) s))

  -- Whole chunks; the fuel is their number.
  unfoldable pub visit_whole : (fuel data' offset remaining : ℕ) → S → Option (S × Bool)
  unfolding visit_rest
  visit_whole zero data' offset remaining s = visit_rest data' offset remaining s
  visit_whole (suc fuel) data' offset remaining s = elim (leb bits remaining) [
    | false ↦ visit_rest data' offset remaining s
    | true ↦ word t data' 0 >>= λ v.
        let r = visitor offset bits v s in
        elim r.1 [
          | false ↦ some (r.0, false)
          | true ↦ move data' (bits / 8) >>= λ next.
              visit_whole fuel next (offset + bits) (remaining - bits) r.0
        ]
  ]

  -- The bits up to the first whole chunk.
  abbrev pub leading_bits : ℕ → ℕ → ℕ
  leading_bits bit_start remaining =
      if ltb remaining (bits - bit_start % bits) then remaining else bits - bit_start % bits

  abbrev pub leading_value : (bit_start remaining v : ℕ) → ℕ
  leading_value bit_start remaining v =
      let value = v / 2 ^ (bit_start % bits) in
      if ltb remaining (bits - bit_start % bits) then keep_low remaining value else value

  -- `VisitChunks`.
  unfoldable pub visit_chunks : BitRegion → S → Option (S × Bool)
  unfolding visit_whole
  visit_chunks r s =
      let n = leading_bits r.bit_start r.bit_size in
      let whole = r.bit_size / bits in
      if r.bit_size == 0
      then some (s, true)
      else (move r.base (r.bit_start / bits * (bits / 8)) >>= λ first.
          if r.bit_start % bits == 0
          then visit_whole whole first 0 r.bit_size s
          else (word t first 0 >>= λ v.
              let found = visitor 0 n (leading_value r.bit_start r.bit_size v) s in
              elim found.1 [
                | false ↦ some (found.0, false)
                | true ↦ move first (bits / 8) >>= λ next.
                    visit_whole whole next n (r.bit_size - n) found.0
              ]))

-- `PopCount`.
abbrev pub count_visitor : (offset num_bits value : ℕ) → ℕ → ℕ × Bool
count_visitor offset num_bits value result = (add64 result (popcount 64 value), true)

unfoldable pub pop_count : Target → ℕ → BitRegion → Option ℕ
unfolding visit_chunks popcount
pop_count t bits r = visit_chunks t bits count_visitor r 0 >>= λ (result, all). some result

unfoldable pub pop_count_of : Target → (bits bit_offset bit_length : ℕ) → BitRegion → Option ℕ
unfolding pop_count
pop_count_of t bits bit_offset bit_length r = pop_count t bits (subregion bit_offset bit_length r)
