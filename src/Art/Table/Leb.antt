-- ===== src/Art/Table/Leb.antt =====
-- `DecodeUnsignedLeb128` of android/art/base/leb128.h against `ReadULEB128` of core/api/dwarf.cpp.
use open_core_analysis_kit.Base.{
  ℕ, ◌+◌, ◌*◌, ◌%◌, ◌^◌, ◌≤◌, ◌<◌, ◌≡◌, refl, ap, bit_and, bit_or, leb, true, false, Memory,
  IsBytes, to_u32, arith,
}
use open_core_analysis_kit.Base.Bits.{bit_and_low7, bit_or_shifted}
use open_core_analysis_kit.Dwarf.Leb.{read_uleb128}
use open_core_analysis_kit.Dwarf.Leb.Value.{groups}
use open_core_analysis_kit.Dwarf.Leb.Chain.{Chain, last, more, pair_eq, read_uleb128-Chain}
use open_core_analysis_kit.Art.Table.{decode_unsigned_leb128}

module _ (m : Memory) (bytes : IsBytes m) (ptr : ℕ) where
  abbrev g : ℕ → ℕ
  g i = m (ptr + i) % 128

  joined_two :
      bit_or (bit_and (m ptr) 0x7f) (bit_and (m (ptr + 1)) 0x7f * 2 ^ 7) ≡ m ptr % 128 + g 1 * 2 ^ 7
  joined_two =
      rw (bit_and_low7 (m ptr) (bytes ptr), bit_and_low7 (m (ptr + 1)) (bytes (ptr + 1)))
        (bit_or_shifted 7 (m ptr % 128) (g 1) (omega arith))

  joined_three :
      bit_or (m ptr % 128 + g 1 * 2 ^ 7) (bit_and (m (ptr + 2)) 0x7f * 2 ^ 14)
      ≡ m ptr % 128 + g 1 * 2 ^ 7 + g 2 * 2 ^ 14
  joined_three =
      rw (bit_and_low7 (m (ptr + 2)) (bytes (ptr + 2)))
        (bit_or_shifted 14 (m ptr % 128 + g 1 * 2 ^ 7) (g 2) (omega arith))

  joined_four :
      bit_or (m ptr % 128 + g 1 * 2 ^ 7 + g 2 * 2 ^ 14) (bit_and (m (ptr + 3)) 0x7f * 2 ^ 21)
      ≡ m ptr % 128 + g 1 * 2 ^ 7 + g 2 * 2 ^ 14 + g 3 * 2 ^ 21
  joined_four =
      rw (bit_and_low7 (m (ptr + 3)) (bytes (ptr + 3)))
        (bit_or_shifted 21 (m ptr % 128 + g 1 * 2 ^ 7 + g 2 * 2 ^ 14) (g 3) (omega arith))

  joined_five :
      bit_or
        (m ptr % 128 + g 1 * 2 ^ 7 + g 2 * 2 ^ 14 + g 3 * 2 ^ 21)
        (to_u32 (m (ptr + 4) * 2 ^ 28))
      ≡ m ptr % 128 + g 1 * 2 ^ 7 + g 2 * 2 ^ 14 + g 3 * 2 ^ 21 + m (ptr + 4) % 16 * 2 ^ 28
  joined_five =
      let cut : to_u32 (m (ptr + 4) * 2 ^ 28) ≡ m (ptr + 4) % 16 * 2 ^ 28 = omega arith in
      rw cut (
        bit_or_shifted 28 (m ptr % 128 + g 1 * 2 ^ 7 + g 2 * 2 ^ 14 + g 3 * 2 ^ 21)
          (m (ptr + 4) % 16) (omega arith))

  small : (p : ℕ) → m p < 128 → leb (m p) 0x7f ≡ true
  small p h = ground arith

  large : (p : ℕ) → 128 ≤ m p → leb (m p) 0x7f ≡ false
  large p h = ground arith

  second : ptr + 1 + 1 ≡ ptr + 2
  second = omega arith

  third : ptr + 1 + 1 + 1 ≡ ptr + 3
  third = omega arith

  fourth : ptr + 1 + 1 + 1 + 1 ≡ ptr + 4
  fourth = omega arith

  decode-groups :
      {n : ℕ}
      → Chain m ptr n
      → n ≤ 5
      → decode_unsigned_leb128 m ptr ≡ (groups m ptr n % 2 ^ 32, ptr + n)
  unfolding decode_unsigned_leb128
  decode-groups (last a) h = rw (decode_unsigned_leb128, small ptr a) (pair_eq (omega arith) refl)
  decode-groups (more a (last b)) h =
      rw (decode_unsigned_leb128, large ptr a, small (ptr + 1) b, joined_two)
        (pair_eq (omega arith) (omega arith))
  decode-groups (more a (more b (last c))) h =
      let c' : m (ptr + 2) < 128 = (rw second at c) in
      rw
        (
          decode_unsigned_leb128,
          large ptr a,
          large (ptr + 1) b,
          small (ptr + 2) c',
          joined_two,
          joined_three,
        )
        (pair_eq (omega (arith, ap m second)) (omega arith))
  decode-groups (more a (more b (more c (last d)))) h =
      let c' : 128 ≤ m (ptr + 2) = (rw second at c) in
      let d' : m (ptr + 3) < 128 = (rw third at d) in
      rw
        (
          decode_unsigned_leb128,
          large ptr a,
          large (ptr + 1) b,
          large (ptr + 2) c',
          small (ptr + 3) d',
          joined_two,
          joined_three,
          joined_four,
        )
        (pair_eq (omega (arith, ap m second, ap m third)) (omega arith))
  decode-groups (more a (more b (more c (more d (last e))))) h =
      let c' : 128 ≤ m (ptr + 2) = (rw second at c) in
      let d' : 128 ≤ m (ptr + 3) = (rw third at d) in
      rw
        (
          decode_unsigned_leb128,
          large ptr a,
          large (ptr + 1) b,
          large (ptr + 2) c',
          large (ptr + 3) d',
          joined_two,
          joined_three,
          joined_four,
          joined_five,
        )
        (pair_eq (omega (arith, ap m second, ap m third, ap m fourth)) (omega arith))
  decode-groups (more a (more b (more c (more d (more e (last f)))))) h = absurd (omega arith)
  decode-groups (more a (more b (more c (more d (more e (more f rest)))))) h = absurd (omega arith)

-- For a number of at most five bytes inside the range: ART's reader and the DWARF reader stop at the
-- same place, and ART's value is the other one modulo 2 ^ 32.
pub decode_unsigned_leb128-read_uleb128 :
    (m : Memory) (ptr end n : ℕ)
    → IsBytes m
    → Chain m ptr n
    → n ≤ 5
    → ptr + n ≤ end
    → ((decode_unsigned_leb128 m ptr).0 ≡ (read_uleb128 m ptr end).0 % 2 ^ 32)
      × ((decode_unsigned_leb128 m ptr).1 ≡ (read_uleb128 m ptr end).1)
decode_unsigned_leb128-read_uleb128 m ptr end n bytes chain h k =
    let left = decode-groups m bytes ptr chain h in
    let right = read_uleb128-Chain m end chain bytes (omega arith) k in
    (rw (left, right) (omega arith), rw (left, right) refl)
