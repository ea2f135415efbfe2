-- ===== src/Art/Chunks/Count.antt =====
-- `PopCount` of android/art/base/bit_memory_region.cpp against a count of the bits, one by one.
use open_core_analysis_kit.Base.{
  ℕ, zero, suc, ◌+◌, ◌-◌, ◌*◌, ◌/◌, ◌%◌, ◌^◌, ◌≤◌, ◌<◌, ◌≡◌, refl, sym, ap, ◌∙◌, ltb, leb, ◌==◌,
  true, false, Bool-cases, inl, inr, some, Memory, IsBytes, add64, u64_mod, arith,
}
use Prim.Native.Nat.{min}
use native.Mathlib.Nat.{one-le-pow}
use open_core_analysis_kit.Base.Bits.{same_below, same_at}
use open_core_analysis_kit.Base.Digits.{
  digit, digit-suc, digit-zero, digit-bit_and, digit-shift_right, digit-mask, digit-le,
  bit_and-le_right, bit_and-mask, shift_right-lt,
}
use open_core_analysis_kit.Dwarf.Text.Bytes.{le_sum, le_sum-lt}
use open_core_analysis_kit.Target.{Target, word}
use open_core_analysis_kit.Art.Region.{BitRegion}
use open_core_analysis_kit.Art.Bits.{bit_at, IsBits, word_at, word_at-bit}
use open_core_analysis_kit.Art.Chunks.{
  keep_low, popcount, move, visit_rest, visit_whole, visit_chunks, leading_bits, leading_value,
  count_visitor, pop_count,
}

-- The number of ones among `n` bits from `k` on.
abbrev pub ones : Memory → ℕ → ℕ → ℕ
ones m k zero = 0
ones m k (suc n) = bit_at m k + ones m (k + 1) n

-- The bytes of `words` chunks of 64 bits from `base` on are readable from every object among them,
-- and do not wrap, under a full pointer mask.
pub record IsSpan (t : Target) (base words : ℕ) (m : Memory) : Type 0 where
  pub bytes : IsBytes m
  pub loads :
      (a offset n : ℕ)
      → a < 8 * words
      → a + offset + n ≤ 8 * words
      → n ≤ 8
      → t.load (base + a) offset n ≡ some (le_sum m (a + offset) n)
  pub room : base + 8 * words < u64_mod
  pub mask : t.point_mask ≡ 2 ^ 64 - 1

masks : same_below (λ r. u64_mod - 1 - (u64_mod - 1) * 2 ^ r % u64_mod) (λ r. 2 ^ r - 1) 64 ≡ true
unfolding same_below
masks = refl

module _ (m : Memory) where
  ones-le : (k n : ℕ) → ones m k n ≤ n
  ones-le k zero = omega arith
  ones-le k (suc n) = omega (arith, ones-le (k + 1) n, digit-le (m (k / 8)) (k % 8))

  ones-add : (k a b : ℕ) → ones m k (a + b) ≡ ones m k a + ones m (k + a) b
  ones-add k zero b =
      let none_first : 0 + b ≡ b = omega arith in
      let at : k + 0 ≡ k = omega arith in rw (none_first, at) (omega arith)
  ones-add k (suc a) b =
      let next : suc a + b ≡ suc (a + b) = omega arith in
      let at : k + 1 + a ≡ k + suc a = omega arith in
      rw next (omega (arith, ones-add (k + 1) a b, ap (λ j. ones m j b) at))

  popcount-ones : (width n k v : ℕ) → n ≤ width → IsBits m k n v → popcount width v ≡ ones m k n
  unfolding popcount
  popcount-ones zero zero k v h bits = refl
  popcount-ones zero (suc n) k v h bits = absurd (omega arith)
  popcount-ones (suc width) zero k v h bits =
      let none_left : v ≡ 0 = omega (arith, bits.small) in
      let rest =
        popcount-ones width zero k (v / 2) (omega arith)
          (record { small = omega (arith, bits.small); digits = λ i lt. absurd (omega arith) }) in
      omega (arith, none_left, rest)
  popcount-ones (suc width) (suc n) k v h bits =
      let at : k + 0 ≡ k = omega arith in
      let first : v % 2 ≡ bit_at m k =
        sym (digit-zero v) ∙ bits.digits 0 (omega arith) ∙ ap (bit_at m) at in
      let rest = popcount-ones width n (k + 1) (v / 2) (omega arith) (record {
        small = omega (arith, bits.small);
        digits = λ i lt.
            let next : k + suc i ≡ k + 1 + i = omega arith in
            sym (digit-suc v i) ∙ bits.digits (suc i) (omega arith) ∙ ap (bit_at m) next;
      }) in
      omega (arith, first, rest)

  keep_low-IsBits : (k n r v : ℕ) → r ≤ n → r < 64 → IsBits m k n v → IsBits m k r (keep_low r v)
  keep_low-IsBits k n r v h lt bits =
      let mask : u64_mod - 1 - (u64_mod - 1) * 2 ^ r % u64_mod ≡ 2 ^ r - 1 =
        same_at _ _ 64 masks lt in
      record {
        small = omega (
          arith,
          bit_and-le_right v (u64_mod - 1 - (u64_mod - 1) * 2 ^ r % u64_mod),
          mask,
          one-le-pow r 2 (omega arith),
        );
        digits = λ i below.
            let cut =
              digit-bit_and i v (u64_mod - 1 - (u64_mod - 1) * 2 ^ r % u64_mod)
              ∙ ap (λ x. min (digit v i) (digit x i)) mask in
            omega (arith, cut, digit-mask r i below, digit-le v i, bits.digits i (omega arith));
      }

  module _ (bytes : IsBytes m) where
    word_at-IsBits : (index : ℕ) → IsBits m (64 * index) 64 (word_at m bytes index)
    word_at-IsBits index = record {
      small = le_sum-lt m (index * 8) 8 bytes;
      digits = λ i lt. word_at-bit m bytes index i lt;
    }

    shifted-IsBits :
        (index s : ℕ) → s < 64 → IsBits m (64 * index + s) (64 - s) (word_at m bytes index / 2 ^ s)
    shifted-IsBits index s h = record {
      small =
          let exponent : s + (64 - s) ≡ 64 = omega arith in
          shift_right-lt s (64 - s) (word_at m bytes index)
            (rw exponent (le_sum-lt m (index * 8) 8 bytes));
      digits = λ i lt.
          let at : 64 * index + (s + i) ≡ 64 * index + s + i = omega arith in
          digit-shift_right s i (word_at m bytes index)
          ∙ word_at-bit m bytes index (s + i) (omega arith)
          ∙ ap (bit_at m) at;
    }

module _ (t : Target) (base words : ℕ) (m : Memory) (span : IsSpan t base words m) where
  span-word : (j : ℕ) → j < words → word t (base + j * 8) 0 ≡ some (word_at m span.bytes j)
  span-word j h =
      let at : j * 8 + 0 ≡ j * 8 = omega arith in
      let loaded : t.load (base + j * 8) 0 8 ≡ some (word_at m span.bytes j) =
        span.loads (j * 8) 0 8 (omega arith) (omega arith) (omega arith)
        ∙ ap (λ p. some (le_sum m p 8)) at in
      rw (loaded, span.mask)
        (ap some (bit_and-mask 64 (word_at m span.bytes j) (le_sum-lt m (j * 8) 8 span.bytes)))

  span-move :
      (a n : ℕ)
      → a < 8 * words
      → a + n ≤ 8 * words
      → move t 64 count_visitor (base + a) n ≡ some (base + a + n)
  span-move a n h k =
      let whole : add64 (base + a) n ≡ base + a + n = omega (arith, span.room) in
      rw (move, span.loads a 0 0 h (omega arith) (omega arith), whole) refl

  visit_rest-ones :
      (j offset remaining result : ℕ)
      → remaining < 64
      → 64 * j + remaining ≤ 64 * words
      → result + remaining < u64_mod
      → visit_rest t 64 count_visitor (base + j * 8) offset remaining result
        ≡ some (result + ones m (64 * j) remaining, true)
  unfolding visit_rest
  visit_rest-ones j offset zero result h k l =
      let same : result + 0 ≡ result = omega arith in rw same refl
  visit_rest-ones j offset (suc r) result h k l =
      let more : (suc r == 0) ≡ false = ground arith in
      let bits =
        keep_low-IsBits m (64 * j) 64 (suc r) (word_at m span.bytes j) (omega arith) h
          (word_at-IsBits m span.bytes j) in
      let count =
        popcount-ones m 64 (suc r) (64 * j) (keep_low (suc r) (word_at m span.bytes j))
          (omega arith) bits in
      let sum : add64 result (ones m (64 * j) (suc r)) ≡ result + ones m (64 * j) (suc r) =
        omega (arith, ones-le m (64 * j) (suc r)) in
      rw (visit_rest, more, span-word j (omega arith), count, sum) refl

  visit_whole-ones :
      (fuel j offset remaining result : ℕ)
      → remaining < 64 * suc fuel
      → 64 * j + remaining ≤ 64 * words
      → result + remaining < u64_mod
      → visit_whole t 64 count_visitor fuel (base + j * 8) offset remaining result
        ≡ some (result + ones m (64 * j) remaining, true)
  unfolding visit_whole
  visit_whole-ones zero j offset remaining result h k l =
      visit_rest-ones j offset remaining result (omega arith) (omega arith) l
  visit_whole-ones (suc fuel) j offset remaining result h k l =
      elim (Bool-cases (leb 64 remaining)) [
        | inr few ↦
            rw (visit_whole, few)
              (visit_rest-ones j offset remaining result (ground (arith, few)) (omega arith) l)
        | inl many ↦
            let left : 64 ≤ remaining = ground (arith, many) in
            let count =
              popcount-ones m 64 64 (64 * j) (word_at m span.bytes j) (omega arith)
                (word_at-IsBits m span.bytes j) in
            let sum : add64 result (ones m (64 * j) 64) ≡ result + ones m (64 * j) 64 =
              omega (arith, ones-le m (64 * j) 64) in
            let next : base + j * 8 + 8 ≡ base + (j + 1) * 8 = omega arith in
            let rest =
              visit_whole-ones fuel (j + 1) (offset + 64) (remaining - 64)
                (result + ones m (64 * j) 64) (omega arith) (omega arith)
                (omega (arith, ones-le m (64 * j) 64)) in
            let split : 64 + (remaining - 64) ≡ remaining = omega arith in
            let at : 64 * (j + 1) ≡ 64 * j + 64 = omega arith in
            let total : result + ones m (64 * j) 64 + ones m (64 * (j + 1)) (remaining - 64)
                ≡ result + ones m (64 * j) remaining =
              omega (
                arith,
                ones-add m (64 * j) 64 (remaining - 64),
                ap (ones m (64 * j)) split,
                ap (λ k'. ones m k' (remaining - 64)) at,
              ) in
            rw
              (
                visit_whole,
                many,
                span-word j (omega arith),
                count,
                sum,
                span-move (j * 8) 8 (omega arith) (omega arith),
                next,
              )
              (rest ∙ ap (λ n. some (n, true)) total)
      ]

  -- The bits up to the first whole chunk, of which at most `size` belong to the region.
  leading-ones :
      (index shift start size : ℕ)
      → start ≡ 64 * index + shift
      → start % 64 ≡ shift
      → shift < 64
      → popcount 64 (leading_value t 64 count_visitor start size (word_at m span.bytes index))
        ≡ ones m start (leading_bits t 64 count_visitor start size)
  leading-ones index shift start size e e' h =
      let v = word_at m span.bytes index in
      let bits = shifted-IsBits m span.bytes index shift h in
      elim (Bool-cases (ltb size (64 - shift))) [
        | inl short ↦
            let less : size < 64 - shift = ground (arith, short) in
            rw (leading_value, leading_bits, e', short, e)
              (popcount-ones m 64 size (64 * index + shift) (keep_low size (v / 2 ^ shift))
                (omega arith)
                (keep_low-IsBits m (64 * index + shift) (64 - shift) size (v / 2 ^ shift)
                  (omega arith) (omega arith) bits))
        | inr long ↦
            rw (leading_value, leading_bits, e', long, e)
              (popcount-ones m 64 (64 - shift) (64 * index + shift) (v / 2 ^ shift) (omega arith)
                bits)
      ]

  -- The leading bits, and those from the next whole chunk on.
  leading-total :
      (index start size : ℕ)
      → start ≡ 64 * index + start % 64
      → ones m start (leading_bits t 64 count_visitor start size)
          + ones m (64 * (index + 1)) (size - leading_bits t 64 count_visitor start size)
        ≡ ones m start size
  leading-total index start size e = elim (Bool-cases (ltb size (64 - start % 64))) [
    | inl short ↦
        let none_left : size - size ≡ 0 = omega arith in
        rw (leading_bits, short, none_left) (omega arith)
    | inr long ↦
        let enough : 64 - start % 64 ≤ size = ground (arith, long) in
        let split : 64 - start % 64 + (size - (64 - start % 64)) ≡ size = omega arith in
        let at : start + (64 - start % 64) ≡ 64 * (index + 1) = omega arith in
        rw (leading_bits, long)
          (omega (
            arith,
            ones-add m start (64 - start % 64) (size - (64 - start % 64)),
            ap (ones m start) split,
            ap (λ k. ones m k (size - (64 - start % 64))) at,
          ))
  ]

  -- What is behind the leading bits lies in the span.
  leading-fits :
      (index start size : ℕ)
      → start ≡ 64 * index + start % 64
      → 0 < size
      → start + size ≤ 64 * words
      → 64 * (index + 1) + (size - leading_bits t 64 count_visitor start size) ≤ 64 * words
  leading-fits index start size e pos h = elim (Bool-cases (ltb size (64 - start % 64))) [
    | inl short ↦ rw (leading_bits, short) (omega arith)
    | inr long ↦
        let enough : 64 - start % 64 ≤ size = ground (arith, long) in
        rw (leading_bits, long) (omega arith)
  ]

  leading_bits-le : (start size : ℕ) → leading_bits t 64 count_visitor start size ≤ size
  leading_bits-le start size = ground arith

-- On a 64-bit core with a full pointer mask, for a region of less than 2 ^ 64 bits inside a span of
-- whole 64-bit chunks that are readable and do not wrap: `PopCount` throws no exception and gives
-- the number of ones among the bits of the region.
pub pop_count-ones :
    (t : Target) (r : BitRegion) (m : Memory) (words : ℕ)
    → IsSpan t r.base words m
    → r.bit_start + r.bit_size ≤ 64 * words
    → r.bit_size < u64_mod
    → pop_count t 64 r ≡ some (ones m r.bit_start r.bit_size)
unfolding pop_count visit_chunks
pop_count-ones t r m words span h small = elim (Bool-cases (r.bit_size == 0)) [
  | inl e ↦
      let none_there : r.bit_size ≡ 0 = ground (arith, e) in
      rw (pop_count, e) (ap (λ n. some (ones m r.bit_start n)) (sym none_there))
  | inr e ↦
      let some_bits : 0 < r.bit_size = ground (arith, e) in
      let index = r.bit_start / 64 in
      let base' : r.base + 0 ≡ r.base = omega arith in
      let first : move t 64 count_visitor r.base (index * 8) ≡ some (r.base + index * 8) =
        (rw base' at (
          span-move t r.base words m span 0 (index * 8) (omega (arith, some_bits))
            (omega (arith, some_bits)))) in
      elim (Bool-cases (r.bit_start % 64 == 0)) [
        | inl even ↦
            let start : 64 * index ≡ r.bit_start = ground (arith, even) in
            let whole =
              visit_whole-ones t r.base words m span (r.bit_size / 64) index 0 r.bit_size 0
                (omega arith) (omega arith) (omega arith) in
            let total : 0 + ones m (64 * index) r.bit_size ≡ ones m r.bit_start r.bit_size =
              omega (arith, ap (λ k. ones m k r.bit_size) start) in
            rw (pop_count, e, first, even, whole) (ap some total)
        | inr odd ↦
            let n = leading_bits t 64 count_visitor r.bit_start r.bit_size in
            let inside = leading_bits-le t r.base words m span r.bit_start r.bit_size in
            let start : r.bit_start ≡ 64 * index + r.bit_start % 64 = omega arith in
            let count =
              leading-ones t r.base words m span index (r.bit_start % 64) r.bit_start r.bit_size
                start refl (omega arith) in
            let few = ones-le m r.bit_start n in
            let sum : add64 0 (ones m r.bit_start n) ≡ ones m r.bit_start n = omega (arith, few) in
            let next : r.base + index * 8 + 8 ≡ r.base + (index + 1) * 8 = omega arith in
            let whole =
              visit_whole-ones t r.base words m span (r.bit_size / 64) (index + 1) n
                (r.bit_size - n) (ones m r.bit_start n) (omega arith)
                (leading-fits t r.base words m span index r.bit_start r.bit_size start some_bits h)
                (omega (arith, few)) in
            rw
              (
                pop_count,
                e,
                first,
                odd,
                span-word t r.base words m span index (omega (arith, some_bits)),
                count,
                sum,
                span-move t r.base words m span (index * 8) 8 (omega (arith, some_bits))
                    (omega (arith, some_bits)),
                next,
                whole,
              )
              (ap some (leading-total t r.base words m span index r.bit_start r.bit_size start))
      ]
]
