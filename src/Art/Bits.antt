-- ===== src/Art/Bits.antt =====
-- `LoadBit`, `LoadBits` and `LoadBits64` of android/art/base/bit_memory_region.cpp against the bits of
-- the memory, one by one.
use open_core_analysis_kit.Base.{
  ℕ, zero, suc, ◌+◌, ◌-◌, ◌*◌, ◌/◌, ◌%◌, ◌^◌, ◌≤◌, ◌<◌, ◌≡◌, refl, sym, ap, ◌∙◌, bit_and, bit_or,
  ◌==◌, not, true, false, some, Memory, IsBytes, add64, u64_mod, arith,
}
use Prim.Native.Nat.{min, max}
use native.Mathlib.Nat.{one-le-pow}
use native.Mathlib.Decide.{dec_lt}
use open_core_analysis_kit.Base.Bits.{same_below, same_at}
use open_core_analysis_kit.Base.Digits.{
  digit, digit-bit_or, digit-bit_and, digit-shift_right, digit-shift_left, digit-shift_low,
  digit-above, digit-low, digit-high, digit-mod, digit-mask, digit-le, bit_and-le_right,
  bit_and-one, bit_and-mask,
}
use open_core_analysis_kit.Dwarf.Text.Bytes.{le_sum, le_sum-lt}
use open_core_analysis_kit.Target.{Target, word}
use open_core_analysis_kit.Art.Region.{
  BitRegion, clear_mask, join_words, load_bit, load_bits64, load_bits, load_words,
}

-- Bit `k` of a memory.
abbrev pub bit_at : Memory → ℕ → ℕ
bit_at m k = digit (m (k / 8)) (k % 8)

digit-le_sum :
    (m : Memory) (p n i : ℕ) → IsBytes m → i < 8 * n → digit (le_sum m p n) i ≡ bit_at m (8 * p + i)
digit-le_sum m p zero i bytes h = absurd (omega arith)
digit-le_sum m p (suc n) i bytes h = elim (dec_lt i (8 * n)) [
  | yes low ↦
      digit-low (8 * n) i (le_sum m p n) (m (p + n)) (le_sum-lt m p n bytes) low
      ∙ digit-le_sum m p n i bytes low
  | no high ↦
      let at : 8 * n + (i - 8 * n) ≡ i = omega arith in
      let byte : (8 * p + i) / 8 ≡ p + n = omega arith in
      let place : (8 * p + i) % 8 ≡ i - 8 * n = omega arith in
      ap (λ j. digit (le_sum m p (suc n)) j) (sym at)
      ∙ digit-high (8 * n) (i - 8 * n) (le_sum m p n) (m (p + n)) (le_sum-lt m p n bytes)
      ∙ rw (byte, place) refl
]

masks : same_below (λ k. u64_mod - 1 - clear_mask (k + 1)) (λ k. 2 ^ (k + 1) - 1) 64 ≡ true
unfolding same_below
masks = refl

turns : same_below (λ s. bit_and (64 - s) 63) (λ s. (64 - s) % 64) 64 ≡ true
unfolding same_below
turns = refl

mask-clear : (n : ℕ) → 0 < n → n ≤ 64 → u64_mod - 1 - clear_mask n ≡ 2 ^ n - 1
mask-clear n pos h =
    let back : n - 1 + 1 ≡ n = omega arith in
    let fact : u64_mod - 1 - clear_mask (n - 1 + 1) ≡ 2 ^ (n - 1 + 1) - 1 =
      same_at _ _ 64 masks (omega arith) in
    (rw back at fact)

-- A digit of the joined words, below the length.
digit-join_words :
    (shift n value extra i : ℕ)
    → shift < 64
    → n ≤ 64
    → i < n
    → digit (join_words 64 shift n value extra) i
      ≡ max (digit value (shift + i)) (digit (extra * 2 ^ ((64 - shift) % 64)) i)
unfolding join_words
digit-join_words shift n value extra i h k l =
    let turn : bit_and (64 - shift) 63 ≡ (64 - shift) % 64 = same_at _ _ 64 turns h in
    let low = value / 2 ^ shift in
    let high = extra * 2 ^ bit_and (64 - shift) (64 - 1) % u64_mod in
    let mask = mask-clear n (omega arith) k in
    let cut : digit (join_words 64 shift n value extra) i
        ≡ min (digit (bit_or low high) i) (digit (2 ^ n - 1) i) =
      digit-bit_and i (bit_or low high) (u64_mod - 1 - clear_mask n)
      ∙ ap (λ x. min (digit (bit_or low high) i) (digit x i)) mask in
    let whole : digit (join_words 64 shift n value extra) i ≡ digit (bit_or low high) i =
      omega (arith, cut, digit-mask n i l, digit-le (bit_or low high) i) in
    let high' : digit high i ≡ digit (extra * 2 ^ ((64 - shift) % 64)) i =
      digit-mod 64 i (extra * 2 ^ bit_and (64 - shift) (64 - 1)) (omega arith)
      ∙ ap (λ e. digit (extra * 2 ^ e) i) turn in
    omega (arith, whole, digit-bit_or i low high, digit-shift_right shift i value, high')

join_words-lt :
    (shift n value extra : ℕ) → 0 < n → n ≤ 64 → join_words 64 shift n value extra < 2 ^ n
unfolding join_words
join_words-lt shift n value extra pos h =
    let low = value / 2 ^ shift in
    let high = extra * 2 ^ bit_and (64 - shift) (64 - 1) % u64_mod in
    omega (
      arith,
      bit_and-le_right (bit_or low high) (u64_mod - 1 - clear_mask n),
      mask-clear n pos h,
      one-le-pow n 2 (omega arith),
    )

-- The object at `base` has the bytes of `m`.
pub record IsMemory (t : Target) (base : ℕ) (m : Memory) : Type 0 where
  pub bytes : IsBytes m
  pub loads : (offset n : ℕ) → n ≤ 8 → t.load base offset n ≡ some (le_sum m offset n)

-- The number is the `n` bits from `k` on, lowest first.
pub record IsBits (m : Memory) (k n v : ℕ) : Type 0 where
  pub small : v < 2 ^ n
  pub digits : (i : ℕ) → i < n → digit v i ≡ bit_at m (k + i)

module _ (m : Memory) (bytes : IsBytes m) where
  abbrev pub word_at : ℕ → ℕ
  word_at index = le_sum m (index * 8) 8

  pub word_at-bit : (index j : ℕ) → j < 64 → digit (word_at index) j ≡ bit_at m (64 * index + j)
  word_at-bit index j h =
      let place : 8 * (index * 8) + j ≡ 64 * index + j = omega arith in
      digit-le_sum m (index * 8) 8 j bytes (omega arith) ∙ ap (bit_at m) place

  word_at-above : (index j : ℕ) → 64 ≤ j → digit (word_at index) j ≡ 0
  word_at-above index j h = digit-above 64 j (word_at index) (le_sum-lt m (index * 8) 8 bytes) h

  joined-bit :
      (index shift n i : ℕ)
      → shift < 64
      → n ≤ 64
      → i < n
      → max
          (digit (word_at index) (shift + i))
          (digit (word_at (index + (shift + (n - 1)) / 64) * 2 ^ ((64 - shift) % 64)) i)
        ≡ bit_at m (64 * index + (shift + i))
  joined-bit index zero n i h k l =
      let next : index + (0 + (n - 1)) / 64 ≡ index = omega arith in
      let at : 0 + i ≡ i = omega arith in
      let whole : word_at index * 2 ^ ((64 - 0) % 64) ≡ word_at index = omega arith in
      rw (next, at, whole) (omega (arith, word_at-bit index i (omega arith)))
  joined-bit index (suc s) n i h k l =
      let turn : (64 - suc s) % 64 ≡ 64 - suc s = omega arith in
      rw turn (elim (dec_lt (suc s + i) 64) [
        | yes low ↦ omega (
          arith,
          word_at-bit index (suc s + i) low,
          digit-shift_low (64 - suc s) i (word_at (index + (suc s + (n - 1)) / 64)) (omega arith),
        )
        | no high ↦
            let next : index + (suc s + (n - 1)) / 64 ≡ index + 1 = omega arith in
            let j : ℕ = i - (64 - suc s) in
            let split : 64 - suc s + j ≡ i = omega arith in
            let place : 64 * (index + 1) + j ≡ 64 * index + (suc s + i) = omega arith in
            let left = word_at-above index (suc s + i) (omega arith) in
            let right : digit (word_at (index + 1) * 2 ^ (64 - suc s)) i
                ≡ bit_at m (64 * index + (suc s + i)) =
              ap (λ x. digit (word_at (index + 1) * 2 ^ (64 - suc s)) x) (sym split)
              ∙ digit-shift_left (64 - suc s) j (word_at (index + 1))
              ∙ word_at-bit (index + 1) j (omega arith)
              ∙ ap (bit_at m) place in
            rw next (omega (arith, left, right))
      ])

  -- Words that are read from the memory, joined, are its bits.
  join_words-IsBits :
      (bit n : ℕ)
      → 0 < n
      → n ≤ 64
      → IsBits m bit n (
          join_words 64
            (bit % 64)
            n
            (word_at (bit / 64))
            (word_at (bit / 64 + (bit % 64 + (n - 1)) / 64)))
  join_words-IsBits bit n pos h = record {
    small =
        join_words-lt (bit % 64) n (word_at (bit / 64))
          (word_at (bit / 64 + (bit % 64 + (n - 1)) / 64)) pos h;
    digits = λ i lt.
        let place : 64 * (bit / 64) + (bit % 64 + i) ≡ bit + i = omega arith in
        digit-join_words (bit % 64) n (word_at (bit / 64))
          (word_at (bit / 64 + (bit % 64 + (n - 1)) / 64)) i (omega arith) h lt
        ∙ joined-bit (bit / 64) (bit % 64) n i (omega arith) h lt
        ∙ ap (bit_at m) place;
  }

module _ (t : Target) (r : BitRegion) (m : Memory) (memory : IsMemory t r.base m) where
  load_bit-bit_at :
      (offset : ℕ)
      → r.bit_start + offset < u64_mod
      → load_bit t offset r ≡ some (bit_at m (r.bit_start + offset) == 1)
  unfolding load_bit
  load_bit-bit_at offset h =
      let bit = r.bit_start + offset in
      let whole : add64 r.bit_start offset ≡ bit = omega arith in
      let byte : le_sum m (bit / 8) 1 ≡ m (bit / 8) =
        (let at : bit / 8 + 0 ≡ bit / 8 = omega arith in omega (arith, ap m at)) in
      rw
        (
          load_bit,
          whole,
          memory.loads (bit / 8) 1 (omega arith),
          byte,
          bit_and-one (m (bit / 8) / 2 ^ (bit % 8)),
        )
        (ap some (odd (m (bit / 8) / 2 ^ (bit % 8))))
    where
      odd : (x : ℕ) → not (x % 2 == 0) ≡ (x % 2 == 1)
      odd x = ground arith

  load_bits64-IsBits :
      (offset n : ℕ)
      → r.bit_start + offset < u64_mod
      → n ≤ 64
      → (v : ℕ) × (load_bits64 t offset n r ≡ some v) × IsBits m (r.bit_start + offset) n v
  unfolding load_bits64
  load_bits64-IsBits offset zero h k =
      (0, refl, record { small = omega arith; digits = λ i lt. absurd (omega arith) })
  load_bits64-IsBits offset (suc n) h k =
      let bit = r.bit_start + offset in
      let whole : add64 r.bit_start offset ≡ bit = omega arith in
      let some_bits : (suc n == 0) ≡ false = ground arith in
      (
        _,
        rw
            (
              load_bits64,
              load_words,
              whole,
              some_bits,
              memory.loads (bit / 64 * 8) 8 (omega arith),
              memory.loads ((bit / 64 + (bit % 64 + (suc n - 1)) / 64) * 8) 8 (omega arith),
            )
            refl,
        join_words-IsBits m memory.bytes bit (suc n) (omega arith) k,
      )

word-load :
    (t : Target) (base : ℕ) (m : Memory) (offset : ℕ)
    → IsMemory t base m
    → t.point_mask ≡ 2 ^ 64 - 1
    → word t base offset ≡ t.load base offset 8
word-load t base m offset memory e =
    rw (memory.loads offset 8 (omega arith), e)
      (ap some (bit_and-mask 64 (le_sum m offset 8) (le_sum-lt m offset 8 memory.bytes)))

pub load_bits-load_bits64 :
    (t : Target) (r : BitRegion) (m : Memory) (offset n : ℕ)
    → IsMemory t r.base m
    → t.point_mask ≡ 2 ^ 64 - 1
    → load_bits t 64 offset n r ≡ load_bits64 t offset n r
unfolding load_bits load_bits64
load_bits-load_bits64 t r m offset n memory e =
    let bit = add64 r.bit_start offset in
    let first = word-load t r.base m (bit / 64 * 8) memory e in
    let second = word-load t r.base m ((bit / 64 + (bit % 64 + (n - 1)) / 64) * 8) memory e in
    rw (first, second) refl

-- On memory that is readable as bytes, and for at most 64 bits that do not wrap: `LoadBits64`
-- throws no exception, and its result is a number of as many bits whose bit `i` is the one that
-- `LoadBit` reads at `bit_offset + i`. On a 64-bit core with a full pointer mask `LoadBits` gives
-- the same number.
pub load_bits64-load_bit :
    (t : Target) (r : BitRegion) (m : Memory) (offset n : ℕ)
    → IsMemory t r.base m
    → r.bit_start + offset + n < u64_mod
    → n ≤ 64
    → (v : ℕ) × (load_bits64 t offset n r ≡ some v)
      × (v < 2 ^ n)
      × ((i : ℕ) → i < n → load_bit t (offset + i) r ≡ some (digit v i == 1))
      × (t.point_mask ≡ 2 ^ 64 - 1 → load_bits t 64 offset n r ≡ some v)
load_bits64-load_bit t r m offset n memory h k =
    let (v, e, bits) = load_bits64-IsBits t r m memory offset n (omega arith) k in
    (
      v,
      e,
      bits.small,
      (λ i lt.
          let place : r.bit_start + (offset + i) ≡ r.bit_start + offset + i = omega arith in
          load_bit-bit_at t r m memory (offset + i) (omega arith)
          ∙ ap (λ k'. some (bit_at m k' == 1)) place
          ∙ ap (λ d. some (d == 1)) (sym (bits.digits i lt))),
      λ full. load_bits-load_bits64 t r m offset n memory full ∙ e,
    )
