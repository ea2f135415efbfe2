-- ===== src/Dwarf/Leb/Extend.antt =====
-- `ReadSLEB128` on a complete number: two's complement sign extension.
use open_core_analysis_kit.Base.{
  ℕ, zero, le→ltb, true, false, suc, ◌+◌, ◌-◌, ◌*◌, ◌%◌, ◌^◌, ◌≤◌, ◌<◌, ◌≡◌, refl, ap, ltb, lt→ltb,
  ◌==◌, if◌then◌else◌, ◌∙◌, bit_and, Memory, IsBytes, u64_mod, arith,
}
use native.Mathlib.Decide.{dec_lt}
use open_core_analysis_kit.Base.Bits.{bit_and_sign, bit_or_shifted}
use open_core_analysis_kit.Dwarf.Leb.{or_group, Signed, sleb_loop, sign_extend, read_sleb128}
use open_core_analysis_kit.Dwarf.Leb.Value.{
  groups, groups-lt, or_group_sum, Partial, or_group-Partial, pow_next,
}
use open_core_analysis_kit.Dwarf.Leb.Chain.{Chain, last, more, top_clear, top_set, groups_front}

abbrev at_round : ℕ → ℕ → ℕ → ℕ → Signed
at_round result shift b ptr = record { result = result; shift = shift; b = b; ptr = ptr }

at_round_eq :
    {result shift b ptr result' shift' b' ptr' : ℕ}
    → result ≡ result'
    → shift ≡ shift'
    → b ≡ b'
    → ptr ≡ ptr'
    → at_round result shift b ptr ≡ at_round result' shift' b' ptr'
at_round_eq p q r s = cc

sleb_loop-Chain :
    (fuel : ℕ) (m : Memory) (end : ℕ) {ptr n : ℕ} (result shift b j : ℕ)
    → Chain m ptr n
    → IsBytes m
    → n ≤ fuel
    → fuel + j ≡ 10
    → 7 * j ≡ shift
    → ptr + n ≤ end
    → Partial j result
    → sleb_loop fuel m end (at_round result shift b ptr)
      ≡ at_round
          ((result + groups m ptr n * 2 ^ (7 * j)) % u64_mod)
          (7 * (j + n))
          (m (ptr + n - 1))
          (ptr + n)
unfolding sleb_loop
sleb_loop-Chain zero m end result shift b j (last h) bytes hn hf hs he hr = absurd (omega arith)
sleb_loop-Chain zero m end result shift b j (more h c) bytes hn hf hs he hr = absurd (omega arith)
sleb_loop-Chain (suc fuel) m end {ptr} result shift b j (last h) bytes hn hf hs he hr = rw (← hs) (
    rw (lt→ltb ptr end (omega arith), lt→ltb (7 * j) 64 (omega arith), top_clear _ h)
      (at_round_eq
        (or_group_sum result (m ptr) j (omega arith) (bytes ptr) (hr.1 (omega arith)) ∙ omega arith)
        (omega arith) (ap m (omega arith)) refl))
sleb_loop-Chain (suc fuel) m end {ptr} result shift b j (more {n = n} h c) bytes hn hf hs he hr =
    rw (← hs) (
      rw (lt→ltb ptr end (omega arith), lt→ltb (7 * j) 64 (omega arith), top_set _ (bytes ptr) h)
        (sleb_loop-Chain fuel m end (or_group result (m ptr) (7 * j)) (7 * j + 7) (m ptr) (suc j) c
            bytes (omega arith) (omega arith) (omega arith) (omega arith)
            (or_group-Partial result (m ptr) j (omega arith) (bytes ptr) hr)
          ∙ at_round_eq (groups_front m ptr n j result bytes (omega arith) (hr.1 (omega arith)))
              (omega arith) (ap m (omega arith)) (omega arith)))

-- The bit pattern of a number of `bits` bits, read as two's complement and widened to 64 bits.
abbrev pub widen : ℕ → ℕ → ℕ
widen bits v = if ltb v (2 ^ (bits - 1)) then v else v + (u64_mod - 2 ^ bits)

-- The bits above 7 n, as a multiple of 2 ^ (7 n).
upper_ones :
    (n : ℕ)
    → 0 < n
    → n ≤ 9
    → (c : ℕ) × (u64_mod - 2 ^ (7 * n) ≡ c * 2 ^ (7 * n))
      × (2 * 2 ^ (7 * n - 1) ≡ 2 ^ (7 * n))
      × (2 ^ (7 * n - 1) ≡ 64 * 2 ^ (7 * (n - 1)))
      × (2 ^ (7 * n) ≤ u64_mod)
upper_ones zero h k = absurd (omega arith)
upper_ones (suc zero) h k = (2 ^ 57 - 1, refl, refl, refl, omega arith)
upper_ones (suc (suc zero)) h k = (2 ^ 50 - 1, refl, refl, refl, omega arith)
upper_ones (suc (suc (suc zero))) h k = (2 ^ 43 - 1, refl, refl, refl, omega arith)
upper_ones (suc (suc (suc (suc zero)))) h k = (2 ^ 36 - 1, refl, refl, refl, omega arith)
upper_ones (suc (suc (suc (suc (suc zero))))) h k = (2 ^ 29 - 1, refl, refl, refl, omega arith)
upper_ones (suc (suc (suc (suc (suc (suc zero)))))) h k =
    (2 ^ 22 - 1, refl, refl, refl, omega arith)
upper_ones (suc (suc (suc (suc (suc (suc (suc zero))))))) h k =
    (2 ^ 15 - 1, refl, refl, refl, omega arith)
upper_ones (suc (suc (suc (suc (suc (suc (suc (suc zero)))))))) h k =
    (2 ^ 8 - 1, refl, refl, refl, omega arith)
upper_ones (suc (suc (suc (suc (suc (suc (suc (suc (suc zero))))))))) h k =
    (1, refl, refl, refl, omega arith)
upper_ones (suc (suc (suc (suc (suc (suc (suc (suc (suc (suc n)))))))))) h k = absurd (omega arith)

-- The top group of a chain decides its size.
groups_top :
    (m : Memory) {ptr n : ℕ}
    → Chain m ptr n
    → (low : ℕ) × (groups m ptr n ≡ low + m (ptr + n - 1) * 2 ^ (7 * (n - 1)))
      × (low < 2 ^ (7 * (n - 1)))
      × (m (ptr + n - 1) < 128)
      × (0 < n)
groups_top m {ptr} (last h) = (0, ap_head ∙ omega arith, omega arith, rw (ap_ptr) h, omega arith)
  where
    ap_ptr : m (ptr + 1 - 1) ≡ m ptr
    ap_ptr = ap m (omega arith)

    ap_head : groups m ptr 1 ≡ m (ptr + 1 - 1)
    ap_head = omega (arith, ap_ptr)
groups_top m {ptr} (more {n = n} h c) =
    let (low, sum, low_lt, top_lt, pos) = groups_top m c in
    let scale : 2 ^ (7 * n) ≡ 128 * 2 ^ (7 * (n - 1)) =
      (let e : n ≡ suc (n - 1) = omega arith in ap (λ (t : ℕ). 2 ^ (7 * t)) e ∙ pow_next (n - 1)) in
    let where_top : m (ptr + 1 + n - 1) ≡ m (ptr + suc n - 1) = ap m (omega arith) in
    let exponent : 2 ^ (7 * (suc n - 1)) ≡ 2 ^ (7 * n) =
      ap (λ (t : ℕ). 2 ^ (7 * t)) (omega arith) in
    (
      m ptr % 128 + 128 * low,
      rw (exponent, ← where_top)
          (omega (arith, sum, ap (λ (t : ℕ). m (ptr + 1 + n - 1) * t) scale)),
      omega (arith, scale, exponent),
      rw (← where_top) top_lt,
      omega arith,
    )

sign_clear : (b : ℕ) → b < 64 → (bit_and b 0x40 == 0) ≡ true
sign_clear b h = ground (arith, bit_and_sign b (omega arith))

sign_set : (b : ℕ) → 64 ≤ b → b < 128 → (bit_and b 0x40 == 0) ≡ false
sign_set b h k = ground (arith, bit_and_sign b (omega arith))

top_group_lt : (b q low : ℕ) → low < q → b < 64 → low + b * q < 64 * q
top_group_lt b q low h k = let le : b * q ≤ 63 * q = mono b k in omega arith
  where
    mono : (c : ℕ) → c < 64 → c * q ≤ 63 * q
    mono c k = grind arith

top_group_le : (b q low : ℕ) → 64 ≤ b → 64 * q ≤ low + b * q
top_group_le b q low k = let le : 64 * q ≤ b * q = mono b k in omega arith
  where
    mono : (c : ℕ) → 64 ≤ c → 64 * q ≤ c * q
    mono c k = grind arith

sign_extend-widen :
    (m : Memory) {ptr n : ℕ}
    → Chain m ptr n
    → n ≤ 9
    → sign_extend (at_round (groups m ptr n % u64_mod) (7 * n) (m (ptr + n - 1)) (ptr + n))
      ≡ widen (7 * n) (groups m ptr n)
unfolding sign_extend
sign_extend-widen m {ptr} {n} c hn =
    let (low, sum, low_lt, top_lt, pos) = groups_top m c in
    let (ones, upper, double, top, fits) = upper_ones n pos hn in
    let cut : groups m ptr n % u64_mod ≡ groups m ptr n = omega (arith, groups-lt m ptr n, fits) in
    rw (lt→ltb (7 * n) 64 (omega arith)) (
      rw cut (elim (dec_lt (m (ptr + n - 1)) 64) [
        | yes low_sign ↦ rw (
          sign_clear _ low_sign,
          lt→ltb (groups m ptr n) (2 ^ (7 * n - 1))
              (rw (sum, top) (top_group_lt _ _ low low_lt low_sign)),
        )
        | no high_sign ↦
            rw
              (
                sign_set (m (ptr + n - 1)) (omega arith) top_lt,
                le→ltb (groups m ptr n) (2 ^ (7 * n - 1))
                    (rw (sum, top) (top_group_le _ _ low (omega arith))),
                upper,
              )
              (bit_or_shifted (7 * n) (groups m ptr n) ones (groups-lt m ptr n))
      ]))

-- `ReadSLEB128` on a whole number of `n` bytes, at most nine: the 7 n bits, sign extended.
pub read_sleb128-Chain :
    (m : Memory) (end : ℕ) {ptr n : ℕ}
    → Chain m ptr n
    → IsBytes m
    → n ≤ 9
    → ptr + n ≤ end
    → read_sleb128 m ptr end ≡ (widen (7 * n) (groups m ptr n), ptr + n)
unfolding read_sleb128
read_sleb128-Chain m end {ptr} {n} c bytes hn he =
    let e =
      sleb_loop-Chain 10 m end 0 0 0 0 c bytes (omega arith) refl refl he
        (omega arith, λ _. omega arith) in
    let value : sleb_loop 10 m end (at_round 0 0 0 ptr)
        ≡ at_round (groups m ptr n % u64_mod) (7 * n) (m (ptr + n - 1)) (ptr + n) =
      e
      ∙ at_round_eq {result' = groups m ptr n % u64_mod} {shift' = 7 * n} (omega arith)
          (omega arith) refl refl in
    rw value (rw (sign_extend-widen m c hn))
