-- ===== src/Dwarf/Leb/Chain.antt =====
-- The LEB128 readers on a complete number: the bytes up to the first one without its top bit.
use open_core_analysis_kit.Base.{
  ℕ, zero, suc, ◌+◌, ◌*◌, ◌%◌, ◌^◌, ◌≤◌, ◌<◌, ◌≡◌, refl, ap, lt→ltb, ◌==◌, ◌∙◌, bit_and, Memory,
  IsBytes, u64_mod, arith, true, false,
}
use open_core_analysis_kit.Base.Bits.{bit_and_top}
use open_core_analysis_kit.Dwarf.Leb.{or_group, uleb_loop, read_uleb128}
use open_core_analysis_kit.Dwarf.Leb.Value.{
  groups, or_group_sum, Partial, or_group-Partial, pow_next,
}

-- `n` bytes at `ptr`, all with the top bit set but the last.
pub data Chain (m : Memory) : ℕ → ℕ → Type 0 where
  last : {ptr : ℕ} → m ptr < 128 → Chain m ptr 1
  more : {ptr n : ℕ} → 128 ≤ m ptr → Chain m (ptr + 1) n → Chain m ptr (suc n)

pub top_clear : (b : ℕ) → b < 128 → (bit_and b 0x80 == 0) ≡ true
top_clear b h = ground (arith, bit_and_top b (omega arith))

pub top_set : (b : ℕ) → b < 256 → 128 ≤ b → (bit_and b 0x80 == 0) ≡ false
top_set b hb h = ground (arith, bit_and_top b hb)

-- One group in front of a number, at round `j`.
pub groups_front :
    (m : Memory) (ptr n j result : ℕ)
    → IsBytes m
    → j ≤ 9
    → result < 2 ^ (7 * j)
    → (or_group result (m ptr) (7 * j) + groups m (ptr + 1) n * 2 ^ (7 * suc j)) % u64_mod
      ≡ (result + groups m ptr (suc n) * 2 ^ (7 * j)) % u64_mod
groups_front m ptr n j result bytes hj hr = omega (
  arith,
  or_group_sum result (m ptr) j hj (bytes ptr) hr,
  ap (λ (t : ℕ). groups m (ptr + 1) n * t) (pow_next j),
)

pub pair_eq : {a b c d : ℕ} → a ≡ c → b ≡ d → (let r : ℕ × ℕ = (a, b) in r) ≡ (c, d)
pair_eq p q = cc

uleb_loop-Chain :
    (fuel : ℕ) (m : Memory) (end : ℕ) {ptr n : ℕ} (result shift j : ℕ)
    → Chain m ptr n
    → IsBytes m
    → n ≤ fuel
    → fuel + j ≡ 10
    → 7 * j ≡ shift
    → ptr + n ≤ end
    → Partial j result
    → uleb_loop fuel m end ptr result shift
      ≡ ((result + groups m ptr n * 2 ^ (7 * j)) % u64_mod, ptr + n)
unfolding uleb_loop
uleb_loop-Chain zero m end result shift j (last h) bytes hn hf hs he hr = absurd (omega arith)
uleb_loop-Chain zero m end result shift j (more h c) bytes hn hf hs he hr = absurd (omega arith)
uleb_loop-Chain (suc fuel) m end {ptr} result shift j (last h) bytes hn hf hs he hr = rw (← hs) (
    rw (lt→ltb ptr end (omega arith), lt→ltb (7 * j) 64 (omega arith), top_clear _ h)
      (pair_eq
        (or_group_sum result (m ptr) j (omega arith) (bytes ptr) (hr.1 (omega arith)) ∙ omega arith)
        refl))
uleb_loop-Chain (suc fuel) m end {ptr} result shift j (more {n = n} h c) bytes hn hf hs he hr =
    rw (← hs) (
      rw (lt→ltb ptr end (omega arith), lt→ltb (7 * j) 64 (omega arith), top_set _ (bytes ptr) h)
        (uleb_loop-Chain fuel m end (or_group result (m ptr) (7 * j)) (7 * j + 7) (suc j) c bytes
            (omega arith) (omega arith) (omega arith) (omega arith)
            (or_group-Partial result (m ptr) j (omega arith) (bytes ptr) hr)
          ∙ pair_eq (groups_front m ptr n j result bytes (omega arith) (hr.1 (omega arith)))
              (omega arith)))

-- `ReadULEB128` takes a whole number of at most ten bytes, and returns its groups modulo 2 ^ 64.
pub read_uleb128-Chain :
    (m : Memory) (end : ℕ) {ptr n : ℕ}
    → Chain m ptr n
    → IsBytes m
    → n ≤ 10
    → ptr + n ≤ end
    → read_uleb128 m ptr end ≡ (groups m ptr n % u64_mod, ptr + n)
unfolding read_uleb128
read_uleb128-Chain m end {ptr} {n} c bytes hn he =
    uleb_loop-Chain 10 m end 0 0 0 c bytes hn refl refl he (omega arith, λ _. omega arith)
    ∙ pair_eq (omega arith) refl
