-- ===== src/Dwarf/Text/Bytes.antt =====
-- The little-endian reads of core/api/dwarf.cpp as sums.
use open_core_analysis_kit.Base.{
  ℕ, zero, suc, ◌+◌, ◌*◌, ◌%◌, ◌^◌, ◌≤◌, ◌<◌, ◌≡◌, refl, Memory, IsBytes, u64_mod, arith,
}
use open_core_analysis_kit.Base.Bits.{bit_or_shifted}
use open_core_analysis_kit.Dwarf.Text.{le_bytes}
use native.Mathlib.Numerals.{towards_suc}

-- The number whose digits to the base 256 are the bytes at `p`, lowest first.
abbrev pub le_sum : Memory → ℕ → ℕ → ℕ
le_sum m p zero = 0
le_sum m p (suc n) = le_sum m p n + m (p + n) * 2 ^ (8 * n)

byte_fits : (k b : ℕ) → k ≤ 7 → b < 256 → b * 2 ^ (8 * k) % u64_mod ≡ b * 2 ^ (8 * k)
byte_fits zero b h k = omega arith
byte_fits (suc zero) b h k = omega arith
byte_fits (suc (suc zero)) b h k = omega arith
byte_fits (suc (suc (suc zero))) b h k = omega arith
byte_fits (suc (suc (suc (suc zero)))) b h k = omega arith
byte_fits (suc (suc (suc (suc (suc zero))))) b h k = omega arith
byte_fits (suc (suc (suc (suc (suc (suc zero)))))) b h k = omega arith
byte_fits (suc (suc (suc (suc (suc (suc (suc zero))))))) b h k = omega arith
byte_fits (suc (suc (suc (suc (suc (suc (suc (suc j)))))))) b h k = absurd (omega arith)

pow_byte : (n : ℕ) → 2 ^ (8 * suc n) ≡ 256 * 2 ^ (8 * n)
pow_byte n = let e : 8 * suc n ≡ 8 * n + 8 = omega arith in rw e (simp towards_suc (omega arith))

byte_mono : (b q : ℕ) → b < 256 → b * q ≤ 255 * q
byte_mono b q h = grind arith

pub le_sum-lt : (m : Memory) (p n : ℕ) → IsBytes m → le_sum m p n < 2 ^ (8 * n)
le_sum-lt m p zero bytes = omega arith
le_sum-lt m p (suc n) bytes =
    omega (
      arith,
      le_sum-lt m p n bytes,
      pow_byte n,
      byte_mono (m (p + n)) (2 ^ (8 * n)) (bytes (p + n)),
    )

-- Up to eight bytes, joined by shifts and `|`, are their sum.
pub le_bytes-le_sum : (m : Memory) (p n : ℕ) → IsBytes m → n ≤ 8 → le_bytes m p n ≡ le_sum m p n
unfolding le_bytes
le_bytes-le_sum m p zero bytes h = refl
le_bytes-le_sum m p (suc n) bytes h = rw (byte_fits n (m (p + n)) (omega arith) (bytes (p + n))) (
    rw (le_bytes-le_sum m p n bytes (omega arith))
      (bit_or_shifted (8 * n) (le_sum m p n) (m (p + n)) (le_sum-lt m p n bytes)))
