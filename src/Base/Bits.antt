-- ===== src/Base/Bits.antt =====
-- Bit operations as arithmetic: masks on a byte by table, `|` of disjoint parts for every width.
use Prim.Native.Nat.{
  ℕ, zero, suc, ◌+◌, ◌*◌, ◌/◌, ◌%◌, ◌^◌, ◌≤◌, ◌<◌, max, bit_and, bit_or, digits, bit_or-bitwise,
}
use mathlib.Core.Path.{◌≡◌, refl, ◌∙◌}
use mathlib.Core.Bool.{Bool, true, false}
use mathlib.Core.Logic.{inl, inr}
use native.Mathlib.Decide.{dec_lt}
use native.Mathlib.Omega.{arith}
use open_core_analysis_kit.Base.Tests.{◌==◌, ==_iff, Bool-cases, if◌then◌else◌}

-- Two functions on bytes, compared at every number below a bound.
unfoldable pub same_below : (ℕ → ℕ) → (ℕ → ℕ) → ℕ → Bool
same_below f g zero = true
same_below f g (suc bound) = if f bound == g bound then same_below f g bound else false

pub same_at :
    (f g : ℕ → ℕ) (bound : ℕ) {b : ℕ} → same_below f g bound ≡ true → b < bound → f b ≡ g b
unfolding same_below
same_at f g zero e h = absurd (omega arith)
same_at f g (suc bound) {b} e h = elim (Bool-cases (f bound == g bound)) [
  | inr differ ↦ let impossible : false ≡ true = (rw differ at e) in absurd (ground arith)
  | inl agree ↦ elim (dec_lt b bound) [
    | yes below ↦ same_at f g bound (rw agree at e) below
    | no top ↦ let here : b ≡ bound = omega arith in rw here ((==_iff _ _).0 agree)
  ]
]

low7_bytes : same_below (λ b. bit_and b 0x7f) (λ b. b % 128) 256 ≡ true
unfolding same_below
low7_bytes = refl

top_bytes : same_below (λ b. bit_and b 0x80) (λ b. b / 128 * 128) 256 ≡ true
unfolding same_below
top_bytes = refl

sign_bytes : same_below (λ b. bit_and b 0x40) (λ b. b / 64 % 2 * 64) 256 ≡ true
unfolding same_below
sign_bytes = refl

pub bit_and_low7 : (b : ℕ) → b < 256 → bit_and b 0x7f ≡ b % 128
bit_and_low7 b = same_at _ _ 256 low7_bytes

pub bit_and_top : (b : ℕ) → b < 256 → bit_and b 0x80 ≡ b / 128 * 128
bit_and_top b = same_at _ _ 256 top_bytes

pub bit_and_sign : (b : ℕ) → b < 256 → bit_and b 0x40 ≡ b / 64 % 2 * 64
bit_and_sign b = same_at _ _ 256 sign_bytes

-- `|` digit by digit, with the number of digits as fuel: fuel beyond the number changes nothing.
abbrev or_with : ℕ → ℕ → ℕ → ℕ
or_with fuel x y = digits (λ rest. rest) max fuel x y

or_with_next : (fuel x y : ℕ) → x ≤ fuel → or_with (suc fuel) x y ≡ or_with fuel x y
or_with_next (suc fuel) (suc x) y h =
    omega (arith, or_with_next fuel (suc x / 2) (y / 2) (omega arith))
or_with_next (suc fuel) zero y h = refl
or_with_next zero (suc x) y h = absurd (omega arith)
or_with_next zero zero y h = refl

or_with_enough : (fuel x y : ℕ) → x ≤ fuel → or_with fuel x y ≡ or_with x x y
or_with_enough zero x y h = let none_left : x ≡ 0 = omega arith in rw none_left refl
or_with_enough (suc fuel) x y h = elim (dec_lt fuel x) [
  | yes all ↦ let full : x ≡ suc fuel = omega arith in rw full refl
  | no spare ↦ or_with_next fuel x y (omega arith) ∙ or_with_enough fuel x y (omega arith)
]

pub bit_or_left_zero : (y : ℕ) → bit_or 0 y ≡ y
bit_or_left_zero = bit_or-bitwise 0

-- The lowest digit of `|`, and the rest.
pub bit_or_halves : (x y : ℕ) → bit_or x y ≡ 2 * bit_or (x / 2) (y / 2) + max (x % 2) (y % 2)
bit_or_halves zero y = omega (arith, bit_or_left_zero (y / 2), bit_or_left_zero y)
bit_or_halves (suc x) y =
    let whole = bit_or-bitwise (suc x) y in
    let half = bit_or-bitwise (suc x / 2) (y / 2) in
    let fuel = or_with_enough x (suc x / 2) (y / 2) (omega arith) in
    omega (arith, whole, half, fuel)

pub pow_double : (k : ℕ) → 2 ^ suc k ≡ 2 * 2 ^ k
pow_double k = omega arith

-- `|` of a number below 2 ^ k and one shifted by k is their sum.
pub bit_or_shifted : (k a b : ℕ) → a < 2 ^ k → bit_or a (b * 2 ^ k) ≡ a + b * 2 ^ k
bit_or_shifted zero a b h = omega (arith, ap_zero, bit_or_left_zero (b * 2 ^ 0))
  where
    ap_zero : bit_or a (b * 2 ^ 0) ≡ bit_or 0 (b * 2 ^ 0)
    ap_zero = let e : a ≡ 0 = omega arith in rw e
bit_or_shifted (suc k) a b h =
    let twice : b * 2 ^ suc k ≡ 2 * (b * 2 ^ k) = rw (pow_double k) (omega arith) in
    let half : b * 2 ^ suc k / 2 ≡ b * 2 ^ k = omega (arith, twice) in
    let step = bit_or_halves a (b * 2 ^ suc k) in
    let rest = bit_or_shifted k (a / 2) b (omega (arith, pow_double k)) in
    omega (arith, twice, (rw half at step), rest)
