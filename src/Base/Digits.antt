-- ===== src/Base/Digits.antt =====
-- The binary digits of a number, and those of `|`, `&`, shifts and masks.
use Prim.Native.Nat.{
  ℕ, zero, suc, ◌+◌, ◌-◌, ◌*◌, ◌/◌, ◌%◌, ◌^◌, ◌≤◌, ◌<◌, min, max, bit_and, bit_or, digits,
  bit_and-bitwise,
}
use mathlib.Core.Path.{◌≡◌, refl, sym, ap, ◌∙◌}
use native.Mathlib.Nat.{
  div-div-eq-div-mul, div-eq_of_lt, pow-le-pow_right, div-add-mod, mod-lt, one-le-pow,
}
use native.Mathlib.Decide.{dec_lt}
use native.Mathlib.Omega.{arith}
use open_core_analysis_kit.Base.Bits.{bit_or_halves, bit_or_shifted, pow_double}

abbrev pub digit : ℕ → ℕ → ℕ
digit x i = x / 2 ^ i % 2

pub digit-suc : (x i : ℕ) → digit x (suc i) ≡ digit (x / 2) i
digit-suc x i =
    let half : x / 2 / 2 ^ i ≡ x / 2 ^ suc i =
      div-div-eq-div-mul x 2 (2 ^ i) ∙ ap (λ d. x / d) (sym (pow_double i)) in
    ap (λ q. q % 2) (sym half)

pub digit-zero : (x : ℕ) → digit x 0 ≡ x % 2
digit-zero x = omega arith

pub digit-bit_or : (i x y : ℕ) → digit (bit_or x y) i ≡ max (digit x i) (digit y i)
digit-bit_or zero x y =
    omega (arith, bit_or_halves x y, digit-zero x, digit-zero y, digit-zero (bit_or x y))
digit-bit_or (suc i) x y =
    let half : bit_or x y / 2 ≡ bit_or (x / 2) (y / 2) = omega (arith, bit_or_halves x y) in
    digit-suc (bit_or x y) i
    ∙ ap (λ h. digit h i) half
    ∙ digit-bit_or i (x / 2) (y / 2)
    ∙ ap (λ d. max d (digit (y / 2) i)) (sym (digit-suc x i))
    ∙ ap (λ d. max (digit x (suc i)) d) (sym (digit-suc y i))

-- `&` digit by digit, with the number of digits as fuel.
abbrev and_with : ℕ → ℕ → ℕ → ℕ
and_with fuel x y = digits (λ rest. 0) min fuel x y

and_with_next : (fuel x y : ℕ) → x ≤ fuel → and_with (suc fuel) x y ≡ and_with fuel x y
and_with_next (suc fuel) (suc x) y h =
    omega (arith, and_with_next fuel (suc x / 2) (y / 2) (omega arith))
and_with_next (suc fuel) zero y h = refl
and_with_next zero (suc x) y h = absurd (omega arith)
and_with_next zero zero y h = refl

and_with_enough : (fuel x y : ℕ) → x ≤ fuel → and_with fuel x y ≡ and_with x x y
and_with_enough zero x y h = let none_left : x ≡ 0 = omega arith in rw none_left refl
and_with_enough (suc fuel) x y h = elim (dec_lt fuel x) [
  | yes all ↦ let full : x ≡ suc fuel = omega arith in rw full refl
  | no spare ↦ and_with_next fuel x y (omega arith) ∙ and_with_enough fuel x y (omega arith)
]

bit_and_halves : (x y : ℕ) → bit_and x y ≡ 2 * bit_and (x / 2) (y / 2) + min (x % 2) (y % 2)
bit_and_halves zero y = omega (arith, bit_and-bitwise 0 y, bit_and-bitwise 0 (y / 2))
bit_and_halves (suc x) y =
    let whole = bit_and-bitwise (suc x) y in
    let half = bit_and-bitwise (suc x / 2) (y / 2) in
    let fuel = and_with_enough x (suc x / 2) (y / 2) (omega arith) in
    omega (arith, whole, half, fuel)

pub digit-bit_and : (i x y : ℕ) → digit (bit_and x y) i ≡ min (digit x i) (digit y i)
digit-bit_and zero x y =
    omega (arith, bit_and_halves x y, digit-zero x, digit-zero y, digit-zero (bit_and x y))
digit-bit_and (suc i) x y =
    let half : bit_and x y / 2 ≡ bit_and (x / 2) (y / 2) = omega (arith, bit_and_halves x y) in
    digit-suc (bit_and x y) i
    ∙ ap (λ h. digit h i) half
    ∙ digit-bit_and i (x / 2) (y / 2)
    ∙ ap (λ d. min d (digit (y / 2) i)) (sym (digit-suc x i))
    ∙ ap (λ d. min (digit x (suc i)) d) (sym (digit-suc y i))

-- `>> s`.
pub digit-shift_right : (s i x : ℕ) → digit (x / 2 ^ s) i ≡ digit x (s + i)
digit-shift_right zero i x =
    let whole : x / 2 ^ 0 ≡ x = omega arith in
    let none_shifted : 0 + i ≡ i = omega arith in rw (whole, none_shifted) refl
digit-shift_right (suc s) i x =
    let half : x / 2 ^ suc s ≡ x / 2 / 2 ^ s =
      ap (λ d. x / d) (pow_double s) ∙ sym (div-div-eq-div-mul x 2 (2 ^ s)) in
    let next : suc s + i ≡ suc (s + i) = omega arith in
    rw (half, next) (digit-shift_right s i (x / 2) ∙ sym (digit-suc x (s + i)))

-- `<< k`.
pub digit-shift_left : (k i x : ℕ) → digit (x * 2 ^ k) (k + i) ≡ digit x i
digit-shift_left zero i x =
    let whole : x * 2 ^ 0 ≡ x = omega arith in
    let none_shifted : 0 + i ≡ i = omega arith in rw (whole, none_shifted) refl
digit-shift_left (suc k) i x =
    let half : x * 2 ^ suc k / 2 ≡ x * 2 ^ k = shifted_half k x in
    let next : suc k + i ≡ suc (k + i) = omega arith in
    rw next
      (digit-suc (x * 2 ^ suc k) (k + i) ∙ ap (λ h. digit h (k + i)) half ∙ digit-shift_left k i x)
  where
    shifted_half : (k x : ℕ) → x * 2 ^ suc k / 2 ≡ x * 2 ^ k
    shifted_half k x =
        let twice : x * 2 ^ suc k ≡ 2 * (x * 2 ^ k) = rw (pow_double k) (omega arith) in
        omega (arith, twice)

pub digit-shift_low : (k i x : ℕ) → i < k → digit (x * 2 ^ k) i ≡ 0
digit-shift_low zero i x h = absurd (omega arith)
digit-shift_low (suc k) zero x h =
    let twice : x * 2 ^ suc k ≡ 2 * (x * 2 ^ k) = rw (pow_double k) (omega arith) in
    digit-zero (x * 2 ^ suc k) ∙ omega (arith, twice)
digit-shift_low (suc k) (suc i) x h =
    let twice : x * 2 ^ suc k ≡ 2 * (x * 2 ^ k) = rw (pow_double k) (omega arith) in
    let half : x * 2 ^ suc k / 2 ≡ x * 2 ^ k = omega (arith, twice) in
    digit-suc (x * 2 ^ suc k) i ∙ ap (λ h'. digit h' i) half ∙ digit-shift_low k i x (omega arith)

pub digit-above : (n i x : ℕ) → x < 2 ^ n → n ≤ i → digit x i ≡ 0
digit-above n i x h k =
    let more : 2 ^ n ≤ 2 ^ i = pow-le-pow_right (omega arith) k in
    ap (λ q. q % 2) (div-eq_of_lt (omega (arith, more)))

-- A number below 2 ^ n and one shifted by n.
pub digit-low : (n i a b : ℕ) → a < 2 ^ n → i < n → digit (a + b * 2 ^ n) i ≡ digit a i
digit-low n i a b h k =
    ap (λ s. digit s i) (sym (bit_or_shifted n a b h))
    ∙ digit-bit_or i a (b * 2 ^ n)
    ∙ omega (arith, digit-shift_low n i b k)

pub digit-high : (n i a b : ℕ) → a < 2 ^ n → digit (a + b * 2 ^ n) (n + i) ≡ digit b i
digit-high n i a b h =
    ap (λ s. digit s (n + i)) (sym (bit_or_shifted n a b h))
    ∙ digit-bit_or (n + i) a (b * 2 ^ n)
    ∙ omega (arith, digit-shift_left n i b, digit-above n (n + i) a h (omega arith))

-- `% 2 ^ n` keeps the low digits.
pub digit-mod : (n i x : ℕ) → i < n → digit (x % 2 ^ n) i ≡ digit x i
digit-mod n i x h =
    let small : x % 2 ^ n < 2 ^ n = mod-lt x (one-le-pow n 2 (omega arith)) in
    let whole : x % 2 ^ n + x / 2 ^ n * 2 ^ n ≡ x = omega (arith, div-add-mod x (2 ^ n)) in
    sym (digit-low n i (x % 2 ^ n) (x / 2 ^ n) small h) ∙ ap (λ y. digit y i) whole

-- The mask of n digits.
pub digit-mask : (n i : ℕ) → i < n → digit (2 ^ n - 1) i ≡ 1
digit-mask zero i h = absurd (omega arith)
digit-mask (suc n) zero h =
    digit-zero (2 ^ suc n - 1) ∙ omega (arith, pow_double n, one-le-pow n 2 (omega arith))
digit-mask (suc n) (suc i) h =
    let half : (2 ^ suc n - 1) / 2 ≡ 2 ^ n - 1 =
      omega (arith, pow_double n, one-le-pow n 2 (omega arith)) in
    digit-suc (2 ^ suc n - 1) i ∙ ap (λ x. digit x i) half ∙ digit-mask n i (omega arith)

pub digit-le : (x i : ℕ) → digit x i ≤ 1
digit-le x i = omega arith

and_with-le : (n a b : ℕ) → and_with n a b ≤ b
and_with-le zero a b = omega arith
and_with-le (suc n) zero b = omega arith
and_with-le (suc n) (suc a) b = omega (arith, and_with-le n (suc a / 2) (b / 2))

pub bit_and-le_right : (a b : ℕ) → bit_and a b ≤ b
bit_and-le_right a b = omega (arith, bit_and-bitwise a b, and_with-le a a b)

pub bit_and-one : (x : ℕ) → bit_and x 1 ≡ x % 2
bit_and-one x = omega (arith, bit_and_halves x 1, bit_and-le_right (x / 2) 0)

-- A mask that is wide enough.
pub bit_and-mask : (n x : ℕ) → x < 2 ^ n → bit_and x (2 ^ n - 1) ≡ x
bit_and-mask zero x h = omega (arith, bit_and-le_right x 0)
bit_and-mask (suc n) x h =
    let pos = one-le-pow n 2 (omega arith) in
    let half : (2 ^ suc n - 1) / 2 ≡ 2 ^ n - 1 = omega (arith, pow_double n, pos) in
    let rest : bit_and (x / 2) ((2 ^ suc n - 1) / 2) ≡ x / 2 =
      rw half (bit_and-mask n (x / 2) (omega (arith, pow_double n))) in
    omega (arith, bit_and_halves x (2 ^ suc n - 1), rest, pow_double n, pos)

pub shift_right-lt : (s n x : ℕ) → x < 2 ^ (s + n) → x / 2 ^ s < 2 ^ n
shift_right-lt zero n x h =
    let whole : x / 2 ^ 0 ≡ x = omega arith in
    let exponent : 0 + n ≡ n = omega arith in rw whole (rw exponent at h)
shift_right-lt (suc s) n x h =
    let half : x / 2 ^ suc s ≡ x / 2 / 2 ^ s =
      ap (λ d. x / d) (pow_double s) ∙ sym (div-div-eq-div-mul x 2 (2 ^ s)) in
    let exponent : suc s + n ≡ suc (s + n) = omega arith in
    let bound : x < 2 ^ suc (s + n) = (rw exponent at h) in
    rw half (shift_right-lt s n (x / 2) (omega (arith, pow_double (s + n))))
