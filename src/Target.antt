-- ===== src/Target.antt =====
-- The memory of the target as the readers of core/api/memory_ref.h see it: `n` bytes at an offset
-- from an object, or an exception.
use open_core_analysis_kit.Base.{ℕ, ◌*◌, ◌^◌, ◌≤◌, ◌<◌, ◌≡◌, bit_and, Option, some}
use mathlib.Core.Option
use mathlib.Core.Option.{none, some}

pub record Target : Type 0 where
  pub load : (vaddr offset n : ℕ) → Option ℕ
  pub small : (vaddr offset n : ℕ) {v : ℕ} → n ≤ 8 → load vaddr offset n ≡ some v → v < 2 ^ (8 * n)
  pub point_mask : ℕ

-- `valueOf(offset)` and `VALUEOF`: eight bytes under the pointer mask.
abbrev pub word : Target → ℕ → ℕ → Option ℕ
word t vaddr offset = Option.map (λ v. bit_and v t.point_mask) (t.load vaddr offset 8)

-- What a search in target memory comes to: an exception, no object, an object, or no end.
pub data Sought : Type 0 where
  invalid : Sought
  absent : Sought
  found : ℕ → Sought
  endless : Sought

-- What code that reads target memory comes to: an exception, no end, or a value.
pub data Run {ℓ} (A : Type ℓ) : Type ℓ where
  threw running : Run A
  done : A → Run A

infixl 5 ◌>>=◌
abbrev pub ◌>>=◌ {ℓ κ} : {A : Type ℓ} {B : Type κ} → Run A → (A → Run B) → Run B
threw >>= f = threw
running >>= f = running
done a >>= f = f a

abbrev pub fetch {ℓ} : {A : Type ℓ} → Option A → Run A
fetch none = threw
fetch (some a) = done a
