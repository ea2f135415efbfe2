-- ===== src/Dwarf/Attr/Forward.antt =====
-- `ReadAttrValue` moves forward, except where the length of an expression wraps round.
use open_core_analysis_kit.Base.{
  ℕ, zero, suc, ◌+◌, ◌-◌, ◌*◌, ◌^◌, ◌≤◌, ◌<◌, ◌≡◌, refl, ltb, leb, ◌==◌, ◌||◌, Bool, true, false,
  Option, none, some, Memory, IsBytes, add64, u64_mod, arith, Bool-cases, inl, inr, ltb→le,
}
use open_core_analysis_kit.Dwarf.Text.Bytes.{le_sum-lt, le_bytes-le_sum}
use native.Mathlib.Nat.{le_refl}
use open_core_analysis_kit.Dwarf.Leb.{read_uleb128, read_sleb128}
use open_core_analysis_kit.Dwarf.Leb.Value.{read_uleb128-groups, read_sleb128-ptr}
use open_core_analysis_kit.Dwarf.Types.{Form, form_of}
use open_core_analysis_kit.Dwarf.Text.{le_bytes, scan_nul}
use open_core_analysis_kit.Dwarf.Attr.{
  parse_exprloc, Request, Attr, valued, read_fixed, skip_fixed, read_strx, read_strx_fixed,
  read_string, offset_size, read_strp, read_expr, read_block_fixed, read_block, read_form,
  read_attr_fuel, read_attr_value,
}

-- A pointer that is returned is not before `ptr`.
abbrev pub Onward : ℕ → Option Attr → Type 0
Onward ptr none = Unit
Onward ptr (some a) = ptr ≤ a.ptr

-- A section that does not lie in the last four gigabytes of the address space.
pub record Low (r : Request) : Type 0 where
  pub bytes : IsBytes r.sections.mem
  pub below : r.end + 2 ^ 32 < u64_mod
  pub addr : r.addr_size < 256

-- The forms whose lengths have at most four bytes: not `block`, `exprloc` and `indirect`.
abbrev pub IsPlain : Form → Type 0
IsPlain Form.block = ⊥
IsPlain Form.exprloc = ⊥
IsPlain Form.indirect = ⊥
IsPlain Form.addr = Unit
IsPlain _ = Unit

-- A length of one, two or four bytes.
len_small : (m : Memory) (p n : ℕ) → IsBytes m → n ≤ 4 → le_bytes m p n < 2 ^ 32
len_small m p n bytes h =
    omega (arith, le_bytes-le_sum m p n bytes (omega arith), le_sum-lt m p n bytes, pow_mono n h)
  where
    pow_mono : (k : ℕ) → k ≤ 4 → 2 ^ (8 * k) ≤ 2 ^ 32
    pow_mono zero k = omega arith
    pow_mono (suc zero) k = omega arith
    pow_mono (suc (suc zero)) k = omega arith
    pow_mono (suc (suc (suc zero))) k = omega arith
    pow_mono (suc (suc (suc (suc zero)))) k = omega arith
    pow_mono (suc (suc (suc (suc (suc j))))) k = absurd (omega arith)

scan_nul-le : (fuel : ℕ) (m : Memory) (p end : ℕ) → p ≤ scan_nul fuel m p end
unfolding scan_nul
scan_nul-le zero m p end = omega arith
scan_nul-le (suc fuel) m p end = ground (arith, scan_nul-le fuel m (p + 1) end)

module _ (r : Request) (low : Low r) (ptr : ℕ) (h : ptr ≤ r.end) where
  read_fixed-Onward : (n : ℕ) → n ≤ 256 → Onward ptr (read_fixed r ptr n)
  unfolding read_fixed
  read_fixed-Onward n k = ground (arith, low.below)

  skip_fixed-Onward : (n : ℕ) → n ≤ 256 → Onward ptr (skip_fixed r ptr n)
  unfolding skip_fixed
  skip_fixed-Onward n k = ground (arith, low.below)

  read_strx_fixed-Onward : (n : ℕ) → n ≤ 256 → Onward ptr (read_strx_fixed r ptr n)
  unfolding read_strx_fixed
  read_strx_fixed-Onward n k = ground (arith, low.below)

  read_strp-Onward : (lookup : Bool) → Onward ptr (read_strp r ptr lookup)
  unfolding read_strp offset_size
  read_strp-Onward lookup = ground (arith, low.below)

  offset_size-le : offset_size r ≤ 256
  unfolding offset_size
  offset_size-le = ground arith

  read_string-Onward : Onward ptr (read_string r ptr)
  unfolding read_string
  read_string-Onward = ground (arith, scan_nul-le (r.end - ptr) r.sections.mem ptr r.end)

  read_expr-Onward : (len : ℕ) → len < 2 ^ 32 → Onward ptr (read_expr r ptr len)
  unfolding read_expr
  read_expr-Onward len k = ground (arith, low.below)

  uleb_onward : ptr ≤ (read_uleb128 r.sections.mem ptr r.end).1
  uleb_onward =
      let (n, count, le, ten, moves, value) =
        read_uleb128-groups r.sections.mem ptr r.end low.bytes h in
      omega (arith, count)

  sleb_onward : ptr ≤ (read_sleb128 r.sections.mem ptr r.end).1
  sleb_onward = rw (read_sleb128-ptr r.sections.mem ptr r.end) uleb_onward

-- `Onward` from a later pointer.
Onward-le : (p q : ℕ) (o : Option Attr) → p ≤ q → Onward q o → Onward p o
Onward-le p q none h k = tt
Onward-le p q (some a) h k = omega arith

module _ (r : Request) (low : Low r) (ptr : ℕ) (h : ptr ≤ r.end) where
  read_block_fixed-Onward : (n : ℕ) → n ≤ 4 → Onward ptr (read_block_fixed r ptr n)
  unfolding read_block_fixed
  read_block_fixed-Onward n k = elim (Bool-cases (ltb r.end (add64 ptr n))) [
    | inl out ↦ rw out tt
    | inr in' ↦ rw in' (
        Onward-le ptr (add64 ptr n) _ (omega (arith, low.below)) (
          read_expr-Onward r low (add64 ptr n) (ltb→le r.end (add64 ptr n) in')
            (le_bytes r.sections.mem ptr n) (len_small r.sections.mem ptr n low.bytes k)))
  ]

  read_form-Onward :
      (again : ℕ → ℕ → Option Attr) (form : Form)
      → IsPlain form
      → Onward ptr (read_form again r ptr form)
  unfolding read_form
  read_form-Onward again Form.block plain = absurd plain
  read_form-Onward again Form.exprloc plain = absurd plain
  read_form-Onward again Form.indirect plain = absurd plain
  read_form-Onward again Form.addr plain =
      read_fixed-Onward r low ptr h r.addr_size (omega (arith, low.addr))
  read_form-Onward again Form.strx plain = unfold read_strx in uleb_onward r low ptr h
  read_form-Onward again Form.unknown plain = tt
  read_form-Onward again Form.implicit_const plain = le_refl ptr
  read_form-Onward again Form.flag_present plain = le_refl ptr
  read_form-Onward again Form.sdata plain = sleb_onward r low ptr h
  read_form-Onward again _ plain = assumption (
    uleb_onward r low ptr h,
    read_fixed-Onward r low ptr h 1 (omega arith),
    read_fixed-Onward r low ptr h 2 (omega arith),
    read_fixed-Onward r low ptr h 4 (omega arith),
    read_fixed-Onward r low ptr h 8 (omega arith),
    read_fixed-Onward r low ptr h (offset_size r) (offset_size-le r low ptr h),
    skip_fixed-Onward r low ptr h 1 (omega arith),
    skip_fixed-Onward r low ptr h 2 (omega arith),
    skip_fixed-Onward r low ptr h 3 (omega arith),
    skip_fixed-Onward r low ptr h 4 (omega arith),
    skip_fixed-Onward r low ptr h 16 (omega arith),
    read_strx_fixed-Onward r low ptr h 1 (omega arith),
    read_strx_fixed-Onward r low ptr h 2 (omega arith),
    read_strx_fixed-Onward r low ptr h 3 (omega arith),
    read_strx_fixed-Onward r low ptr h 4 (omega arith),
    read_string-Onward r low ptr h,
    read_strp-Onward r low ptr h true,
    read_strp-Onward r low ptr h false,
    read_block_fixed-Onward 1 (omega arith),
    read_block_fixed-Onward 2 (omega arith),
    read_block_fixed-Onward 4 (omega arith),
  )

-- For every form but `block`, `exprloc` and `indirect`, in a section that ends 4 GiB below the top
-- of the address space: the pointer does not move back.
pub read_attr_value-Onward :
    (r : Request) (ptr form : ℕ)
    → Low r
    → IsPlain (form_of form)
    → Onward ptr (read_attr_value r ptr form)
unfolding read_attr_value read_attr_fuel
read_attr_value-Onward r ptr form low plain = elim (Bool-cases (ptr == 0 || leb r.end ptr)) [
  | inl stop ↦ rw stop tt
  | inr go ↦ rw go (
      read_form-Onward r low ptr (ground arith) (read_attr_fuel (r.end - ptr) r) (form_of form)
        plain)
]

-- The expression behind a length that was read.
read_block-read_expr :
    (r : Request) (ptr len p : ℕ)
    → read_uleb128 r.sections.mem ptr r.end ≡ (len, p)
    → read_block r ptr ≡ read_expr r p len
unfolding read_block
read_block-read_expr r ptr len p e = rw e refl

read_expr_room :
    (r : Request) (p len : ℕ)
    → add64 p len ≤ r.end
    → read_expr r p len ≡ some (valued r (add64 p len) (parse_exprloc r.sections.mem p len))
unfolding read_expr
read_expr_room r p len h = ground arith

-- An expression whose length takes the pointer past 2 ^ 64: the bound is met by the wrapped sum,
-- and the pointer that is returned lies before the expression.
pub exprloc_wraps :
    (r : Request) (ptr len p : ℕ)
    → 0 < ptr
    → ptr < r.end
    → read_uleb128 r.sections.mem ptr r.end ≡ (len, p)
    → p < u64_mod
    → len < u64_mod
    → u64_mod ≤ p + len
    → p + len ≤ r.end + u64_mod
    → (a : Attr) × (read_attr_value r ptr 0x18 ≡ some a) × (a.ptr < p)
unfolding read_attr_value read_attr_fuel read_form form_of
exprloc_wraps r ptr len p pos lt e hp hl wrap fits =
    let go : (ptr == 0 || leb r.end ptr) ≡ false = ground arith in
    let small : add64 p len ≤ r.end = omega arith in
    (
      valued r (add64 p len) (parse_exprloc r.sections.mem p len),
      rw (go, read_block-read_expr r ptr len p e) (read_expr_room r p len small),
      omega arith,
    )
