-- ===== src/Dwarf/Attr/Bounds.antt =====
-- Where `ReadAttrValue` leaves the pointer.
use open_core_analysis_kit.Base.{
  ℕ, zero, suc, ◌≤◌, leb, ◌==◌, ◌||◌, Bool, true, false, Option, none, some, Memory, IsBytes, add64,
  arith, Bool-cases, inl, inr,
}
use open_core_analysis_kit.Dwarf.Leb.{read_uleb128, read_sleb128}
use open_core_analysis_kit.Dwarf.Leb.Value.{read_uleb128-groups, read_sleb128-ptr}
use open_core_analysis_kit.Dwarf.Types.{Form, form_of}
use open_core_analysis_kit.Dwarf.Text.{le_bytes}
use open_core_analysis_kit.Dwarf.Attr.{
  Request, Attr, read_fixed, skip_fixed, read_strx, read_strx_fixed, read_string, offset_size,
  read_strp, read_expr, read_block_fixed, read_block, read_form, read_attr_fuel, read_attr_value,
}

-- A pointer that is returned is not past the end.
abbrev pub Inside : ℕ → Option Attr → Type 0
Inside end none = Unit
Inside end (some a) = a.ptr ≤ end

module _ (r : Request) (ptr : ℕ) where
  read_fixed-Inside : (n : ℕ) → Inside r.end (read_fixed r ptr n)
  unfolding read_fixed
  read_fixed-Inside n = ground arith

  skip_fixed-Inside : (n : ℕ) → Inside r.end (skip_fixed r ptr n)
  unfolding skip_fixed
  skip_fixed-Inside n = ground arith

  read_strx_fixed-Inside : (n : ℕ) → Inside r.end (read_strx_fixed r ptr n)
  unfolding read_strx_fixed
  read_strx_fixed-Inside n = ground arith

  read_strp-Inside : (lookup : Bool) → Inside r.end (read_strp r ptr lookup)
  unfolding read_strp
  read_strp-Inside lookup = ground arith

  read_expr-Inside : (len : ℕ) → Inside r.end (read_expr r ptr len)
  unfolding read_expr
  read_expr-Inside n = ground arith

  read_string-Inside : Inside r.end (read_string r ptr)
  unfolding read_string
  read_string-Inside = ground arith

read_block_fixed-Inside : (r : Request) (ptr n : ℕ) → Inside r.end (read_block_fixed r ptr n)
unfolding read_block_fixed
read_block_fixed-Inside r ptr n =
    ground (arith, read_expr-Inside r (add64 ptr n) (le_bytes r.sections.mem ptr n))

read_block-Inside : (r : Request) (ptr : ℕ) → Inside r.end (read_block r ptr)
unfolding read_block
read_block-Inside r ptr = read_expr-Inside r _ _

uleb_inside : (m : Memory) (ptr end : ℕ) → IsBytes m → ptr ≤ end → (read_uleb128 m ptr end).1 ≤ end
uleb_inside m ptr end bytes h =
    let (n, count, le, ten, moves, value) = read_uleb128-groups m ptr end bytes h in
    omega (arith, count, le)

sleb_inside : (m : Memory) (ptr end : ℕ) → IsBytes m → ptr ≤ end → (read_sleb128 m ptr end).1 ≤ end
sleb_inside m ptr end bytes h = rw (read_sleb128-ptr m ptr end) (uleb_inside m ptr end bytes h)

read_form-Inside :
    (again : ℕ → ℕ → Option Attr) (r : Request) (ptr : ℕ) (form : Form)
    → IsBytes r.sections.mem
    → ptr ≤ r.end
    → ((p f : ℕ) → p ≤ r.end → Inside r.end (again p f))
    → Inside r.end (read_form again r ptr form)
unfolding read_form
read_form-Inside again r ptr Form.addr bytes h rec = read_fixed-Inside r ptr r.addr_size
read_form-Inside again r ptr Form.indirect bytes h rec =
    rec _ _ (uleb_inside r.sections.mem ptr r.end bytes h)
read_form-Inside again r ptr Form.strx bytes h rec =
    unfold read_strx in uleb_inside r.sections.mem ptr r.end bytes h
read_form-Inside again r ptr Form.unknown bytes h rec = tt
read_form-Inside again r ptr Form.implicit_const bytes h rec = h
read_form-Inside again r ptr Form.flag_present bytes h rec = h
read_form-Inside again r ptr Form.sdata bytes h rec = sleb_inside r.sections.mem ptr r.end bytes h
read_form-Inside again r ptr Form.udata bytes h rec = uleb_inside r.sections.mem ptr r.end bytes h
read_form-Inside again r ptr _ bytes h rec = assumption (
  read_fixed-Inside r ptr 1,
  read_fixed-Inside r ptr 2,
  read_fixed-Inside r ptr 4,
  read_fixed-Inside r ptr 8,
  read_fixed-Inside r ptr (offset_size r),
  skip_fixed-Inside r ptr 1,
  skip_fixed-Inside r ptr 2,
  skip_fixed-Inside r ptr 3,
  skip_fixed-Inside r ptr 4,
  skip_fixed-Inside r ptr 16,
  read_strx_fixed-Inside r ptr 1,
  read_strx_fixed-Inside r ptr 2,
  read_strx_fixed-Inside r ptr 3,
  read_strx_fixed-Inside r ptr 4,
  read_string-Inside r ptr,
  read_strp-Inside r ptr true,
  read_strp-Inside r ptr false,
  read_block_fixed-Inside r ptr 1,
  read_block_fixed-Inside r ptr 2,
  read_block_fixed-Inside r ptr 4,
  read_block-Inside r ptr,
  uleb_inside r.sections.mem ptr r.end bytes h,
)

read_attr_fuel-Inside :
    (fuel : ℕ) (r : Request) (ptr form : ℕ)
    → IsBytes r.sections.mem
    → Inside r.end (read_attr_fuel fuel r ptr form)
unfolding read_attr_fuel
read_attr_fuel-Inside zero r ptr form bytes = tt
read_attr_fuel-Inside (suc fuel) r ptr form bytes = elim (Bool-cases (ptr == 0 || leb r.end ptr)) [
  | inl stop ↦ rw stop tt
  | inr go ↦ rw go (
      read_form-Inside (read_attr_fuel fuel r) r ptr (form_of form) bytes (ground arith)
        (λ p f le. read_attr_fuel-Inside fuel r p f bytes))
]

-- A pointer that `ReadAttrValue` returns is at most `end`, for every form, known or not.
pub read_attr_value-Inside :
    (r : Request) (ptr form : ℕ)
    → IsBytes r.sections.mem
    → Inside r.end (read_attr_value r ptr form)
unfolding read_attr_value
read_attr_value-Inside r ptr form bytes = read_attr_fuel-Inside _ r ptr form bytes
