-- ===== src/Dwarf/Tree/Returns.antt =====
-- The loop of `ParseDIETree` ends where every attribute reader moves forward.
use open_core_analysis_kit.Base.{
  ℕ, zero, suc, ◌+◌, ◌-◌, ◌≤◌, ◌<◌, ◌≡◌, refl, leb, ◌==◌, Option, none, some, List, [], ◌∷◌, All,
  arith, Bool-cases, inl, inr, ◌⊎◌, Option-rule, Option-cases, to_u32,
}
use open_core_analysis_kit.Dwarf.Leb.{read_uleb128}
use open_core_analysis_kit.Dwarf.Leb.Value.{read_uleb128-groups}
use open_core_analysis_kit.Dwarf.Types.{AttrSpec, AbbrevEntry, form_of, form_implicit_const}
use open_core_analysis_kit.Dwarf.Attr.{Request, read_attr_value}
use open_core_analysis_kit.Dwarf.Attr.Forward.{IsPlain, Low, read_attr_value-Onward}
use open_core_analysis_kit.Dwarf.Abbrev.{find, AbbrevTable}
use open_core_analysis_kit.Dwarf.Die.{Die, empty_die, read_attr, read_attrs, Walk}
use open_core_analysis_kit.Dwarf.Tree.{
  Outcome, finished, failed, stuck, pop_scope, read_die, pop_or_finish, enter_die, walk_step,
  walk_loop, parse_die_tree,
}
use open_core_analysis_kit.Dwarf.Tree.Valid.{IsValid}
use open_core_analysis_kit.Dwarf.Tree.Invariant.{OutcomeValid, parse_die_tree-IsValid}

abbrev PlainAttrs : List AttrSpec → Type 0
PlainAttrs attrs = All (λ a. IsPlain (form_of a.form)) attrs

-- A table in which no attribute has a form with a length of more than four bytes.
abbrev pub IsPlainTable : AbbrevTable → Type 0
IsPlainTable table = All (λ e. PlainAttrs e.1.attrs) table

-- A result whose pointer is not before `ptr`.
abbrev Later {ℓ} : {A : Type ℓ} → ℕ → Option (ℕ × A) → Type 0
Later ptr none = Unit
Later ptr (some (p, a)) = ptr ≤ p

find-plain :
    (k : ℕ) (table : AbbrevTable) (a : AbbrevEntry)
    → IsPlainTable table
    → find k table ≡ some a
    → PlainAttrs a.attrs
unfolding find
find-plain k [] a h e = absurd (ground (arith, e))
find-plain k ((j, b) ∷ rest) a (h, hs) e = elim (Bool-cases (j == k)) [
  | inl same ↦ let at : some b ≡ some a = (rw same at e) in let one : b ≡ a = cc in rw (← one) h
  | inr other ↦ find-plain k rest a hs (rw other at e)
]

module _ (r : Request) (low : Low r) where
  read_attr-Later :
      (a : AttrSpec) (ptr : ℕ) (d : Die)
      → IsPlain (form_of a.form)
      → Later ptr (read_attr r a ptr d)
  unfolding read_attr
  read_attr-Later a ptr d plain = elim (Bool-cases (a.form == form_implicit_const)) [
    | inl e ↦ rw e (omega arith)
    | inr e ↦ rw e (elim (Option-cases (read_attr_value r ptr a.form)) [
      | inl f ↦ rw f tt
      | inr (x, f) ↦ rw f (rw f at (read_attr_value-Onward r ptr a.form low plain))
    ])
  ]

  read_attrs-Later :
      (attrs : List AttrSpec) (ptr : ℕ) (d : Die)
      → PlainAttrs attrs
      → Later ptr (read_attrs r attrs ptr d)
  unfolding read_attrs
  read_attrs-Later [] ptr d plain = omega arith
  read_attrs-Later (a ∷ rest) ptr d (plain, plains) = elim (Option-cases (read_attr r a ptr d)) [
    | inl e ↦ rw e tt
    | inr (x, e) ↦ rw e (
        Later-trans ptr x.0 (read_attrs r rest x.0 x.1) (rw e at (read_attr-Later a ptr d plain))
          (read_attrs-Later rest x.0 x.1 plains))
  ]
    where
      Later-trans : (p q : ℕ) (o : Option (ℕ × Die)) → p ≤ q → Later q o → Later p o
      Later-trans p q none h k = tt
      Later-trans p q (some (s, t)) h k = omega arith

-- A round that goes on does so behind `ptr`.
abbrev Moves : ℕ → Outcome ⊎ (ℕ × Walk) → Type 0
Moves ptr (inl (finished p w)) = Unit
Moves ptr (inl (failed w)) = Unit
Moves ptr (inl stuck) = ⊥
Moves ptr (inr (p, w)) = ptr < p

abbrev Ends : Outcome → Type 0
Ends (finished p w) = Unit
Ends (failed w) = Unit
Ends stuck = ⊥

pop-Moves : (ptr p : ℕ) (w : Walk) → ptr < p → Moves ptr (pop_or_finish p w)
unfolding pop_or_finish
pop-Moves ptr p w h =
    (elim w.stack
      as (λ l.
        Moves ptr (elim l [ [] ↦ inl (finished p w) | f ∷ rest ↦ inr (p, pop_scope f rest w) ])) [
          | [] ↦ tt
          | f ∷ rest ↦ h
        ])

next-Ends :
    (k : ℕ → Walk → Outcome) (ptr : ℕ) (s : Outcome ⊎ (ℕ × Walk))
    → ((p : ℕ) (w : Walk) → ptr < p → Ends (k p w))
    → Moves ptr s
    → Ends (elim s [ inl o ↦ o | inr (p, w) ↦ k p w ])
next-Ends k ptr (inl (finished p w)) keep h = tt
next-Ends k ptr (inl (failed w)) keep h = tt
next-Ends k ptr (inl stuck) keep h = h
next-Ends k ptr (inr (p, w)) keep h = keep p w h

module _ (r : Request) (low : Low r) (table : AbbrevTable) (plain : IsPlainTable table)
    (cu_base : ℕ) where
  enter_die-Moves :
      (code offset ptr p : ℕ) (w : Walk)
      → ptr < p
      → Moves ptr (enter_die r table cu_base code offset p w)
  unfolding enter_die read_die
  enter_die-Moves code offset ptr p w h =
      Option-rule (Moves ptr) (find (to_u32 code) table) (inl (failed w)) _ (λ e. tt)
        (λ a e. elim (Option-cases (read_attrs r a.attrs p empty_die)) [
          | inl f ↦ rw f tt
          | inr (x, f) ↦ rw f (
              let le : p ≤ x.0 =
                (rw f at (
                  read_attrs-Later r low a.attrs p empty_die
                    (find-plain (to_u32 code) table a plain e))) in
              omega arith)
        ])

  walk_step-Moves : (ptr : ℕ) (w : Walk) → ptr < r.end → Moves ptr (walk_step r table cu_base ptr w)
  unfolding walk_step
  walk_step-Moves ptr w h =
      let u = read_uleb128 r.sections.mem ptr r.end in
      let (n, count, le, ten, moves, value) =
        read_uleb128-groups r.sections.mem ptr r.end low.bytes (omega arith) in
      let later : ptr < u.1 = omega (arith, count, moves h) in
      elim (Bool-cases (u.0 == 0)) [
        | inl e ↦ rw e (pop-Moves ptr u.1 w later)
        | inr e ↦ rw e (enter_die-Moves u.0 (ptr - r.sections.info_data) ptr u.1 w later)
      ]

  walk_loop-Ends :
      (fuel ptr : ℕ) (w : Walk)
      → 0 < fuel
      → r.end < fuel + ptr
      → Ends (walk_loop r table cu_base fuel ptr w)
  unfolding walk_loop
  walk_loop-Ends zero ptr w pos h = absurd (omega arith)
  walk_loop-Ends (suc fuel) ptr w pos h = elim (Bool-cases (leb r.end ptr)) [
    | inl e ↦ rw e tt
    | inr e ↦ rw e (
        let inside : ptr < r.end = ground (arith, e) in
        next-Ends (walk_loop r table cu_base fuel) ptr (walk_step r table cu_base ptr w)
          (λ p w' k. walk_loop-Ends fuel p w' (omega arith) (omega arith))
          (walk_step-Moves ptr w inside))
  ]

-- How a walk ends that does end.
abbrev pub Returns : Outcome → Type 0
Returns o = (w : Walk) × (((p : ℕ) × (o ≡ finished p w)) ⊎ (o ≡ failed w)) × IsValid w

Ends-Returns : (o : Outcome) → Ends o → OutcomeValid o → Returns o
Ends-Returns (finished p w) e v = (w, inl (p, refl), v)
Ends-Returns (failed w) e v = (w, inr refl, v)
Ends-Returns stuck e v = absurd e

-- With forms of bounded length, in a section that ends 4 GiB below the top of the address space,
-- `ParseDIETree` ends, finished or with a parse error, and from valid tables leaves valid tables.
pub parse_die_tree-Returns :
    (r : Request) (table : AbbrevTable) (cu_base ptr : ℕ) (w : Walk)
    → Low r
    → IsPlainTable table
    → IsValid w
    → Returns (parse_die_tree r table cu_base ptr w)
parse_die_tree-Returns r table cu_base ptr w low plain v =
    Ends-Returns (parse_die_tree r table cu_base ptr w)
      (unfold parse_die_tree in
        walk_loop-Ends r low table plain cu_base (suc (r.end - ptr)) ptr
          (record w { stack = []; cur_ns = []; cur_struct = none }) (omega arith) (omega arith))
      (parse_die_tree-IsValid r table cu_base ptr w v)
