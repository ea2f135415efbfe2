-- ===== src/Dwarf/Tree/Invariant.antt =====
-- The walk of `ParseDIETree` keeps its indices inside its tables.
use open_core_analysis_kit.Base.{
  ℕ, zero, suc, ◌-◌, Option, none, some, [], ◌∷◌, Bool-cases, Option-rule, All, inl, inr, ◌⊎◌, ◌==◌,
  leb, to_u32,
}
use open_core_analysis_kit.Dwarf.Leb.{read_uleb128}
use open_core_analysis_kit.Dwarf.Types.{AbbrevEntry}
use open_core_analysis_kit.Dwarf.Attr.{Request}
use open_core_analysis_kit.Dwarf.Abbrev.{AbbrevTable, find}
use open_core_analysis_kit.Dwarf.Die.{empty_die, read_attrs, Walk}
use open_core_analysis_kit.Dwarf.Tree.{
  tag_of, Outcome, finished, failed, stuck, pop_scope, read_die, pop_or_finish, enter_die,
  walk_step, walk_loop, parse_die_tree,
}
use open_core_analysis_kit.Dwarf.Tree.Valid.{IsValid, IndexIn, on_tag-IsValid}

-- The tables that a walk leaves are valid, however it ends.
abbrev pub OutcomeValid : Outcome → Type 0
OutcomeValid (finished p w) = IsValid w
OutcomeValid (failed w) = IsValid w
OutcomeValid stuck = Unit

abbrev StepValid : Outcome ⊎ (ℕ × Walk) → Type 0
StepValid (inl o) = OutcomeValid o
StepValid (inr (p, w)) = IsValid w

abbrev ReadValid : Option (ℕ × Walk) → Type 0
ReadValid none = Unit
ReadValid (some (p, w)) = IsValid w

read_die-IsValid :
    (r : Request) (cu_base offset ptr : ℕ) (a : AbbrevEntry) (w : Walk)
    → IsValid w
    → ReadValid (read_die r cu_base offset ptr a w)
unfolding read_die
read_die-IsValid r cu_base offset ptr a w v =
    Option-rule ReadValid (read_attrs r a.attrs ptr empty_die) none _ (λ e. tt)
      (λ x e. on_tag-IsValid (tag_of a.tag) _ w v)

pop-IsValid : (p : ℕ) (w : Walk) → IsValid w → StepValid (pop_or_finish p w)
unfolding pop_or_finish pop_scope
pop-IsValid p w v =
    (elim w.stack
        as (λ l.
          All (λ f. IndexIn w.structs f.struct_idx) l
          → StepValid
              (elim l [ [] ↦ inl (finished p w) | f ∷ rest ↦ inr (p, pop_scope f rest w) ])) [
                | [] ↦ λ h. v
                | f ∷ rest ↦ λ h. record { pending = v.pending; stack = h.1; current = h.0 }
              ])
      v.stack

next-IsValid :
    (k : ℕ → Walk → Outcome) (s : Outcome ⊎ (ℕ × Walk))
    → ((p : ℕ) (w : Walk) → IsValid w → OutcomeValid (k p w))
    → StepValid s
    → OutcomeValid (elim s [ inl o ↦ o | inr (p, w) ↦ k p w ])
next-IsValid k (inl o) keep h = h
next-IsValid k (inr (p, w)) keep h = keep p w h

module _ (r : Request) (table : AbbrevTable) (cu_base : ℕ) where
  enter_die-IsValid :
      (code offset ptr : ℕ) (w : Walk)
      → IsValid w
      → StepValid (enter_die r table cu_base code offset ptr w)
  unfolding enter_die
  enter_die-IsValid code offset ptr w v =
      Option-rule StepValid (find (to_u32 code) table) (inl (failed w)) _ (λ e. v)
        (λ a e.
          Option-rule StepValid (read_die r cu_base offset ptr a w) (inl (failed w)) _ (λ f. v)
            (λ x f. rw f at (read_die-IsValid r cu_base offset ptr a w v)))

  walk_step-IsValid : (ptr : ℕ) (w : Walk) → IsValid w → StepValid (walk_step r table cu_base ptr w)
  unfolding walk_step
  walk_step-IsValid ptr w v =
      let u = read_uleb128 r.sections.mem ptr r.end in
      elim (Bool-cases (u.0 == 0)) [
        | inl e ↦ rw e (pop-IsValid u.1 w v)
        | inr e ↦ rw e (enter_die-IsValid u.0 (ptr - r.sections.info_data) u.1 w v)
      ]

  walk_loop-IsValid :
      (fuel ptr : ℕ) (w : Walk) → IsValid w → OutcomeValid (walk_loop r table cu_base fuel ptr w)
  unfolding walk_loop
  walk_loop-IsValid zero ptr w v = tt
  walk_loop-IsValid (suc fuel) ptr w v = elim (Bool-cases (leb r.end ptr)) [
    | inl e ↦ rw e v
    | inr e ↦ rw e (
        next-IsValid (walk_loop r table cu_base fuel) (walk_step r table cu_base ptr w)
          (λ p w' h. walk_loop-IsValid fuel p w' h) (walk_step-IsValid ptr w v))
  ]

pub parse_die_tree-IsValid :
    (r : Request) (table : AbbrevTable) (cu_base ptr : ℕ) (w : Walk)
    → IsValid w
    → OutcomeValid (parse_die_tree r table cu_base ptr w)
unfolding parse_die_tree
parse_die_tree-IsValid r table cu_base ptr w v =
    walk_loop-IsValid r table cu_base _ ptr _
      (record { pending = v.pending; stack = tt; current = tt })
