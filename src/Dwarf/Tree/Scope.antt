-- ===== src/Dwarf/Tree/Scope.antt =====
-- The scope stack of `ParseDIETree`: what one entry does to it.
use open_core_analysis_kit.Base.{
  ℕ, ◌≡◌, refl, if◌then◌else◌, Bool, true, false, Option, none, ◌∷◌, arith, Bool-cases, inl, inr,
}
use open_core_analysis_kit.Dwarf.Die.{is_empty, Frame, Walk, enter, register}
use open_core_analysis_kit.Dwarf.Tree.{
  Tag, Entry, on_namespace, on_struct, add_member, add_base, on_member, on_inheritance, on_named,
  on_unnamed, on_tag,
}

-- The scope that an entry is met in.
abbrev pub scope_of : Walk → Frame
scope_of w = record { ns_prefix = w.cur_ns; struct_idx = w.cur_struct }

-- An entry with children saves the scope that it is met in, and no other touches the scopes.
pub record Scoped (has_children : Bool) (w w' : Walk) : Type 0 where
  pub stack : w'.stack ≡ (if has_children then scope_of w ∷ w.stack else w.stack)
  pub ns : has_children ≡ false → w'.cur_ns ≡ w.cur_ns
  pub struct : has_children ≡ false → w'.cur_struct ≡ w.cur_struct

enter-Scoped :
    (c : Bool) (idx : Option ℕ) (w v : Walk)
    → v.stack ≡ w.stack
    → v.cur_ns ≡ w.cur_ns
    → v.cur_struct ≡ w.cur_struct
    → Scoped c w (enter c idx v)
unfolding enter
enter-Scoped true idx w v p q r = record { stack = cc; ns = λ e. cc; struct = λ e. cc }
enter-Scoped false idx w v p q r = record { stack = p; ns = λ e. q; struct = λ e. r }

namespace-Scoped :
    (c : Bool) (e : Entry) (w : Walk) → e.has_children ≡ c → Scoped c w (on_namespace e w)
unfolding on_namespace
namespace-Scoped true e w h = rw h (record { stack = refl; ns = λ p. cc; struct = λ p. cc })
namespace-Scoped false e w h = rw h (record { stack = refl; ns = λ p. refl; struct = λ p. refl })

struct-Scoped : (e : Entry) (w : Walk) → Scoped e.has_children w (on_struct e w)
unfolding on_struct register
struct-Scoped e w = elim (Bool-cases (is_empty e.die.name)) [
  | inl h ↦ rw h (enter-Scoped e.has_children none w w refl refl refl)
  | inr h ↦ rw h (enter-Scoped e.has_children _ w _ refl refl refl)
]

member-Scoped : (e : Entry) (w : Walk) → Scoped e.has_children w (on_member e w)
unfolding on_member add_member
member-Scoped e w =
    enter-Scoped e.has_children none w _ (ground arith) (ground arith) (ground arith)

inheritance-Scoped : (e : Entry) (w : Walk) → Scoped e.has_children w (on_inheritance e w)
unfolding on_inheritance add_base
inheritance-Scoped e w =
    enter-Scoped e.has_children none w _ (ground arith) (ground arith) (ground arith)

named-Scoped : (e : Entry) (t q : ℕ) (w : Walk) → Scoped e.has_children w (on_named e t q w)
unfolding on_named register
named-Scoped e t q w =
    enter-Scoped e.has_children none w _ (ground arith) (ground arith) (ground arith)

unnamed-Scoped : (e : Entry) (q : ℕ) (w : Walk) → Scoped e.has_children w (on_unnamed e q w)
unfolding on_unnamed register
unnamed-Scoped e q w = enter-Scoped e.has_children none w _ refl refl refl

-- For every tag: an entry with children pushes exactly the scope that it is met in, so that the
-- null entry behind its children restores it; an entry without children leaves stack, namespace
-- and struct alone.
pub on_tag-Scoped : (t : Tag) (e : Entry) (w : Walk) → Scoped e.has_children w (on_tag t e w)
unfolding on_tag
on_tag-Scoped Tag.namespace e w = namespace-Scoped e.has_children e w refl
on_tag-Scoped Tag.structure_type e w = struct-Scoped e w
on_tag-Scoped Tag.class_type e w = struct-Scoped e w
on_tag-Scoped Tag.member e w = member-Scoped e w
on_tag-Scoped Tag.inheritance e w = inheritance-Scoped e w
on_tag-Scoped Tag.base_type e w = named-Scoped e 0 0 w
on_tag-Scoped Tag.enumeration_type e w = named-Scoped e 0 0 w
on_tag-Scoped Tag.union_type e w = named-Scoped e 0 0 w
on_tag-Scoped Tag.typedef e w = named-Scoped e e.type_ref 5 w
on_tag-Scoped Tag.other e w = enter-Scoped e.has_children none w w refl refl refl
on_tag-Scoped Tag.reference_type e w = unnamed-Scoped e 2 w
on_tag-Scoped Tag.const_type e w = unnamed-Scoped e 3 w
on_tag-Scoped Tag.volatile_type e w = unnamed-Scoped e 4 w
on_tag-Scoped Tag.array_type e w = unnamed-Scoped e 6 w
on_tag-Scoped _ e w = unnamed-Scoped e 1 w
