-- ===== src/Dwarf/Tree/Valid.antt =====
-- The indices that `ParseDIETree` keeps stay inside its tables.
use open_core_analysis_kit.Base.{
  ℕ, zero, suc, ◌≤◌, ◌<◌, ◌≡◌, if◌then◌else◌, Bool, true, false, Option, none, some, List, [], ◌∷◌,
  ◌++◌, length, length-append, length-modify, modify, All, arith, Bool-cases, inl, inr, ◌==◌,
}
use open_core_analysis_kit.Dwarf.Types.{StructInfo, PendingRef}
use open_core_analysis_kit.Dwarf.Die.{
  Die, is_empty, Frame, Walk, qualify, enter, register, new_struct, add_pending, push_member,
  push_base, member_count, base_count,
}
use open_core_analysis_kit.Dwarf.Tree.{
  Tag, Entry, on_namespace, on_struct, add_member, add_base, on_member, on_inheritance, on_named,
  on_unnamed, on_tag,
}

-- The number of items that a pending reference indexes.
abbrev pub item_count : List StructInfo → Bool → ℕ → ℕ
item_count structs true i = base_count structs i
item_count structs false i = member_count structs i

-- A pending reference names a struct, and a base or member of it.
abbrev pub RefersIn : List StructInfo → PendingRef → Type 0
RefersIn structs p =
    (p.struct_idx < length structs) × (p.item_idx < item_count structs p.is_base p.struct_idx)

abbrev pub IndexIn : List StructInfo → Option ℕ → Type 0
IndexIn structs none = Unit
IndexIn structs (some i) = i < length structs

pub record IsValid (w : Walk) : Type 0 where
  pub pending : All (RefersIn w.structs) w.pending
  pub stack : All (λ f. IndexIn w.structs f.struct_idx) w.stack
  pub current : IndexIn w.structs w.cur_struct

-- Structs are added behind the others, and items behind the others.
pub record Grows (xs ys : List StructInfo) : Type 0 where
  pub longer : length xs ≤ length ys
  pub items : (b : Bool) (i : ℕ) → i < length xs → item_count xs b i ≤ item_count ys b i

module _ {xs ys : List StructInfo} (g : Grows xs ys) where
  IndexIn-grows : (o : Option ℕ) → IndexIn xs o → IndexIn ys o
  IndexIn-grows none h = tt
  IndexIn-grows (some i) h = omega (arith, g.longer)

  RefersIn-grows : (ps : List PendingRef) → All (RefersIn xs) ps → All (RefersIn ys) ps
  RefersIn-grows [] h = tt
  RefersIn-grows (p ∷ ps) ((h, k), rest) = (
    (omega (arith, g.longer), omega (arith, k, g.items p.is_base p.struct_idx h)),
    RefersIn-grows ps rest,
  )

  stack-grows :
      (fs : List Frame)
      → All (λ f. IndexIn xs f.struct_idx) fs
      → All (λ f. IndexIn ys f.struct_idx) fs
  stack-grows [] h = tt
  stack-grows (f ∷ fs) (h, rest) = (IndexIn-grows f.struct_idx h, stack-grows fs rest)

append-Grows : (xs : List StructInfo) (s : StructInfo) → Grows xs (xs ++ (s ∷ []))
append-Grows xs s = record {
  longer = rw length-append (omega arith);
  items = λ b i h. items xs b i h;
}
  where
    items :
        (ys : List StructInfo) (b : Bool) (i : ℕ)
        → i < length ys
        → item_count ys b i ≤ item_count (ys ++ (s ∷ [])) b i
    items [] b i h = absurd (omega arith)
    items (y ∷ ys) true zero h = omega arith
    items (y ∷ ys) false zero h = omega arith
    items (y ∷ ys) true (suc i) h = items ys true i (omega arith)
    items (y ∷ ys) false (suc i) h = items ys false i (omega arith)

-- A change of one struct that keeps its items or adds one.
modify-Grows :
    (xs : List StructInfo) (i : ℕ) (f : StructInfo → StructInfo)
    → ((s : StructInfo)
        → (length s.members ≤ length (f s).members) × (length s.bases ≤ length (f s).bases))
    → Grows xs (modify xs i f)
modify-Grows xs i f keeps = record {
  longer = rw length-modify (omega arith);
  items = λ b j h. items xs i b j;
}
  where
    items :
        (ys : List StructInfo) (i : ℕ) (b : Bool) (j : ℕ)
        → item_count ys b j ≤ item_count (modify ys i f) b j
    items [] i true j = omega arith
    items [] i false j = omega arith
    items (y ∷ ys) zero true zero = (keeps y).1
    items (y ∷ ys) zero false zero = (keeps y).0
    items (y ∷ ys) zero true (suc j) = omega arith
    items (y ∷ ys) zero false (suc j) = omega arith
    items (y ∷ ys) (suc i) true zero = omega arith
    items (y ∷ ys) (suc i) false zero = omega arith
    items (y ∷ ys) (suc i) true (suc j) = items ys i true j
    items (y ∷ ys) (suc i) false (suc j) = items ys i false j

member_count-push :
    (xs : List StructInfo) (i : ℕ) (d : Die)
    → i < length xs
    → member_count (modify xs i (push_member d)) i ≡ suc (member_count xs i)
member_count-push [] i d h = absurd (omega arith)
member_count-push (x ∷ xs) zero d h = rw length-append (omega arith)
member_count-push (x ∷ xs) (suc i) d h = member_count-push xs i d (omega arith)

base_count-push :
    (xs : List StructInfo) (i : ℕ) (d : Die)
    → i < length xs
    → base_count (modify xs i (push_base d)) i ≡ suc (base_count xs i)
base_count-push [] i d h = absurd (omega arith)
base_count-push (x ∷ xs) zero d h = rw length-append (omega arith)
base_count-push (x ∷ xs) (suc i) d h = base_count-push xs i d (omega arith)

All-append {ℓ κ} :
    {A : Type ℓ} (P : A → Type κ) (xs : List A) (y : A) → All P xs → P y → All P (xs ++ (y ∷ []))
All-append P [] y h k = (k, tt)
All-append P (x ∷ xs) y (h, hs) k = (h, All-append P xs y hs k)

add_pending-RefersIn :
    (xs : List StructInfo) (i : ℕ) (b : Bool) (item t : ℕ) (ps : List PendingRef)
    → All (RefersIn xs) ps
    → i < length xs
    → item < item_count xs b i
    → All (RefersIn xs) (add_pending i b item t ps)
unfolding add_pending
add_pending-RefersIn xs i b item t ps h hi hk = elim (Bool-cases (t == 0)) [
  | inl e ↦ rw e h
  | inr e ↦ rw e (All-append (RefersIn xs) ps _ h (hi, hk))
]

-- A walk with grown structs and the rest as before.
grown :
    (w : Walk) (ys : List StructInfo)
    → Grows w.structs ys
    → IsValid w
    → IsValid (record w { structs = ys })
grown w ys g v = record {
  pending = RefersIn-grows g w.pending v.pending;
  stack = stack-grows g w.stack v.stack;
  current = IndexIn-grows g w.cur_struct v.current;
}

enter-IsValid :
    (c : Bool) (idx : Option ℕ) (w : Walk)
    → IndexIn w.structs idx
    → IsValid w
    → IsValid (enter c idx w)
unfolding enter
enter-IsValid true idx w h v = record {
  pending = v.pending;
  stack = (v.current, v.stack);
  current = h;
}
enter-IsValid false idx w h v = v

register-IsValid :
    (o : ℕ) (name : List ℕ) (t q : ℕ) (w : Walk) → IsValid w → IsValid (register o name t q w)
unfolding register
register-IsValid o name t q w v = record {
  pending = v.pending;
  stack = v.stack;
  current = v.current;
}

add_member-IsValid :
    (e : Entry) (i : ℕ) (w : Walk) → i < length w.structs → IsValid w → IsValid (add_member e i w)
unfolding add_member
add_member-IsValid e i w h v =
    let ys = modify w.structs i (push_member e.die) in
    let g : Grows w.structs ys =
      modify-Grows w.structs i (push_member e.die)
        (λ s. (rw length-append (omega arith), omega arith)) in
    let v' = grown w ys g v in
    record {
      pending =
          add_pending-RefersIn ys i false (member_count w.structs i) e.type_ref w.pending v'.pending
            (rw length-modify h) (omega (arith, member_count-push w.structs i e.die h));
      stack = v'.stack;
      current = v'.current;
    }

add_base-IsValid :
    (e : Entry) (i : ℕ) (w : Walk) → i < length w.structs → IsValid w → IsValid (add_base e i w)
unfolding add_base
add_base-IsValid e i w h v =
    let ys = modify w.structs i (push_base e.die) in
    let g : Grows w.structs ys =
      modify-Grows w.structs i (push_base e.die)
        (λ s. (omega arith, rw length-append (omega arith))) in
    let v' = grown w ys g v in
    record {
      pending =
          add_pending-RefersIn ys i true (base_count w.structs i) e.type_ref w.pending v'.pending
            (rw length-modify h) (omega (arith, base_count-push w.structs i e.die h));
      stack = v'.stack;
      current = v'.current;
    }

-- A change made at the current struct, if there is one.
at_current :
    (w : Walk) (f : ℕ → Walk) (o : Option ℕ)
    → IndexIn w.structs o
    → ((i : ℕ) → i < length w.structs → IsValid (f i))
    → IsValid w
    → IsValid (elim o [ none ↦ w | some i ↦ f i ])
at_current w f none h k v = v
at_current w f (some i) h k v = k i h

unless_empty :
    (name : List ℕ) (w v : Walk) → IsValid w → IsValid v → IsValid (if is_empty name then w else v)
unless_empty name w v h k = elim (Bool-cases (is_empty name)) [ inl e ↦ rw e h | inr e ↦ rw e k ]

namespace-IsValid : (e : Entry) (w : Walk) → IsValid w → IsValid (on_namespace e w)
unfolding on_namespace
namespace-IsValid e w v = elim (Bool-cases e.has_children) [
  | inl h ↦ rw h (record { pending = v.pending; stack = (v.current, v.stack); current = v.current })
  | inr h ↦ rw h v
]

struct-IsValid : (e : Entry) (w : Walk) → IsValid w → IsValid (on_struct e w)
unfolding on_struct
struct-IsValid e w v =
    let full = qualify w.cur_ns e.die.name in
    let ys = w.structs ++ (new_struct full e.die ∷ []) in
    let named = register e.offset full 0 0 w in
    let v0 = grown w ys (append-Grows w.structs (new_struct full e.die)) v in
    let v' : IsValid (record named { structs = ys }) =
      (unfold register in
        record { pending = v0.pending; stack = v0.stack; current = v0.current }) in
    elim (Bool-cases (is_empty e.die.name)) [
      | inl h ↦ rw h (enter-IsValid e.has_children none w tt v)
      | inr h ↦ rw h (
          enter-IsValid e.has_children (some (length w.structs)) _
            (rw (length-append w.structs) (omega arith)) v')
    ]

member-IsValid : (e : Entry) (w : Walk) → IsValid w → IsValid (on_member e w)
unfolding on_member
member-IsValid e w v = enter-IsValid e.has_children none _ tt (
    unless_empty e.die.name w _ v (
      at_current w (λ i. add_member e i w) w.cur_struct v.current
        (λ i h. add_member-IsValid e i w h v) v))

inheritance-IsValid : (e : Entry) (w : Walk) → IsValid w → IsValid (on_inheritance e w)
unfolding on_inheritance
inheritance-IsValid e w v = enter-IsValid e.has_children none _ tt (
    at_current w (λ i. add_base e i w) w.cur_struct v.current (λ i h. add_base-IsValid e i w h v) v)

named-IsValid : (e : Entry) (t q : ℕ) (w : Walk) → IsValid w → IsValid (on_named e t q w)
unfolding on_named
named-IsValid e t q w v =
    enter-IsValid e.has_children none _ tt
      (unless_empty e.die.name w _ v (register-IsValid e.offset _ t q w v))

unnamed-IsValid : (e : Entry) (q : ℕ) (w : Walk) → IsValid w → IsValid (on_unnamed e q w)
unfolding on_unnamed
unnamed-IsValid e q w v =
    enter-IsValid e.has_children none _ tt (register-IsValid e.offset [] e.type_ref q w v)

pub on_tag-IsValid : (t : Tag) (e : Entry) (w : Walk) → IsValid w → IsValid (on_tag t e w)
unfolding on_tag
on_tag-IsValid Tag.namespace e w v = namespace-IsValid e w v
on_tag-IsValid Tag.structure_type e w v = struct-IsValid e w v
on_tag-IsValid Tag.class_type e w v = struct-IsValid e w v
on_tag-IsValid Tag.member e w v = member-IsValid e w v
on_tag-IsValid Tag.inheritance e w v = inheritance-IsValid e w v
on_tag-IsValid Tag.base_type e w v = named-IsValid e 0 0 w v
on_tag-IsValid Tag.enumeration_type e w v = named-IsValid e 0 0 w v
on_tag-IsValid Tag.union_type e w v = named-IsValid e 0 0 w v
on_tag-IsValid Tag.typedef e w v = named-IsValid e e.type_ref 5 w v
on_tag-IsValid Tag.other e w v = enter-IsValid e.has_children none w tt v
on_tag-IsValid Tag.reference_type e w v = unnamed-IsValid e 2 w v
on_tag-IsValid Tag.const_type e w v = unnamed-IsValid e 3 w v
on_tag-IsValid Tag.volatile_type e w v = unnamed-IsValid e 4 w v
on_tag-IsValid Tag.array_type e w v = unnamed-IsValid e 6 w v
on_tag-IsValid _ e w v = unnamed-IsValid e 1 w v
