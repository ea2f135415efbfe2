-- ===== src/Props.antt =====
-- Android's property area: `PropArea`, `Propbt` and `PropInfo` of android/properties/prop_area.h,
-- prop_area.cpp and prop_info.h. A name is the list of its bytes, and ends in a NUL.
pub mod Trie
pub mod Search
pub mod Visits
pub mod Area
mod Examples
use open_core_analysis_kit.Base.{
  ℕ, zero, suc, ◌+◌, ◌-◌, ltb, ◌==◌, if◌then◌else◌, ◌&&◌, ◌||◌, not, Bool, true, false, Option,
  none, some, List, [], ◌∷◌, ◌++◌, length, add64, ◌>>=◌,
}
use open_core_analysis_kit.Target.{Target, Sought, invalid, absent, found, endless}

-- The sign of a comparison.
pub data Order : Type 0 where
  less same more : Order

-- `strncmp(name, s, n)` for a string in target memory; `none` is an exception.
unfoldable pub strncmp : Target → ℕ → List ℕ → ℕ → ℕ → Option Order
strncmp t zero name vaddr offset = some same
strncmp t (suc n) [] vaddr offset =
    t.load vaddr offset 1 >>= λ d. some (if d == 0 then same else less)
strncmp t (suc n) (c ∷ cs) vaddr offset =
    let later = strncmp t n cs vaddr (offset + 1) in
    t.load vaddr offset 1 >>= λ d.
    if ltb c d
    then some less
    else (if ltb d c then some more else (if c == 0 then some same else later))

-- `ComparePropName(name, n, current.name(), current.namelen())`.
unfoldable pub compare_prop_name : Target → List ℕ → ℕ → ℕ → Option Order
unfolding strncmp
compare_prop_name t name n p = t.load p 0 4 >>= λ m.
    if ltb n m then some less else (if ltb m n then some more else strncmp t n name p 20)

-- `toPropObj`.
abbrev pub to_prop_obj : ℕ → ℕ → ℕ
to_prop_obj base off = add64 base off

-- A field that is the offset of another object; 0 is none.
abbrev pub follow : Target → ℕ → ℕ → ℕ → (ℕ → Sought) → Sought
follow t base p field go = elim (t.load p field 4) [
  | none ↦ invalid
  | some off ↦ if off == 0 then absent else go (to_prop_obj base off)
]

-- `findPropbt`: down the tree at `p`, to the node of the first `n` bytes of `name`.
unfoldable pub find_propbt : Target → ℕ → ℕ → List ℕ → ℕ → ℕ → Sought
find_propbt t base zero name n p = endless
find_propbt t base (suc fuel) name n p = elim (p == 0) [
  | true ↦ absent
  | false ↦ elim (compare_prop_name t name n p) [
    | none ↦ invalid
    | some same ↦ found p
    | some less ↦ follow t base p 8 (find_propbt t base fuel name n)
    | some more ↦ follow t base p 12 (find_propbt t base fuel name n)
  ]
]

-- The name up to `strchr(name, '.')`, and what stands behind the dot.
unfoldable pub segment : List ℕ → List ℕ
segment [] = []
segment (c ∷ cs) = if c == b'.' then [] else c ∷ segment cs

unfoldable pub after_dot : List ℕ → Option (List ℕ)
after_dot [] = none
after_dot (c ∷ cs) = if c == b'.' then some cs else after_dot cs

abbrev pub info_of : Target → ℕ → ℕ → Sought
info_of t base q = follow t base q 4 found

-- What follows a search of one level: the property, or the search for the rest of the name.
abbrev pub next_segment : Target → ℕ → (ℕ → List ℕ → Sought) → List ℕ → Sought → Sought
next_segment t base again name (found q) = elim (after_dot name) [
  | none ↦ info_of t base q
  | some rest ↦ again q rest
]
next_segment t base again name absent = absent
next_segment t base again name invalid = invalid
next_segment t base again name endless = endless

-- The loop of `findProperty` over the parts of the name; `depth` bounds each tree.
unfoldable pub find_segments : Target → ℕ → ℕ → ℕ → ℕ → List ℕ → Sought
find_segments t base depth zero current name = endless
find_segments t base depth (suc fuel) current name = elim (length (segment name) == 0) [
  | true ↦ absent
  | false ↦ follow t base current 16 (λ root.
      next_segment t base (find_segments t base depth fuel) name
        (find_propbt t base depth name (length (segment name)) root))
]

unfoldable pub find_property : Target → ℕ → ℕ → ℕ → List ℕ → Sought
find_property t base depth trie name =
    if trie == 0 then absent else find_segments t base depth (suc (length name)) trie name

abbrev pub prop_area_magic : ℕ
prop_area_magic = 0x504f5250

abbrev pub prop_area_version : ℕ
prop_area_version = 0xfc6ed0ab

-- The test of version and magic number, and the area's data behind it.
abbrev pub if_area {ℓ} : {A : Type ℓ} → Target → ℕ → (thrown other : A) → (ℕ → A) → A
if_area t area thrown other go = elim (t.load area 12 4) [
  | none ↦ thrown
  | some version ↦
      if version == prop_area_version
      then (elim (t.load area 8 4) [
        | none ↦ thrown
        | some magic ↦ if magic == prop_area_magic then go (add64 area 128) else other
      ])
      else other
]

-- `PropArea::find`.
unfoldable pub area_find : Target → ℕ → ℕ → List ℕ → Sought
unfolding find_property
area_find t depth area name =
    if_area t area invalid absent (λ base. find_property t base depth (to_prop_obj base 0) name)

-- What a traversal hands to its callback, and the Boolean that it returns.
pub data Visit : Type 0 where
  threw : Visit
  unbounded : Visit
  visited : List ℕ → Bool → Visit

-- `const int err = foreachProperty(...); if (err < 0) return false;`: a `bool` is never negative.
abbrev pub and_then : Visit → (List ℕ → Visit) → Visit
and_then threw k = threw
and_then unbounded k = unbounded
and_then (visited infos result) k = k infos

abbrev pub visit_child : Target → ℕ → (ℕ → Visit) → ℕ → ℕ → Visit
visit_child t base again p field = elim (t.load p field 4) [
  | none ↦ threw
  | some off ↦ if off == 0 then visited [] true else again (to_prop_obj base off)
]

abbrev pub visit_info : Target → ℕ → ℕ → List ℕ → (List ℕ → Visit) → Visit
visit_info t base p before k = elim (t.load p 4 4) [
  | none ↦ threw
  | some off ↦
      if off == 0
      then k []
      else (if to_prop_obj base off == 0
          then visited before false
          else k (to_prop_obj base off ∷ []))
]

-- The body of `foreachProperty`: left, the node's own property, its children, right.
module _ (t : Target) (base : ℕ) (again : ℕ → Visit) (p : ℕ) where
  abbrev pub visit_right : (left own under : List ℕ) → Visit
  visit_right left own under =
      and_then (visit_child t base again p 12)
        (λ right. visited (left ++ (own ++ (under ++ right))) true)

  abbrev pub visit_under : (left own : List ℕ) → Visit
  visit_under left own = and_then (visit_child t base again p 16) (visit_right left own)

  abbrev pub visit_node : Visit
  visit_node =
      and_then (visit_child t base again p 8) (λ left. visit_info t base p left (visit_under left))

-- `foreachProperty`.
unfoldable pub foreach_property : Target → ℕ → ℕ → ℕ → Visit
foreach_property t base zero p = unbounded
foreach_property t base (suc fuel) p = elim (p == 0) [
  | true ↦ visited [] false
  | false ↦ visit_node t base (foreach_property t base fuel) p
]

-- `PropArea::foreach`.
unfoldable pub area_foreach : Target → ℕ → ℕ → Visit
area_foreach t fuel area =
    if_area t area threw (visited [] false)
      (λ base. foreach_property t base fuel (to_prop_obj base 0))
