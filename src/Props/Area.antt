-- ===== src/Props/Area.antt =====
-- `PropArea::find` and `PropArea::foreach` on the same area.
use open_core_analysis_kit.Base.{
  ℕ, suc, ◌<◌, ◌≡◌, refl, ap, ◌∙◌, ◌==◌, true, false, some, List, [], append-nil, length, arith,
  add64,
}
use open_core_analysis_kit.Target.{Target}
use open_core_analysis_kit.Props.{
  to_prop_obj, find_segments, find_property, if_area, prop_area_magic, prop_area_version, area_find,
  visited, visit_child, foreach_property, area_foreach,
}
use open_core_analysis_kit.Props.Trie.{Trie, leaf, height, infos, IsOrdered, Rep, empty}
use open_core_analysis_kit.Props.Search.{NonZero}
use open_core_analysis_kit.Props.Visits.{
  Sound, find_segments-Sound, visit_child-infos, visit_node-infos, foreach_property-infos,
}

-- An area whose root node has no name and no value, and the trie below it.
pub record IsArea (t : Target) (area : ℕ) (u : Trie) : Type 0 where
  pub version : t.load area 12 4 ≡ some prop_area_version
  pub magic : t.load area 8 4 ≡ some prop_area_magic
  pub root_placed : 0 < to_prop_obj (add64 area 128) 0
  pub root_own : t.load (to_prop_obj (add64 area 128) 0) 4 4 ≡ some 0
  pub root_left : t.load (to_prop_obj (add64 area 128) 0) 8 4 ≡ some 0
  pub root_right : t.load (to_prop_obj (add64 area 128) 0) 12 4 ≡ some 0
  pub under : ℕ
  pub root_children : t.load (to_prop_obj (add64 area 128) 0) 16 4 ≡ some under
  pub rep : Rep t (add64 area 128) under u
  pub ordered : IsOrdered u

module _ (t : Target) (area : ℕ) (u : Trie) (a : IsArea t area u) where
  abbrev base : ℕ
  base = add64 area 128

  abbrev root : ℕ
  root = to_prop_obj (add64 area 128) 0

  root_find :
      (depth : ℕ) (name : List ℕ)
      → NonZero name
      → height u < suc depth
      → Sound base u (find_property t base depth root name)
  unfolding find_property
  root_find depth name z h =
      let there : (root == 0) ≡ false = ground (arith, a.root_placed) in
      let eq : find_property t base depth root name
          ≡ find_segments t base depth (suc (length name)) root name =
        rw (find_property, there) refl in
      rw eq (
        find_segments-Sound t base depth (suc (length name)) root name (omega arith) z
          a.root_children a.rep a.ordered h)

  root_foreach :
      (fuel : ℕ)
      → height u < suc fuel
      → foreach_property t base (suc fuel) root ≡ visited (infos base u) true
  unfolding foreach_property
  root_foreach fuel h =
      let there : (root == 0) ≡ false = ground (arith, a.root_placed) in
      let again = foreach_property t base fuel in
      let none' : (field : ℕ)
          → t.load root field 4 ≡ some 0
          → visit_child t base again root field ≡ visited [] true =
        λ field e.
          visit_child-infos t base root field again e empty (λ pos. absurd (omega arith)) in
      let node' =
        visit_node-infos t base again root 0 leaf u leaf a.root_own (λ pos. absurd (omega arith))
          (none' 8 a.root_left)
          (visit_child-infos t base root 16 again a.root_children a.rep
            (λ q. foreach_property-infos t base fuel a.rep q h))
          (none' 12 a.root_right) [] in
      rw (foreach_property, there) (node' ∙ ap (λ l. visited l true) (append-nil (infos base u)))

-- On an ordered area, for every name without NUL: `foreach` gives the callback all properties of
-- the trie and returns `true`; `find` ends without an exception, and what it finds is among them.
pub area_find-foreach :
    (t : Target) (area : ℕ) (u : Trie) (depth : ℕ) (name : List ℕ)
    → IsArea t area u
    → NonZero name
    → height u < suc depth
    → (area_foreach t (suc depth) area ≡ visited (infos (add64 area 128) u) true)
      × Sound (add64 area 128) u (area_find t depth area name)
unfolding area_find area_foreach
area_find-foreach t area u depth name a z h = (
  (rw (area_foreach, if_area, a.version, a.magic) (root_foreach t area u a depth h)),
  (rw (area_find, if_area, a.version, a.magic) (root_find t area u a depth name z h)),
)
