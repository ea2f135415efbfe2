-- ===== src/Props/Examples.antt =====
-- An area with the two properties `a` and `a.b`, and the theorems at it.
use open_core_analysis_kit.Base.{
  ℕ, ◌+◌, ◌*◌, ◌^◌, ◌≤◌, ◌<◌, ◌≡◌, refl, ltb, ltb→lt, ◌==◌, if◌then◌else◌, true, Option, none, some,
  List, [], ◌∷◌, arith, Bool-cases, inl, inr,
}
use open_core_analysis_kit.Target.{Target, found, absent}
use open_core_analysis_kit.Props.{
  compare_prop_name, find_propbt, segment, after_dot, find_segments, area_find, foreach_property,
  area_foreach, visited, prop_area_version, prop_area_magic,
}
use open_core_analysis_kit.Props.Trie.{
  Trie, leaf, node, infos, IsOrdered, Splits, Rep, empty, filled,
}
use open_core_analysis_kit.Props.Search.{Finds, find_propbt-Finds}
use open_core_analysis_kit.Props.Visits.{Sound}
use open_core_analysis_kit.Props.Area.{IsArea, area_find-foreach}

-- What stands at an address: 872 is the area, 1000 its data.
abbrev at : ℕ → Option ℕ
at a =
    if a == 880
    then some prop_area_magic
    else (if a == 884
        then some prop_area_version
        else (if a == 1016
            then some 100
            else (if a == 1100
                then some 1
                else (if a == 1104
                    then some 500
                    else (if a == 1116
                        then some 200
                        else (if a == 1120
                            then some b'a'
                            else (if a == 1200
                                then some 1
                                else (if a == 1204
                                    then some 600
                                    else (if a == 1220 then some b'b' else some 0)))))))))

-- A value that does not fit the size is not there.
abbrev load : ℕ → ℕ → ℕ → Option ℕ
load p o n = elim (at (p + o)) [
  | none ↦ none
  | some v ↦ if ltb v (2 ^ (8 * n)) then some v else none
]

load_small : (p o n : ℕ) {v : ℕ} → n ≤ 8 → load p o n ≡ some v → v < 2 ^ (8 * n)
load_small p o n {v} h e = small (at (p + o)) e
  where
    small :
        (found' : Option ℕ)
        → (elim found' [ none ↦ none | some v ↦ if ltb v (2 ^ (8 * n)) then some v else none ])
          ≡ some v
        → v < 2 ^ (8 * n)
    small none e = absurd (ground (arith, e))
    small (some w) e = elim (Bool-cases (ltb w (2 ^ (8 * n)))) [
      | inl fits ↦
          let got : some w ≡ some v = (rw fits at e) in
          let same' : w ≡ v = cc in rw (← same') (ltb→lt w (2 ^ (8 * n)) fits)
      | inr large ↦ let got : none ≡ some v = (rw large at e) in absurd (ground (arith, got))
    ]

abbrev target : Target
target = record { load = load; small = load_small; point_mask = 0xffffffffffffffff }

abbrev under_a : Trie
under_a = node leaf 1200 600 (b'b' ∷ []) leaf leaf

abbrev level : Trie
level = node leaf 1100 500 (b'a' ∷ []) under_a leaf

leaf-Splits : (k : List ℕ) → Splits leaf k leaf
leaf-Splits k = record { before = λ key q h. absurd h; behind = λ key q h. absurd h }

level-IsOrdered : IsOrdered level
level-IsOrdered = (leaf-Splits (b'a' ∷ []), tt, (leaf-Splits (b'b' ∷ []), tt, tt, tt), tt)

under_a-Rep : Rep target 1000 200 under_a
under_a-Rep =
    filled (omega arith) (omega arith) (omega arith)
      (record {
        namelen = refl;
        own = refl;
        left = refl;
        right = refl;
        children = refl;
        placed = λ h. omega arith;
      })
      (refl, omega arith, tt) empty empty empty

level-Rep : Rep target 1000 100 level
level-Rep =
    filled (omega arith) (omega arith) (omega arith)
      (record {
        namelen = refl;
        own = refl;
        left = refl;
        right = refl;
        children = refl;
        placed = λ h. omega arith;
      })
      (refl, omega arith, tt) empty under_a-Rep empty

small-IsArea : IsArea target 872 level
small-IsArea = record {
  version = refl;
  magic = refl;
  root_placed = omega arith;
  root_own = refl;
  root_left = refl;
  root_right = refl;
  under = 100;
  root_children = refl;
  rep = level-Rep;
  ordered = level-IsOrdered;
}

area_runs :
    (area_find target 3 872 (b'a' ∷ b'.' ∷ b'b' ∷ []) ≡ found 1600)
    × (area_find target 3 872 (b'a' ∷ []) ≡ found 1500)
    × (area_find target 3 872 (b'b' ∷ []) ≡ absent)
    × (area_foreach target 4 872 ≡ visited (1500 ∷ 1600 ∷ []) true)
unfolding area_find find_segments segment after_dot find_propbt compare_prop_name area_foreach
    foreach_property
area_runs = (refl, refl, refl, refl)

find_propbt-Finds_example :
    Finds (b'a' ∷ []) level (find_propbt target 1000 3 (b'a' ∷ b'.' ∷ b'b' ∷ []) 1 1100)
find_propbt-Finds_example =
    find_propbt-Finds target 1000 (b'a' ∷ []) (b'.' ∷ b'b' ∷ []) (omega arith, tt) 3 level-Rep
      level-IsOrdered (omega arith) (omega arith)

area_find-foreach_example :
    (area_foreach target 4 872 ≡ visited (infos 1000 level) true)
    × Sound 1000 level (area_find target 3 872 (b'a' ∷ b'.' ∷ b'b' ∷ []))
area_find-foreach_example =
    area_find-foreach target 872 level 3 (b'a' ∷ b'.' ∷ b'b' ∷ []) small-IsArea
      (omega arith, (omega arith, (omega arith, tt))) (omega arith)
