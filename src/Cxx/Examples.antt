-- ===== src/Cxx/Examples.antt =====
-- A map of two pairs in memory, and the theorem at it.
use open_core_analysis_kit.Base.{
  ℕ, ◌+◌, ◌*◌, ◌^◌, ◌≤◌, ◌<◌, ◌≡◌, refl, ltb, ltb→lt, ◌==◌, if◌then◌else◌, Option, none, some,
  arith, Bool-cases, inl, inr,
}
use open_core_analysis_kit.Target.{Target}
use open_core_analysis_kit.Cxx.{places, map_root, map_size, map_cache}
use open_core_analysis_kit.Cxx.Tree.{
  Pairs, leaf, pair, post_order, Tree, empty, filled, map_cache-post_order,
}

-- The map is at 64; its root at 128 has the left child 256.
abbrev at : ℕ → ℕ
at a = if a == 72 then 128 else (if a == 80 then 2 else (if a == 128 then 256 else 0))

abbrev load : ℕ → ℕ → ℕ → Option ℕ
load p o n = if ltb (at (p + o)) (2 ^ (8 * n)) then some (at (p + o)) else none

load_small : (p o n : ℕ) {v : ℕ} → n ≤ 8 → load p o n ≡ some v → v < 2 ^ (8 * n)
load_small p o n {v} h e = elim (Bool-cases (ltb (at (p + o)) (2 ^ (8 * n)))) [
  | inl fits ↦
      let same : at (p + o) ≡ v = ground (arith, rw fits at e) in
      rw (← same) (ltb→lt (at (p + o)) (2 ^ (8 * n)) fits)
  | inr large ↦ absurd (ground (arith, rw large at e))
]

abbrev target : Target
target = record { load = load; small = load_small; point_mask = 0xffffffffffffffff }

abbrev two_pairs : Pairs
two_pairs = pair (pair leaf 256 leaf) 128 leaf

two_pairs-Tree : Tree target 64 128 two_pairs
two_pairs-Tree = filled (omega arith) refl refl (filled (omega arith) refl refl empty empty) empty

map_cache-post_order_example : map_cache target 64 3 64 ≡ places (post_order two_pairs)
unfolding map_root map_size
map_cache-post_order_example =
    map_cache-post_order target 64 3 64 2 128 two_pairs refl (omega arith) refl (omega arith)
      two_pairs-Tree (omega arith)
