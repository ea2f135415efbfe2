-- ===== src/Cxx/Tree.antt =====
-- `map::iterator::traversal` in llvm/cxx/map.cpp: the cache holds the pairs of the tree, each behind
-- the pairs below it.
use open_core_analysis_kit.Base.{
  ℕ, zero, suc, ◌<◌, ◌≡◌, ◌≢◌, refl, ap, ◌∙◌, ltb, ◌==◌, if◌then◌else◌, false, Option, some, List,
  [], ◌∷◌, ◌++◌, arith,
}
use open_core_analysis_kit.Target.{Target}
use open_core_analysis_kit.Cxx.{
  Loop, places, pair_left, pair_right, after, traverse_child, traversal, map_root, map_size,
  map_cache,
}

pub data Pairs : Type 0 where
  leaf : Pairs
  pair : Pairs → ℕ → Pairs → Pairs

abbrev pub depth : Pairs → ℕ
depth leaf = 0
depth (pair l p r) = suc (if ltb (depth l) (depth r) then depth r else depth l)

-- The order of the cache.
abbrev pub post_order : Pairs → List ℕ
post_order leaf = []
post_order (pair l p r) = post_order l ++ (post_order r ++ (p ∷ []))

-- The tree that a link leads to; the null pointer leads to none.
pub data Tree (t : Target) (bits : ℕ) : ℕ → Pairs → Type 0 where
  empty : Tree t bits 0 leaf
  filled :
      {p lo ro : ℕ} {l r : Pairs}
      → p ≢ 0
      → pair_left t bits p ≡ some lo
      → pair_right t bits p ≡ some ro
      → Tree t bits lo l
      → Tree t bits ro r
      → Tree t bits p (pair l p r)

module _ (t : Target) (bits : ℕ) where
  child-post_order :
      (again : ℕ → Loop) (link' : Option ℕ) {q : ℕ} {s : Pairs}
      → link' ≡ some q
      → Tree t bits q s
      → (q ≢ 0 → again q ≡ places (post_order s))
      → traverse_child t bits again link' ≡ places (post_order s)
  child-post_order again link' e empty k = rw (traverse_child, e) refl
  child-post_order again link' {q} e (filled ne el er l r) k =
      let there : (q == 0) ≡ false = ground (arith, ne) in rw (traverse_child, e, there) (k ne)

  traversal-post_order :
      (fuel : ℕ) {p : ℕ} {s : Pairs}
      → Tree t bits p s
      → p ≢ 0
      → depth s < suc fuel
      → traversal t bits fuel p ≡ places (post_order s)
  unfolding traversal
  traversal-post_order fuel empty ne h = absurd (ne refl)
  traversal-post_order zero (filled x el er l r) ne h = absurd (ground arith)
  traversal-post_order (suc fuel) {p} (filled {l = l} {r} x el er tl tr) ne h =
      let again = traversal t bits fuel in
      ap
        (λ v. after t bits v (λ left.
          after t bits (traverse_child t bits again (pair_right t bits p))
            (λ right. places (left ++ (right ++ (p ∷ []))))))
        (child-post_order again (pair_left t bits p) el tl
          (λ q. traversal-post_order fuel tl q (ground arith)))
      ∙ ap (λ v. after t bits v (λ right. places (post_order l ++ (right ++ (p ∷ [])))))
          (child-post_order again (pair_right t bits p) er tr
            (λ q. traversal-post_order fuel tr q (ground arith)))

-- On a map of nonzero size whose links lead to a finite tree of pairs, and given fuel for the
-- height of the tree: `begin()` fills the empty cache with the pairs of the tree in post-order, so
-- that the root comes last.
pub map_cache-post_order :
    (t : Target) (bits fuel table n root : ℕ) (s : Pairs)
    → map_size t bits table ≡ some n
    → 0 < n
    → map_root t bits table ≡ some root
    → root ≢ 0
    → Tree t bits root s
    → depth s < suc fuel
    → map_cache t bits fuel table ≡ places (post_order s)
unfolding map_cache
map_cache-post_order t bits fuel table n root s size pos link' ne tree h =
    let filled' : (n == 0) ≡ false = ground arith in
    rw (map_cache, size, filled', link') (traversal-post_order t bits fuel tree ne h)
