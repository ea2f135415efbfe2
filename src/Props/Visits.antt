-- ===== src/Props/Visits.antt =====
-- `foreachProperty` visits the properties of the trie, and `findProperty` finds only those.
use open_core_analysis_kit.Base.{
  ℕ, zero, suc, ◌<◌, ◌≡◌, refl, ap, ◌∙◌, ◌==◌, if◌then◌else◌, true, false, some, List, [], ◌∷◌,
  ◌++◌, length, ◌⊎◌, inl, inr, add64, arith, Bool-cases, Option-cases,
}
use open_core_analysis_kit.Target.{Target, Sought, invalid, absent, found, endless}
use open_core_analysis_kit.Props.{
  to_prop_obj, follow, find_propbt, segment, after_dot, info_of, next_segment, find_segments, Visit,
  visited, and_then, visit_child, visit_info, visit_right, visit_under, visit_node,
  foreach_property,
}
use open_core_analysis_kit.Props.Trie.{
  Trie, node, height, infos, Has, IsOrdered, Rep, empty, filled, follow-rule,
}
use open_core_analysis_kit.Props.Search.{NonZero, Finds, find_propbt-Finds}

module _ (t : Target) (base : ℕ) where
  pub visit_child-infos :
      (p field : ℕ) {off : ℕ} {trie : Trie} (again : ℕ → Visit)
      → t.load p field 4 ≡ some off
      → Rep t base off trie
      → (0 < off → again (to_prop_obj base off) ≡ visited (infos base trie) true)
      → visit_child t base again p field ≡ visited (infos base trie) true
  visit_child-infos p field again e empty k = rw (visit_child, e) refl
  visit_child-infos p field {off} again e (filled pos x pp n s rl ru rr) k =
      let there : (off == 0) ≡ false = ground arith in rw (visit_child, e, there) (k pos)

  visit_info-own :
      (p prop : ℕ) (before : List ℕ) (k : List ℕ → Visit)
      → t.load p 4 4 ≡ some prop
      → (0 < prop → 0 < add64 base prop)
      → visit_info t base p before k ≡ k (if prop == 0 then [] else add64 base prop ∷ [])
  visit_info-own p zero before k e placed = rw (visit_info, e) refl
  visit_info-own p (suc prop) before k e placed =
      let some' : (suc prop == 0) ≡ false = ground arith in
      let there : (add64 base (suc prop) == 0) ≡ false = ground (arith, placed (omega arith)) in
      rw (visit_info, e, some', there) refl

  pub visit_node-infos :
      (again : ℕ → Visit) (p prop : ℕ) (l u r : Trie)
      → t.load p 4 4 ≡ some prop
      → (0 < prop → 0 < add64 base prop)
      → visit_child t base again p 8 ≡ visited (infos base l) true
      → visit_child t base again p 16 ≡ visited (infos base u) true
      → visit_child t base again p 12 ≡ visited (infos base r) true
      → (key : List ℕ)
      → visit_node t base again p ≡ visited (infos base (node l p prop key u r)) true
  visit_node-infos again p prop l u r e placed el eu er key =
      let own : List ℕ = (if prop == 0 then [] else add64 base prop ∷ []) in
      let left = infos base l in
      ap
        (λ v. and_then v (λ before. visit_info t base p before (visit_under t base again p before)))
        el
      ∙ visit_info-own p prop left (visit_under t base again p left) e placed
      ∙ ap (λ v. and_then v (visit_right t base again p left own)) eu
      ∙ ap (λ v. and_then v (λ right. visited (left ++ (own ++ (infos base u ++ right))) true)) er

  -- With fuel for the height, the callback gets every property of the trie, in order, and the
  -- traversal returns `true`.
  pub foreach_property-infos :
      (fuel : ℕ) {off : ℕ} {trie : Trie}
      → Rep t base off trie
      → 0 < off
      → height trie < suc fuel
      → foreach_property t base fuel (to_prop_obj base off) ≡ visited (infos base trie) true
  unfolding foreach_property
  foreach_property-infos fuel empty pos h = absurd (omega arith)
  foreach_property-infos zero (filled x e pp n s rl ru rr) pos h = absurd (omega arith)
  foreach_property-infos (suc fuel)
        (filled {off} {p} {prop} {key = key} {l} {u} {r} x e pp n s rl ru rr) pos h =
      let again = foreach_property t base fuel in
      let there : (p == 0) ≡ false = ground arith in
      let at_node =
        visit_node-infos again p prop l u r n.own n.placed
          (visit_child-infos p 8 again n.left rl
            (λ q. foreach_property-infos fuel rl q (ground arith)))
          (visit_child-infos p 16 again n.children ru
            (λ q. foreach_property-infos fuel ru q (ground arith)))
          (visit_child-infos p 12 again n.right rr
            (λ q. foreach_property-infos fuel rr q (ground arith)))
          key in
      ap (foreach_property t base (suc fuel)) e ∙ rw (foreach_property, there) at_node

-- The members of a list.
abbrev pub Among : ℕ → List ℕ → Type 0
Among i [] = ⊥
Among i (x ∷ xs) = (i ≡ x) ⊎ Among i xs

Among-left : (i : ℕ) (xs ys : List ℕ) → Among i xs → Among i (xs ++ ys)
Among-left i [] ys h = absurd h
Among-left i (x ∷ xs) ys (inl e) = inl e
Among-left i (x ∷ xs) ys (inr h) = inr (Among-left i xs ys h)

Among-right : (i : ℕ) (xs ys : List ℕ) → Among i ys → Among i (xs ++ ys)
Among-right i [] ys h = h
Among-right i (x ∷ xs) ys h = inr (Among-right i xs ys h)

-- What the target holds for a node that was found.
record Below (t : Target) (base q : ℕ) (trie : Trie) : Type 0 where
  prop : ℕ
  uo : ℕ
  u : Trie
  own : t.load q 4 4 ≡ some prop
  children : t.load q 16 4 ≡ some uo
  rep : Rep t base uo u
  ordered : IsOrdered u
  lower : height u < height trie
  listed : (i : ℕ) → Among i (infos base u) → Among i (infos base trie)
  owned : 0 < prop → Among (add64 base prop) (infos base trie)

Below-lift :
    (t : Target) (base q : ℕ) (small large : Trie)
    → height small < height large
    → ((i : ℕ) → Among i (infos base small) → Among i (infos base large))
    → Below t base q small
    → Below t base q large
Below-lift t base q small large h sub b = record {
  prop = b.prop;
  uo = b.uo;
  u = b.u;
  own = b.own;
  children = b.children;
  rep = b.rep;
  ordered = b.ordered;
  lower = omega (arith, b.lower);
  listed = λ i m. sub i (b.listed i m);
  owned = λ pos. sub (add64 base b.prop) (b.owned pos);
}

own-Among :
    (base prop : ℕ)
    → 0 < prop
    → Among (add64 base prop) (if prop == 0 then [] else add64 base prop ∷ [])
own-Among base prop pos = let there : (prop == 0) ≡ false = ground arith in rw there (inl refl)

module _ (base : ℕ) (l : Trie) (p prop : ℕ) (key : List ℕ) (u r : Trie) where
  abbrev own_infos : List ℕ
  own_infos = if prop == 0 then [] else add64 base prop ∷ []

  in_left : (i : ℕ) → Among i (infos base l) → Among i (infos base (node l p prop key u r))
  in_left i m = Among-left i (infos base l) (own_infos ++ (infos base u ++ infos base r)) m

  in_own : (i : ℕ) → Among i own_infos → Among i (infos base (node l p prop key u r))
  in_own i m =
      Among-right i (infos base l) (own_infos ++ (infos base u ++ infos base r))
        (Among-left i own_infos (infos base u ++ infos base r) m)

  in_under : (i : ℕ) → Among i (infos base u) → Among i (infos base (node l p prop key u r))
  in_under i m = Among-right i (infos base l) (own_infos ++ (infos base u ++ infos base r)) (
      Among-right i own_infos (infos base u ++ infos base r)
        (Among-left i (infos base u) (infos base r) m))

  in_right : (i : ℕ) → Among i (infos base r) → Among i (infos base (node l p prop key u r))
  in_right i m = Among-right i (infos base l) (own_infos ++ (infos base u ++ infos base r)) (
      Among-right i own_infos (infos base u ++ infos base r)
        (Among-right i (infos base u) (infos base r) m))

Has-Below :
    (t : Target) (base : ℕ) (key : List ℕ) (q : ℕ) {off : ℕ} {trie : Trie}
    → Rep t base off trie
    → IsOrdered trie
    → Has key q trie
    → Below t base q trie
Has-Below t base key q empty o h = absurd h
Has-Below t base key q (filled {p = p} {prop} {uo = uo} {key = k} {l} {u} {r} x e pp n s rl ru rr)
      (split, ol, ou, or) (inr (inl (here, name))) =
    record {
      prop = prop;
      uo = uo;
      u = u;
      own = rw here n.own;
      children = rw here n.children;
      rep = ru;
      ordered = ou;
      lower = ground arith;
      listed = in_under base l p prop k u r;
      owned = λ pos. in_own base l p prop k u r (add64 base prop) (own-Among base prop pos);
    }
Has-Below t base key q (filled {p = p} {prop} {key = k} {l} {u} {r} x e pp n s rl ru rr)
      (split, ol, ou, or) (inl h) =
    Below-lift t base q l (node l p prop k u r) (ground arith) (in_left base l p prop k u r)
      (Has-Below t base key q rl ol h)
Has-Below t base key q (filled {p = p} {prop} {key = k} {l} {u} {r} x e pp n s rl ru rr)
      (split, ol, ou, or) (inr (inr h)) =
    Below-lift t base q r (node l p prop k u r) (ground arith) (in_right base l p prop k u r)
      (Has-Below t base key q rr or h)

-- A search that ends without an exception; what it finds is among the properties of the trie.
abbrev pub Sound : ℕ → Trie → Sought → Type 0
Sound base trie (found i) = Among i (infos base trie)
Sound base trie absent = Unit
Sound base trie invalid = ⊥
Sound base trie endless = ⊥

Sound-lift :
    (base : ℕ) (small large : Trie) (s : Sought)
    → ((i : ℕ) → Among i (infos base small) → Among i (infos base large))
    → Sound base small s
    → Sound base large s
Sound-lift base small large (found i) sub h = sub i h
Sound-lift base small large absent sub h = h
Sound-lift base small large invalid sub h = h
Sound-lift base small large endless sub h = h

segment-prefix : (name : List ℕ) → (tail : List ℕ) × (name ≡ segment name ++ tail)
unfolding segment
segment-prefix [] = ([], refl)
segment-prefix (c ∷ cs) = elim (Bool-cases (c == b'.')) [
  | inl dot ↦ (c ∷ cs, rw dot refl)
  | inr other ↦ let (tail, e) = segment-prefix cs in (tail, rw other (ap (λ l. c ∷ l) e))
]

segment-NonZero : (name : List ℕ) → NonZero name → NonZero (segment name)
unfolding segment
segment-NonZero [] z = tt
segment-NonZero (c ∷ cs) (z, zs) = elim (Bool-cases (c == b'.')) [
  | inl dot ↦ rw dot tt
  | inr other ↦ rw other (z, segment-NonZero cs zs)
]

after_dot-rest :
    (name rest : List ℕ)
    → NonZero name
    → after_dot name ≡ some rest
    → (length rest < length name) × NonZero rest
unfolding after_dot
after_dot-rest [] rest z e = absurd (ground (arith, e))
after_dot-rest (c ∷ cs) rest (z, zs) e = elim (Bool-cases (c == b'.')) [
  | inl dot ↦
      let same : some cs ≡ some rest = (rw dot at e) in
      let here : cs ≡ rest = cc in rw (← here) (omega arith, zs)
  | inr other ↦ let (h, k) = after_dot-rest cs rest zs (rw other at e) in (omega arith, k)
]

info_of-Sound :
    (t : Target) (base q : ℕ) (u : Trie) → Below t base q u → Sound base u (info_of t base q)
info_of-Sound t base q u b = elim (Bool-cases (b.prop == 0)) [
  | inl no' ↦ let eq : info_of t base q ≡ absent = rw (info_of, follow, b.own, no') refl in rw eq tt
  | inr has ↦
      let eq : info_of t base q ≡ found (to_prop_obj base b.prop) =
        rw (info_of, follow, b.own, has) refl in
      rw eq (b.owned (ground arith))
]

module _ (t : Target) (base depth : ℕ) where
  next_segment-Sound :
      (again : ℕ → List ℕ → Sought) (name key : List ℕ) {uo : ℕ} {u : Trie} (s : Sought)
      → Rep t base uo u
      → IsOrdered u
      → ((q : ℕ) (rest : List ℕ) (b : Below t base q u)
          → after_dot name ≡ some rest
          → Sound base b.u (again q rest))
      → Finds key u s
      → Sound base u (next_segment t base again name s)
  next_segment-Sound again name key {u = u} (found q) rep o k has =
      let b = Has-Below t base key q rep o has in
      elim (Option-cases (after_dot name)) [
        | inl e ↦
            let eq : next_segment t base again name (found q) ≡ info_of t base q =
              rw (next_segment, e) refl in
            rw eq (info_of-Sound t base q u b)
        | inr (rest, e) ↦
            let eq : next_segment t base again name (found q) ≡ again q rest =
              rw (next_segment, e) refl in
            rw eq (Sound-lift base b.u u (again q rest) b.listed (k q rest b e))
      ]
  next_segment-Sound again name key absent rep o k has = tt
  next_segment-Sound again name key invalid rep o k has = has
  next_segment-Sound again name key endless rep o k has = has

  pub find_segments-Sound :
      (fuel current : ℕ) (name : List ℕ) {uo : ℕ} {u : Trie}
      → length name < fuel
      → NonZero name
      → t.load current 16 4 ≡ some uo
      → Rep t base uo u
      → IsOrdered u
      → height u < suc depth
      → Sound base u (find_segments t base depth fuel current name)
  unfolding find_segments
  find_segments-Sound zero current name lt z e rep o h = absurd (omega arith)
  find_segments-Sound (suc fuel) current name {uo} {u} lt z e rep o h =
      elim (Bool-cases (length (segment name) == 0)) [
        | inl empty' ↦ rw (find_segments, empty') tt
        | inr part ↦
            let (tail, whole) = segment-prefix name in
            let look = λ (root : ℕ).
              next_segment t base (find_segments t base depth fuel) name
                (find_propbt t base depth name (length (segment name)) root) in
            let eq : find_segments t base depth (suc fuel) current name
                ≡ follow t base current 16 look =
              rw (find_segments, part) refl in
            rw eq (
              follow-rule (Sound base u) t base current 16 look e rep (λ _. tt)
                (λ pos.
                  next_segment-Sound (find_segments t base depth fuel) name (segment name) _ rep o
                    (λ q rest b d.
                      let (shorter, nz) = after_dot-rest name rest z d in
                      find_segments-Sound fuel q rest (omega arith) nz b.children b.rep b.ordered
                        (omega (arith, b.lower)))
                    (rw (← whole) at (
                      find_propbt-Finds t base (segment name) tail (segment-NonZero name z) depth
                        rep o pos h))))
      ]
