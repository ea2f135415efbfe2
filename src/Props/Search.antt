-- ===== src/Props/Search.antt =====
-- `findPropbt` on a level of the trie.
use open_core_analysis_kit.Base.{
  ℕ, zero, suc, ◌+◌, ◌<◌, ◌≡◌, refl, ap, ◌∙◌, ◌==◌, false, some, List, [], ◌∷◌, ◌++◌, length, All,
  ◌⊎◌, inl, inr, add64, arith,
}
use open_core_analysis_kit.Target.{Target, Sought, invalid, absent, found, endless}
use open_core_analysis_kit.Props.{
  Order, less, same, more, strncmp, compare_prop_name, to_prop_obj, follow, find_propbt,
}
use open_core_analysis_kit.Props.Trie.{
  Trie, leaf, node, height, compare_chars, compare_names, Has, Splits, IsOrdered, NodeAt, Spelled,
  Rep, empty, filled, follow-rule, eq_of_compare_names, compare_names_self,
}

-- A hit is a node of that name, and a miss means that there is none.
abbrev pub Finds : List ℕ → Trie → Sought → Type 0
Finds key trie (found q) = Has key q trie
Finds key trie absent = (q : ℕ) → ¬ (Has key q trie)
Finds key trie invalid = ⊥
Finds key trie endless = ⊥

abbrev pub NonZero : List ℕ → Type 0
NonZero cs = All (λ c. 0 < c) cs

module _ (t : Target) (base : ℕ) where
  strncmp-compare_chars :
      (p offset : ℕ) (key name tail : List ℕ)
      → Spelled t p offset key
      → NonZero name
      → length name ≡ length key
      → strncmp t (length name) (name ++ tail) p offset ≡ some (compare_chars name key)
  unfolding strncmp
  strncmp-compare_chars p offset [] [] tail s z e = refl
  strncmp-compare_chars p offset [] (c ∷ cs) tail s z e = absurd (omega arith)
  strncmp-compare_chars p offset (d ∷ ds) [] tail s z e = absurd (omega arith)
  strncmp-compare_chars p offset (d ∷ ds) (c ∷ cs) tail (s, pos, ss) (z, zs) e =
      rw s (ground (arith, strncmp-compare_chars p (offset + 1) ds cs tail ss zs (omega arith)))

  compare_prop_name-compare_names :
      {p prop lo uo ro : ℕ} {key : List ℕ} (name tail : List ℕ)
      → NodeAt t base p prop key lo uo ro
      → Spelled t p 20 key
      → NonZero name
      → compare_prop_name t (name ++ tail) (length name) p ≡ some (compare_names name key)
  unfolding compare_prop_name
  compare_prop_name-compare_names {p} {key = key} name tail n s z =
      rw n.namelen (ground (arith, strncmp-compare_chars p 20 key name tail s z))

Order-cases : (o : Order) → (o ≡ same) ⊎ (o ≡ less) ⊎ (o ≡ more)
Order-cases same = inl refl
Order-cases less = inr (inl refl)
Order-cases more = inr (inr refl)

Finds-eq :
    (key : List ℕ) (trie : Trie) {s s' : Sought} → s ≡ s' → Finds key trie s' → Finds key trie s
Finds-eq key trie e h = rw e h

module _ (key : List ℕ) {l r : Trie} (u : Trie) (p prop : ℕ) (k : List ℕ)
    (split : Splits l k r) where
  Finds-left :
      (s : Sought) → compare_names key k ≡ less → Finds key l s → Finds key (node l p prop k u r) s
  Finds-left (found q) e h = inl h
  Finds-left invalid e h = h
  Finds-left endless e h = h
  Finds-left absent e h = λ q has. elim has [
    | inl left ↦ h q left
    | inr other ↦ elim other [
      | inl (here, same') ↦
          let self : compare_names key k ≡ same = rw same' (compare_names_self k) in cc
      | inr right ↦ cc (e, split.behind key q right)
    ]
  ]

  Finds-right :
      (s : Sought) → compare_names key k ≡ more → Finds key r s → Finds key (node l p prop k u r) s
  Finds-right (found q) e h = inr (inr h)
  Finds-right invalid e h = h
  Finds-right endless e h = h
  Finds-right absent e h = λ q has. elim has [
    | inl left ↦ cc (e, split.before key q left)
    | inr other ↦ elim other [
      | inl (here, same') ↦
          let self : compare_names key k ≡ same = rw same' (compare_names_self k) in cc
      | inr right ↦ h q right
    ]
  ]

module _ (t : Target) (base : ℕ) (key tail : List ℕ) (nonzero : NonZero key) where
  missing : (trie : Trie) → trie ≡ leaf → Finds key trie absent
  missing trie e = rw e (λ q h. h)

  -- One round at a node.
  abbrev next_round : ℕ → ℕ → Order → Sought
  next_round fuel p same = found p
  next_round fuel p less = follow t base p 8 (find_propbt t base fuel (key ++ tail) (length key))
  next_round fuel p more = follow t base p 12 (find_propbt t base fuel (key ++ tail) (length key))

  find_propbt-next_round :
      (fuel off p : ℕ) (o : Order)
      → add64 base off ≡ p
      → 0 < p
      → compare_prop_name t (key ++ tail) (length key) p ≡ some o
      → find_propbt t base (suc fuel) (key ++ tail) (length key) (to_prop_obj base off)
        ≡ next_round fuel p o
  unfolding find_propbt
  find_propbt-next_round fuel off p o e pos c =
      let there : (p == 0) ≡ false = ground arith in
      ap (find_propbt t base (suc fuel) (key ++ tail) (length key)) e ∙ at_node o c there
    where
      at_node :
          (o : Order)
          → compare_prop_name t (key ++ tail) (length key) p ≡ some o
          → (p == 0) ≡ false
          → find_propbt t base (suc fuel) (key ++ tail) (length key) p ≡ next_round fuel p o
      at_node same c there = rw (find_propbt, there, c) refl
      at_node less c there = rw (find_propbt, there, c) refl
      at_node more c there = rw (find_propbt, there, c) refl

  -- On an ordered level: the node of the name, or nothing if there is none. The search ends.
  pub find_propbt-Finds :
      (fuel : ℕ) {off : ℕ} {tr : Trie}
      → Rep t base off tr
      → IsOrdered tr
      → 0 < off
      → height tr < suc fuel
      → Finds key tr (find_propbt t base fuel (key ++ tail) (length key) (to_prop_obj base off))
  find_propbt-Finds fuel empty o pos h = absurd (omega arith)
  find_propbt-Finds zero (filled x e pp n s rl ru rr) o pos h = absurd (omega arith)
  find_propbt-Finds (suc fuel) (filled {off} {p} {prop} {key = k} {l} {u} {r} x e pp n s rl ru rr)
        (split, ol, ou, or) pos h =
      let cmp = compare_prop_name-compare_names t base key tail n s nonzero in
      let again = find_propbt t base fuel (key ++ tail) (length key) in
      Finds-eq key (node l p prop k u r)
        (find_propbt-next_round fuel off p (compare_names key k) e pp cmp)
        (elim (Order-cases (compare_names key k)) [
          | inl same' ↦ rw same' (inr (inl (refl, eq_of_compare_names key k same')))
          | inr other ↦ elim other [
            | inl below ↦ rw below (
                Finds-left key u p prop k split _ below (
                  follow-rule (Finds key l) t base p 8 again n.left rl (missing l)
                    (λ q. find_propbt-Finds fuel rl ol q (ground arith))))
            | inr above ↦ rw above (
                Finds-right key u p prop k split _ above (
                  follow-rule (Finds key r) t base p 12 again n.right rr (missing r)
                    (λ q. find_propbt-Finds fuel rr or q (ground arith))))
          ]
        ])
