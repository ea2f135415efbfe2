-- ===== src/Props/Trie.antt =====
-- The trie that a property area holds: at each level a search tree by name, below each node the
-- names that go on behind its dot.
use open_core_analysis_kit.Base.{
  ℕ, suc, ◌+◌, ◌<◌, ◌≡◌, refl, ltb, ◌==◌, if◌then◌else◌, some, false, List, [], ◌∷◌, ◌++◌, length,
  ◌⊎◌, add64, arith,
}
use open_core_analysis_kit.Target.{Target, Sought, absent}
use open_core_analysis_kit.Props.{Order, less, same, more, to_prop_obj, follow}

pub data Trie : Type 0 where
  leaf : Trie
  node : (left : Trie) (p prop : ℕ) (key : List ℕ) (under right : Trie) → Trie

abbrev pub max_of : ℕ → ℕ → ℕ
max_of a b = if ltb a b then b else a

abbrev pub height : Trie → ℕ
height leaf = 0
height (node l p prop key u r) = suc (max_of (height l) (max_of (height u) (height r)))

-- Names of the same length, byte by byte; shorter ones come first.
abbrev pub compare_chars : List ℕ → List ℕ → Order
compare_chars (c ∷ cs) (d ∷ ds) =
    if ltb c d then less else (if ltb d c then more else compare_chars cs ds)
compare_chars _ _ = same

abbrev pub compare_names : List ℕ → List ℕ → Order
compare_names a b =
    if ltb (length a) (length b)
    then less
    else (if ltb (length b) (length a) then more else compare_chars a b)

-- A node of the level: its name, its address.
abbrev pub Has : List ℕ → ℕ → Trie → Type 0
Has key q leaf = ⊥
Has key q (node l p prop k u r) = Has key q l ⊎ ((q ≡ p) × (key ≡ k)) ⊎ Has key q r

pub record Splits (l : Trie) (k : List ℕ) (r : Trie) : Type 0 where
  pub before : (key : List ℕ) (q : ℕ) → Has key q l → compare_names key k ≡ less
  pub behind : (key : List ℕ) (q : ℕ) → Has key q r → compare_names key k ≡ more

abbrev pub IsOrdered : Trie → Type 0
IsOrdered leaf = Unit
IsOrdered (node l p prop k u r) = Splits l k r × IsOrdered l × IsOrdered u × IsOrdered r

-- The properties of all names, in the order of the traversal.
abbrev pub infos : ℕ → Trie → List ℕ
infos base leaf = []
infos base (node l p prop k u r) =
    infos base l
    ++ ((if prop == 0 then [] else add64 base prop ∷ []) ++ (infos base u ++ infos base r))

-- The fields of a node in the target.
pub record NodeAt (t : Target) (base p prop : ℕ) (key : List ℕ) (lo uo ro : ℕ) : Type 0 where
  pub namelen : t.load p 0 4 ≡ some (length key)
  pub own : t.load p 4 4 ≡ some prop
  pub left : t.load p 8 4 ≡ some lo
  pub right : t.load p 12 4 ≡ some ro
  pub children : t.load p 16 4 ≡ some uo
  pub placed : 0 < prop → 0 < add64 base prop

-- The bytes of a name in the target, none of them NUL.
abbrev pub Spelled : Target → ℕ → ℕ → List ℕ → Type 0
Spelled t p offset [] = Unit
Spelled t p offset (c ∷ cs) = (t.load p offset 1 ≡ some c) × (0 < c) × Spelled t p (offset + 1) cs

-- The trie at an offset of the area; 0 is the empty one.
pub data Rep (t : Target) (base : ℕ) : ℕ → Trie → Type 0 where
  empty : Rep t base 0 leaf
  filled :
      {off p prop lo uo ro : ℕ} {key : List ℕ} {l u r : Trie}
      → 0 < off
      → add64 base off ≡ p
      → 0 < p
      → NodeAt t base p prop key lo uo ro
      → Spelled t p 20 key
      → Rep t base lo l
      → Rep t base uo u
      → Rep t base ro r
      → Rep t base off (node l p prop key u r)

-- The same name is the same list.
pub eq_of_compare_chars : (a b : List ℕ) → length a ≡ length b → compare_chars a b ≡ same → a ≡ b
eq_of_compare_chars [] [] e h = refl
eq_of_compare_chars [] (d ∷ ds) e h = absurd (omega arith)
eq_of_compare_chars (c ∷ cs) [] e h = absurd (omega arith)
eq_of_compare_chars (c ∷ cs) (d ∷ ds) e h = ground (arith, eq_of_compare_chars cs ds (omega arith))

pub eq_of_compare_names : (a b : List ℕ) → compare_names a b ≡ same → a ≡ b
eq_of_compare_names a b h = ground (arith, eq_of_compare_chars a b)

pub compare_chars_self : (a : List ℕ) → compare_chars a a ≡ same
compare_chars_self [] = refl
compare_chars_self (c ∷ cs) = ground (arith, compare_chars_self cs)

pub compare_names_self : (a : List ℕ) → compare_names a a ≡ same
compare_names_self a = ground (arith, compare_chars_self a)

-- An offset that is followed: nothing for the empty trie, and the search at its root for another.
pub follow-rule {ℓ} :
    (P : Sought → Type ℓ) (t : Target) (base p field : ℕ) {off : ℕ} {trie : Trie} (go : ℕ → Sought)
    → t.load p field 4 ≡ some off
    → Rep t base off trie
    → (trie ≡ leaf → P absent)
    → (0 < off → P (go (to_prop_obj base off)))
    → P (follow t base p field go)
follow-rule P t base p field go e empty none' k =
    let eq : follow t base p field go ≡ absent = rw (follow, e) refl in rw eq (none' refl)
follow-rule P t base p field {off} go e (filled pos x pp n s rl ru rr) none' k =
    let there : (off == 0) ≡ false = ground arith in
    let eq : follow t base p field go ≡ go (to_prop_obj base off) = rw (follow, e, there) refl in
    rw eq (k pos)
