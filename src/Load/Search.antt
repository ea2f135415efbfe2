-- ===== src/Load/Search.antt =====
-- `findLoadBlock` of core/api/core.h finds the block that holds an address.
use open_core_analysis_kit.Base.{
  ℕ, zero, suc, ◌+◌, ◌-◌, ◌/◌, ◌≤◌, ◌<◌, ◌≡◌, refl, bit_and, ltb, leb, ltb→lt, ltb→le, ◌==◌, ◌||◌,
  Bool, true, false, Option, none, some, List, [], ◌∷◌, length, arith, Bool-cases, inl, inr,
  Option-rule, Option-cases,
}
use native.Mathlib.Decide.{dec_lt}
use open_core_analysis_kit.Load.Table.{
  Core, nth, start_at, end_at, search, find_in, get_loads, find_load_block,
}

-- The segments of a table in increasing order, apart from one another.
pub record IsSorted (start end : ℕ → ℕ) (n : ℕ) : Type 0 where
  pub forward : (i : ℕ) → i < n → start i ≤ end i
  pub apart : (i j : ℕ) → i < j → j < n → end i ≤ start j

abbrev pub Holds : (ℕ → ℕ) → (ℕ → ℕ) → ℕ → ℕ → Type 0
Holds start end a i = (start i ≤ a) × (a < end i)

-- A hit is a segment that holds the address, and a miss means that none does.
abbrev pub Finds : (ℕ → ℕ) → (ℕ → ℕ) → ℕ → ℕ → Option ℕ → Type 0
Finds start end n a none = (i : ℕ) → i < n → ¬ (Holds start end a i)
Finds start end n a (some i) = (i < n) × Holds start end a i

record Inv (start end : ℕ → ℕ) (n a left right : ℕ) : Type 0 where
  inside : right ≤ n
  below : (i : ℕ) → i < left → i < n → end i ≤ a
  above : (i : ℕ) → right ≤ i → i < n → a < start i

module _ (start end : ℕ → ℕ) (n a : ℕ) (sorted : IsSorted start end n) where
  module _ {left right : ℕ} (inv : Inv start end n a left right) where
    lower_half : (mid : ℕ) → mid < right → a < start mid → Inv start end n a left mid
    lower_half mid h k = record {
      inside = omega (arith, inv.inside);
      below = inv.below;
      above = λ i p q. elim (dec_lt mid i) [
        | yes l ↦
            omega (arith, sorted.forward mid (omega (arith, inv.inside)), sorted.apart mid i l q)
        | no l ↦ let e : mid ≡ i = omega arith in rw (← e) k
      ];
    }

    upper_half : (mid : ℕ) → mid < right → end mid ≤ a → Inv start end n a (mid + 1) right
    upper_half mid h k = record {
      inside = inv.inside;
      below = λ i p q. elim (dec_lt i mid) [
        | yes l ↦ omega (
          arith,
          sorted.apart i mid l (omega (arith, inv.inside)),
          sorted.forward mid (omega (arith, inv.inside)),
        )
        | no l ↦ let e : i ≡ mid = omega arith in rw e k
      ];
      above = inv.above;
    }

    exhausted : right ≤ left → Finds start end n a none
    exhausted h i p (low, high) = elim (dec_lt i left) [
      | yes l ↦ omega (arith, inv.below i l p)
      | no l ↦ omega (arith, inv.above i (omega arith) p)
    ]

  search-Finds :
      (fuel left right : ℕ)
      → right - left ≤ fuel
      → Inv start end n a left right
      → Finds start end n a (search start end a fuel left right)
  unfolding search
  search-Finds zero left right h inv = exhausted inv (omega arith)
  search-Finds (suc fuel) left right h inv =
      let mid = left + (right - left) / 2 in
      elim (Bool-cases (ltb left right)) [
        | inr stop ↦ rw stop (exhausted inv (ltb→le left right stop))
        | inl go ↦ rw go (
            let lt = ltb→lt left right go in
            elim (Bool-cases (ltb a (start mid))) [
              | inl low ↦ rw low (
                  search-Finds fuel left mid (omega (arith, lt))
                    (lower_half inv mid (omega (arith, lt)) (ltb→lt a (start mid) low)))
              | inr high ↦ rw high (elim (Bool-cases (ltb a (end mid))) [
                | inl hit ↦ rw hit (
                  omega (arith, lt, inv.inside),
                  (ltb→le a (start mid) high, ltb→lt a (end mid) hit),
                )
                | inr past ↦ rw past (
                    search-Finds fuel (mid + 1) right (omega (arith, lt))
                      (upper_half inv mid (omega (arith, lt)) (ltb→le a (end mid) past)))
              ])
            ])
      ]

  -- Two segments that hold one address are one.
  pub Holds-unique : (i j : ℕ) → i < n → j < n → Holds start end a i → Holds start end a j → i ≡ j
  Holds-unique i j p q h k = elim (dec_lt i j) [
    | yes l ↦ absurd (omega (arith, sorted.apart i j l q))
    | no l ↦ elim (dec_lt j i) [
      | yes g ↦ absurd (omega (arith, sorted.apart j i g p))
      | no g ↦ omega arith
    ]
  ]

-- The segments of a table of the core file.
abbrev pub IsSortedTable : Core → List ℕ → Type 0
IsSortedTable c table = IsSorted (start_at c table) (end_at c table) (length table)

-- Outside the first start and the last end no segment of a sorted table holds the address.
outside_table :
    (start end : ℕ → ℕ) (n a : ℕ)
    → IsSorted start end (suc n)
    → (ltb a (start 0) || leb (end n) a) ≡ true
    → Finds start end (suc n) a none
outside_table start end n a sorted h i p (low, high) = ground (
  arith,
  sorted.forward 0 (omega arith),
  sorted.apart 0 i,
  sorted.apart i n,
  sorted.forward n (omega arith),
)

find_in-Finds :
    (c : Core) (table : List ℕ) (vaddr : ℕ)
    → IsSortedTable c table
    → Finds
        (start_at c table)
        (end_at c table)
        (length table)
        (bit_and vaddr c.vabits_mask)
        (find_in c table vaddr)
unfolding find_in
find_in-Finds c [] vaddr sorted = λ i p. absurd (omega arith)
find_in-Finds c (k ∷ rest) vaddr sorted =
    let a = bit_and vaddr c.vabits_mask in
    let start = start_at c (k ∷ rest) in
    let end = end_at c (k ∷ rest) in
    let n = length rest in
    let last : suc n - 1 ≡ n = omega arith in
    let filled : (suc n == 0) ≡ false = ground arith in
    rw (filled, last)
      (elim (Bool-cases (ltb a (start 0) || leb (end n) a)) [
        | inl out ↦ rw out (outside_table start end n a sorted out)
        | inr in' ↦ rw in' (
            search-Finds start end (suc n) a sorted (suc n) 0 (suc n) (omega arith) (record {
              inside = omega arith;
              below = λ i p q. absurd (omega arith);
              above = λ i p q. absurd (omega arith);
            }))
      ])

-- A block of the table that holds the address, or no block of it does.
abbrev pub FindsBlock : Core → List ℕ → ℕ → Option ℕ → Type 0
FindsBlock c table a none =
    (i : ℕ) → i < length table → ¬ (Holds (start_at c table) (end_at c table) a i)
FindsBlock c table a (some k) =
    (i : ℕ) × (i < length table) × (k ≡ nth table i) × Holds (start_at c table) (end_at c table) a i

-- On a sorted table `findLoadBlock` returns the block that holds the masked address, and the null
-- pointer exactly if no block of the table holds it.
pub find_load_block-FindsBlock :
    (c : Core) (vaddr : ℕ) (quick : Bool)
    → IsSortedTable c (get_loads c quick)
    → FindsBlock c (get_loads c quick) (bit_and vaddr c.vabits_mask) (find_load_block c vaddr quick)
unfolding find_load_block
find_load_block-FindsBlock c vaddr quick sorted =
    let table = get_loads c quick in
    let a = bit_and vaddr c.vabits_mask in
    let found = find_in-Finds c table vaddr sorted in
    Option-rule (FindsBlock c table a) (find_in c table vaddr) none (λ i. some (nth table i))
      (λ e. rw e at found) (λ i e. let (lt, holds) = (rw e at found) in (i, lt, refl, holds))

-- The search is complete: the block that holds the masked address is the one that is returned.
pub find_load_block_complete :
    (c : Core) (vaddr : ℕ) (quick : Bool) (i : ℕ)
    → IsSortedTable c (get_loads c quick)
    → i < length (get_loads c quick)
    → Holds
        (start_at c (get_loads c quick))
        (end_at c (get_loads c quick))
        (bit_and vaddr c.vabits_mask)
        i
    → find_load_block c vaddr quick ≡ some (nth (get_loads c quick) i)
find_load_block_complete c vaddr quick i sorted lt holds =
    let table = get_loads c quick in
    let a = bit_and vaddr c.vabits_mask in
    let found = find_load_block-FindsBlock c vaddr quick sorted in
    elim (Option-cases (find_load_block c vaddr quick)) [
      | inl e ↦ absurd ((rw e at found) i lt holds)
      | inr (k, e) ↦
          let (j, lt', same, holds') = (rw e at found) in
          let one : j ≡ i =
            Holds-unique (start_at c table) (end_at c table) (length table) a sorted j i lt' lt
              holds' holds in
          rw (e, same, one)
    ]
