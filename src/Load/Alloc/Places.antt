-- ===== src/Load/Alloc/Places.antt =====
-- Where `newLoadBlock` puts a segment in the table of all blocks.
use open_core_analysis_kit.Base.{
  ℕ, zero, suc, ◌+◌, ◌-◌, ◌≤◌, ◌<◌, ◌≡◌, refl, ap, ◌∙◌, bit_and, ltb, ltb→le, le→ltb, ◌==◌,
  if◌then◌else◌, true, false, none, some, List, [], ◌∷◌, length, insert_at, All, arith, Bool-cases,
  inl, inr, add64, u64_mod,
}
use native.Mathlib.Decide.{dec_lt}
use open_core_analysis_kit.Load.Block.{new_overlay, is_some}
use open_core_analysis_kit.Load.Table.{Core, nth, start_at, end_at, find_load_block}
use open_core_analysis_kit.Load.Search.{IsSortedTable}
use open_core_analysis_kit.Load.Alloc.{
  page_size, round_up, Place, quick_place, load_place, place_at, place_first, place_anywhere,
  choose_place, fake_block, insert_block, new_load_block,
}

-- The first position whose block starts above `begin`, or the last position.
pub record Fits (c : Core) (begin : ℕ) (table : List ℕ) (i : ℕ) : Type 0 where
  pub inside : i < length table
  pub below : (j : ℕ) → j < i → start_at c table j ≤ begin
  pub first : suc i < length table → begin < start_at c table i

-- What bounds a segment at a position: the start of the block there, at the last one the mask.
abbrev pub limit : Core → List ℕ → ℕ → ℕ
limit c table i = if suc i == length table then c.vabits_mask else start_at c table i

limit-later :
    (c : Core) (k : ℕ) (table : List ℕ) (i : ℕ) → limit c (k ∷ table) (suc i) ≡ limit c table i
limit-later c k table i = elim (Bool-cases (suc i == length table)) [
  | inl e ↦
      let same : (suc (suc i) == suc (length table)) ≡ true = ground (arith, e) in
      rw (limit, same, e) refl
  | inr e ↦
      let other : (suc (suc i) == suc (length table)) ≡ false = ground (arith, e) in
      rw (limit, other, e) refl
]

Fits-later :
    (c : Core) (begin k : ℕ) (table : List ℕ) (i : ℕ)
    → (c.block k).vaddr ≤ begin
    → Fits c begin table i
    → Fits c begin (k ∷ table) (suc i)
Fits-later c begin k table i h f = record {
  inside = omega (arith, f.inside);
  below = below;
  first = λ lt. f.first (omega arith);
}
  where
    below : (j : ℕ) → j < suc i → start_at c (k ∷ table) j ≤ begin
    below zero lt = h
    below (suc j) lt = f.below j (omega arith)

Fits-here :
    (c : Core) (begin k : ℕ) (rest : List ℕ)
    → (0 < length rest → begin < (c.block k).vaddr)
    → Fits c begin (k ∷ rest) 0
Fits-here c begin k rest h = record {
  inside = omega arith;
  below = λ j lt. absurd (omega arith);
  first = λ lt. h (omega arith);
}

-- For a segment whose end does not wrap, the loop of newLoadBlock over the blocks stops at the
-- first one that starts above the segment's start, or at the last one. It gives this position if
-- the segment ends at or before the start of the block there, at the last one at or before the
-- mask; else it finds no place.
pub load_place-Fits :
    (c : Core) (begin size k : ℕ) (rest : List ℕ) (idx : ℕ)
    → begin + size < u64_mod
    → (i : ℕ) × Fits c begin (k ∷ rest) i
      × (begin + size ≤ limit c (k ∷ rest) i
          → load_place c begin size (k ∷ rest) idx ≡ some (idx + i))
      × (limit c (k ∷ rest) i < begin + size → load_place c begin size (k ∷ rest) idx ≡ none)
unfolding load_place
load_place-Fits c begin size k [] idx h = (
  0,
  Fits-here c begin k [] (λ lt. absurd (omega arith)),
  λ room. ground arith,
  λ full. ground arith,
)
load_place-Fits c begin size k (k' ∷ rest) idx h = elim (Bool-cases (ltb begin (c.block k).vaddr)) [
  | inl here ↦
      let more : (1 == length (k ∷ k' ∷ rest)) ≡ false = ground arith in
      (
        0,
        Fits-here c begin k (k' ∷ rest) (λ lt. ground (arith, here)),
        λ room. let bound : begin + size ≤ (c.block k).vaddr = (rw more at room) in ground arith,
        λ full. let bound : (c.block k).vaddr < begin + size = (rw more at full) in ground arith,
      )
  | inr later ↦
      let (i, f, some', none') = load_place-Fits c begin size k' rest (idx + 1) h in
      let same = limit-later c k (k' ∷ rest) i in
      let next : idx + 1 + i ≡ idx + suc i = omega arith in
      (
        suc i,
        Fits-later c begin k (k' ∷ rest) i (ltb→le begin (c.block k).vaddr later) f,
        λ room. rw later (some' (omega (arith, room, same)) ∙ ap some next),
        λ full. rw later (none' (omega (arith, full, same))),
      )
]

-- Above all blocks the loop stops at the last one, and not behind it.
load_place-last :
    (c : Core) (begin size k : ℕ) (rest : List ℕ) (idx : ℕ)
    → ((j : ℕ) → j < length (k ∷ rest) → start_at c (k ∷ rest) j ≤ begin)
    → add64 begin size ≤ c.vabits_mask
    → load_place c begin size (k ∷ rest) idx ≡ some (idx + length rest)
unfolding load_place
load_place-last c begin size k [] idx above fits = ground arith
load_place-last c begin size k (k' ∷ rest) idx above fits =
    rw (le→ltb begin (c.block k).vaddr (above 0 (omega arith))) (
      load_place-last c begin size k' rest (idx + 1) (λ j lt. above (suc j) (omega arith)) fits
      ∙ ap some (omega arith))

nth-insert_at : (xs : List ℕ) (i v : ℕ) → i ≤ length xs → nth (insert_at xs i v) i ≡ v
nth-insert_at xs zero v h = refl
nth-insert_at [] (suc i) v h = absurd (omega arith)
nth-insert_at (x ∷ xs) (suc i) v h = nth-insert_at xs i v (omega arith)

nth-insert_at_next :
    (xs : List ℕ) (i v : ℕ) → i < length xs → nth (insert_at xs i v) (suc i) ≡ nth xs i
nth-insert_at_next [] i v h = absurd (omega arith)
nth-insert_at_next (x ∷ xs) zero v h = refl
nth-insert_at_next (x ∷ xs) (suc i) v h = nth-insert_at_next xs i v (omega arith)

length-insert_at :
    (xs : List ℕ) (i v : ℕ) → i ≤ length xs → length (insert_at xs i v) ≡ suc (length xs)
length-insert_at xs zero v h = refl
length-insert_at [] (suc i) v h = absurd (omega arith)
length-insert_at (x ∷ xs) (suc i) v h = ap suc (length-insert_at xs i v (omega arith))

All-nth : (n : ℕ) (xs : List ℕ) (i : ℕ) → All (λ k. k < n) xs → i < length xs → nth xs i < n
All-nth n [] i h lt = absurd (omega arith)
All-nth n (x ∷ xs) zero (h, hs) lt = h
All-nth n (x ∷ xs) (suc i) (h, hs) lt = All-nth n xs i hs (omega arith)

-- The request of a segment above all blocks of a filled table.
pub record Above (c : Core) (vaddr n : ℕ) : Type 0 where
  pub filled : 0 < length c.loads
  pub fresh : All (λ k. k < c.next) c.loads
  pub begin_pos : 0 < round_up (bit_and vaddr c.vabits_mask) page_size
  pub size_pos : 0 < round_up n page_size
  pub sorted : IsSortedTable c c.loads
  pub behind :
      end_at c c.loads (length c.loads - 1) ≤ round_up (bit_and vaddr c.vabits_mask) page_size
  pub free : find_load_block c (round_up (bit_and vaddr c.vabits_mask) page_size) false ≡ none
  pub no_wrap : round_up (bit_and vaddr c.vabits_mask) page_size + round_up n page_size < u64_mod
  pub fits : round_up (bit_and vaddr c.vabits_mask) page_size + round_up n page_size ≤ c.vabits_mask

-- In a sorted table every block starts before the last one ends.
Above-starts :
    (c : Core) (vaddr n j : ℕ)
    → Above c vaddr n
    → j < length c.loads
    → start_at c c.loads j ≤ round_up (bit_and vaddr c.vabits_mask) page_size
Above-starts c vaddr n j a h =
    let last = length c.loads - 1 in
    elim (dec_lt j last) [
      | yes before ↦ omega (
        arith,
        a.behind,
        a.sorted.forward j h,
        a.sorted.apart j last before (omega arith),
        a.sorted.forward last (omega arith),
      )
      | no behind ↦
          let same : j ≡ last = omega arith in
          omega (arith, a.behind, a.sorted.forward last (omega arith), ap (start_at c c.loads) same)
    ]

load_place_above :
    (c : Core) (begin size : ℕ) (table : List ℕ)
    → 0 < length table
    → ((j : ℕ) → j < length table → start_at c table j ≤ begin)
    → add64 begin size ≤ c.vabits_mask
    → load_place c begin size table 0 ≡ some (length table - 1)
load_place_above c begin size [] h above fits = absurd (omega arith)
load_place_above c begin size (k ∷ rest) h above fits =
    load_place-last c begin size k rest 0 above fits ∙ ap some (omega arith)

positive : (n : ℕ) → 0 < n → (n == 0) ≡ false
positive n h = ground arith

module _ (c : Core) (vaddr n : ℕ) (a : Above c vaddr n) where
  abbrev wanted : ℕ
  wanted = round_up (bit_and vaddr c.vabits_mask) page_size

  abbrev extent : ℕ
  extent = round_up n page_size

  abbrev place_behind : Place
  place_behind = record {
    begin = wanted;
    in_load = length c.loads - 1;
    in_quick = quick_place c wanted c.quick 0;
  }

  place_at_above : place_at c wanted extent ≡ some place_behind
  unfolding place_at
  place_at_above = rw (
      load_place_above c wanted extent c.loads a.filled (λ j lt. Above-starts c vaddr n j a lt)
        (omega (arith, a.fits, a.no_wrap)))

  choose_above : choose_place c wanted extent ≡ some place_behind
  unfolding choose_place
  choose_above = rw (positive extent a.size_pos) (
      (elim c.loads
          as (λ l.
            0 < length l
            → elim l [
              | [] ↦ place_first c wanted extent
              | first ∷ rest ↦
                  if is_some (find_load_block c wanted false)
                  then none
                  else (if wanted == 0
                      then place_anywhere c extent first rest
                      else place_at c wanted extent)
            ]
              ≡ some place_behind) [
                | [] ↦ λ h. absurd (omega arith)
                | first ∷ rest ↦ λ h. rw (a.free, positive wanted a.begin_pos) place_at_above
              ])
        a.filled)

  run_above :
      (addr flags : ℕ)
      → new_load_block (some addr) c vaddr n flags
        ≡ insert_block (some addr) c extent flags place_behind
  unfolding new_load_block
  run_above addr flags = rw (choose_above, new_load_block)

  -- The new block stands before the last block, in front of which it does not belong.
  misplaced :
      (addr flags : ℕ)
      → IsSortedTable
          (insert_block (some addr) c extent flags place_behind).0
          (insert_block (some addr) c extent flags place_behind).0.loads
      → ⊥
  unfolding insert_block new_overlay fake_block
  misplaced addr flags sorted =
      let i = length c.loads - 1 in
      let c' = (insert_block (some addr) c extent flags place_behind).0 in
      let here : nth (insert_at c.loads i c.next) i ≡ c.next =
        nth-insert_at c.loads i c.next (omega (arith, a.filled)) in
      let behind : nth (insert_at c.loads i c.next) (suc i) ≡ nth c.loads i =
        nth-insert_at_next c.loads i c.next (omega (arith, a.filled)) in
      let old : (nth c.loads i == c.next) ≡ false =
        ground (arith, All-nth c.next c.loads i a.fresh (omega (arith, a.filled))) in
      let own : (c.next == c.next) ≡ true = ground arith in
      let first : end_at c' c'.loads i ≡ add64 wanted extent = rw (here, own) in
      let second : start_at c' c'.loads (suc i) ≡ start_at c c.loads i =
        ap (λ (k : ℕ). (c'.block k).vaddr) behind ∙ rw old in
      omega (
        arith,
        a.filled,
        first,
        second,
        Above-starts c vaddr n i a (omega (arith, a.filled)),
        a.no_wrap,
        a.size_pos,
        sorted.apart i (suc i) (omega arith)
            (omega (arith, a.filled, length-insert_at c.loads i c.next (omega (arith, a.filled)))),
      )

-- On a sorted table of all blocks with a block at least, a segment of nonzero size that is asked
-- for behind the end of the last block, in free space below the mask, is made at that address, but
-- its block is inserted before the last one, and the table is no longer sorted.
pub new_load_block_unsorted :
    (c : Core) (vaddr n addr flags : ℕ)
    → Above c vaddr n
    → (c' : Core) × (new_load_block (some addr) c vaddr n flags
        ≡ (c', round_up (bit_and vaddr c.vabits_mask) page_size))
      × (c'.loads ≡ insert_at c.loads (length c.loads - 1) c.next)
      × ((c'.block c.next).vaddr ≡ round_up (bit_and vaddr c.vabits_mask) page_size)
      × (¬ (IsSortedTable c' c'.loads))
new_load_block_unsorted c vaddr n addr flags a =
    let own : (c.next == c.next) ≡ true = ground arith in
    (
      (insert_block (some addr) c (round_up n page_size) flags (place_behind c vaddr n a)).0,
      run_above c vaddr n a addr flags ∙ (unfold insert_block new_overlay fake_block in refl),
      (unfold insert_block new_overlay fake_block in refl),
      (unfold insert_block new_overlay fake_block in rw own refl),
      misplaced c vaddr n a addr flags,
    )
