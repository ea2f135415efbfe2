-- ===== src/Cxx.antt =====
-- Readers of libc++ containers in the target, llvm/cxx: their layouts and their iterators.
pub mod Chain
pub mod Tree
mod Examples
use open_core_analysis_kit.Base.{
  ℕ, zero, suc, ◌+◌, ◌-◌, ◌*◌, ◌/◌, ◌%◌, bit_and, ltb, ◌==◌, if◌then◌else◌, ◌||◌, not, Bool, true,
  false, Option, none, some, List, [], ◌∷◌, ◌++◌, length, add64, sub64, u64_mod, ◌>>=◌,
}
use open_core_analysis_kit.Target.{Target, word}

-- A layout of 64-bit fields, shrunk by `64 / CoreApi::Bits()`.
abbrev pub scaled : ℕ → ℕ → ℕ
scaled bits offset = offset / (64 / bits)

-- What a loop over an iterator comes to: the places of its elements, an exception, or no end.
pub data Loop : Type 0 where
  places : List ℕ → Loop
  raised : Loop
  running : Loop

infixr 67 ◌◂◌
abbrev pub ◌◂◌ : ℕ → Loop → Loop
x ◂ places xs = places (x ∷ xs)
x ◂ raised = raised
x ◂ running = running

module _ (t : Target) (bits : ℕ) where
  -- `list` and its nodes.
  abbrev pub list_next : ℕ → Option ℕ
  list_next p = word t p (scaled bits 8)

  abbrev pub list_value : ℕ → ℕ
  list_value p = add64 p (scaled bits 16)

  module _ (vabits_mask : ℕ) where
    unfoldable pub list_begin : ℕ → Option ℕ
    list_begin list = list_next list >>= λ n. some (bit_and n vabits_mask)

    unfoldable pub list_end : ℕ → ℕ
    list_end list = bit_and list vabits_mask

    unfoldable pub list_step : ℕ → Option ℕ
    list_step current = list_next current >>= λ n. some (bit_and n vabits_mask)

  -- `unordered_map`: `__p1_` is the first pair, and `__p2_` the number of pairs.
  unfoldable pub unordered_begin : ℕ → Option ℕ
  unordered_begin map = word t map (scaled bits 16)

  unfoldable pub unordered_size : ℕ → Option ℕ
  unordered_size map = word t map (scaled bits 24)

  unfoldable pub unordered_step : ℕ → Option ℕ
  unordered_step pair = word t pair 0

  abbrev pub unordered_data : ℕ → ℕ
  unordered_data pair = add64 pair (scaled bits 16)

  -- `map`: the root, and the number of pairs; a pair's children and value.
  unfoldable pub map_root : ℕ → Option ℕ
  map_root map = word t map (scaled bits 8)

  unfoldable pub map_size : ℕ → Option ℕ
  map_size map = word t map (scaled bits 16)

  abbrev pub pair_left : ℕ → Option ℕ
  pair_left p = word t p 0

  abbrev pub pair_right : ℕ → Option ℕ
  pair_right p = word t p (scaled bits 8)

  abbrev pub pair_data : ℕ → ℕ
  pair_data p = add64 p (scaled bits 32)

  -- `iterator::traversal`, which fills the cache: left, right, and then the pair itself.
  abbrev pub after : Loop → (List ℕ → Loop) → Loop
  after (places xs) k = k xs
  after raised k = raised
  after running k = running

  abbrev pub traverse_child : (ℕ → Loop) → Option ℕ → Loop
  traverse_child again none = raised
  traverse_child again (some q) = if q == 0 then places [] else again q

  unfoldable pub traversal : ℕ → ℕ → Loop
  traversal zero p = running
  traversal (suc fuel) p = after (traverse_child (traversal fuel) (pair_left p)) (λ left.
      after (traverse_child (traversal fuel) (pair_right p))
        (λ right. places (left ++ (right ++ (p ∷ [])))))

  -- `map::begin()` with an empty cache, and the values that the iterator then gives.
  unfoldable pub map_cache : ℕ → ℕ → Loop
  unfolding map_root map_size
  map_cache fuel map = elim (map_size map) [
    | none ↦ raised
    | some n ↦
        if n == 0
        then places []
        else (elim (map_root map) [ none ↦ raised | some root ↦ traversal fuel root ])
  ]

-- `for (it = begin; it != end; ++it)` over a chain of nodes.
unfoldable pub chain_loop : (ℕ → Option ℕ) → (ℕ → ℕ) → ℕ → ℕ → ℕ → Loop
chain_loop next value stop zero p = running
chain_loop next value stop (suc fuel) p = elim (p == stop) [
  | true ↦ places []
  | false ↦ value p ◂ (elim (next p) [ none ↦ raised | some q ↦ chain_loop next value stop fuel q ])
]

-- A loop over a `list`, and over an `unordered_map`.
unfoldable pub list_loop : Target → ℕ → ℕ → ℕ → ℕ → Loop
unfolding list_begin list_end list_step chain_loop
list_loop t bits vabits_mask fuel list = elim (list_begin t bits vabits_mask list) [
  | none ↦ raised
  | some first ↦
      chain_loop (list_step t bits vabits_mask) (list_value t bits)
        (list_end t bits vabits_mask list) fuel first
]

unfoldable pub unordered_loop : Target → ℕ → ℕ → ℕ → Loop
unfolding unordered_begin unordered_step chain_loop
unordered_loop t bits fuel map = elim (unordered_begin t bits map) [
  | none ↦ raised
  | some first ↦ chain_loop (unordered_step t bits) (unordered_data t bits) 0 fuel first
]
