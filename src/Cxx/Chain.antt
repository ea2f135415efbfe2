-- ===== src/Cxx/Chain.antt =====
-- Loops over `list` and `unordered_map` in llvm/cxx: the nodes of a chain, each once, in order.
use open_core_analysis_kit.Base.{
  ℕ, zero, suc, ◌<◌, ◌≡◌, ◌≢◌, refl, ap, ◌==◌, true, false, Option, some, List, [], ◌∷◌, length,
  map, arith, bit_and,
}
use open_core_analysis_kit.Target.{Target}
use open_core_analysis_kit.Cxx.{
  places, ◌◂◌, chain_loop, list_begin, list_end, list_step, list_value, list_loop, unordered_begin,
  unordered_step, unordered_data, unordered_loop,
}

-- The nodes from `p` on, up to the stop.
pub data Linked (next : ℕ → Option ℕ) (stop : ℕ) : ℕ → List ℕ → Type 0 where
  done : {p : ℕ} → p ≡ stop → Linked next stop p []
  link :
      {p q : ℕ} {nodes : List ℕ}
      → p ≢ stop
      → next p ≡ some q
      → Linked next stop q nodes
      → Linked next stop p (p ∷ nodes)

chain_loop-map :
    (next : ℕ → Option ℕ) (value : ℕ → ℕ) (stop fuel : ℕ) {p : ℕ} {nodes : List ℕ}
    → Linked next stop p nodes
    → length nodes < fuel
    → chain_loop next value stop fuel p ≡ places (map value nodes)
unfolding chain_loop
chain_loop-map next value stop zero l h = absurd (omega arith)
chain_loop-map next value stop (suc fuel) {p} (done e) h =
    let at : (p == stop) ≡ true = ground (arith, e) in rw (chain_loop, at) refl
chain_loop-map next value stop (suc fuel) {p} (link {q = q} {nodes} ne e l) h =
    let off : (p == stop) ≡ false = ground (arith, ne) in
    rw (chain_loop, off, e)
      (ap (λ s. value p ◂ s) (chain_loop-map next value stop fuel l (omega arith)))

-- The loop from `begin()` to `end()` of a list ends and gives the value of every node, in order.
pub list_loop-places :
    (t : Target) (bits vabits_mask fuel list first : ℕ) {nodes : List ℕ}
    → list_begin t bits vabits_mask list ≡ some first
    → Linked (list_step t bits vabits_mask) (bit_and list vabits_mask) first nodes
    → length nodes < fuel
    → list_loop t bits vabits_mask fuel list ≡ places (map (list_value t bits) nodes)
unfolding list_loop list_end
list_loop-places t bits vabits_mask fuel list first b l h =
    rw (list_loop, b)
      (chain_loop-map (list_step t bits vabits_mask) (list_value t bits) (bit_and list vabits_mask)
        fuel l h)

-- The same of an unordered map, whose chain ends in the null pointer.
pub unordered_loop-places :
    (t : Target) (bits fuel table first : ℕ) {nodes : List ℕ}
    → unordered_begin t bits table ≡ some first
    → Linked (unordered_step t bits) 0 first nodes
    → length nodes < fuel
    → unordered_loop t bits fuel table ≡ places (map (unordered_data t bits) nodes)
unfolding unordered_loop
unordered_loop-places t bits fuel table first b l h =
    rw (unordered_loop, b)
      (chain_loop-map (unordered_step t bits) (unordered_data t bits) 0 fuel l h)
