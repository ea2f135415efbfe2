-- ===== src/Elf/Dynamic.antt =====
-- `FindDynamicEntry` of core/api/elf.cpp on a dynamic section.
use open_core_analysis_kit.Base.{
  ℕ, zero, suc, ◌<◌, ◌≡◌, ◌≢◌, refl, ◌==◌, if◌then◌else◌, true, false, Bool-cases, inl, inr, some,
  List, [], ◌∷◌, length, add64, arith,
}
use open_core_analysis_kit.Target.{Run, done, ◌>>=◌, fetch}
use open_core_analysis_kit.Elf.{
  Space, d_type, d_val, dynamic_size, dynamic_loop, find_dynamic_entry,
}

-- The tags and values from `p` on, up to DT_NULL.
pub data Section (s : Space) : ℕ → List (ℕ × ℕ) → Type 0 where
  last : {p : ℕ} → d_type s p ≡ some 0 → Section s p []
  entry :
      {p tag value : ℕ} {entries : List (ℕ × ℕ)}
      → d_type s p ≡ some tag
      → tag ≢ 0
      → d_val s p ≡ some value
      → Section s (add64 p (dynamic_size s)) entries
      → Section s p ((tag, value) ∷ entries)

-- The value of the first entry with the tag, and 0 if there is none.
abbrev pub value_of_tag : ℕ → List (ℕ × ℕ) → ℕ
value_of_tag type [] = 0
value_of_tag type ((tag, value) ∷ entries) =
    if tag == type then value else value_of_tag type entries

module _ (s : Space) (type : ℕ) where
  -- What follows an entry with another tag: the end, or the next round.
  behind-value :
      (again : Run ℕ) {q : ℕ} {entries : List (ℕ × ℕ)}
      → Section s q entries
      → (entries ≢ [] → again ≡ done (value_of_tag type entries))
      → (fetch (d_type s q) >>= λ next. elim (next == 0) [ true ↦ done 0 | false ↦ again ])
        ≡ done (value_of_tag type entries)
  behind-value again (last e) k = rw e refl
  behind-value again (entry {tag = t} {value} {entries} e nz v rest) k =
      let more : (t == 0) ≡ false = ground (arith, nz) in rw (fetch, ◌>>=◌, e, more) (k (λ f. cc))

  dynamic_loop-value :
      (fuel : ℕ) {p : ℕ} {entries : List (ℕ × ℕ)}
      → Section s p entries
      → entries ≢ []
      → length entries < suc fuel
      → dynamic_loop s fuel type p ≡ done (value_of_tag type entries)
  unfolding dynamic_loop
  dynamic_loop-value fuel (last e) full h = absurd (full refl)
  dynamic_loop-value zero (entry et nz ev d) full h = absurd (ground arith)
  dynamic_loop-value (suc fuel) {p} (entry {tag = tag} {entries = entries} et nz ev d) full h =
      elim (Bool-cases (tag == type)) [
        | inl same ↦ rw (dynamic_loop, fetch, ◌>>=◌, et, same, ev, value_of_tag) refl
        | inr other ↦
            rw (dynamic_loop, fetch, ◌>>=◌, et, other, value_of_tag)
              (behind-value (dynamic_loop s fuel type (add64 p (dynamic_size s))) d
                (λ f. dynamic_loop-value fuel d f (ground arith)))
      ]

-- In a dynamic section with an entry, `FindDynamicEntry` gives the value of the first entry with
-- the tag, and 0 if there is none; the loop ends.
pub find_dynamic_entry-value :
    (s : Space) (fuel dynamic type tag value : ℕ) (entries : List (ℕ × ℕ))
    → s.valid dynamic ≡ true
    → Section s dynamic ((tag, value) ∷ entries)
    → suc (length entries) < suc fuel
    → find_dynamic_entry s fuel dynamic type ≡ done (value_of_tag type ((tag, value) ∷ entries))
unfolding find_dynamic_entry
find_dynamic_entry-value s fuel dynamic type tag value entries v d h =
    rw (find_dynamic_entry, v) (dynamic_loop-value s type fuel d (λ f. cc) h)
