-- ===== src/Dwarf/Resolve/Names.antt =====
-- The names that `ResolveTypeName` of core/api/dwarf.cpp gives to qualified types.
use open_core_analysis_kit.Base.{
  ℕ, suc, ◌==◌, false, append_assoc, ◌≡◌, ◌≢◌, refl, sym, some, List, [], ◌∷◌, ◌++◌, arith, ap, ◌∙◌,
}
use open_core_analysis_kit.Dwarf.Types.{TypeEntry}
use open_core_analysis_kit.Dwarf.Abbrev.{find}
use open_core_analysis_kit.Dwarf.Die.{is_empty}
use open_core_analysis_kit.Dwarf.Resolve.{
  Registry, const_text, volatile_text, prefixed, decorate, resolve_name, resolve_type_name,
}

-- The qualifiers of const and volatile types, and those of pointers, references and arrays.
pub data Front : ℕ → List ℕ → Type 0 where
  const' : Front 3 const_text
  volatile : Front 4 volatile_text

pub data Behind : ℕ → List ℕ → Type 0 where
  pointer : Behind 1 (b'*' ∷ [])
  reference : Behind 2 (b'&' ∷ [])
  array : Behind 6 (b'[' ∷ b']' ∷ [])

-- The registry has an entry at an offset that refers to `next`.
pub record Refers (reg : Registry) (offset qualifier next : ℕ) : Type 0 where
  pub entry : TypeEntry
  pub place : offset ≢ 0
  pub found : find offset reg ≡ some entry
  pub is : entry.qualifier ≡ qualifier
  pub to : entry.type_ref ≡ next

decorate-Front :
    {q : ℕ} {word : List ℕ} (e : TypeEntry) (inner : List ℕ)
    → Front q word
    → e.qualifier ≡ q
    → decorate e inner ≡ prefixed word inner
unfolding decorate
decorate-Front e inner const' h = ground arith
decorate-Front e inner volatile h = ground arith

decorate-Behind :
    {q : ℕ} {mark : List ℕ} (e : TypeEntry) (inner : List ℕ)
    → Behind q mark
    → e.qualifier ≡ q
    → decorate e inner ≡ inner ++ mark
unfolding decorate
decorate-Behind e inner pointer h = ground arith
decorate-Behind e inner reference h = ground arith
decorate-Behind e inner array h = ground arith

prefixed-append :
    (word s mark : List ℕ) → s ≢ [] → prefixed word (s ++ mark) ≡ prefixed word s ++ mark
unfolding prefixed is_empty
prefixed-append word [] mark h = absurd (h refl)
prefixed-append word (c ∷ s) mark h = sym (append_assoc word (b' ' ∷ c ∷ s) mark)

module _ (reg : Registry) where
  resolve_some :
      (levels : ℕ) {offset q next : ℕ} (r : Refers reg offset q next)
      → resolve_name (suc levels) reg offset ≡ decorate r.entry (resolve_name levels reg next)
  unfolding resolve_name
  resolve_some levels {offset} r =
      let there : (offset == 0) ≡ false = ground (arith, r.place) in
      rw (resolve_name, there, r.found, r.to) refl

  -- A named type has its own name.
  pub resolve_named :
      (levels : ℕ) {offset next : ℕ} (r : Refers reg offset 0 next)
      → resolve_name (suc levels) reg offset ≡ r.entry.name
  unfolding decorate
  resolve_named levels {next = next} r =
      resolve_some levels r ∙ (let h = r.is in rw (decorate, h) refl)

-- A const or volatile type of a pointer, a reference or an array resolves to the same name as the
-- pointer, reference or array of the const or volatile type, if the type itself has a name at the
-- depth that is left.
pub resolve_type_name-ambiguous :
    (reg : Registry) (outer p other c t q q' : ℕ) (word mark : List ℕ)
    → Front q word
    → Behind q' mark
    → Refers reg outer q p
    → Refers reg p q' t
    → Refers reg other q' c
    → Refers reg c q t
    → resolve_name 7 reg t ≢ []
    → (resolve_type_name reg outer ≡ resolve_type_name reg other)
      × (resolve_type_name reg outer ≡ prefixed word (resolve_name 7 reg t) ++ mark)
unfolding resolve_type_name
resolve_type_name-ambiguous reg outer p other c t q q' word mark front behind ro rp rb rc named =
    let s = resolve_name 7 reg t in
    let inner : resolve_name 8 reg p ≡ s ++ mark =
      resolve_some reg 7 rp ∙ decorate-Behind rp.entry s behind rp.is in
    let first : resolve_name 9 reg outer ≡ prefixed word s ++ mark =
      resolve_some reg 8 ro
      ∙ decorate-Front ro.entry (resolve_name 8 reg p) front ro.is
      ∙ ap (prefixed word) inner
      ∙ prefixed-append word s mark named in
    let inner' : resolve_name 8 reg c ≡ prefixed word s =
      resolve_some reg 7 rc ∙ decorate-Front rc.entry s front rc.is in
    let second : resolve_name 9 reg other ≡ prefixed word s ++ mark =
      resolve_some reg 8 rb
      ∙ decorate-Behind rb.entry (resolve_name 8 reg c) behind rb.is
      ∙ ap (λ (x : List ℕ). x ++ mark) inner' in
    (first ∙ sym second, first)
