-- ===== src/Notes/Append.antt =====
-- `NoteBlock::appendAuxvItem` of core/common/note_block.cpp on a vector that ends in AT_NULL.
use open_core_analysis_kit.Base.{
  ℕ, suc, ◌*◌, ◌≤◌, ◌<◌, ◌≡◌, ◌≢◌, refl, sym, ap, ◌∙◌, ltb, ◌==◌, true, false, inl, inr, Option,
  List, [], ◌∷◌, ◌++◌, length, All, Memory, add64, arith, length-append, append_assoc, Option-cases,
}
use open_core_analysis_kit.Notes.{
  NoteBlock, Auxv, retype, note_new_overlay, note_set_overlay, set_type_and_value, append_at,
  append_auxv_item, add_auxv_item, byte_of,
}

abbrev pub NonNull : List Auxv → Type 0
NonNull items = All (λ (a : Auxv). a.type ≢ 0) items

abbrev pub null_at : ℕ → Auxv
null_at address = record { address = address; type = 0; value = 0 }

-- The items, one more at the old end, and the new end behind it.
abbrev pub appended : (point_size type value : ℕ) → List Auxv → ℕ → List Auxv
appended point_size type value items end =
    items
    ++ (record { address = end; type = type; value = value }
        ∷ null_at (add64 end (2 * point_size))
        ∷ [])

note_new_overlay-auxv :
    (anon : Option ℕ) (m : Memory) (b : NoteBlock) → (note_new_overlay anon m b).1.auxv ≡ b.auxv
unfolding note_new_overlay
note_new_overlay-auxv anon m b = elim (Option-cases b.overlay) [
  | inr (o, e) ↦ rw (note_new_overlay, e) refl
  | inl e ↦ elim (Option-cases anon) [
    | inl f ↦ rw (note_new_overlay, e, f) refl
    | inr (a, f) ↦ rw (note_new_overlay, e, f) refl
  ]
]

note_set_overlay-auxv :
    (anon : Option ℕ) (addr : ℕ) (buf : ℕ → ℕ) (n : ℕ) (s : Memory × NoteBlock)
    → (note_set_overlay anon addr buf n s).1.auxv ≡ s.1.auxv
unfolding note_set_overlay
note_set_overlay-auxv anon addr buf n (m, b) =
    let r = note_new_overlay anon m b in
    elim (Option-cases r.1.overlay) [
      | inl e ↦ rw (note_set_overlay, e) (note_new_overlay-auxv anon m b)
      | inr (o, e) ↦ rw (note_set_overlay, e) (note_new_overlay-auxv anon m b)
    ]

retype-append :
    (type value : ℕ) (items rest : List Auxv) (a : Auxv)
    → retype (length items) type value (items ++ (a ∷ rest))
      ≡ items ++ (record a { type = type; value = value } ∷ rest)
retype-append type value [] rest a = refl
retype-append type value (b ∷ items) rest a =
    ap (λ l. b ∷ l) (retype-append type value items rest a)

module _ (anon : Option ℕ) (point_size type value : ℕ) where
  set_type_and_value-auxv :
      (i : ℕ) (a : Auxv) (s : Memory × NoteBlock)
      → (set_type_and_value anon point_size i type value a s).1.auxv ≡ retype i type value s.1.auxv
  unfolding set_type_and_value
  set_type_and_value-auxv i a s = ap (retype i type value) (
      note_set_overlay-auxv anon (add64 a.address point_size) (byte_of value) point_size
        (note_set_overlay anon a.address (byte_of type) point_size s)
      ∙ note_set_overlay-auxv anon a.address (byte_of type) point_size s)

  -- The loop, with `before` behind it and `items` and the end ahead.
  append_at-auxv :
      (before items : List Auxv) (end : Auxv) (s : Memory × NoteBlock)
      → NonNull items
      → end.type ≡ 0
      → s.1.auxv ≡ before ++ (items ++ (end ∷ []))
      → (append_at anon point_size type value (length before) (items ++ (end ∷ [])) s).1.auxv
        ≡ before ++ appended point_size type value items end.address
  unfolding append_at add_auxv_item
  append_at-auxv before [] end s h z e =
      let here : (end.type == 0) ≡ true = ground (arith, z) in
      rw (append_at, here)
        (rw
          (set_type_and_value-auxv (length before) end s, e, retype-append type value before [] end)
          (append_assoc before (record end { type = type; value = value } ∷ [])
            (null_at (add64 end.address (2 * point_size)) ∷ [])))
  append_at-auxv before (a ∷ items) end s (nz, h) z e =
      let more : (a.type == 0) ≡ false = ground (arith, nz) in
      let count : length (before ++ (a ∷ [])) ≡ suc (length before) =
        omega (arith, length-append before (a ∷ [])) in
      let next =
        append_at-auxv (before ++ (a ∷ [])) items end s h z
          (e ∙ sym (append_assoc before (a ∷ []) (items ++ (end ∷ [])))) in
      rw (append_at, more)
        ((rw count at next)
          ∙ append_assoc before (a ∷ []) (appended point_size type value items end.address))

-- On a vector whose only AT_NULL is its last item, and with room for one more: the new item takes
-- the place of the end, all others stay, and a new end follows two words behind. Without room,
-- nothing changes.
pub append_auxv_item-appended :
    (anon : Option ℕ) (point_size type value : ℕ) (items : List Auxv) (end : Auxv)
    → (m : Memory) (b : NoteBlock) → NonNull items
    → end.type ≡ 0
    → b.auxv ≡ items ++ (end ∷ [])
    → (suc (length items) < b.auxv_max
        → (append_auxv_item anon point_size type value (m, b)).1.auxv
          ≡ appended point_size type value items end.address)
      × (b.auxv_max ≤ suc (length items)
          → append_auxv_item anon point_size type value (m, b) ≡ (m, b))
unfolding append_auxv_item
append_auxv_item-appended anon point_size type value items end m b h z e = (room, full)
  where
    size : length b.auxv ≡ suc (length items)
    size = rw e (omega (arith, length-append items (end ∷ [])))

    room :
        suc (length items) < b.auxv_max
        → (append_auxv_item anon point_size type value (m, b)).1.auxv
          ≡ appended point_size type value items end.address
    room lt =
        let test : ltb (length b.auxv) b.auxv_max ≡ true = ground (arith, size, lt) in
        rw (append_auxv_item, test)
          (ap (λ l. (append_at anon point_size type value 0 l (m, b)).1.auxv) e
            ∙ append_at-auxv anon point_size type value [] items end (m, b) h z e)

    full :
        b.auxv_max ≤ suc (length items)
        → append_auxv_item anon point_size type value (m, b) ≡ (m, b)
    full le =
        let test : ltb (length b.auxv) b.auxv_max ≡ false = ground (arith, size, le) in
        rw (append_auxv_item, test) refl
