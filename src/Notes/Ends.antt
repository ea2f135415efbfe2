-- ===== src/Notes/Ends.antt =====
-- The loop over the notes of a segment in core/lp64/core.cpp ends.
use Prim.Native.Nat.{min, digits, bit_and-bitwise}
use open_core_analysis_kit.Base.{
  ℕ, zero, suc, ◌+◌, ◌/◌, ◌%◌, ◌^◌, ◌≤◌, ◌<◌, ◌≡◌, refl, ltb, ◌==◌, true, false, Bool-cases, inl,
  inr, [], ◌∷◌, length, Memory, bit_and, add64, u32_mod, arith,
}
use open_core_analysis_kit.Target.{Run, done, ◌>>=◌}
use open_core_analysis_kit.Dwarf.Text.{le_bytes}
use open_core_analysis_kit.Notes.{NoteBlock, add_file_item}
use open_core_analysis_kit.Notes.Parse.{
  c_text, Reading, read_files, read_note, next_note, note_loop, read_notes, round_up4, descsz,
  nt_prstatus, nt_auxv, nt_file,
}

abbrev and_digits : ℕ → ℕ → ℕ → ℕ
and_digits n a b = digits (λ rest. 0) min n a b

and_digits-le : (n a b : ℕ) → and_digits n a b ≤ a
and_digits-le zero a b = omega arith
and_digits-le (suc n) zero b = omega arith
and_digits-le (suc n) (suc a) b = omega (arith, and_digits-le n (suc a / 2) (b / 2))

bit_and-le : (a b : ℕ) → bit_and a b ≤ a
bit_and-le a b = omega (arith, bit_and-bitwise a b, and_digits-le a a b)

round_up4-lt : (x : ℕ) → round_up4 x < 2 ^ 32
unfolding round_up4
round_up4-lt x = omega (arith, bit_and-le ((x + 3) % u32_mod) 0xfffffffc)

-- The value of a run that ends without an exception.
abbrev pub Returns {ℓ} : {A : Type ℓ} → Run A → Type ℓ
Returns {A = A} r = (a : A) × (r ≡ done a)

Returns-then {ℓ} :
    {A B : Type ℓ} (r : Run A) (f : A → Run B)
    → Returns r
    → ((a : A) → Returns (f a))
    → Returns (r >>= f)
Returns-then r f (a, e) h = rw e (h a)

-- A NUL stands among the `limit` bytes from every address on.
abbrev pub HasNul : Memory → ℕ → Type 0
HasNul m limit = (a : ℕ) → (i : ℕ) × (i < limit) × (m (a + i) ≡ 0)

c_text-Returns :
    (limit : ℕ) (m : Memory) (p i : ℕ) → m (p + i) ≡ 0 → i < limit → Returns (c_text limit m p)
unfolding c_text
c_text-Returns zero m p i e h = absurd (omega arith)
c_text-Returns (suc limit) m p zero e h =
    let nul : (m p == 0) ≡ true = ground (arith, e) in rw (c_text, nul) ([], refl)
c_text-Returns (suc limit) m p (suc i) e h = elim (Bool-cases (m p == 0)) [
  | inl nul ↦ rw (c_text, nul) ([], refl)
  | inr more ↦
      rw (c_text, more)
        (Returns-then (c_text limit m (p + 1)) (λ cs. done (m p ∷ cs))
          (c_text-Returns limit m (p + 1) i
            (let same : p + 1 + i ≡ p + suc i = omega arith in rw same e) (omega arith))
          (λ cs. (m p ∷ cs, refl)))
]

module _ (m : Memory) (limit : ℕ) (nul : HasNul m limit) where
  text-Returns : (p : ℕ) → Returns (c_text limit m p)
  text-Returns p = let (i, lt, e) = nul p in c_text-Returns limit m p i e lt

  read_files-Returns :
      (count p name : ℕ) (b : NoteBlock) → Returns (read_files m limit count p name b)
  unfolding read_files
  read_files-Returns zero p name b = (b, refl)
  read_files-Returns (suc count) p name b =
      Returns-then (c_text limit m name)
        (λ text. read_files m limit count (add64 p 24) (add64 name (length text + 1)) (
          add_file_item (le_bytes m p 8) (le_bytes m (add64 p 8) 8) (le_bytes m (add64 p 16) 8) text
            b))
        (text-Returns name)
        (λ text. read_files-Returns count (add64 p 24) (add64 name (length text + 1)) (
          add_file_item (le_bytes m p 8) (le_bytes m (add64 p 8) 8) (le_bytes m (add64 p 16) 8) text
            b))

  module _ (callback : ℕ → ℕ → ℕ → ℕ) where
    read_note-Returns : (pos : ℕ) (r : Reading) → Returns (read_note m callback limit pos r)
    unfolding read_note
    read_note-Returns pos r =
        let type = le_bytes m (add64 pos 8) 4 in
        elim (Bool-cases (type == nt_prstatus)) [
          | inl e ↦ rw (read_note, e) (_, refl)
          | inr e ↦ elim (Bool-cases (type == nt_auxv)) [
            | inl f ↦ rw (read_note, e, f) (_, refl)
            | inr f ↦ elim (Bool-cases (type == nt_file)) [
              | inr g ↦ rw (read_note, e, f, g) (_, refl)
              | inl g ↦
                  rw (read_note, e, f, g)
                    (Returns-then _ _ (read_files-Returns _ _ _ r.block) (λ b. (_, refl)))
            ]
          ]
        ]

    next_note-lt : (pos : ℕ) → pos < 2 ^ 63 → (pos < next_note m callback limit pos)
    unfolding next_note
    next_note-lt pos h =
        omega (arith, round_up4-lt (le_bytes m pos 4), round_up4-lt (descsz m callback limit pos))

    note_loop-Returns :
        (fuel end pos : ℕ) (r : Reading)
        → end ≤ 2 ^ 63
        → end ≤ pos + fuel
        → Returns (note_loop m callback limit fuel end pos r)
    unfolding note_loop
    note_loop-Returns zero end pos r h k =
        let over : ltb pos end ≡ false = ground (arith, k) in rw (note_loop, over) (r, refl)
    note_loop-Returns (suc fuel) end pos r h k = elim (Bool-cases (ltb pos end)) [
      | inr over ↦ rw (note_loop, over) (r, refl)
      | inl more ↦
          let small : pos < 2 ^ 63 = ground (arith, more, h) in
          let on = next_note-lt pos small in
          rw (note_loop, more)
            (Returns-then (read_note m callback limit pos r)
              (λ r'. note_loop m callback limit fuel end (next_note m callback limit pos) r')
              (read_note-Returns pos r)
              (λ r'.
                note_loop-Returns fuel end (next_note m callback limit pos) r' h (omega arith)))
    ]

-- For a segment in the lower half of the address space, with a NUL behind every name: the loop over
-- its notes ends after at most as many rounds as the segment has bytes, whatever the bytes are.
pub read_notes-Returns :
    (m : Memory) (callback : ℕ → ℕ → ℕ → ℕ) (limit fuel : ℕ) (b : NoteBlock)
    → HasNul m limit
    → b.oraddr + b.real_size ≤ 2 ^ 63
    → b.real_size ≤ fuel
    → Returns (read_notes m callback limit fuel b)
unfolding read_notes
read_notes-Returns m callback limit fuel b nul h k =
    note_loop-Returns m limit nul callback fuel (add64 b.oraddr b.real_size) b.oraddr
      (record { block = b; last_context = 0 }) (omega arith) (omega arith)
