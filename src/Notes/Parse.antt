-- ===== src/Notes/Parse.antt =====
-- The notes of a core file as `lp64::Core::load64` of core/lp64/core.cpp reads them.
use open_core_analysis_kit.Base.{
  ℕ, zero, suc, ◌+◌, ◌*◌, ◌/◌, ◌%◌, bit_and, ltb, ◌==◌, if◌then◌else◌, true, false, List, [], ◌∷◌,
  length, Memory, add64, u32_mod,
}
use open_core_analysis_kit.Target.{Run, running, done, ◌>>=◌}
use open_core_analysis_kit.Dwarf.Text.{le_bytes}
use open_core_analysis_kit.Notes.{
  NoteBlock, set_auxv_max_count, add_auxv_item, add_file_item, add_thread_item,
}

abbrev pub nt_prstatus : ℕ
nt_prstatus = 1

abbrev pub nt_auxv : ℕ
nt_auxv = 6

abbrev pub nt_file : ℕ
nt_file = 0x46494c45

abbrev pub nhdr_size : ℕ
nhdr_size = 12

-- `RoundUp(x, 4)` on uint32_t.
unfoldable pub round_up4 : ℕ → ℕ
round_up4 x = bit_and ((x + 3) % u32_mod) 0xfffffffc

-- `strlen`, and the text: the bytes up to the NUL, if there is one among `limit` bytes.
unfoldable pub c_text : ℕ → Memory → ℕ → Run (List ℕ)
c_text zero m p = running
c_text (suc limit) m p = elim (m p == 0) [
  | true ↦ done []
  | false ↦ c_text limit m (p + 1) >>= λ cs. done (m p ∷ cs)
]

-- What the loop over notes keeps: the block, and the last thread.
pub record Reading : Type 0 where
  pub block : NoteBlock
  pub last_context : ℕ

module _ (m : Memory) where
  -- NT_AUXV: up to AT_NULL, at most `count` items.
  unfoldable pub read_auxv : ℕ → ℕ → NoteBlock → NoteBlock
  unfolding le_bytes add_auxv_item
  read_auxv zero p b = b
  read_auxv (suc count) p b =
      let b' = add_auxv_item p (le_bytes m p 8) (le_bytes m (add64 p 8) 8) b in
      elim (le_bytes m p 8 == 0) [ true ↦ b' | false ↦ read_auxv count (add64 p 16) b' ]

  -- NT_FILE: the ranges at `p`, and their names one behind the other from `name` on.
  unfoldable pub read_files : ℕ → ℕ → ℕ → ℕ → NoteBlock → Run NoteBlock
  unfolding le_bytes c_text add_file_item
  read_files limit zero p name b = done b
  read_files limit (suc count) p name b = c_text limit m name >>= λ text.
      read_files limit count (add64 p 24) (add64 name (length text + 1)) (
        add_file_item (le_bytes m p 8) (le_bytes m (add64 p 8) 8) (le_bytes m (add64 p 16) 8) text
          b)

  -- The callback of the architecture, for a note's type, its data and the last thread.
  module _ (callback : ℕ → ℕ → ℕ → ℕ) (limit : ℕ) where
    abbrev pub descsz : ℕ → ℕ
    descsz pos = le_bytes m (add64 pos 4) 4

    -- A note without data has no place.
    abbrev pub item_pos : ℕ → ℕ
    item_pos pos =
        if descsz pos == 0 then 0 else add64 (add64 pos nhdr_size) (round_up4 (le_bytes m pos 4))

    unfoldable pub read_note : ℕ → Reading → Run Reading
    unfolding read_auxv read_files le_bytes add_thread_item set_auxv_max_count round_up4
    read_note pos r =
        let type = le_bytes m (add64 pos 8) 4 in
        let item = item_pos pos in
        let thread = callback type item r.last_context in
        let numauxv = descsz pos / 16 in
        let numfile = le_bytes m item 8 in
        let file = add64 item 16 in
        if type == nt_prstatus
        then done (record { block = add_thread_item thread r.block; last_context = thread })
        else (if type == nt_auxv
            then done
                (record r { block = read_auxv numauxv item (set_auxv_max_count numauxv r.block) })
            else (if type == nt_file
                then (read_files limit numfile file (add64 file (24 * numfile)) r.block >>= λ b.
                    done (record r { block = b }))
                else done r))

    -- The next note, behind the name and the data, each rounded up to four bytes.
    unfoldable pub next_note : ℕ → ℕ
    unfolding round_up4 le_bytes
    next_note pos =
        add64 (add64 (add64 pos nhdr_size) (round_up4 (le_bytes m pos 4))) (round_up4 (descsz pos))

    -- `while (pos < end)`.
    unfoldable pub note_loop : ℕ → ℕ → ℕ → Reading → Run Reading
    unfolding read_note next_note
    note_loop zero end pos r = elim (ltb pos end) [ false ↦ done r | true ↦ running ]
    note_loop (suc fuel) end pos r = elim (ltb pos end) [
      | false ↦ done r
      | true ↦ read_note pos r >>= λ r'. note_loop fuel end (next_note pos) r'
    ]

    -- The notes of a segment, as the loop over program headers starts.
    unfoldable pub read_notes : ℕ → NoteBlock → Run Reading
    unfolding note_loop
    read_notes fuel b =
        note_loop fuel (add64 b.oraddr b.real_size) b.oraddr
          (record { block = b; last_context = 0 })
