-- ===== src/Load/Headers.antt =====
-- `lp64::Core::load64` of core/lp64/core.cpp: the blocks and notes of a core file's program headers.
pub mod Sorted
mod Examples
use open_core_analysis_kit.Base.{
  ℕ, zero, suc, ◌+◌, ◌*◌, ◌^◌, ltb, leb, ◌==◌, if◌then◌else◌, ◌&&◌, not, Bool, true, false, Option,
  none, some, List, [], ◌∷◌, ◌++◌, Memory, add64,
}
use open_core_analysis_kit.Target.{Run, threw, running, done, ◌>>=◌}
use open_core_analysis_kit.Dwarf.Text.{le_bytes}
use open_core_analysis_kit.Load.Block.{LoadBlock, new_block, set_ori_addr}
use open_core_analysis_kit.Load.Table.{Core, add_load_block}
use open_core_analysis_kit.Notes.{NoteBlock}
use open_core_analysis_kit.Notes.Parse.{read_notes, Reading}

abbrev pub pt_load : ℕ
pt_load = 1

abbrev pub pt_note : ℕ
pt_note = 4

abbrev pub pn_xnum : ℕ
pn_xnum = 0xffff

pub record Loaded : Type 0 where
  pub core : Core
  pub notes : List NoteBlock

-- The mapped core file.
pub record CoreFile : Type 0 where
  pub mem : Memory
  pub begin : ℕ
  pub size : ℕ

module _ (f : CoreFile) where
  open f use {mem}

  -- `actual_phnum`, as a number of rounds: `sh_info` of the first section for PN_XNUM, read as an
  -- int; without sections the file is refused.
  unfoldable pub actual_phnum : Option ℕ
  unfolding le_bytes
  actual_phnum =
      let e_phnum = le_bytes mem (add64 f.begin 56) 2 in
      let shdr = add64 f.begin (le_bytes mem (add64 f.begin 40) 8) in
      let sh_info = le_bytes mem (add64 shdr 44) 4 in
      if e_phnum == pn_xnum
      then (if le_bytes mem (add64 f.begin 60) 2 == 0
          then none
          else some (if leb (2 ^ 31) sh_info then 0 else sh_info))
      else some e_phnum

  -- Fields of a program header.
  abbrev pub ph_type : ℕ → ℕ
  ph_type p = le_bytes mem p 4

  abbrev pub ph_offset : ℕ → ℕ
  ph_offset p = le_bytes mem (p + 8) 8

  abbrev pub ph_vaddr : ℕ → ℕ
  ph_vaddr p = le_bytes mem (p + 16) 8

  abbrev pub ph_filesz : ℕ → ℕ
  ph_filesz p = le_bytes mem (p + 32) 8

  abbrev pub ph_memsz : ℕ → ℕ
  ph_memsz p = le_bytes mem (p + 40) 8

  abbrev pub ph_truncated : ℕ → Bool
  ph_truncated p = ltb f.size (add64 (ph_offset p) (ph_filesz p))

  -- The block of a PT_LOAD, under the masks of the core.
  unfoldable pub load_segment : Core → ℕ → LoadBlock
  unfolding set_ori_addr le_bytes
  load_segment c p =
      let fresh =
        new_block (le_bytes mem (p + 4) 4) (ph_offset p) (ph_vaddr p) (le_bytes mem (p + 24) 8)
          (ph_filesz p) (ph_memsz p) (le_bytes mem (p + 48) 8) in
      let placed =
        set_ori_addr (add64 f.begin (ph_offset p)) (record fresh { truncated = ph_truncated p }) in
      record placed { vabits_mask = c.vabits_mask; point_mask = c.pointer_mask }

  abbrev pub note_segment : ℕ → NoteBlock
  note_segment p = record {
    oraddr = add64 f.begin (ph_offset p);
    real_size = ph_filesz p;
    overlay = none;
    auxv = [];
    auxv_max = 0;
    files = [];
    threads = [];
  }

  module _ (callback : ℕ → ℕ → ℕ → ℕ) (limit : ℕ) where
    -- One program header. A note that is truncated or empty is left out.
    unfoldable pub load_header : ℕ → Loaded → Run Loaded
    unfolding load_segment add_load_block read_notes le_bytes
    load_header p s =
        let blocks = record s { core = add_load_block (load_segment s.core p) s.core } in
        let noted = read_notes mem callback limit (ph_filesz p) (note_segment p) >>= λ r.
        done (record s { notes = s.notes ++ (r.block ∷ []) }) in
        if ph_type p == pt_load
        then done blocks
        else (if ph_type p == pt_note
            then (if not (ph_truncated p) && ltb 0 (ph_filesz p) then noted else done s)
            else done s)

    unfoldable pub load_headers : ℕ → ℕ → Loaded → Run Loaded
    unfolding load_header
    load_headers zero p s = done s
    load_headers (suc num) p s = load_header p s >>= λ s'. load_headers num (p + 56) s'

    -- `load64`; `none` is the result `false`.
    unfoldable pub load64 : Loaded → Run (Option Loaded)
    unfolding actual_phnum load_headers
    load64 s = elim actual_phnum [
      | none ↦ done none
      | some phnum ↦ load_headers phnum (f.begin + 64) s >>= λ s'. done (some s')
    ]
