-- ===== src/Dwarf/Locate.antt =====
-- `DecompressSection`, `LocateSections`, `Init` and `ForEachStruct` of core/api/dwarf.cpp.
pub mod Inside
mod Examples
use open_core_analysis_kit.Base.{
  ℕ, zero, suc, ◌+◌, ◌-◌, ◌*◌, bit_and, ltb, leb, ◌==◌, if◌then◌else◌, ◌&&◌, ◌||◌, not, Bool, true,
  false, Option, none, some, List, [], ◌∷◌, Memory, add64,
}
use open_core_analysis_kit.Dwarf.Types.{Sections, StructInfo}
use open_core_analysis_kit.Dwarf.Text.{le_bytes}
use open_core_analysis_kit.Dwarf.Abbrev.{parse_abbrev_section}
use open_core_analysis_kit.Dwarf.CompileUnit.{parse_info_section}

-- A mapped library.
pub record Image : Type 0 where
  pub mem : Memory
  pub data_at : ℕ
  pub size : ℕ

-- `ZSTD_decompress` into a buffer of a size, from a payload and its size: the buffer's address and
-- the size of the result, or an error. `none` is a build without zstd.
abbrev pub Zstd : Type 0
Zstd = Option (ℕ → ℕ → ℕ → Option (ℕ × ℕ))

abbrev pub elfcompress_zstd : ℕ
elfcompress_zstd = 2

abbrev pub sht_nobits : ℕ
sht_nobits = 8

abbrev pub shf_compressed : ℕ
shf_compressed = 0x800

-- A field of the 64-bit or of the 32-bit layout.
abbrev pub pick : Bool → ℕ → ℕ → ℕ
pick wide a b = if wide then a else b

-- `DecompressSection`.
unfoldable pub decompress_section : Zstd → Memory → Bool → ℕ → ℕ → Option (ℕ × ℕ)
unfolding le_bytes
decompress_section zstd m wide raw raw_size =
    let chdr_size = pick wide 24 12 in
    let ch_type = le_bytes m raw 4 in
    let ch_size = if wide then le_bytes m (raw + 8) 8 else le_bytes m (raw + 4) 4 in
    if ltb raw_size chdr_size
    then none
    else (if ch_type == elfcompress_zstd
        then (elim zstd [
          | none ↦ none
          | some decompress ↦ decompress ch_size (raw + chdr_size) (raw_size - chdr_size)
        ])
        else none)

-- `!strcmp(p, text)`.
unfoldable pub text_is : Memory → ℕ → List ℕ → Bool
text_is m p [] = m p == 0
text_is m p (c ∷ cs) = m p == c && text_is m (p + 1) cs

pub data Which : Type 0 where
  abbrev_section info_section str_section str_offsets_section : Which

abbrev pub debug_abbrev : List ℕ
debug_abbrev =
    b'.' ∷ b'd' ∷ b'e' ∷ b'b' ∷ b'u' ∷ b'g' ∷ b'_' ∷ b'a' ∷ b'b' ∷ b'b' ∷ b'r' ∷ b'e' ∷ b'v' ∷ []

abbrev pub debug_info : List ℕ
debug_info = b'.' ∷ b'd' ∷ b'e' ∷ b'b' ∷ b'u' ∷ b'g' ∷ b'_' ∷ b'i' ∷ b'n' ∷ b'f' ∷ b'o' ∷ []

abbrev pub debug_str : List ℕ
debug_str = b'.' ∷ b'd' ∷ b'e' ∷ b'b' ∷ b'u' ∷ b'g' ∷ b'_' ∷ b's' ∷ b't' ∷ b'r' ∷ []

abbrev pub debug_str_offsets : List ℕ
debug_str_offsets =
    b'.' ∷ b'd' ∷ b'e' ∷ b'b' ∷ b'u' ∷ b'g' ∷ b'_' ∷ b's' ∷ b't' ∷ b'r' ∷ b'_' ∷ b'o' ∷ b'f' ∷ b'f'
    ∷ b's' ∷ b'e' ∷ b't' ∷ b's' ∷ []

unfoldable pub which_of : Memory → ℕ → Option Which
unfolding text_is
which_of m name =
    if text_is m name debug_abbrev
    then some abbrev_section
    else (if text_is m name debug_info
        then some info_section
        else (if text_is m name debug_str
            then some str_section
            else (if text_is m name debug_str_offsets then some str_offsets_section else none)))

-- `*sec_data = ...; *sec_size = ...;`
abbrev pub place : Which → ℕ → ℕ → Sections → Sections
place abbrev_section at n s = record s { abbrev_data = at; abbrev_size = n }
place info_section at n s = record s { info_data = at; info_size = n }
place str_section at n s = record s { str_data = at; str_size = n }
place str_offsets_section at n s = record s { str_offsets_data = at; str_offsets_size = n }

module _ (f : Image) where
  open f use {mem}

  -- `elf_bits_` is 64.
  abbrev pub is_wide : Bool
  is_wide = not (mem (f.data_at + 4) == 1)

  -- Fields of a section header.
  abbrev pub sh_name : ℕ → ℕ
  sh_name p = le_bytes mem p 4

  abbrev pub sh_type : ℕ → ℕ
  sh_type p = le_bytes mem (p + 4) 4

  abbrev pub sh_flags : ℕ → ℕ
  sh_flags p = le_bytes mem (p + 8) (pick is_wide 8 4)

  abbrev pub sh_offset : ℕ → ℕ
  sh_offset p = le_bytes mem (p + pick is_wide 24 16) (pick is_wide 8 4)

  abbrev pub sh_size : ℕ → ℕ
  sh_size p = le_bytes mem (p + pick is_wide 32 20) (pick is_wide 8 4)

  abbrev pub shdr_size : ℕ
  shdr_size = pick is_wide 64 40

  abbrev pub place_result : Which → Option (ℕ × ℕ) → Sections → Sections
  place_result w none s = s
  place_result w (some (at, n)) s = place w at n s

  -- One round of `locate`; the strings of names are at `shstr`.
  unfoldable pub locate_header : Zstd → ℕ → ℕ → Sections → Sections
  unfolding which_of decompress_section le_bytes
  locate_header zstd shstr p s =
      let name = add64 shstr (sh_name p) in
      let at = add64 f.data_at (sh_offset p) in
      let placed : Sections = elim (which_of mem name) [
        | none ↦ s
        | some w ↦
            if bit_and (sh_flags p) shf_compressed == 0
            then place w at (sh_size p) s
            else place_result w (decompress_section zstd mem is_wide at (sh_size p)) s
      ] in
      if sh_type p == sht_nobits
      then s
      else (if ltb f.size (add64 (sh_offset p) (sh_size p))
          then s
          else (if ltb name f.data_at || leb (f.data_at + f.size) name then s else placed))

  unfoldable pub locate : Zstd → ℕ → ℕ → ℕ → Sections → Sections
  unfolding locate_header
  locate zstd shstr zero p s = s
  locate zstd shstr (suc num) p s =
      locate zstd shstr num (p + shdr_size) (locate_header zstd shstr p s)

  -- No section yet.
  abbrev pub no_sections : Sections
  no_sections = record {
    mem = mem;
    abbrev_data = 0;
    abbrev_size = 0;
    info_data = 0;
    info_size = 0;
    str_data = 0;
    str_size = 0;
    str_offsets_data = 0;
    str_offsets_size = 0;
  }

  abbrev pub e_shoff : ℕ
  e_shoff = le_bytes mem (f.data_at + pick is_wide 40 32) (pick is_wide 8 4)

  abbrev pub e_shnum : ℕ
  e_shnum = le_bytes mem (f.data_at + pick is_wide 60 48) 2

  abbrev pub e_shstrndx : ℕ
  e_shstrndx = le_bytes mem (f.data_at + pick is_wide 62 50) 2

  abbrev pub shstr_offset : ℕ
  shstr_offset = sh_offset (add64 f.data_at e_shoff + e_shstrndx * shdr_size)

  -- The checks of the file header that come before the sections.
  unfoldable pub is_readable : Bool
  unfolding le_bytes
  is_readable =
      leb 5 f.size
      && (le_bytes mem f.data_at 4 == 0x464c457f
          && (leb (pick is_wide 64 52) f.size
              && (not (e_shoff == 0)
                  && (leb (add64 e_shoff (e_shnum * shdr_size)) f.size
                      && (ltb e_shstrndx e_shnum && ltb shstr_offset f.size)))))

  unfoldable pub located : Zstd → Sections
  unfolding locate le_bytes
  located zstd =
      locate zstd (f.data_at + shstr_offset) e_shnum (add64 f.data_at e_shoff) no_sections

  -- `LocateSections`; `none` is the result `false`.
  unfoldable pub locate_sections : Zstd → Option Sections
  unfolding is_readable located
  locate_sections zstd =
      if is_readable
      then (if (located zstd).abbrev_data == 0 || (located zstd).info_data == 0
          then none
          else some (located zstd))
      else none

-- What `Init` comes to: `false`, a walk without end, or the structs.
pub data Init : Type 0 where
  refused endless : Init
  loaded : List StructInfo → Init

abbrev pub if_structs : Option (List StructInfo) → Init
if_structs none = endless
if_structs (some []) = refused
if_structs (some (x ∷ structs)) = loaded (x ∷ structs)

-- `Init`, for what `MmapFile` returns.
unfoldable pub init : Zstd → Option Image → Init
unfolding locate_sections
init zstd none = refused
init zstd (some f) = elim (locate_sections f zstd) [
  | none ↦ refused
  | some s ↦ if_structs (parse_info_section s (parse_abbrev_section s []))
]

-- `ForEachStruct`, for a callback with a state.
unfoldable pub for_each_struct {κ} :
    {S : Type κ} → (StructInfo → S → S × Bool) → List StructInfo → S → S
for_each_struct callback [] s = s
for_each_struct callback (x ∷ structs) s =
    let r = callback x s in elim r.1 [ true ↦ r.0 | false ↦ for_each_struct callback structs r.0 ]
