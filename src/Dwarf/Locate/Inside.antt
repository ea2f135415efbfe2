-- ===== src/Dwarf/Locate/Inside.antt =====
-- The sections that `LocateSections` of core/api/dwarf.cpp finds are inside the file.
use open_core_analysis_kit.Base.{
  ℕ, zero, suc, ◌+◌, ◌≤◌, ◌<◌, ◌≡◌, ◌≢◌, ◌⊎◌, inl, inr, refl, bit_and, ltb, leb, ◌==◌, ◌||◌,
  Bool-cases, none, some, Option-cases, add64, u64_mod, arith,
}
use open_core_analysis_kit.Dwarf.Types.{Sections}
use open_core_analysis_kit.Dwarf.Locate.{
  Image, decompress_section, Which, abbrev_section, info_section, str_section, str_offsets_section,
  which_of, place, is_wide, sh_name, sh_type, sh_flags, sh_offset, sh_size, shdr_size, sht_nobits,
  shf_compressed, locate_header, locate, no_sections, e_shnum, e_shoff, shstr_offset, is_readable,
  located, locate_sections,
}

-- A section that is not there, or that is inside the file.
abbrev pub IsInside : Image → ℕ → ℕ → Type 0
IsInside f at n = (at ≡ 0) ⊎ ((f.data_at ≤ at) × (at + n ≤ f.data_at + f.size))

pub record AllInside (f : Image) (s : Sections) : Type 0 where
  pub abbrev_inside : IsInside f s.abbrev_data s.abbrev_size
  pub info_inside : IsInside f s.info_data s.info_size
  pub str_inside : IsInside f s.str_data s.str_size
  pub str_offsets_inside : IsInside f s.str_offsets_data s.str_offsets_size

-- The ends of the `num` sections from `p` on do not wrap.
abbrev pub NoWrap : Image → ℕ → ℕ → Type 0
NoWrap f zero p = Unit
NoWrap f (suc num) p = (sh_offset f p + sh_size f p < u64_mod) × NoWrap f num (p + shdr_size f)

module _ (f : Image) where
  place-AllInside :
      (w : Which) (at n : ℕ) (s : Sections)
      → IsInside f at n
      → AllInside f s
      → AllInside f (place w at n s)
  place-AllInside abbrev_section at n s h a = record {
    abbrev_inside = h;
    info_inside = a.info_inside;
    str_inside = a.str_inside;
    str_offsets_inside = a.str_offsets_inside;
  }
  place-AllInside info_section at n s h a = record {
    abbrev_inside = a.abbrev_inside;
    info_inside = h;
    str_inside = a.str_inside;
    str_offsets_inside = a.str_offsets_inside;
  }
  place-AllInside str_section at n s h a = record {
    abbrev_inside = a.abbrev_inside;
    info_inside = a.info_inside;
    str_inside = h;
    str_offsets_inside = a.str_offsets_inside;
  }
  place-AllInside str_offsets_section at n s h a = record {
    abbrev_inside = a.abbrev_inside;
    info_inside = a.info_inside;
    str_inside = a.str_inside;
    str_offsets_inside = h;
  }

  -- Without zstd no compressed section is read.
  compressed_skipped : (raw n : ℕ) → decompress_section none f.mem (is_wide f) raw n ≡ none
  unfolding decompress_section
  compressed_skipped raw n = ground arith

  module _ (host : f.data_at + f.size < u64_mod) where
    locate_header-AllInside :
        (shstr p : ℕ) (s : Sections)
        → sh_offset f p + sh_size f p < u64_mod
        → AllInside f s
        → AllInside f (locate_header f none shstr p s)
    unfolding locate_header
    locate_header-AllInside shstr p s fits a =
        let name = add64 shstr (sh_name f p) in
        elim (Bool-cases (sh_type f p == sht_nobits)) [
          | inl e ↦ rw (locate_header, e) a
          | inr e ↦ elim (Bool-cases (ltb f.size (add64 (sh_offset f p) (sh_size f p)))) [
            | inl g ↦ rw (locate_header, e, g) a
            | inr g ↦ elim (Bool-cases (ltb name f.data_at || leb (f.data_at + f.size) name)) [
              | inl h ↦ rw (locate_header, e, g, h) a
              | inr h ↦ elim (Option-cases (which_of f.mem name)) [
                | inl i ↦ rw (locate_header, e, g, h, i) a
                | inr (w, i) ↦ elim (Bool-cases (bit_and (sh_flags f p) shf_compressed == 0)) [
                  | inl j ↦
                      rw (locate_header, e, g, h, i, j)
                        (place-AllInside w (add64 f.data_at (sh_offset f p)) (sh_size f p) s
                          (inr (ground (arith, g, fits, host), ground (arith, g, fits, host))) a)
                  | inr j ↦
                      rw
                        (
                          locate_header,
                          e,
                          g,
                          h,
                          i,
                          j,
                          compressed_skipped (add64 f.data_at (sh_offset f p)) (sh_size f p),
                        )
                        a
                ]
              ]
            ]
          ]
        ]

    locate-AllInside :
        (shstr num p : ℕ) (s : Sections)
        → NoWrap f num p
        → AllInside f s
        → AllInside f (locate f none shstr num p s)
    unfolding locate
    locate-AllInside shstr zero p s h a = a
    locate-AllInside shstr (suc num) p s (fits, h) a =
        locate-AllInside shstr num (p + shdr_size f) (locate_header f none shstr p s) h
          (locate_header-AllInside shstr p s fits a)

located-AllInside :
    (f : Image)
    → f.data_at + f.size < u64_mod
    → NoWrap f (e_shnum f) (add64 f.data_at (e_shoff f))
    → AllInside f (located f none)
unfolding located
located-AllInside f host h =
    locate-AllInside f host (f.data_at + shstr_offset f) (e_shnum f) (add64 f.data_at (e_shoff f))
      (no_sections f) h
      (record {
        abbrev_inside = inl refl;
        info_inside = inl refl;
        str_inside = inl refl;
        str_offsets_inside = inl refl;
      })

-- For a build without zstd, and a file whose section ends do not wrap: if `LocateSections` returns
-- true, the abbreviations and the entries are found, and every section that is found lies inside
-- the file.
pub locate_sections-AllInside :
    (f : Image) (s : Sections)
    → f.data_at + f.size < u64_mod
    → NoWrap f (e_shnum f) (add64 f.data_at (e_shoff f))
    → locate_sections f none ≡ some s
    → AllInside f s × (s.abbrev_data ≢ 0) × (s.info_data ≢ 0)
unfolding locate_sections
locate_sections-AllInside f s host h e = elim (Bool-cases (is_readable f)) [
  | inr bad ↦
      let got : none ≡ some s = (rw (locate_sections, bad) at e) in absurd (ground (arith, got))
  | inl good ↦
      elim (Bool-cases ((located f none).abbrev_data == 0 || (located f none).info_data == 0)) [
        | inl missing ↦
            let got : none ≡ some s = (rw (locate_sections, good, missing) at e) in
            absurd (ground (arith, got))
        | inr full ↦
            let got : some (located f none) ≡ some s = (rw (locate_sections, good, full) at e) in
            let same : located f none ≡ s = cc in
            rw (← same) (
              located-AllInside f host h,
              (λ z. ground (arith, full, z)),
              (λ z. ground (arith, full, z)),
            )
      ]
]
