-- ===== src/Dwarf/Locate/Examples.antt =====
-- A file with two debug sections, and the theorem at it.
use open_core_analysis_kit.Base.{add64, ℕ, ◌-◌, ◌≡◌, ◌≢◌, refl, none, some, List, [], ◌∷◌, arith}
use open_core_analysis_kit.Load.Table.{nth}
use open_core_analysis_kit.Dwarf.Types.{Sections}
use open_core_analysis_kit.Dwarf.Text.{le_bytes}
use open_core_analysis_kit.Dwarf.Locate.{
  Image, locate_sections, is_readable, located, locate, locate_header, which_of, text_is, e_shnum,
  e_shoff,
}
use open_core_analysis_kit.Dwarf.Locate.Inside.{AllInside, NoWrap, locate_sections-AllInside}

abbrev bytes : List ℕ
bytes =
    127 ∷ 69 ∷ 76 ∷ 70 ∷ 2 ∷ 0 ∷ 0 ∷ 0 ∷ 0 ∷ 0 ∷ 0 ∷ 0 ∷ 0 ∷ 0 ∷ 0 ∷ 0 ∷ 0 ∷ 0 ∷ 0 ∷ 0 ∷ 0 ∷ 0 ∷ 0
    ∷ 0 ∷ 0 ∷ 0 ∷ 0 ∷ 0 ∷ 0 ∷ 0 ∷ 0 ∷ 0 ∷ 0 ∷ 0 ∷ 0 ∷ 0 ∷ 0 ∷ 0 ∷ 0 ∷ 0 ∷ 64 ∷ 0 ∷ 0 ∷ 0 ∷ 0 ∷ 0 ∷ 0
    ∷ 0 ∷ 0 ∷ 0 ∷ 0 ∷ 0 ∷ 0 ∷ 0 ∷ 0 ∷ 0 ∷ 0 ∷ 0 ∷ 0 ∷ 0 ∷ 3 ∷ 0 ∷ 2 ∷ 0 ∷ 1 ∷ 0 ∷ 0 ∷ 0 ∷ 1 ∷ 0 ∷ 0
    ∷ 0 ∷ 0 ∷ 0 ∷ 0 ∷ 0 ∷ 0 ∷ 0 ∷ 0 ∷ 0 ∷ 0 ∷ 0 ∷ 0 ∷ 0 ∷ 0 ∷ 0 ∷ 0 ∷ 0 ∷ 8 ∷ 0 ∷ 0 ∷ 0 ∷ 0 ∷ 0 ∷ 0
    ∷ 0 ∷ 16 ∷ 0 ∷ 0 ∷ 0 ∷ 0 ∷ 0 ∷ 0 ∷ 0 ∷ 0 ∷ 0 ∷ 0 ∷ 0 ∷ 0 ∷ 0 ∷ 0 ∷ 0 ∷ 0 ∷ 0 ∷ 0 ∷ 0 ∷ 0 ∷ 0 ∷ 0
    ∷ 0 ∷ 0 ∷ 0 ∷ 0 ∷ 0 ∷ 0 ∷ 0 ∷ 0 ∷ 0 ∷ 15 ∷ 0 ∷ 0 ∷ 0 ∷ 1 ∷ 0 ∷ 0 ∷ 0 ∷ 0 ∷ 0 ∷ 0 ∷ 0 ∷ 0 ∷ 0 ∷ 0
    ∷ 0 ∷ 0 ∷ 0 ∷ 0 ∷ 0 ∷ 0 ∷ 0 ∷ 0 ∷ 0 ∷ 24 ∷ 0 ∷ 0 ∷ 0 ∷ 0 ∷ 0 ∷ 0 ∷ 0 ∷ 16 ∷ 0 ∷ 0 ∷ 0 ∷ 0 ∷ 0
    ∷ 0 ∷ 0 ∷ 0 ∷ 0 ∷ 0 ∷ 0 ∷ 0 ∷ 0 ∷ 0 ∷ 0 ∷ 0 ∷ 0 ∷ 0 ∷ 0 ∷ 0 ∷ 0 ∷ 0 ∷ 0 ∷ 0 ∷ 0 ∷ 0 ∷ 0 ∷ 0 ∷ 0
    ∷ 0 ∷ 0 ∷ 0 ∷ 0 ∷ 0 ∷ 0 ∷ 3 ∷ 0 ∷ 0 ∷ 0 ∷ 0 ∷ 0 ∷ 0 ∷ 0 ∷ 0 ∷ 0 ∷ 0 ∷ 0 ∷ 0 ∷ 0 ∷ 0 ∷ 0 ∷ 0 ∷ 0
    ∷ 0 ∷ 0 ∷ 0 ∷ 1 ∷ 0 ∷ 0 ∷ 0 ∷ 0 ∷ 0 ∷ 0 ∷ 27 ∷ 0 ∷ 0 ∷ 0 ∷ 0 ∷ 0 ∷ 0 ∷ 0 ∷ 0 ∷ 0 ∷ 0 ∷ 0 ∷ 0 ∷ 0
    ∷ 0 ∷ 0 ∷ 0 ∷ 0 ∷ 0 ∷ 0 ∷ 0 ∷ 0 ∷ 0 ∷ 0 ∷ 0 ∷ 0 ∷ 0 ∷ 0 ∷ 0 ∷ 0 ∷ 0 ∷ 0 ∷ 0 ∷ 46 ∷ 100 ∷ 101
    ∷ 98 ∷ 117 ∷ 103 ∷ 95 ∷ 97 ∷ 98 ∷ 98 ∷ 114 ∷ 101 ∷ 118 ∷ 0 ∷ 46 ∷ 100 ∷ 101 ∷ 98 ∷ 117 ∷ 103
    ∷ 95 ∷ 105 ∷ 110 ∷ 102 ∷ 111 ∷ 0 ∷ []

abbrev image : Image
image = record { mem = λ a. nth bytes (a - 1000); data_at = 1000; size = 283 }

abbrev two_sections : Sections
two_sections = record {
  mem = image.mem;
  abbrev_data = 1008;
  abbrev_size = 16;
  info_data = 1024;
  info_size = 16;
  str_data = 0;
  str_size = 0;
  str_offsets_data = 0;
  str_offsets_size = 0;
}

image-located : locate_sections image none ≡ some two_sections
unfolding locate_sections is_readable located locate locate_header which_of text_is le_bytes
image-located = refl

image-NoWrap : NoWrap image (e_shnum image) (add64 1000 (e_shoff image))
unfolding le_bytes
image-NoWrap = (omega arith, (omega arith, (omega arith, tt)))

locate_sections-AllInside_example :
    AllInside image two_sections × (two_sections.abbrev_data ≢ 0) × (two_sections.info_data ≢ 0)
locate_sections-AllInside_example =
    locate_sections-AllInside image two_sections (omega arith) image-NoWrap image-located
