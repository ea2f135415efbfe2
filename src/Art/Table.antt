-- ===== src/Art/Table.antt =====
-- `BitTable` of android/art/base/bit_table.h and bit_table.cpp, and `DecodeUnsignedLeb128` of
-- android/art/base/leb128.h.
pub mod Leb
use open_core_analysis_kit.Base.{
  ℕ, zero, suc, ◌+◌, ◌-◌, ◌*◌, ◌%◌, ◌^◌, bit_and, bit_or, ltb, leb, ◌==◌, if◌then◌else◌, true,
  false, Option, none, some, List, [], ◌∷◌, ◌++◌, length, Memory, sub64, to_u32, ◌>>=◌,
}
use open_core_analysis_kit.Target.{Target}
use open_core_analysis_kit.Load.Table.{nth}
use open_core_analysis_kit.Art.Region.{
  BitRegion, read_region, read_varint, read_interleaved_varints, load_bits, subregion,
}

pub record BitTable : Type 0 where
  pub table_data : BitRegion
  pub num_rows : ℕ
  pub column_offset : List ℕ

-- The ends of the columns, as 16-bit numbers, behind the start of the first.
unfoldable pub column_ends : ℕ → List ℕ → List ℕ
column_ends start [] = []
column_ends start (width ∷ widths) =
    let end = to_u32 (start + width) % 2 ^ 16 in end ∷ column_ends end widths

abbrev pub column_offsets : List ℕ → List ℕ
column_offsets widths = 0 ∷ column_ends 0 widths

-- `NumRowBits` of a table with that many columns.
abbrev pub num_row_bits : ℕ → List ℕ → ℕ
num_row_bits num_columns column_offset = nth column_offset num_columns

abbrev pub num_column_bits : ℕ → BitTable → ℕ
num_column_bits column b =
    sub64 (nth b.column_offset (column + 1)) (nth b.column_offset column) % 2 ^ 32

abbrev pub repeat_zero : ℕ → List ℕ
repeat_zero zero = []
repeat_zero (suc n) = 0 ∷ repeat_zero n

-- The table of a header of rows and column widths, and the reader behind its data.
abbrev pub table_of : ℕ → (num_rows : ℕ) → List ℕ → BitRegion → BitTable × BitRegion
table_of num_columns num_rows offsets reader =
    let (data', rest) = read_region (to_u32 (num_rows * num_row_bits num_columns offsets)) reader in
    (record { table_data = data'; num_rows = num_rows; column_offset = offsets }, rest)

module _ (t : Target) (bits : ℕ) where
  abbrev pub split_header : ℕ → List ℕ → BitRegion → Option (BitTable × BitRegion)
  split_header num_columns [] reader = none
  split_header num_columns (rows ∷ widths) reader =
      some (table_of num_columns rows (column_offsets widths) reader)

  -- `DecodeOnly` from OAT version 173 on.
  unfoldable pub decode_interleaved : ℕ → BitRegion → Option (BitTable × BitRegion)
  unfolding read_interleaved_varints column_ends read_region
  decode_interleaved num_columns reader =
      read_interleaved_varints t bits (num_columns + 1) reader >>= λ (header, rest).
      split_header num_columns header rest

  unfoldable pub read_widths : ℕ → BitRegion → Option (List ℕ × BitRegion)
  unfolding read_varint
  read_widths zero reader = some ([], reader)
  read_widths (suc n) reader = read_varint t bits reader >>= λ (x, rest).
      read_widths n rest >>= λ (xs, rest'). some (x ∷ xs, rest')

  -- `DecodeOnly` from OAT version 159 on: no widths for a table without rows.
  unfoldable pub decode_in_turn : ℕ → BitRegion → Option (BitTable × BitRegion)
  unfolding read_widths read_varint column_ends read_region
  decode_in_turn num_columns reader = read_varint t bits reader >>= λ (rows, rest).
      if rows == 0
      then some (table_of num_columns 0 (repeat_zero (num_columns + 1)) rest)
      else (read_widths num_columns rest >>= λ (widths, rest').
          some (table_of num_columns rows (column_offsets widths) rest'))

  -- `DecodeOnly`; older versions leave the table as it is.
  unfoldable pub decode_only :
      (oat_version num_columns : ℕ) → BitTable → BitRegion → Option (BitTable × BitRegion)
  unfolding decode_interleaved decode_in_turn
  decode_only oat_version num_columns b reader =
      if leb 173 oat_version
      then decode_interleaved num_columns reader
      else (if leb 159 oat_version then decode_in_turn num_columns reader else some (b, reader))

  -- `Get`: the bias is `kNoValue`, so a stored 0 is `kNoValue`.
  unfoldable pub get : (num_columns row column : ℕ) → BitTable → Option ℕ
  unfolding load_bits
  get num_columns row column b =
      let offset =
        to_u32 (row * num_row_bits num_columns b.column_offset + nth b.column_offset column) in
      load_bits t bits offset (num_column_bits column b) b.table_data >>= λ v.
      some (to_u32 (v + (2 ^ 32 - 1)))

  unfoldable pub get_bit_memory_region : (num_columns row column : ℕ) → BitTable → BitRegion
  get_bit_memory_region num_columns row column b =
      let offset =
        to_u32 (row * num_row_bits num_columns b.column_offset + nth b.column_offset column) in
      subregion offset (num_column_bits column b) b.table_data

-- `DecodeUnsignedLeb128`: the value, and the pointer behind it. The fifth byte is not masked.
unfoldable pub decode_unsigned_leb128 : Memory → ℕ → ℕ × ℕ
decode_unsigned_leb128 m ptr =
    let low = λ (p : ℕ). bit_and (m p) 0x7f in
    let two = bit_or (low ptr) (low (ptr + 1) * 2 ^ 7) in
    let three = bit_or two (low (ptr + 2) * 2 ^ 14) in
    let four = bit_or three (low (ptr + 3) * 2 ^ 21) in
    if leb (m ptr) 0x7f
    then (m ptr, ptr + 1)
    else (if leb (m (ptr + 1)) 0x7f
        then (two, ptr + 2)
        else (if leb (m (ptr + 2)) 0x7f
            then (three, ptr + 3)
            else (if leb (m (ptr + 3)) 0x7f
                then (four, ptr + 4)
                else (bit_or four (to_u32 (m (ptr + 4) * 2 ^ 28)), ptr + 5))))
