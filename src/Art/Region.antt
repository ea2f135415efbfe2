-- ===== src/Art/Region.antt =====
-- `BitMemoryRegion` and `BitMemoryReader` of android/art/base/bit_memory_region.h and
-- bit_memory_region.cpp.
use open_core_analysis_kit.Base.{
  ℕ, zero, suc, ◌+◌, ◌-◌, ◌*◌, ◌/◌, ◌%◌, ◌^◌, bit_and, bit_or, ltb, leb, ◌==◌, if◌then◌else◌, not,
  Bool, Option, some, List, [], ◌∷◌, add64, sub64, to_u32, u64_mod, ◌>>=◌,
}
use open_core_analysis_kit.Target.{Target, word}
use open_core_analysis_kit.Load.Alloc.{round_down}

pub record BitRegion : Type 0 where
  pub base : ℕ
  pub bit_start : ℕ
  pub bit_size : ℕ

-- The constructor: the data begin at a page.
unfoldable pub new_region : (pointer bit_start bit_size : ℕ) → BitRegion
unfolding round_down
new_region pointer bit_start bit_size =
    let page = round_down (add64 pointer (bit_start / 8)) 0x1000 in
    record {
      base = page;
      bit_start = add64 bit_start (8 * sub64 pointer page % u64_mod);
      bit_size = bit_size;
    }

abbrev pub region_data : BitRegion → ℕ
region_data r = add64 r.base (r.bit_start / 8)

abbrev pub resize : ℕ → BitRegion → BitRegion
resize n r = record r { bit_size = n }

abbrev pub subregion : (bit_offset bit_length : ℕ) → BitRegion → BitRegion
subregion bit_offset bit_length r = record r {
  bit_start = add64 r.bit_start bit_offset;
  bit_size = bit_length;
}

abbrev pub subregion_from : ℕ → BitRegion → BitRegion
subregion_from bit_offset r = record r {
  bit_start = add64 r.bit_start bit_offset;
  bit_size = sub64 r.bit_size bit_offset;
}

-- `(max << 1) << (bit_length - 1)`.
abbrev pub clear_mask : ℕ → ℕ
clear_mask bit_length = (u64_mod - 1) * 2 % u64_mod * 2 ^ (bit_length - 1) % u64_mod

-- `MaskLeastSignificant` and `BitFieldExtract` of bit_utils.h, on uint64_t.
abbrev pub mask_least_significant : ℕ → ℕ
mask_least_significant bits = if leb 64 bits then u64_mod - 1 else sub64 (2 ^ bits) 1

abbrev pub bit_field_extract : (value lsb width : ℕ) → ℕ
bit_field_extract value lsb width = bit_and (value / 2 ^ lsb) (mask_least_significant width)

-- Two words of `width` bits, joined at a shift and cut to a length.
unfoldable pub join_words : (width shift bit_length value extra : ℕ) → ℕ
join_words width shift bit_length value extra =
    bit_and (bit_or (value / 2 ^ shift) (extra * 2 ^ bit_and (width - shift) (width - 1) % u64_mod))
      (u64_mod - 1 - clear_mask bit_length)

module _ (t : Target) where
  -- `LoadBit`.
  unfoldable pub load_bit : ℕ → BitRegion → Option Bool
  load_bit bit_offset r =
      let bit = add64 r.bit_start bit_offset in
      t.load r.base (bit / 8) 1 >>= λ byte. some (not (bit_and (byte / 2 ^ (bit % 8)) 1 == 0))

  -- The body of `LoadBits` and `LoadBits64` for a reader of words.
  abbrev pub load_words :
      (ℕ → Option ℕ) → (point_size width bit_offset bit_length : ℕ) → BitRegion → Option ℕ
  load_words read point_size width bit_offset bit_length r =
      let bit = add64 r.bit_start bit_offset in
      let index = bit / width in
      let shift = bit % width in
      let next = index + (shift + (bit_length - 1)) / width in
      if bit_length == 0
      then some 0
      else (read (index * point_size) >>= λ value. read (next * point_size) >>= λ extra.
          some (join_words width shift bit_length value extra))

  -- `LoadBits64`.
  unfoldable pub load_bits64 : (bit_offset bit_length : ℕ) → BitRegion → Option ℕ
  unfolding join_words
  load_bits64 bit_offset bit_length r =
      load_words (λ offset. t.load r.base offset 8) 8 64 bit_offset bit_length r

  -- `LoadBits`, whose words are pointers under the mask, of `bits` bits each.
  unfoldable pub load_bits : (bits bit_offset bit_length : ℕ) → BitRegion → Option ℕ
  unfolding join_words
  load_bits bits bit_offset bit_length r =
      load_words (λ offset. word t r.base offset) (bits / 8) bits bit_offset bit_length r

-- `BitMemoryReader` is the region that is read: a read gives the part behind it.
unfoldable pub read_region : ℕ → BitRegion → BitRegion × BitRegion
read_region bit_length r =
    let longer = resize (add64 r.bit_size bit_length) r in
    (subregion r.bit_size bit_length longer, longer)

abbrev pub varint_bits : ℕ
varint_bits = 4

abbrev pub varint_max : ℕ
varint_max = 11

module _ (t : Target) (bits : ℕ) where
  -- `ReadBit`, `ReadBits` and `ReadBits64`.
  unfoldable pub read_bit : BitRegion → Option (Bool × BitRegion)
  unfolding read_region load_bit
  read_bit r = let (part, rest) = read_region 1 r in load_bit t 0 part >>= λ b. some (b, rest)

  unfoldable pub read_bits : ℕ → BitRegion → Option (ℕ × BitRegion)
  unfolding read_region load_bits
  read_bits bit_length r =
      let (part, rest) = read_region bit_length r in
      load_bits t bits 0 bit_length part >>= λ v. some (v, rest)

  unfoldable pub read_bits64 : ℕ → BitRegion → Option (ℕ × BitRegion)
  unfolding read_region load_bits64
  read_bits64 bit_length r =
      let (part, rest) = read_region bit_length r in
      load_bits64 t 0 bit_length part >>= λ v. some (v, rest)

  -- `ReadVarint`: a small number, or the count of the bytes that hold it.
  unfoldable pub read_varint : BitRegion → Option (ℕ × BitRegion)
  unfolding read_bits
  read_varint r = read_bits varint_bits r >>= λ (x, rest).
      if leb x varint_max
      then some (to_u32 x, rest)
      else (read_bits ((x - varint_max) * 8) rest >>= λ (y, rest'). some (to_u32 y, rest'))

  -- The two loops of `ReadInterleavedVarints`: the small numbers from one word, and then the others.
  abbrev pub nibbles : (num i word' : ℕ) → List ℕ
  nibbles zero i word' = []
  nibbles (suc num) i word' =
      to_u32 (bit_field_extract word' (i * varint_bits) varint_bits) ∷ nibbles num (i + 1) word'

  unfoldable pub read_large : List ℕ → BitRegion → Option (List ℕ × BitRegion)
  unfolding read_bits
  read_large [] r = some ([], r)
  read_large (x ∷ values) r =
      (if ltb varint_max x then read_bits ((x - varint_max) * 8) r else some (x, r))
      >>= λ (y, rest). read_large values rest >>= λ (ys, rest'). some (to_u32 y ∷ ys, rest')

  unfoldable pub read_interleaved_varints : ℕ → BitRegion → Option (List ℕ × BitRegion)
  unfolding read_bits64 read_large
  read_interleaved_varints num r =
      read_bits64 (num * varint_bits) r >>= λ (word', rest). read_large (nibbles num 0 word') rest
