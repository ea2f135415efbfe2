-- ===== src/Art/Examples.antt =====
-- Bits in memory, and the theorems at them.
use open_core_analysis_kit.Base.{
  ℕ, ◌+◌, ◌-◌, ◌*◌, ◌%◌, ◌^◌, ◌≤◌, ◌<◌, ◌≡◌, refl, leb, ltb, ◌&&◌, Bool, Bool-cases, inl, inr, ◌==◌,
  if◌then◌else◌, true, Option, none, some, Memory, IsBytes, arith,
}
use open_core_analysis_kit.Base.Digits.{digit}
use open_core_analysis_kit.Dwarf.Text.Bytes.{le_sum, le_sum-lt}
use open_core_analysis_kit.Target.{Target}
use open_core_analysis_kit.Art.Region.{BitRegion, load_bit, load_bits, load_bits64}
use open_core_analysis_kit.Art.Chunks.{pop_count}
use open_core_analysis_kit.Art.Chunks.Count.{IsSpan, ones, pop_count-ones}
use open_core_analysis_kit.Art.Table.{decode_unsigned_leb128}
use open_core_analysis_kit.Art.Table.Leb.{decode_unsigned_leb128-read_uleb128}
use open_core_analysis_kit.Dwarf.Leb.{read_uleb128}
use open_core_analysis_kit.Dwarf.Leb.Chain.{Chain, last, more}
use open_core_analysis_kit.Art.Bits.{IsMemory, load_bits64-load_bit}

abbrev memory : Memory
memory a = (a * 37 + 11) % 256

memory-IsBytes : IsBytes memory
memory-IsBytes a = omega arith

-- The memory stands at 4096.
abbrev load : ℕ → ℕ → ℕ → Option ℕ
load p o n = if leb n 8 then some (le_sum memory (p - 4096 + o) n) else none

load_small : (p o n : ℕ) {v : ℕ} → n ≤ 8 → load p o n ≡ some v → v < 2 ^ (8 * n)
load_small p o n {v} h e =
    let fits : leb n 8 ≡ true = ground arith in
    let same : le_sum memory (p - 4096 + o) n ≡ v = ground (arith, rw fits at e) in
    rw (← same) (le_sum-lt memory (p - 4096 + o) n memory-IsBytes)

abbrev target : Target
target = record { load = load; small = load_small; point_mask = 0xffffffffffffffff }

target-IsMemory : IsMemory target 4096 memory
target-IsMemory = record {
  bytes = memory-IsBytes;
  loads = λ o n h.
      let fits : leb n 8 ≡ true = ground arith in
      let at : 4096 - 4096 + o ≡ o = omega arith in rw (fits, at) refl;
}

abbrev region : BitRegion
region = record { base = 4096; bit_start = 61; bit_size = 200 }

load_bits64-load_bit_example :
    (v : ℕ) × (load_bits64 target 0 9 region ≡ some v)
    × (v < 2 ^ 9)
    × ((i : ℕ) → i < 9 → load_bit target (0 + i) region ≡ some (digit v i == 1))
    × (target.point_mask ≡ 2 ^ 64 - 1 → load_bits target 64 0 9 region ≡ some v)
load_bits64-load_bit_example =
    load_bits64-load_bit target region memory 0 9 target-IsMemory (omega arith) (omega arith)

-- A block of five chunks at 4096, and nothing else.
abbrev in_block : ℕ → ℕ → ℕ → Bool
in_block p o n = leb 4096 p && (ltb p 4136 && (leb (p + o + n) 4136 && leb n 8))

abbrev block_load : ℕ → ℕ → ℕ → Option ℕ
block_load p o n = if in_block p o n then some (le_sum memory (p - 4096 + o) n) else none

block_load_small : (p o n : ℕ) {v : ℕ} → n ≤ 8 → block_load p o n ≡ some v → v < 2 ^ (8 * n)
block_load_small p o n {v} h e = elim (Bool-cases (in_block p o n)) [
  | inl fits ↦
      let same : le_sum memory (p - 4096 + o) n ≡ v = ground (arith, rw fits at e) in
      rw (← same) (le_sum-lt memory (p - 4096 + o) n memory-IsBytes)
  | inr out ↦ absurd (ground (arith, rw out at e))
]

abbrev block_target : Target
block_target = record {
  load = block_load;
  small = block_load_small;
  point_mask = 0xffffffffffffffff;
}

block_target-IsSpan : IsSpan block_target 4096 5 memory
block_target-IsSpan = record {
  bytes = memory-IsBytes;
  loads = λ a o n h l k.
      let fits : in_block (4096 + a) o n ≡ true = ground arith in
      let at : 4096 + a - 4096 + o ≡ a + o = omega arith in rw (fits, at) refl;
  room = omega arith;
  mask = refl;
}

pop_count-ones_example : pop_count block_target 64 region ≡ some (ones memory 61 200)
pop_count-ones_example =
    pop_count-ones block_target region memory 5 block_target-IsSpan (omega arith) (omega arith)

-- 0xe5 0x8e 0x26 is 624485.
abbrev number : Memory
number a = if a == 0 then 0xe5 else (if a == 1 then 0x8e else 0x26)

number-IsBytes : IsBytes number
number-IsBytes a = ground arith

number-Chain : Chain number 0 3
number-Chain = more (omega arith) (more (omega arith) (last (omega arith)))

decode_unsigned_leb128-read_uleb128_example :
    ((decode_unsigned_leb128 number 0).0 ≡ (read_uleb128 number 0 3).0 % 2 ^ 32)
    × ((decode_unsigned_leb128 number 0).1 ≡ (read_uleb128 number 0 3).1)
decode_unsigned_leb128-read_uleb128_example =
    decode_unsigned_leb128-read_uleb128 number 0 3 3 number-IsBytes number-Chain (omega arith)
      (omega arith)

number_runs : decode_unsigned_leb128 number 0 ≡ (624485, 3)
unfolding decode_unsigned_leb128
number_runs = refl
