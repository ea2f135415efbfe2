-- ===== src/Load/Headers/Examples.antt =====
-- A core file with two segments and a note, and the theorem at it.
use open_core_analysis_kit.Base.{
  ◌+◌, ◌-◌, ◌≡◌, refl, ltb, ◌==◌, if◌then◌else◌, true, Bool-cases, inl, inr, some, [], Memory,
  arith,
}
use open_core_analysis_kit.Target.{done}
use open_core_analysis_kit.Dwarf.Text.{le_bytes}
use open_core_analysis_kit.Load.Block.{new_block}
use open_core_analysis_kit.Load.Search.{IsSortedTable}
use open_core_analysis_kit.Load.Headers.{CoreFile, Loaded, actual_phnum, load64}
use open_core_analysis_kit.Load.Headers.Sorted.{Segments, load64-IsSortedTable}
use open_core_analysis_kit.Notes.Ends.{HasNul}

-- At 1000: three headers, for 0x1000 to 0x2000, for 0x2000 to 0x3000, and for a note of 12 bytes.
abbrev header : Memory
header a =
    if a == 1056
    then 3
    else (if a == 1064
        then 1
        else (if a == 1081
            then 0x10
            else (if a == 1105
                then 0x10
                else (if a == 1120
                    then 1
                    else (if a == 1137
                        then 0x20
                        else (if a == 1161
                            then 0x10
                            else (if a == 1176 then 4 else (if a == 1208 then 12 else 0))))))))

abbrev memory : Memory
memory a = if ltb 1300 a then 0 else header a

memory-HasNul : HasNul memory 1400
memory-HasNul a = elim (Bool-cases (ltb 1300 a)) [
  | inl above ↦ (0, omega arith, (let same : a + 0 ≡ a = omega arith in rw same (rw above refl)))
  | inr below ↦ (
    1300 - a,
    omega arith,
    (let same : a + (1300 - a) ≡ 1300 = ground (arith, below) in rw same refl),
  )
]

abbrev file : CoreFile
file = record { mem = memory; begin = 1000; size = 300 }

abbrev nothing : Loaded
nothing = record {
  core = record {
    mem = memory;
    block = λ k. new_block 0 0 0 0 0 0 0;
    next = 0;
    loads = [];
    quick = [];
    vabits_mask = 0xffffffffffff;
    pointer_mask = 0xffffffffffffffff;
    quick_enabled = true;
  };
  notes = [];
}

three_headers : actual_phnum file ≡ some 3
unfolding actual_phnum le_bytes
three_headers = refl

file-Segments : Segments file 3 1064 0 0x3000
unfolding le_bytes
file-Segments = (omega arith, omega arith, (omega arith, omega arith, (omega arith, omega arith)))

load64-IsSortedTable_example :
    (s : Loaded) × (load64 file (λ type pos context. 77) 1400 nothing ≡ done (some s))
    × IsSortedTable s.core s.core.loads
    × IsSortedTable s.core s.core.quick
load64-IsSortedTable_example =
    load64-IsSortedTable file (λ type pos context. 77) 1400 3 0x3000 nothing memory-HasNul
      (omega arith) three_headers file-Segments refl refl
