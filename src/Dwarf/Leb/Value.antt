-- ===== src/Dwarf/Leb/Value.antt =====
-- What the LEB128 readers return: where they stop, and the number they read.
use open_core_analysis_kit.Base.{
  ℕ, zero, suc, ◌+◌, ◌*◌, ◌%◌, ◌^◌, ◌≤◌, ◌<◌, ◌≡◌, refl, ap, bit_and, ltb, ◌==◌, Memory, Bool-cases,
  ltb→le, ltb→lt, lt→ltb, inl, inr, IsBytes, u64_mod, arith,
}
use open_core_analysis_kit.Base.Bits.{bit_and_low7, bit_or_shifted}
use native.Mathlib.Numerals.{towards_suc}
use open_core_analysis_kit.Dwarf.Leb.{
  or_group, uleb_loop, read_uleb128, Signed, sleb_loop, read_sleb128,
}

-- The first `n` groups of seven bits at `p`, lowest first.
abbrev pub groups : Memory → ℕ → ℕ → ℕ
groups m p zero = 0
groups m p (suc n) = m p % 128 + 128 * groups m (p + 1) n

-- A group shifted by 7 j and cut to 64 bits: only the tenth one loses bits.
record Cut (p g c : ℕ) : Type 0 where
  cut : g * p % u64_mod ≡ c * p
  sum : (r : ℕ) → r < p → (r + g * p) % u64_mod ≡ r + c * p
  small : c < 128
  fits : p < u64_mod

Cut-group : (j g : ℕ) → j ≤ 9 → g < 128 → (c : ℕ) × Cut (2 ^ (7 * j)) g c
Cut-group zero g h k = (g, omega arith)
Cut-group (suc zero) g h k = (g, omega arith)
Cut-group (suc (suc zero)) g h k = (g, omega arith)
Cut-group (suc (suc (suc zero))) g h k = (g, omega arith)
Cut-group (suc (suc (suc (suc zero)))) g h k = (g, omega arith)
Cut-group (suc (suc (suc (suc (suc zero))))) g h k = (g, omega arith)
Cut-group (suc (suc (suc (suc (suc (suc zero)))))) g h k = (g, omega arith)
Cut-group (suc (suc (suc (suc (suc (suc (suc zero))))))) g h k = (g, omega arith)
Cut-group (suc (suc (suc (suc (suc (suc (suc (suc zero)))))))) g h k = (g, omega arith)
Cut-group (suc (suc (suc (suc (suc (suc (suc (suc (suc zero))))))))) g h k = (g % 2, omega arith)
Cut-group (suc (suc (suc (suc (suc (suc (suc (suc (suc (suc j)))))))))) g h k = absurd (omega arith)

-- One round adds the group, modulo 2 ^ 64.
pub or_group_sum :
    (result b j : ℕ)
    → j ≤ 9
    → b < 256
    → result < 2 ^ (7 * j)
    → or_group result b (7 * j) ≡ (result + b % 128 * 2 ^ (7 * j)) % u64_mod
or_group_sum result b j h hb hr =
    let (c, k) = Cut-group j (b % 128) h (omega arith) in
    rw (bit_and_low7 b hb) (rw k.cut (rw (k.sum result hr) (bit_or_shifted (7 * j) result c hr)))

pub pow_next : (j : ℕ) → 2 ^ (7 * suc j) ≡ 128 * 2 ^ (7 * j)
pow_next j =
    let shift : 7 * suc j ≡ 7 * j + 7 = omega arith in rw shift (simp towards_suc (omega arith))

pub groups-lt : (m : Memory) (p n : ℕ) → groups m p n < 2 ^ (7 * n)
groups-lt m p zero = omega arith
groups-lt m p (suc n) = omega (arith, groups-lt m (p + 1) n, pow_next n)

group_bound : (r g q : ℕ) → r < q → r + g % 128 * q < 128 * q
group_bound r g q h =
    let le : g % 128 * q ≤ 127 * q = mul_bound (g % 128) q (omega arith) in omega arith
  where
    mul_bound : (c d : ℕ) → c ≤ 127 → c * d ≤ 127 * d
    mul_bound c d k = grind arith

-- The accumulated part of a number after `j` rounds.
abbrev pub Partial : ℕ → ℕ → Type 0
Partial j result = (result < u64_mod) × (j ≤ 9 → result < 2 ^ (7 * j))

pub or_group-Partial :
    (result b j : ℕ)
    → j ≤ 9
    → b < 256
    → Partial j result
    → Partial (suc j) (or_group result b (7 * j))
or_group-Partial result b j h hb hr =
    rw (or_group_sum result b j h hb (hr.1 h))
      (omega arith, λ k. omega (arith, group_bound result b (2 ^ (7 * j)) (hr.1 h), pow_next j))

-- What a run of the loop from `result` and round `j` on yields, `n` bytes further.
pub record Reads (m : Memory) (end ptr result j fuel v ptr' n : ℕ) : Type 0 where
  pub count : ptr' ≡ ptr + n
  pub inside : ptr' ≤ end
  pub rounds : n ≤ fuel
  pub moves : ptr < end → 0 < fuel → 0 < n
  pub value : v ≡ (result + groups m ptr n * 2 ^ (7 * j)) % u64_mod

abbrev ReadsPair : Memory → ℕ → ℕ → ℕ → ℕ → ℕ → ℕ × ℕ → Type 0
ReadsPair m end ptr result j fuel r = (n : ℕ) × Reads m end ptr result j fuel r.0 r.1 n

-- One more round in front of a run.
Reads-more :
    {m : Memory} {end ptr result j fuel v ptr' n : ℕ}
    → IsBytes m
    → j ≤ 9
    → result < 2 ^ (7 * j)
    → Reads m end (ptr + 1) (or_group result (m ptr) (7 * j)) (suc j) fuel v ptr' n
    → Reads m end ptr result j (suc fuel) v ptr' (suc n)
Reads-more {m} {ptr = ptr} {result = result} {j = j} {n = n} bytes hj hr r = record {
  count = omega (arith, r.count);
  inside = r.inside;
  rounds = omega (arith, r.rounds);
  moves = λ _ _. omega arith;
  value = omega (
    arith,
    r.value,
    or_group_sum result (m ptr) j hj (bytes ptr) hr,
    ap (λ (t : ℕ). groups m (ptr + 1) n * t) (pow_next j),
  );
}

uleb_loop-Reads :
    (fuel : ℕ) (m : Memory) (end ptr result shift j : ℕ)
    → IsBytes m
    → fuel + j ≡ 10
    → 7 * j ≡ shift
    → ptr ≤ end
    → Partial j result
    → ReadsPair m end ptr result j fuel (uleb_loop fuel m end ptr result shift)
unfolding uleb_loop
uleb_loop-Reads zero m end ptr result shift j bytes hf hs hp hr = (0, omega arith)
uleb_loop-Reads (suc fuel) m end ptr result shift j bytes hf hs hp hr =
    let rest =
      uleb_loop-Reads fuel m end (ptr + 1) (or_group result (m ptr) (7 * j)) (7 * j + 7) (suc j)
        bytes (omega arith) (omega arith) in
    rw (← hs) (elim (Bool-cases (ltb ptr end)) [
      | inr out ↦ rw out (0, omega (arith, ltb→le ptr end out))
      | inl in' ↦
          rw (in', lt→ltb (7 * j) 64 (omega arith))
            (elim (Bool-cases (bit_and (m ptr) 0x80 == 0)) [
              | inl stop ↦ rw stop (
                1,
                omega (
                  arith,
                  ltb→lt ptr end in',
                  or_group_sum result (m ptr) j (omega arith) (bytes ptr) (hr.1 (omega arith)),
                ),
              )
              | inr more ↦ rw more (
                  let (n, r) =
                    rest (omega (arith, ltb→lt ptr end in'))
                      (or_group-Partial result (m ptr) j (omega arith) (bytes ptr) hr) in
                  (suc n, Reads-more bytes (omega arith) (hr.1 (omega arith)) r))
            ])
    ])

-- `ReadULEB128` on any input in [ptr, end): it stays inside, takes at most ten bytes, one at least
-- if there is one, and returns the groups that it passed, modulo 2 ^ 64.
pub read_uleb128-groups :
    (m : Memory) (ptr end : ℕ)
    → IsBytes m
    → ptr ≤ end
    → (n : ℕ) × ((read_uleb128 m ptr end).1 ≡ ptr + n)
      × (ptr + n ≤ end)
      × (n ≤ 10)
      × (ptr < end → 0 < n)
      × ((read_uleb128 m ptr end).0 ≡ groups m ptr n % u64_mod)
unfolding read_uleb128
read_uleb128-groups m ptr end bytes h =
    let (n, r) =
      uleb_loop-Reads 10 m end ptr 0 0 0 bytes refl refl h (omega arith, λ _. omega arith) in
    (
      n,
      r.count,
      omega (arith, r.inside, r.count),
      r.rounds,
      λ k. r.moves k (omega arith),
      omega (arith, r.value),
    )

sleb_loop-ptr :
    (fuel : ℕ) (m : Memory) (end : ℕ) (s : Signed)
    → (sleb_loop fuel m end s).ptr ≡ (uleb_loop fuel m end s.ptr s.result s.shift).1
unfolding sleb_loop uleb_loop
sleb_loop-ptr zero m end s = refl
sleb_loop-ptr (suc fuel) m end s = ground (
  arith,
  sleb_loop-ptr fuel m end (record {
    result = or_group s.result (m s.ptr) s.shift;
    shift = s.shift + 7;
    b = m s.ptr;
    ptr = s.ptr + 1;
  }),
)

-- Both readers stop at the same place.
pub read_sleb128-ptr :
    (m : Memory) (ptr end : ℕ) → (read_sleb128 m ptr end).1 ≡ (read_uleb128 m ptr end).1
unfolding read_sleb128 read_uleb128
read_sleb128-ptr m ptr end =
    sleb_loop-ptr 10 m end (record { result = 0; shift = 0; b = 0; ptr = ptr })
