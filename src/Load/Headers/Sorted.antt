-- ===== src/Load/Headers/Sorted.antt =====
-- `load64` of core/lp64/core.cpp keeps the tables of blocks sorted, as `findLoadBlock` needs them.
use open_core_analysis_kit.Base.{
  ℕ, zero, suc, ◌+◌, ◌^◌, ◌≤◌, ◌<◌, ◌≡◌, refl, ltb, ◌==◌, ◌&&◌, ◌||◌, not, true, false, Bool-cases,
  inl, inr, some, List, [], ◌∷◌, ◌++◌, length, add64, arith,
}
use open_core_analysis_kit.Target.{done}
use open_core_analysis_kit.Load.Block.{LoadBlock, new_block, vend, set_ori_addr, is_valid_block}
use open_core_analysis_kit.Load.Table.{Core, start_at, end_at, add_load_block}
use open_core_analysis_kit.Load.Search.{IsSortedTable}
use open_core_analysis_kit.Load.Headers.{
  CoreFile, Loaded, pt_load, pt_note, ph_type, ph_vaddr, ph_memsz, ph_offset, ph_filesz,
  ph_truncated, load_segment, note_segment, load_header, load_headers, load64, actual_phnum,
}
use open_core_analysis_kit.Notes.Ends.{HasNul, read_notes-Returns}

-- A table from `low` on, up to `top`, whose segments follow each other.
abbrev pub Ordered : Core → List ℕ → ℕ → ℕ → Type 0
Ordered c [] low top = low ≤ top
Ordered c (k ∷ table) low top =
    (k < c.next)
    × (low ≤ (c.block k).vaddr)
    × ((c.block k).vaddr ≤ vend (c.block k))
    × Ordered c table (vend (c.block k)) top

module _ (c : Core) where
  Ordered-low :
      (table : List ℕ) (low top i : ℕ)
      → Ordered c table low top
      → i < length table
      → (low ≤ start_at c table i) × (start_at c table i ≤ end_at c table i)
  Ordered-low [] low top i h lt = absurd (omega arith)
  Ordered-low (k ∷ table) low top zero (old, l, v, h) lt = (l, v)
  Ordered-low (k ∷ table) low top (suc i) (old, l, v, h) lt =
      let (l', v') = Ordered-low table (vend (c.block k)) top i h (omega arith) in (omega arith, v')

  Ordered-apart :
      (table : List ℕ) (low top i j : ℕ)
      → Ordered c table low top
      → i < j
      → j < length table
      → end_at c table i ≤ start_at c table j
  Ordered-apart [] low top i j h ij lt = absurd (omega arith)
  Ordered-apart (k ∷ table) low top i zero h ij lt = absurd (omega arith)
  Ordered-apart (k ∷ table) low top zero (suc j) (old, l, v, h) ij lt =
      (Ordered-low table (vend (c.block k)) top j h (omega arith)).0
  Ordered-apart (k ∷ table) low top (suc i) (suc j) (old, l, v, h) ij lt =
      Ordered-apart table (vend (c.block k)) top i j h (omega arith) (omega arith)

  Ordered-later :
      (table : List ℕ) (low top top' : ℕ)
      → top ≤ top'
      → Ordered c table low top
      → Ordered c table low top'
  Ordered-later [] low top top' t h = omega arith
  Ordered-later (k ∷ table) low top top' t (old, l, v, h) =
      (old, l, v, Ordered-later table (vend (c.block k)) top top' t h)

  Ordered-IsSortedTable :
      (table : List ℕ) (low top : ℕ) → Ordered c table low top → IsSortedTable c table
  Ordered-IsSortedTable table low top h = record {
    forward = λ i lt. (Ordered-low table low top i h lt).1;
    apart = λ i j ij lt. Ordered-apart table low top i j h ij lt;
  }

  module _ (b : LoadBlock) where
    old_block : (k : ℕ) → k < c.next → (add_load_block b c).block k ≡ c.block k
    unfolding add_load_block
    old_block k h = let other : (k == c.next) ≡ false = ground (arith, h) in rw other refl

    new_at : (add_load_block b c).block c.next ≡ b
    unfolding add_load_block
    new_at = let same : (c.next == c.next) ≡ true = ground arith in rw same refl

    -- The blocks of a table stay, and it may end later.
    kept-Ordered :
        (table : List ℕ) (low top top' : ℕ)
        → top ≤ top'
        → Ordered c table low top
        → Ordered (add_load_block b c) table low top'
    unfolding add_load_block
    kept-Ordered [] low top top' t h = omega arith
    kept-Ordered (k ∷ table) low top top' t (old, l, v, h) =
        let rest = kept-Ordered table (vend (c.block k)) top top' t h in
        let same = old_block k old in (omega arith, rw same l, rw same v, rw same rest)

    added-Ordered :
        (table : List ℕ) (low top : ℕ)
        → top ≤ b.vaddr
        → b.vaddr ≤ vend b
        → Ordered c table low top
        → Ordered (add_load_block b c) (table ++ (c.next ∷ [])) low (vend b)
    unfolding add_load_block
    added-Ordered [] low top t f h =
        (omega arith, rw new_at (omega arith), rw new_at f, rw new_at (omega arith))
    added-Ordered (k ∷ table) low top t f (old, l, v, h) =
        let rest = added-Ordered table (vend (c.block k)) top t f h in
        let same = old_block k old in (omega arith, rw same l, rw same v, rw same rest)

-- Both tables, up to `top`.
pub record Tables (s : Loaded) (top : ℕ) : Type 0 where
  pub loads : Ordered s.core s.core.loads 0 top
  pub quick : Ordered s.core s.core.quick 0 top

module _ (f : CoreFile) where
  abbrev pub segment_end : ℕ → ℕ
  segment_end p = add64 (ph_vaddr f p) (ph_memsz f p)

  -- Program headers whose PT_LOAD segments follow each other from `low` to `top`, and whose other
  -- headers have ends that do not wrap.
  abbrev pub Segments : ℕ → ℕ → ℕ → ℕ → Type 0
  Segments zero p low top = low ≤ top
  Segments (suc num) p low top = elim (ph_type f p == pt_load) [
    | true ↦
        (low ≤ ph_vaddr f p)
        × (ph_vaddr f p ≤ segment_end p)
        × Segments num (p + 56) (segment_end p) top
    | false ↦ (ph_offset f p + ph_filesz f p < 2 ^ 64) × Segments num (p + 56) low top
  ]

  load_segment-range :
      (c : Core) (p : ℕ)
      → ((load_segment f c p).vaddr ≡ ph_vaddr f p) × (vend (load_segment f c p) ≡ segment_end p)
  unfolding load_segment set_ori_addr
  load_segment-range c p =
      let b =
        record (new_block 0 (ph_offset f p) (ph_vaddr f p) 0 (ph_filesz f p) (ph_memsz f p) 0) {
          truncated = ph_truncated f p;
        } in
      elim (Bool-cases (is_valid_block b)) [
        | inl e ↦ unfold is_valid_block in (rw e (refl, refl))
        | inr e ↦ unfold is_valid_block in (rw e (refl, refl))
      ]

  block-Tables :
      (s : Loaded) (b : LoadBlock) (low : ℕ)
      → Tables s low
      → low ≤ b.vaddr
      → b.vaddr ≤ vend b
      → Tables (record s { core = add_load_block b s.core }) (vend b)
  unfolding add_load_block
  block-Tables s b low t h v = record {
    loads = added-Ordered s.core b s.core.loads 0 low h v t.loads;
    quick = elim (Bool-cases (not s.core.quick_enabled || not (b.flags == 0))) [
      | inl e ↦ rw e (added-Ordered s.core b s.core.quick 0 low h v t.quick)
      | inr e ↦ rw e (kept-Ordered s.core b s.core.quick 0 low (vend b) (omega arith) t.quick)
    ];
  }

  module _ (callback : ℕ → ℕ → ℕ → ℕ) (limit : ℕ) (nul : HasNul f.mem limit) where
    module _ (host : f.begin + f.size ≤ 2 ^ 63) where
      -- A header that is not PT_LOAD leaves the blocks alone.
      other-core :
          (p : ℕ) (s : Loaded)
          → (ph_type f p == pt_load) ≡ false
          → ph_offset f p + ph_filesz f p < 2 ^ 64
          → (s' : Loaded) × (load_header f callback limit p s ≡ done s') × (s'.core ≡ s.core)
      unfolding load_header
      other-core p s e fits = elim (Bool-cases (ph_type f p == pt_note)) [
        | inr g ↦ rw (load_header, e, g) (s, refl, refl)
        | inl g ↦ elim (Bool-cases (not (ph_truncated f p) && ltb 0 (ph_filesz f p))) [
          | inr h ↦ rw (load_header, e, g, h) (s, refl, refl)
          | inl h ↦
              let inside : add64 f.begin (ph_offset f p) + ph_filesz f p ≤ 2 ^ 63 =
                ground (arith, h, fits, host) in
              let (r, got) =
                read_notes-Returns f.mem callback limit (ph_filesz f p) (note_segment f p) nul
                  inside (omega arith) in
              rw (load_header, e, g, h, got) (_, refl, refl)
        ]
      ]

      load_headers-Tables :
          (num p low top : ℕ) (s : Loaded)
          → Segments num p low top
          → Tables s low
          → (s' : Loaded) × (load_headers f callback limit num p s ≡ done s') × Tables s' top
      unfolding load_headers
      load_headers-Tables zero p low top s h t = (
        s,
        refl,
        record {
          loads = Ordered-later s.core s.core.loads 0 low top h t.loads;
          quick = Ordered-later s.core s.core.quick 0 low top h t.quick;
        },
      )
      load_headers-Tables (suc num) p low top s h t = elim (Bool-cases (ph_type f p == pt_load)) [
        | inl e ↦
            let (l, v, rest) = (rw (Segments, e) at h) in
            let (start', end') = load_segment-range s.core p in
            let b = load_segment f s.core p in
            let t' = block-Tables s b low t (rw start' l) (omega (arith, start', end', v)) in
            let got : load_header f callback limit p s
                ≡ done (record s { core = add_load_block b s.core }) =
              rw (load_header, e) refl in
            rw got (
              load_headers-Tables num (p + 56) (segment_end p) top
                (record s { core = add_load_block b s.core }) rest (rw end' at t'))
        | inr e ↦
            let (fits, rest) = (rw (Segments, e) at h) in
            let (s', got, same) = other-core p s e fits in
            let t' : Tables s' low = record { loads = rw same t.loads; quick = rw same t.quick } in
            rw got (load_headers-Tables num (p + 56) low top s' rest t')
      ]

-- For a core file in the lower half of the address space, with a number of program headers, whose
-- PT_LOAD segments follow each other and whose other headers have ends that do not wrap, with a NUL
-- behind every name: `load64`, from empty tables, ends with `true`, and both tables of
-- blocks are sorted, as the search for a block needs them.
pub load64-IsSortedTable :
    (f : CoreFile) (callback : ℕ → ℕ → ℕ → ℕ) (limit phnum top : ℕ) (s : Loaded)
    → HasNul f.mem limit
    → f.begin + f.size ≤ 2 ^ 63
    → actual_phnum f ≡ some phnum
    → Segments f phnum (f.begin + 64) 0 top
    → s.core.loads ≡ []
    → s.core.quick ≡ []
    → (s' : Loaded) × (load64 f callback limit s ≡ done (some s'))
      × IsSortedTable s'.core s'.core.loads
      × IsSortedTable s'.core s'.core.quick
unfolding load64
load64-IsSortedTable f callback limit phnum top s nul host n segments e e' =
    let empty : Tables s 0 = record { loads = rw e (omega arith); quick = rw e' (omega arith) } in
    let (s', got, t) =
      load_headers-Tables f callback limit nul host phnum (f.begin + 64) 0 top s segments empty in
    (
      s',
      rw (load64, n, got) refl,
      Ordered-IsSortedTable s'.core s'.core.loads 0 top t.loads,
      Ordered-IsSortedTable s'.core s'.core.quick 0 top t.quick,
    )
