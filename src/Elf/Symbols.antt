-- ===== src/Elf/Symbols.antt =====
-- `Elf::ReadSymbols` of core/api/elf.cpp on a symbol table, up to the symbol where it ends.
use open_core_analysis_kit.Base.{
  ℕ, zero, suc, ◌≤◌, ◌<◌, ◌≡◌, Bool-cases, inl, inr, refl, ◌∙◌, leb, ◌==◌, if◌then◌else◌, true,
  false, some, List, [], ◌∷◌, add64, arith,
}
use open_core_analysis_kit.Elf.{Space, st_name, st_value, st_size, st_info}
use open_core_analysis_kit.Elf.Entry.{
  SymbolEntry, insert_entry, is_label, symbol_round, symbol_loop, named, or_fault, skip, stop, move,
}

module _ (s : Space) (syment tables : ℕ) where
  -- A symbol with an address, a size, and a name with the given text.
  pub record Named (p : ℕ) (e : SymbolEntry) : Type 0 where
    pub name : ℕ
    pub value : st_value s p ≡ some e.offset
    pub value_pos : 0 < e.offset
    pub size : st_size s p ≡ some e.size
    pub size_pos : 0 < e.size
    pub at : st_name s p ≡ some name
    pub below : add64 tables name < s.target.point_mask
    pub inside : s.same_block tables (add64 tables name) ≡ true
    pub info : st_info s p ≡ some e.type
    pub text : s.text (add64 tables name) ≡ some e.symbol

  -- From `n` rounds left at `p` to `m` rounds left at `q`: entries that stay, and symbols without
  -- an address or without a size.
  pub data Table : (n p : ℕ) → List SymbolEntry → (m q : ℕ) → Type 0 where
    start : {n p : ℕ} → Table n p [] n p
    blank :
        {n p m q : ℕ} {entries : List SymbolEntry}
        → st_value s p ≡ some 0
        → Table n (add64 p syment) entries m q
        → Table (suc n) p entries m q
    empty :
        {n p m q : ℕ} {entries : List SymbolEntry} (value : ℕ)
        → st_value s p ≡ some value
        → st_size s p ≡ some 0
        → Table n (add64 p syment) entries m q
        → Table (suc n) p entries m q
    kept :
        {n p m q : ℕ} {e : SymbolEntry} {entries : List SymbolEntry}
        → Named p e
        → is_label e.symbol ≡ false
        → Table n (add64 p syment) entries m q
        → Table (suc n) p (e ∷ entries) m q

  -- A symbol with an address and a size, and the place of its name.
  pub record Placed (p symname : ℕ) : Type 0 where
    pub value : ℕ
    pub size : ℕ
    pub name : ℕ
    pub value_at : st_value s p ≡ some value
    pub value_pos : 0 < value
    pub size_at : st_size s p ≡ some size
    pub size_pos : 0 < size
    pub name_at : st_name s p ≡ some name
    pub symname_at : symname ≡ add64 tables name

  -- Where the entries end: at the end of the table, at a label, at a symbol whose name is not below
  -- the mask, or at one whose name is not in the block of the strings.
  pub data Ending : (m q : ℕ) → Type 0 where
    table_end : {q : ℕ} → Ending 0 q
    label : {m q : ℕ} (e : SymbolEntry) → Named q e → is_label e.symbol ≡ true → Ending m q
    high : {m q symname : ℕ} → Placed q symname → s.target.point_mask ≤ symname → Ending m q
    outside :
        {m q symname : ℕ}
        → Placed q symname
        → symname < s.target.point_mask
        → s.same_block tables symname ≡ false
        → Ending m q

  abbrev pub insert_all : List SymbolEntry → List SymbolEntry → List SymbolEntry
  insert_all [] found = found
  insert_all (e ∷ entries) found = insert_all entries (insert_entry e found)

  Named-round :
      {p : ℕ} {e : SymbolEntry} (found : List SymbolEntry)
      → Named p e
      → symbol_round s tables p found
        ≡ (if is_label e.symbol then skip else move (insert_entry e found))
  unfolding symbol_round
  Named-round {p} {e} found h =
      let value' : (e.offset == 0) ≡ false = ground (arith, h.value_pos) in
      let size' : (e.size == 0) ≡ false = ground (arith, h.size_pos) in
      let below' : leb s.target.point_mask (add64 tables h.name) ≡ false =
        ground (arith, h.below) in
      rw
        (
          symbol_round, or_fault, h.value, value', h.size, size', h.at, below', h.inside, h.info,
          h.text, named,
        )
        refl

  Placed-round :
      {p symname : ℕ} (found : List SymbolEntry)
      → Placed p symname
      → (s.target.point_mask ≤ symname → symbol_round s tables p found ≡ skip)
        × (symname < s.target.point_mask
            → s.same_block tables symname ≡ false
            → symbol_round s tables p found ≡ stop)
  unfolding symbol_round
  Placed-round {p = p} {symname = symname} found h =
      let value' : (h.value == 0) ≡ false = ground (arith, h.value_pos) in
      let size' : (h.size == 0) ≡ false = ground (arith, h.size_pos) in
      (
        λ high'.
            let high'' : leb s.target.point_mask symname ≡ true = ground (arith, high') in
            rw
              (
                symbol_round,
                or_fault,
                h.value_at,
                value',
                h.size_at,
                size',
                h.name_at,
                ← h.symname_at,
                high'',
              )
              refl,
        λ below' out.
            let below'' : leb s.target.point_mask symname ≡ false = ground (arith, below') in
            rw
              (
                symbol_round,
                or_fault,
                h.value_at,
                value',
                h.size_at,
                size',
                h.name_at,
                ← h.symname_at,
                below'',
                out,
              )
              refl,
      )

  -- A symbol at which the body ends by `continue` is never left.
  skipped_loop :
      (n p : ℕ) (found : List SymbolEntry)
      → symbol_round s tables p found ≡ skip
      → symbol_loop s n syment tables p found ≡ found
  unfolding symbol_loop
  skipped_loop zero p found h = refl
  skipped_loop (suc n) p found h = rw (symbol_loop, h) (skipped_loop n p found h)

  loop-rest :
      {n p m q : ℕ} {entries : List SymbolEntry} (found : List SymbolEntry)
      → Table n p entries m q
      → symbol_loop s n syment tables p found
        ≡ symbol_loop s m syment tables q (insert_all entries found)
  unfolding symbol_loop symbol_round
  loop-rest found start = refl
  loop-rest {p = p} found (blank e t) =
      let round : symbol_round s tables p found ≡ move found =
        rw (symbol_round, or_fault, e) refl in
      rw (symbol_loop, round) (loop-rest found t)
  loop-rest {p = p} found (empty value e e' t) = elim (Bool-cases (value == 0)) [
    | inl none' ↦
        let round : symbol_round s tables p found ≡ move found =
          rw (symbol_round, or_fault, e, none') refl in
        rw (symbol_loop, round) (loop-rest found t)
    | inr some' ↦
        let round : symbol_round s tables p found ≡ move found =
          rw (symbol_round, or_fault, e, some', e') refl in
        rw (symbol_loop, round) (loop-rest found t)
  ]
  loop-rest {p = p} found (kept {e = e} h l t) =
      let round : symbol_round s tables p found ≡ move (insert_entry e found) =
        Named-round found h ∙ rw l refl in
      rw (symbol_loop, round) (loop-rest (insert_entry e found) t)

  Ending-loop :
      {m q : ℕ} (found : List SymbolEntry)
      → Ending m q
      → symbol_loop s m syment tables q found ≡ found
  unfolding symbol_loop
  Ending-loop found table_end = refl
  Ending-loop {m = m} {q = q} found (label e h l) =
      skipped_loop m q found (Named-round found h ∙ rw l refl)
  Ending-loop {m = m} {q = q} found (high h le) =
      skipped_loop m q found ((Placed-round found h).0 le)
  Ending-loop {m = zero} found (outside h lt out) = refl
  Ending-loop {m = suc m} {q = q} found (outside h lt out) =
      rw (symbol_loop, (Placed-round found h).1 lt out) refl

-- On a table whose fields and names are read without an exception, the loop passes over symbols
-- without an address or a size, and inserts the others up to the end of the table, or up to the
-- first one whose name begins with `$` or `.`, or stands at or above the pointer mask, or outside
-- the block of the strings: all symbols from that one on are lost.
pub symbol_loop-until_label :
    (s : Space) (syment tables n p m q : ℕ) (entries found : List SymbolEntry)
    → Table s syment tables n p entries m q
    → Ending s syment tables m q
    → symbol_loop s n syment tables p found ≡ insert_all s syment tables entries found
symbol_loop-until_label s syment tables n p m q entries found t e =
    loop-rest s syment tables found t
    ∙ Ending-loop s syment tables (insert_all s syment tables entries found) e
