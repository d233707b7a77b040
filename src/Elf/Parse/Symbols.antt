-- ===== src/Elf/Parse/Symbols.antt =====
-- The one symbol table of an accepted object, and the symbols read from it.
use fragma.Prelude.{
  ℕ, zero, suc, ◌+◌, ◌*◌, ◌/◌, ◌≡◌, refl, sym, ap, ◌∙◌, subst, true, false, List, [], ◌∷◌, some, ok,
  length, get_elem?, ◌==◌, >>=-eq-ok, require-eq-ok, All, arith, Bool-cases, inl, inr, ◌⊎◌,
  ok-injective, Both-get, Both-get_back,
}
use mathlib.Core.Option.{some-injective}
use fragma.Prelude.Json.{Json}
use fragma.Elf.Bytes.{Bytes, slice, starts_zero}
use fragma.Elf.Types.{Section, Symbol, Relocatable, Layout, Row}
use fragma.Elf.Parse.{
  string_at, symbol_of, symbol_fields, read_symbols, tables_from, only, row_at, check_table,
  read_symbol_table, parse_relocatable,
}
use fragma.Elf.Rows.{symbol_size, row_bytes}
use fragma.Elf.Parse.Names.{IsNameAt, string_at_iff}
use fragma.Elf.Parse.Inversion.{parse-Parsed}
use fragma.Elf.Parse.Bounds.{SameFields, read_sections-Both}

-- `k` is one of the numbers.
abbrev Among : ℕ → List ℕ → Type 0
Among k [] = ⊥
Among k (i ∷ is) = (k ≡ i) ⊎ Among k is

module _ (i : ℕ) (r : Row) (rows : List Row) where
  tables_from_hit : (r.kind == 2) ≡ true → tables_from i (r ∷ rows) ≡ i ∷ tables_from (i + 1) rows
  unfolding tables_from
  tables_from_hit e = ground arith

  tables_from_miss : (r.kind == 2) ≡ false → tables_from i (r ∷ rows) ≡ tables_from (i + 1) rows
  unfolding tables_from
  tables_from_miss e = ground arith

tables_from_sound :
    (i : ℕ) (rows : List Row) (k : ℕ)
    → Among k (tables_from i rows)
    → (j : ℕ) × (r : Row) × (k ≡ i + j) × (get_elem? rows j ≡ some r) × (r.kind ≡ 2)
unfolding tables_from
tables_from_sound i [] k h = absurd h
tables_from_sound i (r ∷ rows) k h = elim (Bool-cases (r.kind == 2)) [
  | inl e ↦ elim (subst (Among k) (tables_from_hit i r rows e) h) [
    | inl here ↦ (0, r, omega (arith, here), refl, ground arith)
    | inr later ↦
        let (j, r', p, q, z) = tables_from_sound (i + 1) rows k later in
        (suc j, r', omega (arith, p), q, z)
  ]
  | inr e ↦
      let (j, r', p, q, z) =
        tables_from_sound (i + 1) rows k (subst (Among k) (tables_from_miss i r rows e) h) in
      (suc j, r', omega (arith, p), q, z)
]

tables_from_complete :
    (i : ℕ) (rows : List Row) (j : ℕ) (r : Row)
    → get_elem? rows j ≡ some r
    → r.kind ≡ 2
    → Among (i + j) (tables_from i rows)
unfolding tables_from
tables_from_complete i [] j r e k = cc
tables_from_complete i (x ∷ rows) zero r e k =
    let same : x ≡ r = some-injective _ _ e in
    let is_table : (x.kind == 2) ≡ true = ground (arith, ap (λ (y : Row). y.kind) same) in
    subst (Among (i + 0)) (sym (tables_from_hit i x rows is_table)) (inl (omega arith))
tables_from_complete i (x ∷ rows) (suc j) r e k =
    let ih = tables_from_complete (i + 1) rows j r e k in
    let shift : i + 1 + j ≡ i + suc j = omega arith in
    let moved = subst (λ n. Among n (tables_from (i + 1) rows)) shift ih in
    elim (Bool-cases (x.kind == 2)) [
      | inl t ↦ subst (Among (i + suc j)) (sym (tables_from_hit i x rows t)) (inr moved)
      | inr t ↦ subst (Among (i + suc j)) (sym (tables_from_miss i x rows t)) moved
    ]

only-Among : (is : List ℕ) {k : ℕ} → only is ≡ ok k → Among k is × ((j : ℕ) → Among j is → j ≡ k)
only-Among [] h = cc
only-Among (i ∷ []) h = (inl (sym (ok-injective h)), λ j a. ground (arith, ok-injective h))
only-Among (i ∷ (j ∷ is)) h = cc

-- `only` finds the one row of kind SHT_SYMTAB.
record OneTable (rows : List Row) (k : ℕ) : Type 0 where
  row : Row
  found : get_elem? rows k ≡ some row
  kind : row.kind ≡ 2
  alone : (j : ℕ) (r : Row) → get_elem? rows j ≡ some r → r.kind ≡ 2 → j ≡ k

only-OneTable : (rows : List Row) {k : ℕ} → only (tables_from 0 rows) ≡ ok k → OneTable rows k
only-OneTable rows {k} h =
    let (member, alone) = only-Among (tables_from 0 rows) h in
    let (j, r, p, q, z) = tables_from_sound 0 rows k member in
    let place : j ≡ k = omega (arith, p) in
    record {
      row = r;
      found = subst (λ n. get_elem? rows n ≡ some r) place q;
      kind = z;
      alone = λ i s g e. omega (arith, alone (0 + i) (tables_from_complete 0 rows i s g e));
    }

symbol_of-name :
    (bits : ℕ) (strings : Bytes) (values : List ℕ) {s : Symbol}
    → symbol_of bits strings values ≡ ok s
    → (offset : ℕ) × IsNameAt strings offset s.name
symbol_of-name bits strings (a ∷ b ∷ c ∷ e ∷ f ∷ g ∷ []) {s} h =
    let (name, p, q) = >>=-eq-ok (string_at strings a) _ h in
    let same : name ≡ s.name = ground arith in
    (a, subst (IsNameAt strings a) same ((string_at_iff strings a name).0 p))
symbol_of-name bits strings _ h = cc

abbrev NamedIn : Bytes → Symbol → Type 0
NamedIn strings s = (offset : ℕ) × IsNameAt strings offset s.name

read_symbols_lem :
    (l : Layout) (d strings : Bytes) (n offset : ℕ) {symbols : List Symbol}
    → read_symbols l d strings n offset ≡ ok symbols
    → (length symbols ≡ n) × All (NamedIn strings) symbols
unfolding read_symbols
read_symbols_lem l d strings zero offset {symbols} h =
    subst (λ (xs : List Symbol). (length xs ≡ 0) × All (NamedIn strings) xs) (ok-injective h)
      (refl, tt)
read_symbols_lem l d strings (suc n) offset {symbols} h =
    let (values, p, k1) = >>=-eq-ok (symbol_fields l.bits l.little d offset) _ h in
    let (s, q, k2) = >>=-eq-ok (symbol_of l.bits strings values) _ k1 in
    let (rest, r, k3) = >>=-eq-ok (read_symbols l d strings n _) _ k2 in
    let (len, names) = read_symbols_lem l d strings n _ r in
    subst (λ (xs : List Symbol). (length xs ≡ suc n) × All (NamedIn strings) xs) (ok-injective k3)
      (ap suc len, (symbol_of-name l.bits strings values q, names))

-- The symbol table that `parse_relocatable` chose and what it read from it.
pub record SymbolsRead (d : Bytes) (o : Relocatable) : Type 0 where
  pub table : Section
  pub strings : Section
  pub table_found : get_elem? o.sections o.symbol_table ≡ some table
  pub table_kind : table.kind ≡ 2
  pub table_only :
      (j : ℕ) (s : Section) → get_elem? o.sections j ≡ some s → s.kind ≡ 2 → j ≡ o.symbol_table
  pub strings_found : get_elem? o.sections table.link ≡ some strings
  pub strings_kind : strings.kind ≡ 3
  pub table_filled : length o.symbols * symbol_size o.bits ≡ table.size
  pub named : All (NamedIn (slice d strings.offset strings.size)) o.symbols

row_at-get : (rows : List Row) (i : ℕ) {r : Row} → row_at rows i ≡ ok r → get_elem? rows i ≡ some r
row_at-get rows i {r} h = ground arith

row_bytes_lem :
    (d : Bytes) (r : Row) {b : Bytes} → row_bytes d r ≡ ok b → b ≡ slice d r.offset r.size
unfolding row_bytes
row_bytes_lem d r h = ground arith

table_shape :
    (l : Layout) (rows : List Row) (t r : Row)
    → check_table l rows t ≡ true
    → get_elem? rows t.link ≡ some r
    → (t.size / symbol_size l.bits * symbol_size l.bits ≡ t.size) × (r.kind ≡ 3)
unfolding check_table
table_shape l rows t r h e = ground arith

-- An accepted object has one section of kind SHT_SYMTAB; its symbols fill that section, and each
-- symbol's name stands, terminated, in the linked string table of kind SHT_STRTAB.
pub parse-SymbolsRead :
    (d : Bytes) (model : Json) (o : Relocatable)
    → parse_relocatable d model ≡ ok o
    → SymbolsRead d o
unfolding read_symbol_table
parse-SymbolsRead d model o e =
    let p = parse-Parsed d model e in
    let both = read_sections-Both d p.header p.rows p.sections_read in
    let (t, e1, k1) = >>=-eq-ok (row_at p.rows o.symbol_table) _ p.symbols_read in
    let (e2, k2) = require-eq-ok (check_table p.layout p.rows t) _ _ k1 in
    let (r, e3, k3) = >>=-eq-ok (row_at p.rows t.link) _ k2 in
    let (strings, e4, k4) = >>=-eq-ok (row_bytes d r) _ k3 in
    let (e5, k5) = require-eq-ok (starts_zero strings) _ _ k4 in
    let (len, names) = read_symbols_lem p.layout d strings _ _ k5 in
    let one = only-OneTable p.rows p.table_found in
    let (ts, s1, s2) =
      Both-get SameFields p.rows o.sections o.symbol_table both
        (row_at-get p.rows o.symbol_table e1) in
    let (ss, s3, s4) =
      Both-get SameFields p.rows o.sections t.link both (row_at-get p.rows t.link e3) in
    let (fits, kind) = table_shape p.layout p.rows t r e2 (row_at-get p.rows t.link e3) in
    let same : t ≡ one.row =
      some-injective _ _ (sym (row_at-get p.rows o.symbol_table e1) ∙ one.found) in
    record {
      table = ts;
      strings = ss;
      table_found = s1;
      table_kind = s2.kind ∙ ap (λ (x : Row). x.kind) same ∙ one.kind;
      table_only = λ j s g k.
          let (x, g', f) = Both-get_back SameFields p.rows o.sections j both g in
          one.alone j x g' (sym f.kind ∙ k);
      strings_found = rw s2.link s3;
      strings_kind = s4.kind ∙ kind;
      table_filled = rw (len, p.bits_is, s2.size) fits;
      named = rw (s4.offset, s4.size, ← row_bytes_lem d r e4) names;
    }
