-- ===== src/Elf/Tables/Symbols.antt =====
-- The symbols and relocations of an object that `complete_tables` accepted.
use fragma.Prelude.{
  ℕ, zero, suc, ◌+◌, ◌≤◌, ◌<◌, ◌≡◌, ap, subst, Bool, true, false, not, ◌&&◌, ◌||◌, List, [], ◌∷◌,
  some, ok, each, ltb, leb, length, get_elem?, ◌==◌, if◌then◌else◌, drop, All, All-append, arith,
  >>=-eq-ok, require-eq-ok, require-true, Bool-cases, Option-cases, inl, inr, ◌⊎◌, ◌↔◌,
  ok-injective, ltb→lt, leb→le, &&-eq-true,
}
use mathlib.Core.Option.{some-injective}
use fragma.Elf.Types.{Section, Symbol, Relocatable}
use fragma.Elf.Bytes.{unpack_from}
use fragma.Elf.Metadata.{mips_calibration_metadata, has_none}
use fragma.Elf.Tables.{
  check_section, check_symbols, check_symbol, symbol_order, section_symbol, file_symbol,
  check_definition, complete_tables, Relocation, binding, type_of, section_size_at, relocations,
  relocation_table, entries, relocation_of, table_bounds, section_of, null_symbol, first_global,
  iff,
}
use fragma.Elf.Ranges.{ranges, sort, adjacent}

-- Where a symbol is defined: nowhere, as an absolute file symbol, or within one section.
abbrev pub IsPlaced : Relocatable → Symbol → Type 0
IsPlaced o s =
    ((s.section ≡ 0) × (s.value ≡ 0) × (s.size ≡ 0))
    ⊎ (((s.section ≡ 0xfff1) × (type_of s ≡ 4) × (s.value ≡ 0) × (s.size ≡ 0))
        ⊎ ((0 < s.section)
            × (s.section < length o.sections)
            × (s.value + s.size ≤ section_size_at o s.section)))

-- What the gate leaves of a symbol at `index`: it is local exactly in front of the first global.
pub record SymbolAccepted (o : Relocatable) (global index : ℕ) (s : Symbol) : Type 0 where
  pub local : (binding s ≡ 0) ↔ (index < global)
  pub binding_known : binding s ≤ 2
  pub placed : IsPlaced o s
  pub file_absolute : type_of s ≡ 4 → s.section ≡ 0xfff1

-- The branch of a symbol with a section: the bounds are kept as variables.
in_section_bounds :
    (o : Relocatable) (s : Symbol)
    → (s.section == 0) ≡ false
    → (s.section == 0xfff1) ≡ false
    → check_definition o s ≡ ok tt
    → (0 < s.section)
      × (s.section < length o.sections)
      × (s.value + s.size ≤ section_size_at o s.section)
unfolding check_definition
in_section_bounds o s a b h =
    let (p, q) =
      require-eq-ok (ltb 0 s.section && ltb s.section (length o.sections)) _ _ (rw (a, b) at h) in
    let r = require-true _ _ q in (ground arith, ground arith, leb→le _ _ r)

check_definition-IsPlaced :
    (o : Relocatable) (s : Symbol) → check_definition o s ≡ ok tt → IsPlaced o s
unfolding check_definition
check_definition-IsPlaced o s h = elim (Bool-cases (s.section == 0)) [
  | inl a ↦ inl (ground arith)
  | inr a ↦ elim (Bool-cases (s.section == 0xfff1)) [
    | inl b ↦ inr (inl (ground arith))
    | inr b ↦ inr (inr (in_section_bounds o s a b h))
  ]
]

last_of_four : (a b c d : Bool) → (a && b && c && d) ≡ true → d ≡ true
last_of_four a b c d h = ground arith

first_of_four : (a b c d : Bool) → (a && b && c && d) ≡ true → a ≡ true
first_of_four a b c d h = ground arith

implied : (a b c e : ℕ) → (not (a == b) || c == e) ≡ true → a ≡ b → c ≡ e
implied a b c e h k = ground arith

section_of-get :
    (o : Relocatable) (i : ℕ) {t : Section}
    → section_of o i ≡ ok t
    → get_elem? o.sections i ≡ some t
section_of-get o i h = elim (Option-cases (get_elem? o.sections i)) [
  | inl e ↦ ground arith
  | inr (t, e) ↦ ground arith
]

binding_lem :
    (s : Symbol) (global index : ℕ)
    → iff (binding s == 0) (ltb index global) ≡ true
    → (binding s ≡ 0) ↔ (index < global)
binding_lem s global index h = (ground arith, ground arith)

check_symbol-SymbolAccepted :
    (o : Relocatable) (global index : ℕ) (s : Symbol)
    → check_symbol o global index s ≡ ok tt
    → SymbolAccepted o global index s
unfolding check_symbol
check_symbol-SymbolAccepted o global index s h =
    let (a, k1) = require-eq-ok (symbol_order o global index s) _ _ h in
    let (u, b, k2) = >>=-eq-ok (check_definition o s) _ k1 in
    let (c, k3) = require-eq-ok (section_symbol o s) _ _ k2 in
    let d = require-true (file_symbol s) _ k3 in
    record {
      local =
          binding_lem s global index (last_of_four (leb (binding s) 2) (ltb (type_of s) 7) _ _ a);
      binding_known =
          leb→le (binding s) 2 (first_of_four (leb (binding s) 2) (ltb (type_of s) 7) _ _ a);
      placed = check_definition-IsPlaced o s b;
      file_absolute = implied _ _ _ _ d;
    }

check_symbols-SymbolAccepted :
    (o : Relocatable) (global index : ℕ) (symbols : List Symbol)
    → check_symbols o global index symbols ≡ ok tt
    → (i : ℕ) (s : Symbol) → get_elem? symbols i ≡ some s
    → SymbolAccepted o global (index + i) s
unfolding check_symbols
check_symbols-SymbolAccepted o global index [] h i s e = cc
check_symbols-SymbolAccepted o global index (x ∷ symbols) h zero s e =
    let (u, p, q) = >>=-eq-ok (check_symbol o global index x) _ h in
    let place : index ≡ index + 0 = omega arith in
    subst (λ n. SymbolAccepted o global n s) place
      (subst (SymbolAccepted o global index) (some-injective _ _ e)
        (check_symbol-SymbolAccepted o global index x p))
check_symbols-SymbolAccepted o global index (x ∷ symbols) h (suc i) s e =
    let (u, p, q) = >>=-eq-ok (check_symbol o global index x) _ h in
    let place : index + 1 + i ≡ index + suc i = omega arith in
    subst (λ n. SymbolAccepted o global n s) place
      (check_symbols-SymbolAccepted o global (index + 1) symbols q i s e)

-- A relocation names a symbol, and an address within a section that is not executable.
pub record RelocationAccepted (o : Relocatable) (r : Relocation) : Type 0 where
  pub symbol_within : r.symbol < length o.symbols
  pub target : Section
  pub target_found : get_elem? o.sections r.target ≡ some target
  pub address_within : r.address < target.size
  pub not_executable : has_none target.flags 4 ≡ true

relocation_of-RelocationAccepted :
    (o : Relocatable) (index : ℕ) (s t : Section) (values : List ℕ) (r : Relocation)
    → get_elem? o.sections s.info ≡ some t
    → has_none t.flags 4 ≡ true
    → relocation_of o index s t values ≡ ok r
    → RelocationAccepted o r
relocation_of-RelocationAccepted o index s t (address ∷ info ∷ []) r f x h =
    let (p, q) = require-eq-ok _ _ _ h in
    let (a, b) = &&-eq-true _ _ p in
    subst (RelocationAccepted o) (ok-injective q) (record {
      symbol_within = ltb→lt _ _ a;
      target = t;
      target_found = f;
      address_within = ltb→lt _ _ b;
      not_executable = x;
    })
relocation_of-RelocationAccepted o index s t _ r f x h = cc

entries-RelocationAccepted :
    (o : Relocatable) (index : ℕ) (s t : Section) (size n offset : ℕ) (found : List Relocation)
    → get_elem? o.sections s.info ≡ some t
    → has_none t.flags 4 ≡ true
    → entries o index s t size n offset ≡ ok found
    → All (RelocationAccepted o) found
unfolding entries
entries-RelocationAccepted o index s t size zero offset found f x h =
    subst (All (RelocationAccepted o)) (ok-injective h) tt
entries-RelocationAccepted o index s t size (suc n) offset found f x h =
    let (values, p, k1) = >>=-eq-ok (unpack_from _ _ _ offset) _ h in
    let (r, q, k2) = >>=-eq-ok (relocation_of o index s t values) _ k1 in
    let (rest, e, k3) = >>=-eq-ok (entries o index s t size n (offset + size)) _ k2 in
    subst (All (RelocationAccepted o)) (ok-injective k3) (
      relocation_of-RelocationAccepted o index s t values r f x q,
      entries-RelocationAccepted o index s t size n (offset + size) rest f x e,
    )

relocation_table-RelocationAccepted :
    (o : Relocatable) (index : ℕ) (s : Section) (found : List Relocation)
    → relocation_table o index s ≡ ok found
    → All (RelocationAccepted o) found
unfolding relocation_table
relocation_table-RelocationAccepted o index s found h =
    let (p, k1) = require-eq-ok (table_bounds o s) _ _ h in
    let (t, q, k2) = >>=-eq-ok (section_of o s.info) _ k1 in
    let (x, k3) = require-eq-ok (has_none t.flags 4) _ _ k2 in
    entries-RelocationAccepted o index s t _ _ _ found (section_of-get o s.info q) x k3

-- A section of another kind has no relocations.
one_table :
    (o : Relocatable) (index : ℕ) (s : Section) (found : List Relocation)
    → (if s.kind == 4 || s.kind == 9 then relocation_table o index s else ok []) ≡ ok found
    → All (RelocationAccepted o) found
one_table o index s found h = elim (Bool-cases (s.kind == 4 || s.kind == 9)) [
  | inl e ↦ relocation_table-RelocationAccepted o index s found (rw e at h)
  | inr e ↦ subst (All (RelocationAccepted o)) (ok-injective (rw e at h)) tt
]

relocations-RelocationAccepted :
    (o : Relocatable) (index : ℕ) (sections : List Section) (found : List Relocation)
    → relocations o index sections ≡ ok found
    → All (RelocationAccepted o) found
unfolding relocations
relocations-RelocationAccepted o index [] found h =
    subst (All (RelocationAccepted o)) (ok-injective h) tt
relocations-RelocationAccepted o index (s ∷ sections) found h =
    let (here, p, k1) = >>=-eq-ok _ _ h in
    let (rest, q, k2) = >>=-eq-ok (relocations o (index + 1) sections) _ k1 in
    subst (All (RelocationAccepted o)) (ok-injective k2) (
      All-append (RelocationAccepted o) here rest (one_table o index s here p)
        (relocations-RelocationAccepted o (index + 1) sections rest q))

-- The gate's verdict on symbols and relocations.
pub record TablesAccepted (o : Relocatable) (found : List Relocation) : Type 0 where
  pub symbols :
      (i : ℕ) (s : Symbol) → get_elem? o.symbols i ≡ some s → SymbolAccepted o (first_global o) i s
  pub global_within : (0 < first_global o) × (first_global o ≤ length o.symbols)
  pub relocations : All (RelocationAccepted o) found

-- Each symbol of an accepted object is undefined, absolute or within its section, and is local
-- exactly if it stands in front of the first global; each relocation names a symbol of the object
-- and an address within a section that is not executable.
pub complete_tables-TablesAccepted :
    (o : Relocatable) (found : List Relocation) (mips : Bool)
    → complete_tables o ≡ ok (found, mips)
    → TablesAccepted o found
unfolding complete_tables
complete_tables-TablesAccepted o found mips h =
    let (m, e1, k1) = >>=-eq-ok (mips_calibration_metadata o) _ h in
    let (u, e2, k2) = >>=-eq-ok (each (check_section o m) (drop 1 o.sections)) _ k1 in
    let (e3, k3) = require-eq-ok (adjacent (sort (ranges o))) _ _ k2 in
    let (e4, k4) = require-eq-ok (null_symbol o.symbols) _ _ k3 in
    let (e5, k5) = require-eq-ok _ _ _ k4 in
    let (v, e6, k6) = >>=-eq-ok (check_symbols o (first_global o) 0 o.symbols) _ k5 in
    let (rs, e7, k7) = >>=-eq-ok (relocations o 0 o.sections) _ k6 in
    let same : rs ≡ found = ap (λ (x : List Relocation × Bool). x.0) (ok-injective k7) in
    let (a, b) = &&-eq-true _ _ e5 in
    record {
      symbols = λ i s g.
          let place : 0 + i ≡ i = omega arith in
          subst (λ n. SymbolAccepted o (first_global o) n s) place
            (check_symbols-SymbolAccepted o (first_global o) 0 o.symbols e6 i s g);
      global_within = (ltb→lt _ _ a, leb→le _ _ b);
      relocations =
          subst (All (RelocationAccepted o)) same
            (relocations-RelocationAccepted o 0 o.sections rs e7);
    }
