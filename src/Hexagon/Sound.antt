-- ===== src/Hexagon/Sound.antt =====
-- What validate_object of fragma/hexagon_layout.py accepts.
use fragma.Prelude.{
  ℕ, ◌+◌, ◌≤◌, ◌<◌, ◌≡◌, sym, ap, ◌∙◌, subst, true, false, ◌&&◌, [], ◌∷◌, map, some, String, ok,
  ltb, leb, length, ◌==◌, drop, keep, get_elem?, All, All-get, >>=-eq-ok, require-eq-ok,
  ok-injective,
}
use fragma.Elf.Bytes.{Bytes, slice, unpack}
use fragma.Elf.Types.{Section, Symbol, Relocatable}
use fragma.Elf.Parse.{parse_relocatable, section_bytes}
use fragma.Elf.Parse.Bounds.{parse-IsBounded, SectionInFile}
use fragma.Elf.Metadata.{has_none}
use fragma.Elf.Tables.{section_of}
use fragma.Elf.Tables.Order.{AllApart}
use fragma.Hexagon.Values.{paired, measures_of, check_pairs, check_measures}
use fragma.Hexagon.{
  machine, array_size, words, is_hexagon, layout_ranges, check_tables, is_array, sole_array,
  array_symbol, array_section, check_others, sole_allocated, unpack_words, Observations, measure,
  read_layout, validate_object,
}
use fragma.Hexagon.Consistent.{
  IsConsistent, Agree, check_measures-IsConsistent, check_pairs-Agree, Agree-map,
}
use fragma.Hexagon.Stored.{
  IsPlain, ArrayStored, sole_allocated_first, check_others-IsPlain, sole_array_lem,
  check_tables-AllApart, section_of-found, section_bytes-slice, array_section-ArrayStored,
  stored_within,
}

-- Where the array lies in the object, and what its values say.
pub record LayoutFound (d : Bytes) (found : Observations) : Type 0 where
  pub object : Relocatable
  pub parsed : parse_relocatable d machine ≡ ok object
  pub apart : AllApart (layout_ranges object)
  pub symbol : Symbol
  pub sole : keep is_array object.symbols ≡ symbol ∷ []
  pub others : All (IsPlain symbol) (drop 1 object.symbols)
  pub section : Section
  pub section_found : get_elem? object.sections symbol.section ≡ some section
  pub read_only : (section.kind ≡ 1) × (section.flags ≡ 2)
  pub within : section.offset + 112 ≤ length d
  pub values_are : found.values ≡ unpack true words (slice d section.offset 112)
  pub alone :
      (i : ℕ) (s : Section)
      → get_elem? object.sections i ≡ some s
      → has_none s.flags 2 ≡ false
      → 0 < s.size
      → i ≡ symbol.section
  pub actual : measures_of (map (λ p. p.0) (paired found.values)) ≡ ok found.layout
  pub candidate : measures_of (map (λ p. p.1) (paired found.values)) ≡ ok found.layout
  pub consistent : IsConsistent found.layout

module _ (sha256 : Bytes → String) where
  record Measured (d : Bytes) (o : Relocatable) (index : ℕ) (found : Observations) : Type 0 where
    bytes : Bytes
    bytes_read : section_bytes o index ≡ ok bytes
    values_are : found.values ≡ unpack true words bytes
    agree : All Agree (paired found.values)
    actual : measures_of (map (λ p. p.0) (paired found.values)) ≡ ok found.layout
    consistent : IsConsistent found.layout

  measure-Measured :
      (d : Bytes) (o : Relocatable) (index : ℕ) (found : Observations)
      → measure sha256 d o index ≡ ok found
      → Measured d o index found
  unfolding measure unpack_words
  measure-Measured d o index found h =
      let (bytes, e1, k1) = >>=-eq-ok (section_bytes o index) _ h in
      let (values, e2, k2) = >>=-eq-ok (unpack_words bytes) _ k1 in
      let (u, e3, k3) = >>=-eq-ok (check_pairs (paired values)) _ k2 in
      let (layout, e4, k4) = >>=-eq-ok (measures_of (map (λ p. p.0) (paired values))) _ k3 in
      let (v, e5, k5) = >>=-eq-ok (check_measures layout) _ k4 in
      let (e6, k6) = require-eq-ok (length bytes == array_size) _ _ e2 in
      subst (Measured d o index) (ok-injective k5) (record {
        bytes = bytes;
        bytes_read = e1;
        values_are = sym (ok-injective k6);
        agree = check_pairs-Agree (paired values) e3;
        actual = e4;
        consistent = check_measures-IsConsistent layout e5;
      })

  record Read (d : Bytes) (o : Relocatable) (found : Observations) : Type 0 where
    apart : AllApart (layout_ranges o)
    symbol : Symbol
    sole : keep is_array o.symbols ≡ symbol ∷ []
    section : Section
    section_found : get_elem? o.sections symbol.section ≡ some section
    stored : ArrayStored section
    others : All (IsPlain symbol) (drop 1 o.symbols)
    alone : sole_allocated symbol.section 0 o.sections ≡ true
    measured : Measured d o symbol.section found

  read_layout-Read :
      (d : Bytes) (o : Relocatable) (found : Observations)
      → read_layout sha256 d o ≡ ok found
      → Read d o found
  unfolding read_layout
  read_layout-Read d o found k1 =
      let (b, e2, k2) = >>=-eq-ok (is_hexagon d o) _ k1 in
      let (e3, k3) = require-eq-ok b _ _ k2 in
      let (u, e4, k4) = >>=-eq-ok (check_tables o) _ k3 in
      let (table, e5, k5) = >>=-eq-ok (section_of o o.symbol_table) _ k4 in
      let (e6, k6) = require-eq-ok (ltb 0 table.info && ltb table.info (length o.symbols)) _ _ k5 in
      let (symbol, e7, k7) = >>=-eq-ok (sole_array (keep is_array o.symbols)) _ k6 in
      let (e8, k8) = require-eq-ok (array_symbol o symbol) _ _ k7 in
      let (section, e9, k9) = >>=-eq-ok (section_of o symbol.section) _ k8 in
      let (f0, l0) = require-eq-ok (array_section section) _ _ k9 in
      let (v, f1, l1) = >>=-eq-ok (check_others o symbol table.info 1 (drop 1 o.symbols)) _ l0 in
      let (f2, l2) = require-eq-ok (sole_allocated symbol.section 0 o.sections) _ _ l1 in
      record {
        apart = check_tables-AllApart o e4;
        symbol = symbol;
        sole = sole_array_lem (keep is_array o.symbols) e7;
        section = section;
        section_found = section_of-found o symbol.section e9;
        stored = array_section-ArrayStored section f0;
        others = check_others-IsPlain o symbol table.info 1 (drop 1 o.symbols) f1;
        alone = f2;
        measured = measure-Measured d o symbol.section found l2;
      }

  -- The layout that is reported stands in the object: in a read-only section of its own, apart from all
  -- else, as the little-endian words of the one array of that name; no other symbol has an extent.
  -- What the compiler measured of the actual type and of the candidate agrees, and is the
  -- consistent layout of such a type.
  pub validate_object-LayoutFound :
      (d : Bytes) (found : Observations) → validate_object sha256 d ≡ ok found → LayoutFound d found
  unfolding validate_object
  validate_object-LayoutFound d found h =
      let (e0, k0) = require-eq-ok (leb (length d) 1048576) _ _ h in
      let (o, parsed, k1) = >>=-eq-ok (parse_relocatable d machine) _ k0 in
      let r = read_layout-Read d o found k1 in
      let m = r.measured in
      let bounds = parse-IsBounded d machine o parsed in
      record {
        object = o;
        parsed = parsed;
        apart = r.apart;
        symbol = r.symbol;
        sole = r.sole;
        others = r.others;
        section = r.section;
        section_found = r.section_found;
        read_only = (r.stored.kind_is, r.stored.flags_are);
        within =
            stored_within d _ r.section
              (All-get (SectionInFile d (length o.sections)) o.sections r.symbol.section
                bounds.sections_within r.section_found)
              r.stored;
        values_are =
            m.values_are
            ∙ ap (unpack true words)
                (section_bytes-slice o r.symbol.section r.section r.section_found m.bytes_read)
            ∙ ap (λ n. unpack true words (slice o.bytes r.section.offset n)) r.stored.size_is
            ∙ ap (λ b. unpack true words (slice b r.section.offset 112)) bounds.bytes_kept;
        alone = λ i s. sole_allocated_first r.symbol.section o.sections i s r.alone;
        actual = m.actual;
        candidate = ap measures_of (sym (Agree-map (paired found.values) m.agree)) ∙ m.actual;
        consistent = m.consistent;
      }
