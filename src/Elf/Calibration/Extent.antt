-- ===== src/Elf/Calibration/Extent.antt =====
-- What `calibration_object` reports of the definition is true of the file.
use fragma.Prelude.{
  ℕ, zero, suc, ◌+◌, ◌≤◌, ◌<◌, ◌≡◌, ap, ◌∙◌, subst, Bool, true, ◌&&◌, ◌||◌, List, [], ◌∷◌, some, ok,
  ltb, length, String, get_elem?, ◌==◌, drop, All, >>=-eq-ok, require-eq-ok, ok-injective,
  part_of_part, length-part, arith, Option-cases, keep-get, ◌≢◌, ◌⊎◌, inl, inr, ltb→lt,
}
use mathlib.Core.Option.{some-injective}
use fragma.Prelude.Json.{Json}
use fragma.Elf.Bytes.{Bytes, slice, beq}
use fragma.Elf.Types.{Section, Symbol, Relocatable}
use fragma.Elf.Parse.{content, parse_relocatable}
use fragma.Elf.Parse.Bounds.{IsBounded, parse-IsBounded, SectionInFile}
use fragma.Elf.Metadata.{executable, alpha_function_metadata}
use fragma.Elf.Tables.{Relocation, complete_tables, section_of, section_size_at}
use fragma.Elf.Tables.Symbols.{complete_tables-TablesAccepted, IsPlaced}
use fragma.Elf.Calibration.{
  Observation, observe, calibration_object, same_fixture, sole_symbol, matching, global_function,
  undefined_symbols, target_name, definition_of,
}

sole_symbol_lem : (xs : List Symbol) {s : Symbol} → sole_symbol xs ≡ ok s → xs ≡ s ∷ []
sole_symbol_lem [] h = cc
sole_symbol_lem (x ∷ []) h = ap (λ y. y ∷ []) (ok-injective h)
sole_symbol_lem (x ∷ (y ∷ xs)) h = cc

sole_symbol-get :
    (xs : List Symbol) (s : Symbol)
    → sole_symbol (matching xs) ≡ ok s
    → (i : ℕ) × (get_elem? xs i ≡ some s) × (beq s.name target_name ≡ true)
unfolding matching
sole_symbol-get xs s h = keep-get (λ x. beq x.name target_name) xs (sole_symbol_lem _ h)

undefined_symbols-le :
    (o : Relocatable) (definition : Symbol) (rs : List Relocation) (index seen : ℕ)
    (symbols : List Symbol) (n : ℕ)
    → seen ≤ 1
    → undefined_symbols o definition rs index seen symbols ≡ ok n
    → n ≤ 1
unfolding undefined_symbols
undefined_symbols-le o definition rs index seen [] n p h = omega (arith, ok-injective h)
undefined_symbols-le o definition rs index seen (s ∷ symbols) n p h = ground (
  arith,
  undefined_symbols-le o definition rs (index + 1) seen symbols n p,
  undefined_symbols-le o definition rs (index + 1) (seen + 1) symbols n,
)

-- The reported definition is that of the only symbol with the calibration's name. The object, the
-- symbol and its section are those that the file's bytes determine.
pub record DefinitionFound (sha256 : Bytes → String) (d : Bytes) (model : Json)
    (found : Observation) : Type 0 where
  pub object : Relocatable
  pub parsed : parse_relocatable d model ≡ ok object
  pub symbol : Symbol
  pub sole : matching object.symbols ≡ symbol ∷ []
  pub name_is : beq symbol.name target_name ≡ true
  pub section : Section
  pub at_section : get_elem? object.sections symbol.section ≡ some section
  pub runs : executable section ≡ true
  pub reported : found.definition ≡ record {
    section = section.name;
    section_index = symbol.section;
    section_flags = section.flags;
    offset = symbol.value;
    size = symbol.size;
    bytes_sha256 = sha256 (slice d (section.offset + symbol.value) symbol.size);
  }
  pub nonempty : 0 < symbol.size
  pub within : section.offset + symbol.value + symbol.size ≤ length d
  pub in_section : symbol.value + symbol.size ≤ section.size
  pub whole : length (slice d (section.offset + symbol.value) symbol.size) ≡ symbol.size
  pub unwind_entries : found.undefined_metadata ≤ 1

section_of-size :
    (o : Relocatable) (i : ℕ) (s : Section)
    → section_of o i ≡ ok s
    → (section_size_at o i ≡ s.size) × (get_elem? o.sections i ≡ some s)
section_of-size o i s h = elim (Option-cases (get_elem? o.sections i)) [
  | inl e ↦ ground arith
  | inr (t, e) ↦ ground arith
]

content_lem :
    (o : Relocatable) (s : Section) (b : Bytes)
    → content o s ≡ ok b
    → (s.kind ≢ 8) × (b ≡ slice o.bytes s.offset s.size)
unfolding content
content_lem o s b h = ground arith

-- A defined symbol of a section lies within it.
placed_within :
    (o : Relocatable) (s : Symbol)
    → IsPlaced o s
    → 0 < s.section
    → s.section < length o.sections
    → length o.sections < 0xff00
    → s.value + s.size ≤ section_size_at o s.section
placed_within o s (inl h) p q r = absurd (omega (arith, h.0))
placed_within o s (inr (inl h)) p q r = absurd (omega (arith, h.0))
placed_within o s (inr (inr h)) p q r = h.2

All-get :
    (P : Section → Type 0) (xs : List Section) (i : ℕ) (s : Section)
    → All P xs
    → get_elem? xs i ≡ some s
    → P s
All-get P [] i s a e = cc
All-get P (x ∷ xs) zero s a e = subst P (some-injective _ _ e) a.0
All-get P (x ∷ xs) (suc i) s a e = All-get P xs i s a.1 e

last_three :
    (a b c e f : Bool) → (a && b && c && e && f) ≡ true → (c ≡ true) × (e ≡ true) × (f ≡ true)
last_three a b c e f k = ground arith

global_function_lem :
    (o : Relocatable) (s : Symbol)
    → global_function o s ≡ true
    → (0 < s.size) × (0 < s.section) × (s.section < length o.sections)
global_function_lem o s h =
    let (p, q, r) =
      last_three (s.info == 0x12) (s.other == 0 || alpha_function_metadata o s) (ltb 0 s.size)
        (ltb 0 s.section) (ltb s.section (length o.sections)) h in
    (ltb→lt _ _ p, ltb→lt _ _ q, ltb→lt _ _ r)

not_left : {a b c : ℕ} → (a ≡ 8) ⊎ (b ≤ c) → a ≢ 8 → b ≤ c
not_left (inl e) h = absurd (h e)
not_left (inr p) h = p

module _ (sha256 : Bytes → String) where
  observe-DefinitionFound :
      (d : Bytes) (model : Json) (o : Relocatable) (seen : Json) (found : Observation)
      → parse_relocatable d model ≡ ok o
      → IsBounded d o
      → observe sha256 o seen ≡ ok found
      → DefinitionFound sha256 d model found
  unfolding observe
  observe-DefinitionFound d model o seen found parsed bound h =
      let (e1, k1) = require-eq-ok (same_fixture seen o) _ _ h in
      let (tables, e2, k2) = >>=-eq-ok (complete_tables o) _ k1 in
      let (s, e3, k3) = >>=-eq-ok (sole_symbol (matching o.symbols)) _ k2 in
      let (e4, k4) = require-eq-ok (global_function o s) _ _ k3 in
      let (section, e5, k5) = >>=-eq-ok (section_of o s.section) _ k4 in
      let (e6, k6) = require-eq-ok (executable section) _ _ k5 in
      let (undefined, e7, k7) =
        >>=-eq-ok (undefined_symbols o s tables.0 1 0 (drop 1 o.symbols)) _ k6 in
      let (table, e8, k8) = >>=-eq-ok (content o section) _ k7 in
      let (i, g, named) = sole_symbol-get o.symbols s e3 in
      let (nonempty, p, q) = global_function_lem o s e4 in
      let accepted = (complete_tables-TablesAccepted o tables.0 tables.1 e2).symbols i s g in
      let fits = placed_within o s accepted.placed p q bound.not_extended in
      let (size_is, at_section) = section_of-size o s.section section e5 in
      let (backed, table_is) = content_lem o section table e8 in
      let file =
        All-get (SectionInFile d (length o.sections)) o.sections s.section section
          bound.sections_within at_section in
      let room : s.value + s.size ≤ section.size = subst (λ n. s.value + s.size ≤ n) size_is fits in
      let inside : section.offset + s.value + s.size ≤ length d =
        omega (arith, not_left file.ends_within backed) in
      let here : slice table s.value s.size ≡ slice d (section.offset + s.value) s.size =
        ap (λ b. slice b s.value s.size)
          (table_is ∙ ap (λ b. slice b section.offset section.size) bound.bytes_kept)
        ∙ part_of_part d section.offset section.size s.value s.size room in
      subst (DefinitionFound sha256 d model) (ok-injective k8) (record {
        object = o;
        parsed = parsed;
        symbol = s;
        sole = sole_symbol_lem (matching o.symbols) e3;
        name_is = named;
        section = section;
        at_section = at_section;
        runs = e6;
        reported = ap (λ digest. definition_of (λ b. digest) s section table) (ap sha256 here);
        nonempty = nonempty;
        within = inside;
        in_section = room;
        whole = length-part d (section.offset + s.value) s.size inside;
        unwind_entries =
            undefined_symbols-le o s tables.0 1 0 (drop 1 o.symbols) undefined (omega arith) e7;
      })

  -- Whatever bytes, model and fixture record are given, the definition reported of an accepted object
  -- is that of the one symbol of the parsed object with the calibration's name, in the executable
  -- section of the symbol's index: offset and size are the symbol's, name and flags the section's. It
  -- is not empty, lies whole in its section and in the file, and the digest is taken of the bytes at
  -- the section's offset plus the symbol's value. At most one undefined symbol is reported.
  pub calibration_object-DefinitionFound :
      (d : Bytes) (model seen : Json) (found : Observation)
      → calibration_object sha256 d model seen ≡ ok found
      → DefinitionFound sha256 d model found
  unfolding calibration_object
  calibration_object-DefinitionFound d model seen found h =
      let (o, e, k) = >>=-eq-ok (parse_relocatable d model) _ h in
      observe-DefinitionFound d model o seen found e (parse-IsBounded d model o e) k
