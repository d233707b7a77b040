-- ===== src/Hexagon/Stored.antt =====
-- What validate_object of fragma/hexagon_layout.py accepts as the array's symbol and section, and beside
-- them.
use mathlib.Core.Option.{some-injective}
use fragma.Prelude.{
  ℕ, zero, suc, ◌+◌, ◌≤◌, ◌<◌, ◌≡◌, ◌⊎◌, inl, inr, sym, ap, subst, true, false, not, ◌&&◌, ◌||◌,
  List, [], ◌∷◌, Option, none, some, ok, err, each, leb, length, ◌==◌, drop, get_elem?, All, arith,
  >>=-eq-ok, require-eq-ok, ok-injective, &&-eq-true, Bool-cases,
}
use fragma.Elf.Bytes.{Bytes, slice}
use fragma.Elf.Types.{Section, Symbol, Relocatable}
use fragma.Elf.Parse.{section_bytes, content}
use fragma.Elf.Parse.Bounds.{SectionInFile}
use fragma.Elf.Metadata.{has_none}
use fragma.Elf.Tables.{section_of}
use fragma.Elf.Ranges.{sort, adjacent}
use fragma.Elf.Tables.Order.{AllApart, AllApart-sorted, extents-IsProper, IsProper}
use fragma.Hexagon.Values.{array}
use fragma.Hexagon.{
  allowed_section, layout_ranges, check_tables, sole_array, array_section, check_others,
  sole_allocated, same_symbol, file_or_section,
}

-- The only section with contents in memory is the array's.
sole_allocated-only :
    (array index : ℕ) (sections : List Section)
    → sole_allocated array index sections ≡ true
    → (i : ℕ) (s : Section) → get_elem? sections i ≡ some s
    → has_none s.flags 2 ≡ false
    → 0 < s.size
    → index + i ≡ array
unfolding sole_allocated
sole_allocated-only array index [] h i s found loaded filled = cc
sole_allocated-only array index (t ∷ sections) h zero s found loaded filled =
    let (a, b) = &&-eq-true (has_none t.flags 2 || t.size == 0 || index == array) _ h in
    let same : t ≡ s = some-injective _ _ found in
    let here = subst (λ x. (has_none x.flags 2 || x.size == 0 || index == array) ≡ true) same a in
    ground (arith, here)
sole_allocated-only array index (t ∷ sections) h (suc i) s found loaded filled =
    let (a, b) = &&-eq-true (has_none t.flags 2 || t.size == 0 || index == array) _ h in
    let later = sole_allocated-only array (index + 1) sections b i s found loaded filled in
    omega (arith, later)

-- No symbol but the array has an extent.
abbrev pub IsPlain : Symbol → Symbol → Type 0
IsPlain array s = (same_symbol s array ≡ true) ⊎ ((s.value ≡ 0) × (s.size ≡ 0))

plain :
    (o : Relocatable) (array s : Symbol)
    → (same_symbol s array || file_or_section o s) ≡ true
    → IsPlain array s
plain o array s h = elim (Bool-cases (same_symbol s array)) [
  | inl e ↦ inl e
  | inr e ↦
      let other : file_or_section o s ≡ true = ground (arith, e, h) in
      let (a, kinds) = &&-eq-true (s.other == 0 && s.value == 0 && s.size == 0) _ other in
      inr (ground (arith, a))
]

pub check_others-IsPlain :
    (o : Relocatable) (array : Symbol) (global index : ℕ) (symbols : List Symbol)
    → check_others o array global index symbols ≡ ok tt
    → All (IsPlain array) symbols
unfolding check_others
check_others-IsPlain o array global index [] h = tt
check_others-IsPlain o array global index (s ∷ symbols) h =
    let (e1, k1) = require-eq-ok _ _ _ h in
    let (e2, k2) = require-eq-ok (same_symbol s array || file_or_section o s) _ _ k1 in
    (plain o array s e2, check_others-IsPlain o array global (index + 1) symbols k2)

pub sole_array_lem : (xs : List Symbol) {s : Symbol} → sole_array xs ≡ ok s → xs ≡ s ∷ []
unfolding sole_array
sole_array_lem [] h = cc
sole_array_lem (x ∷ []) h = ap (λ y. y ∷ []) (ok-injective h)
sole_array_lem (x ∷ (y ∷ xs)) h = cc

layout_ranges-IsProper : (o : Relocatable) → All IsProper (layout_ranges o)
unfolding layout_ranges
layout_ranges-IsProper o = (omega arith, (omega arith, extents-IsProper _))

pub check_tables-AllApart : (o : Relocatable) → check_tables o ≡ ok tt → AllApart (layout_ranges o)
unfolding check_tables
check_tables-AllApart o h =
    let (e1, k1) = require-eq-ok (leb (length o.sections) 64 && leb (length o.symbols) 64) _ _ h in
    let (u, e2, k2) = >>=-eq-ok (each allowed_section (drop 1 o.sections)) _ k1 in
    let (e3, k3) = require-eq-ok (adjacent (sort (layout_ranges o))) _ _ k2 in
    AllApart-sorted (layout_ranges o) (layout_ranges-IsProper o) e3

pub section_of-found :
    (o : Relocatable) (i : ℕ) {s : Section}
    → section_of o i ≡ ok s
    → get_elem? o.sections i ≡ some s
section_of-found o i {s} h = by (get_elem? o.sections i) h
  where
    by :
        (x : Option Section)
        → (elim x [ none ↦ err "IndexError" | some t ↦ ok t ]) ≡ ok s
        → x ≡ some s
    by none k = cc
    by (some t) k = cc

pub section_bytes-slice :
    (o : Relocatable) (i : ℕ) (s : Section) {found : Bytes}
    → get_elem? o.sections i ≡ some s
    → section_bytes o i ≡ ok found
    → found ≡ slice o.bytes s.offset s.size
unfolding section_bytes content
section_bytes-slice o i s {found} at h =
    let read =
      subst (λ x. (elim x [ none ↦ err "IndexError" | some t ↦ content o t ]) ≡ ok found) at h in
    let (e, k) = require-eq-ok (not (s.kind == 8)) _ _ read in sym (ok-injective k)

pub record ArrayStored (s : Section) : Type 0 where
  pub size_is : s.size ≡ 112
  pub kind_is : s.kind ≡ 1
  pub flags_are : s.flags ≡ 2

pub array_section-ArrayStored : (s : Section) → array_section s ≡ true → ArrayStored s
array_section-ArrayStored s h = ground arith

pub stored_within :
    (d : Bytes) (n : ℕ) (s : Section)
    → SectionInFile d n s
    → ArrayStored s
    → s.offset + 112 ≤ length d
stored_within d n s inside stored =
    ground (arith, inside.ends_within, stored.size_is, stored.kind_is)

pub sole_allocated_first :
    (array : ℕ) (sections : List Section) (i : ℕ) (s : Section)
    → sole_allocated array 0 sections ≡ true
    → get_elem? sections i ≡ some s
    → has_none s.flags 2 ≡ false
    → 0 < s.size
    → i ≡ array
sole_allocated_first array sections i s h at loaded filled =
    omega (arith, sole_allocated-only array 0 sections h i s at loaded filled)
