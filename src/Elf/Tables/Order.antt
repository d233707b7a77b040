-- ===== src/Elf/Tables/Order.antt =====
-- The ranges of an accepted object do not overlap.
use fragma.Prelude.{
  ℕ, ◌≤◌, ◌≡◌, Bool, true, false, List, [], ◌∷◌, ok, each, leb, drop, All, arith, All-imp,
  >>=-eq-ok, require-eq-ok, Bool-cases, inl, inr, leb→le, &&-eq-true, ◌⊎◌, subst, sym, map,
}
use fragma.Elf.Types.{Relocatable, Section}
use fragma.Elf.Tables.{complete_tables, Relocation, check_section}
use fragma.Elf.Ranges.{Range, pair_le, insert, sort, adjacent, ranges, extent}
use fragma.Elf.Metadata.{mips_calibration_metadata}

module _ (r x : Range) (xs : List Range) where
  insert_here : pair_le r x ≡ true → insert r (x ∷ xs) ≡ r ∷ (x ∷ xs)
  unfolding insert
  insert_here e = ground arith

  insert_later : pair_le r x ≡ false → insert r (x ∷ xs) ≡ x ∷ insert r xs
  unfolding insert
  insert_later e = ground arith

-- A predicate holds on a list exactly when it holds on the list with its head inserted elsewhere.
module _ (P : Range → Type 0) where
  All-insert : (r : Range) (xs : List Range) → P r → All P xs → All P (insert r xs)
  unfolding insert
  All-insert r [] h a = (h, tt)
  All-insert r (x ∷ xs) h a = elim (Bool-cases (pair_le r x)) [
    | inl e ↦ subst (All P) (sym (insert_here r x xs e)) (h, a)
    | inr e ↦ subst (All P) (sym (insert_later r x xs e)) (a.0, All-insert r xs h a.1)
  ]

  All-insert_back : (r : Range) (xs : List Range) → All P (insert r xs) → P r × All P xs
  unfolding insert
  All-insert_back r [] a = (a.0, tt)
  All-insert_back r (x ∷ xs) a = elim (Bool-cases (pair_le r x)) [
    | inl e ↦ subst (All P) (insert_here r x xs e) a
    | inr e ↦
        let (b, c) = subst (All P) (insert_later r x xs e) a in
        let (h, t) = All-insert_back r xs c in (h, (b, t))
  ]

  All-sort : (rs : List Range) → All P rs → All P (sort rs)
  unfolding sort
  All-sort [] a = tt
  All-sort (r ∷ rs) a = All-insert r (sort rs) a.0 (All-sort rs a.1)

  All-sort_back : (rs : List Range) → All P (sort rs) → All P rs
  unfolding sort
  All-sort_back [] a = tt
  All-sort_back (r ∷ rs) a = let (h, t) = All-insert_back r (sort rs) a in (h, All-sort_back rs t)

-- The one range ends where the other starts, or before, either way round.
abbrev pub Apart : Range → Range → Type 0
Apart r s = (r.1 ≤ s.0) ⊎ (s.1 ≤ r.0)

abbrev pub AllApart : List Range → Type 0
AllApart [] = Unit
AllApart (r ∷ rs) = All (Apart r) rs × AllApart rs

Apart-sym : (r s : Range) → Apart r s → Apart s r
Apart-sym r s (inl h) = inr h
Apart-sym r s (inr h) = inl h

AllApart-insert_back :
    (r : Range) (xs : List Range) → AllApart (insert r xs) → All (Apart r) xs × AllApart xs
unfolding insert
AllApart-insert_back r [] a = (tt, tt)
AllApart-insert_back r (x ∷ xs) a = elim (Bool-cases (pair_le r x)) [
  | inl e ↦ subst AllApart (insert_here r x xs e) a
  | inr e ↦
      let (b, c) = subst AllApart (insert_later r x xs e) a in
      let (h, t) = All-insert_back (Apart x) r xs b in
      let (k, u) = AllApart-insert_back r xs c in ((Apart-sym x r h, k), (t, u))
]

AllApart-sort_back : (rs : List Range) → AllApart (sort rs) → AllApart rs
unfolding sort
AllApart-sort_back [] a = tt
AllApart-sort_back (r ∷ rs) a =
    let (h, t) = AllApart-insert_back r (sort rs) a in
    (All-sort_back (Apart r) rs h, AllApart-sort_back rs t)

-- A range that does not end before it starts.
abbrev pub IsProper : Range → Type 0
IsProper r = r.0 ≤ r.1

adjacent_after :
    (b : ℕ) (r : Range) (rs : List Range)
    → b ≤ r.1
    → All IsProper (r ∷ rs)
    → adjacent (r ∷ rs) ≡ true
    → All (λ s. b ≤ s.0) rs
unfolding adjacent
adjacent_after b r [] h a e = tt
adjacent_after b r (s ∷ rs) h a e =
    let (p, q) = &&-eq-true (leb r.1 s.0) _ e in
    let first : r.1 ≤ s.0 = leb→le _ _ p in
    (omega arith, adjacent_after b s rs (omega (arith, a.1.0)) a.1 q)

AllApart-adjacent : (rs : List Range) → All IsProper rs → adjacent rs ≡ true → AllApart rs
unfolding adjacent
AllApart-adjacent [] a e = tt
AllApart-adjacent (r ∷ []) a e = (tt, tt)
AllApart-adjacent (r ∷ (s ∷ rs)) a e =
    let (p, q) = &&-eq-true (leb r.1 s.0) _ e in
    (
      All-imp _ (Apart r) (s ∷ rs) (λ x h. inl h) (adjacent_after r.1 r (s ∷ rs) (omega arith) a e),
      AllApart-adjacent (s ∷ rs) a.1 q,
    )

-- Proper ranges that are adjacent when sorted are apart.
pub AllApart-sorted : (rs : List Range) → All IsProper rs → adjacent (sort rs) ≡ true → AllApart rs
AllApart-sorted rs a e =
    AllApart-sort_back rs (AllApart-adjacent (sort rs) (All-sort IsProper rs a) e)

pub extents-IsProper : (sections : List Section) → All IsProper (map extent sections)
extents-IsProper [] = tt
extents-IsProper (s ∷ sections) = (omega arith, extents-IsProper sections)

ranges-IsProper : (o : Relocatable) → All IsProper (ranges o)
unfolding ranges
ranges-IsProper o = (omega arith, (omega arith, extents-IsProper _))

-- In an accepted object the header, the section table and all sections with contents in the file
-- are apart from one another.
pub complete_tables-AllApart :
    (o : Relocatable) (found : List Relocation) (mips : Bool)
    → complete_tables o ≡ ok (found, mips)
    → AllApart (ranges o)
unfolding complete_tables
complete_tables-AllApart o found mips h =
    let (m, e1, k1) = >>=-eq-ok (mips_calibration_metadata o) _ h in
    let (u, e2, k2) = >>=-eq-ok (each (check_section o m) (drop 1 o.sections)) _ k1 in
    let (e3, k3) = require-eq-ok (adjacent (sort (ranges o))) _ _ k2 in
    AllApart-sorted (ranges o) (ranges-IsProper o) e3
