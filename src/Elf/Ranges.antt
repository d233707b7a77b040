-- ===== src/Elf/Ranges.antt =====
-- The ranges of a file that `_complete_tables` of fragma/elf.py sorts and compares.
use fragma.Prelude.{
  ℕ, ◌+◌, ◌*◌, Bool, true, false, not, ◌&&◌, ◌||◌, List, [], ◌∷◌, map, ltb, leb, length, ◌==◌, drop,
  keep,
}
use fragma.Elf.Types.{Section, Relocatable}

-- A half-open range of file offsets.
abbrev pub Range : Type 0
Range = ℕ × ℕ

abbrev has_content : Section → Bool
has_content s = not (s.kind == 8) && not (s.size == 0)

abbrev pub extent : Section → Range
extent s = (s.offset, s.offset + s.size)

unfoldable pub ranges : Relocatable → List Range
ranges o =
    (0, o.header_size)
    ∷ (o.section_offset, o.section_offset + length o.sections * o.section_size)
    ∷ map extent (keep has_content (drop 1 o.sections))

-- Python's order on pairs, and `ranges.sort()`.
abbrev pub pair_le : Range → Range → Bool
pair_le (a, b) (c, d) = ltb a c || (a == c && leb b d)

unfoldable pub insert : Range → List Range → List Range
insert r [] = r ∷ []
insert r (x ∷ xs) = elim (pair_le r x) [ true ↦ r ∷ (x ∷ xs) | false ↦ x ∷ insert r xs ]

unfoldable pub sort : List Range → List Range
unfolding insert
sort [] = []
sort (r ∷ rs) = insert r (sort rs)

-- `all(left[1] <= right[0] for left, right in zip(ranges, ranges[1:]))`
unfoldable pub adjacent : List Range → Bool
adjacent [] = true
adjacent (r ∷ []) = true
adjacent (r ∷ (s ∷ rs)) = leb r.1 s.0 && adjacent (s ∷ rs)
