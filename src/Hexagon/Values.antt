-- ===== src/Hexagon/Values.antt =====
-- The values of the layout array of fragma/hexagon_layout.py: LAYOUT_FIELDS, and the checks on them at
-- the end of validate_object.
use Prim.Native.Nat.{bit_and}
use fragma.Prelude.{
  ℕ, ◌+◌, ◌-◌, ◌*◌, ◌%◌, Bool, ◌&&◌, List, [], ◌∷◌, Result, ok, err, ◌>>◌, require, ltb, leb, ◌==◌,
}

pub record Measures : Type 0 where
  pub size : ℕ
  pub c_alignment : ℕ
  pub gnu_alignment : ℕ
  pub ll_offset : ℕ
  pub ld_offset : ℕ
  pub ll_size : ℕ
  pub ld_size : ℕ
  pub array_size : ℕ
  pub array_alignment : ℕ
  pub wrapper_value_offset : ℕ
  pub wrapper_tail_offset : ℕ
  pub wrapper_size : ℕ
  pub wrapper_c_alignment : ℕ
  pub wrapper_gnu_alignment : ℕ

-- LAYOUT_NAMES has for each field the actual value and then the candidate's.
abbrev pub paired : List ℕ → List (ℕ × ℕ)
paired (actual ∷ (candidate ∷ values)) = (actual, candidate) ∷ paired values
paired _ = []

-- The loop over LAYOUT_FIELDS that compares the two.
unfoldable pub check_pairs : List (ℕ × ℕ) → Result (Unit {0})
check_pairs [] = ok tt
check_pairs ((actual, candidate) ∷ pairs) = do
  require (actual == candidate) "Actual/candidate layout mismatch"
  check_pairs pairs

-- The actual values under the names of LAYOUT_FIELDS, in its order.
unfoldable pub measures_of : List ℕ → Result Measures
measures_of (a ∷ (b ∷ (c ∷ (d ∷ (e ∷ (f ∷ (g ∷ (h ∷ (i ∷ (j ∷ (k ∷ (l ∷ (m ∷ (n ∷ [])))))))))))))) =
    ok (record {
      size = a;
      c_alignment = b;
      gnu_alignment = c;
      ll_offset = d;
      ld_offset = e;
      ll_size = f;
      ld_size = g;
      array_size = h;
      array_alignment = i;
      wrapper_value_offset = j;
      wrapper_tail_offset = k;
      wrapper_size = l;
      wrapper_c_alignment = m;
      wrapper_gnu_alignment = n;
    })
measures_of _ = err "KeyError"

-- value > 0 and value & (value - 1) == 0
abbrev pub is_alignment : ℕ → Bool
is_alignment value = ltb 0 value && bit_and value (value - 1) == 0

abbrev pub alignments : Measures → Bool
alignments m =
    is_alignment m.c_alignment
    && is_alignment m.gnu_alignment
    && is_alignment m.array_alignment
    && is_alignment m.wrapper_c_alignment
    && is_alignment m.wrapper_gnu_alignment

abbrev pub members : Measures → Bool
members m =
    ltb 0 m.size
    && m.size % m.c_alignment == 0
    && m.ll_offset == 0
    && ltb 0 m.ll_size
    && ltb 0 m.ld_size
    && leb m.ll_size m.ld_offset
    && leb (m.ld_offset + m.ld_size) m.size

abbrev pub array : Measures → Bool
array m = m.array_size == 2 * m.size && m.array_alignment == m.c_alignment

abbrev pub wrapper : Measures → Bool
wrapper m =
    leb 1 m.wrapper_value_offset
    && m.wrapper_value_offset % m.c_alignment == 0
    && m.wrapper_tail_offset == m.wrapper_value_offset + m.size
    && leb (m.wrapper_tail_offset + 1) m.wrapper_size
    && m.wrapper_size % m.wrapper_c_alignment == 0
    && m.wrapper_c_alignment == m.c_alignment
    && m.wrapper_gnu_alignment == m.gnu_alignment

unfoldable pub check_measures : Measures → Result (Unit {0})
check_measures m = do
  require (alignments m) "Invalid measured alignment"
  require (members m) "Invalid measured member layout"
  require (array m) "Invalid measured array layout"
  require (wrapper m) "Invalid measured wrapper layout"
