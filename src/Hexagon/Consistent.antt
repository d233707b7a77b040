-- ===== src/Hexagon/Consistent.antt =====
-- What the values of the array say when validate_object of fragma/hexagon_layout.py accepts them.
use Prim.Native.Nat.{bit_and}
use fragma.Prelude.{
  ℕ, ◌+◌, ◌-◌, ◌*◌, ◌%◌, ◌≤◌, ◌<◌, ◌≡◌, refl, ap, ◌∙◌, subst, true, List, [], ◌∷◌, map, ok, ◌==◌,
  ==_iff, All, arith, require-eq-ok, require-true, &&-eq-true,
}
use fragma.Hexagon.Values.{
  Measures, check_pairs, check_measures, is_alignment, alignments, members, array, wrapper,
}

-- A power of two.
abbrev pub IsAlignment : ℕ → Type 0
IsAlignment a = (0 < a) × (bit_and a (a - 1) ≡ 0)

-- The layout of a type of two members, of an array of two of it, and of a structure that has one
-- between two bytes.
pub record IsConsistent (m : Measures) : Type 0 where
  pub alignments_are : IsAlignment m.c_alignment × IsAlignment m.gnu_alignment
  pub stride : m.size % m.c_alignment ≡ 0
  pub first_member : m.ll_offset ≡ 0
  pub members_apart : m.ll_size ≤ m.ld_offset
  pub members_within : m.ld_offset + m.ld_size ≤ m.size
  pub members_filled : (0 < m.ll_size) × (0 < m.ld_size)
  pub array_doubles : m.array_size ≡ 2 * m.size
  pub array_alike : m.array_alignment ≡ m.c_alignment
  pub value_behind : 1 ≤ m.wrapper_value_offset
  pub value_aligned : m.wrapper_value_offset % m.c_alignment ≡ 0
  pub tail_behind : m.wrapper_tail_offset ≡ m.wrapper_value_offset + m.size
  pub tail_within : m.wrapper_tail_offset < m.wrapper_size
  pub wrapper_stride : m.wrapper_size % m.c_alignment ≡ 0
  pub wrapper_alike :
      (m.wrapper_c_alignment ≡ m.c_alignment) × (m.wrapper_gnu_alignment ≡ m.gnu_alignment)

is_alignment-IsAlignment : (a : ℕ) → is_alignment a ≡ true → IsAlignment a
is_alignment-IsAlignment a h = ground arith

record MembersLaid (m : Measures) : Type 0 where
  stride : m.size % m.c_alignment ≡ 0
  first_member : m.ll_offset ≡ 0
  members_apart : m.ll_size ≤ m.ld_offset
  members_within : m.ld_offset + m.ld_size ≤ m.size
  members_filled : (0 < m.ll_size) × (0 < m.ld_size)

members-MembersLaid : (m : Measures) → members m ≡ true → MembersLaid m
members-MembersLaid m h = ground arith

record WrapperLaid (m : Measures) : Type 0 where
  value_behind : 1 ≤ m.wrapper_value_offset
  value_aligned : m.wrapper_value_offset % m.c_alignment ≡ 0
  tail_behind : m.wrapper_tail_offset ≡ m.wrapper_value_offset + m.size
  tail_within : m.wrapper_tail_offset < m.wrapper_size
  stride : m.wrapper_size % m.wrapper_c_alignment ≡ 0
  alike : (m.wrapper_c_alignment ≡ m.c_alignment) × (m.wrapper_gnu_alignment ≡ m.gnu_alignment)

wrapper-WrapperLaid : (m : Measures) → wrapper m ≡ true → WrapperLaid m
wrapper-WrapperLaid m h = ground arith

pub check_measures-IsConsistent : (m : Measures) → check_measures m ≡ ok tt → IsConsistent m
unfolding check_measures
check_measures-IsConsistent m h =
    let (a, k1) = require-eq-ok (alignments m) _ _ h in
    let (b, k2) = require-eq-ok (members m) _ _ k1 in
    let (c, k3) = require-eq-ok (array m) _ _ k2 in
    let inside = members-MembersLaid m b in
    let outside = wrapper-WrapperLaid m (require-true (wrapper m) _ k3) in
    let (a1, a2) = &&-eq-true _ _ a in
    let (a3, a4) = &&-eq-true _ _ a1 in
    let (a5, a6) = &&-eq-true _ _ a3 in
    let (a7, a8) = &&-eq-true _ _ a5 in
    record {
      alignments_are =
          (is_alignment-IsAlignment m.c_alignment a7, is_alignment-IsAlignment m.gnu_alignment a8);
      stride = inside.stride;
      first_member = inside.first_member;
      members_apart = inside.members_apart;
      members_within = inside.members_within;
      members_filled = inside.members_filled;
      array_doubles = ground (arith, c);
      array_alike = ground (arith, c);
      value_behind = outside.value_behind;
      value_aligned = outside.value_aligned;
      tail_behind = outside.tail_behind;
      tail_within = outside.tail_within;
      wrapper_stride = subst (λ n. m.wrapper_size % n ≡ 0) outside.alike.0 outside.stride;
      wrapper_alike = outside.alike;
    }

-- The actual value and the candidate's.
abbrev pub Agree : ℕ × ℕ → Type 0
Agree p = p.0 ≡ p.1

pub check_pairs-Agree : (pairs : List (ℕ × ℕ)) → check_pairs pairs ≡ ok tt → All Agree pairs
unfolding check_pairs
check_pairs-Agree [] h = tt
check_pairs-Agree ((a, c) ∷ pairs) h =
    let (e, k) = require-eq-ok (a == c) _ _ h in ((==_iff a c).0 e, check_pairs-Agree pairs k)

pub Agree-map :
    (pairs : List (ℕ × ℕ)) → All Agree pairs → map (λ p. p.0) pairs ≡ map (λ p. p.1) pairs
Agree-map [] h = refl
Agree-map (p ∷ pairs) h =
    ap (λ n. n ∷ map (λ q. q.0) pairs) h.0 ∙ ap (λ ns. p.1 ∷ ns) (Agree-map pairs h.1)
