-- ===== src/Lkmm/Pairs/Declared.antt =====
-- What a pair that load_manifest of fragma/concurrency_c3_lkmm.py takes declares.
use fragma.Prelude.{
  ◌≡◌, refl, subst, List, [], ◌∷◌, String, str_eq, eq_iff, All, All-all, ok, err, Option, none,
  some, >>=-eq-ok, require-eq-ok, require-true, ok-injective, &&-eq-true, member, subset, true,
  same_set, not, ◌&&◌,
}
use fragma.Prelude.Json.{Json, get}
use fragma.Policy.Texts.{is_str}
use fragma.Lkmm.Values.{listed, has_keys, text, nonempty, allowed_strings}
use fragma.Lkmm.Cases.{Case, case_names, operations}
use fragma.Lkmm.Pairs.{
  Pair, by_id, member_case, check_members, read_pair, read_pairs, referenced, load_pairs, pair_keys,
}

pub record PairDeclared (cases : List Case) (p : Pair) : Type 0 where
  pub weak : Case
  pub ordered : Case
  pub weak_found : by_id p.weakened_control cases ≡ some weak
  pub ordered_found : by_id p.ordered_calibration cases ≡ some ordered
  pub weak_role : weak.role ≡ "weakened_control"
  pub ordered_role : ordered.role ≡ "ordered_calibration"
  pub required : All (λ op. member op ordered.required ≡ true) p.ordering_primitives
  pub removed : All (λ op. member op weak.forbidden ≡ true) p.ordering_primitives
  pub one_condition : weak.expected.condition ≡ ordered.expected.condition
  pub transition : p.expected_transition ≡ "Sometimes->Never"

member_case-found :
    (cases : List Case) (name : String) {c : Case}
    → member_case cases name ≡ ok c
    → by_id name cases ≡ some c
member_case-found cases name {c} h = by (by_id name cases) h
  where
    by :
        (o : Option Case)
        → (elim o [ none ↦ err "invalid C3 pair members" | some d ↦ ok d ]) ≡ ok c
        → o ≡ some c
    by none h = cc
    by (some d) h = cc

read_pair-PairDeclared :
    (cases : List Case) (seen : List String) (value : Json) (p : Pair)
    → read_pair cases seen value ≡ ok p
    → PairDeclared cases p
unfolding read_pair check_members
read_pair-PairDeclared cases seen value p h =
    let (e0, k0) = require-eq-ok (has_keys pair_keys value) _ _ h in
    let (id, e1, k1) = >>=-eq-ok (nonempty (get value "id")) _ k0 in
    let (e2, k2) = require-eq-ok (not (member id seen)) _ _ k1 in
    let (first, e3, k3) = >>=-eq-ok (text (get value "weakened_control")) _ k2 in
    let (second, e4, k4) = >>=-eq-ok (text (get value "ordered_calibration")) _ k3 in
    let (weak, e5, k5) = >>=-eq-ok (member_case cases first) _ k4 in
    let (ordered, e6, k6) = >>=-eq-ok (member_case cases second) _ k5 in
    let (e7, k7) = require-eq-ok (not (str_eq first second)) _ _ k6 in
    let (e8, k8) =
      require-eq-ok
        (str_eq weak.role "weakened_control" && str_eq ordered.role "ordered_calibration") _ _ k7 in
    let (weak_role, ordered_role) = &&-eq-true _ _ e8 in
    let (primitives, e9, k9) =
      >>=-eq-ok (allowed_strings operations (get value "ordering_primitives")) _ k8 in
    let (done, f0, l0) = >>=-eq-ok (check_members primitives weak ordered) _ k9 in
    let (f1, l1) = require-eq-ok (subset primitives ordered.required) _ _ f0 in
    let (f2, l2) = require-eq-ok (subset primitives weak.forbidden) _ _ l1 in
    let f3 = require-true (str_eq weak.expected.condition ordered.expected.condition) _ l2 in
    let (f4, l4) =
      require-eq-ok (is_str (get value "expected_transition") "Sometimes->Never") _ _ l0 in
    subst (PairDeclared cases) (ok-injective l4) (record {
      weak = weak;
      ordered = ordered;
      weak_found = member_case-found cases first e5;
      ordered_found = member_case-found cases second e6;
      weak_role = (eq_iff _ _).0 weak_role;
      ordered_role = (eq_iff _ _).0 ordered_role;
      required = All-all _ primitives f1;
      removed = All-all _ primitives f2;
      one_condition = (eq_iff _ _).0 f3;
      transition = refl;
    })

read_pairs-PairDeclared :
    (cases : List Case) (seen : List String) (values : List Json) (pairs : List Pair)
    → read_pairs cases seen values ≡ ok pairs
    → All (PairDeclared cases) pairs
unfolding read_pairs
read_pairs-PairDeclared cases seen [] pairs h = subst (All (PairDeclared cases)) (ok-injective h) tt
read_pairs-PairDeclared cases seen (value ∷ values) pairs h =
    let (p, e1, k1) = >>=-eq-ok (read_pair cases seen value) _ h in
    let (rest, e2, k2) = >>=-eq-ok (read_pairs cases (p.id ∷ seen) values) _ k1 in
    subst (All (PairDeclared cases)) (ok-injective k2) (
      read_pair-PairDeclared cases seen value p e1,
      read_pairs-PairDeclared cases (p.id ∷ seen) values rest e2,
    )

pub load_pairs-PairDeclared :
    (cases : List Case) (value : Json) (pairs : List Pair)
    → load_pairs cases value ≡ ok pairs
    → All (PairDeclared cases) pairs
unfolding load_pairs
load_pairs-PairDeclared cases value pairs h =
    let (values, e1, k1) = >>=-eq-ok (listed 2 _ value) _ h in
    let (made, e2, k2) = >>=-eq-ok (read_pairs cases [] values) _ k1 in
    let (e3, k3) = require-eq-ok (same_set (referenced made) case_names) _ _ k2 in
    subst (All (PairDeclared cases)) (ok-injective k3)
      (read_pairs-PairDeclared cases [] values made e2)
