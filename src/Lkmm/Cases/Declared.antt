-- ===== src/Lkmm/Cases/Declared.antt =====
-- What a case that load_manifest of fragma/concurrency_c3_lkmm.py takes declares.
use fragma.Prelude.{
  ◌≤◌, ◌≡◌, subst, List, [], ◌∷◌, String, str_eq, eq_iff, ==_iff, leb→le, All, ok, >>=-eq-ok,
  require-eq-ok, require-true, ok-injective, &&-eq-true, same_set, map, member, not, ◌&&◌, is_empty,
  common,
}
use fragma.Prelude.Json.{Json, get}
use fragma.Lkmm.Values.{listed, has_keys, text, digest, allowed_strings}
use fragma.Lkmm.Paths.{Parts, Files, case_path}
use fragma.Lkmm.Cases.{
  Case, Expected, check_role, detects, orders, read_case, read_cases, load_cases, case_names, id_of,
  observations, roles, operations, case_keys, read_expected,
}

pub record Detects (e : Expected) : Type 0 where
  pub sometimes : e.observation ≡ "Sometimes"
  pub witnessed : 1 ≤ e.positive
  pub marked : e.marker ≡ "Ok"

pub record Orders (e : Expected) : Type 0 where
  pub never : e.observation ≡ "Never"
  pub no_witness : e.positive ≡ 0
  pub marked : e.marker ≡ "No"

pub record CaseDeclared (c : Case) : Type 0 where
  pub weakened : c.role ≡ "weakened_control" → Detects c.expected
  pub ordered : c.role ≡ "ordered_calibration" → Orders c.expected

check_role-Detects : (e : Expected) → check_role "weakened_control" e ≡ ok tt → Detects e
unfolding check_role
check_role-Detects e h =
    let (e1, k1) = require-eq-ok (str_eq e.disposition "Allowed") _ _ h in
    let (e2, k2) = require-eq-ok (member e.observation observations) _ _ k1 in
    let (a, m) = &&-eq-true _ _ (require-true (detects e) _ k2) in
    let (o, p) = &&-eq-true _ _ a in
    record {
      sometimes = (eq_iff _ _).0 o;
      witnessed = leb→le 1 e.positive p;
      marked = (eq_iff _ _).0 m;
    }

check_role-Orders : (e : Expected) → check_role "ordered_calibration" e ≡ ok tt → Orders e
unfolding check_role
check_role-Orders e h =
    let (e1, k1) = require-eq-ok (str_eq e.disposition "Allowed") _ _ h in
    let (e2, k2) = require-eq-ok (member e.observation observations) _ _ k1 in
    let (a, m) = &&-eq-true _ _ (require-true (orders e) _ k2) in
    let (o, p) = &&-eq-true _ _ a in
    record {
      never = (eq_iff _ _).0 o;
      no_witness = (==_iff e.positive 0).0 p;
      marked = (eq_iff _ _).0 m;
    }

read_case-CaseDeclared :
    (files : Files) (model : Parts) (seen : List String) (value : Json) (c : Case)
    → read_case files model seen value ≡ ok c
    → CaseDeclared c
unfolding read_case
read_case-CaseDeclared files model seen value c h =
    let (e0, k0) = require-eq-ok (has_keys case_keys value) _ _ h in
    let (id, e1, k1) = >>=-eq-ok (text (get value "id")) _ k0 in
    let (e2, k2) = require-eq-ok (member id case_names && not (member id seen)) _ _ k1 in
    let (path, e3, k3) = >>=-eq-ok (case_path files model (get value "path")) _ k2 in
    let (sha, e4, k4) = >>=-eq-ok (digest 64 (get value "sha256")) _ k3 in
    let (role, e5, k5) = >>=-eq-ok (text (get value "role")) _ k4 in
    let (e6, k6) = require-eq-ok (member role roles) _ _ k5 in
    let (required, e7, k7) =
      >>=-eq-ok (allowed_strings operations (get value "required_operations")) _ k6 in
    let (forbidden, e8, k8) =
      >>=-eq-ok (allowed_strings operations (get value "forbidden_operations")) _ k7 in
    let (e9, k9) = require-eq-ok (is_empty (common required forbidden)) _ _ k8 in
    let (expected, f0, l0) = >>=-eq-ok (read_expected (get value "expected")) _ k9 in
    let (done, f1, l1) = >>=-eq-ok (check_role role expected) _ l0 in
    subst CaseDeclared (ok-injective l1) (record {
      weakened = λ r. check_role-Detects expected (subst (λ z. check_role z expected ≡ ok tt) r f1);
      ordered = λ r. check_role-Orders expected (subst (λ z. check_role z expected ≡ ok tt) r f1);
    })

read_cases-CaseDeclared :
    (files : Files) (model : Parts) (seen : List String) (values : List Json) (cases : List Case)
    → read_cases files model seen values ≡ ok cases
    → All CaseDeclared cases
unfolding read_cases
read_cases-CaseDeclared files model seen [] cases h = subst (All CaseDeclared) (ok-injective h) tt
read_cases-CaseDeclared files model seen (value ∷ values) cases h =
    let (c, e1, k1) = >>=-eq-ok (read_case files model seen value) _ h in
    let (rest, e2, k2) = >>=-eq-ok (read_cases files model (c.id ∷ seen) values) _ k1 in
    subst (All CaseDeclared) (ok-injective k2) (
      read_case-CaseDeclared files model seen value c e1,
      read_cases-CaseDeclared files model (c.id ∷ seen) values rest e2,
    )

pub load_cases-CaseDeclared :
    (files : Files) (model : Parts) (value : Json) (cases : List Case)
    → load_cases files model value ≡ ok cases
    → All CaseDeclared cases
unfolding load_cases
load_cases-CaseDeclared files model value cases h =
    let (values, e1, k1) = >>=-eq-ok (listed 4 _ value) _ h in
    let (made, e2, k2) = >>=-eq-ok (read_cases files model [] values) _ k1 in
    let (e3, k3) = require-eq-ok (same_set (map id_of made) case_names) _ _ k2 in
    subst (All CaseDeclared) (ok-injective k3)
      (read_cases-CaseDeclared files model [] values made e2)
