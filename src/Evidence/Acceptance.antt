-- ===== src/Evidence/Acceptance.antt =====
-- `acceptance_decision` of fragma/concurrency_evidence.py.
use mathlib.Core.Option.{some-injective}
use fragma.Prelude.{
  ◌≡◌, refl, sym, ap, ◌∙◌, Bool, true, false, ◌&&◌, List, [], ◌∷◌, ◌++◌, Option, none, some, String,
  str_eq, All, ◌↔◌, Bool-cases, Option-cases, inl, inr, eq_iff, &&-eq-true, arith, Result, ok, err,
  ◌>>=◌, is_empty, if◌then◌else◌, >>=-eq-ok, ok-injective,
}

-- Names with the status of their record: `model["dimensions"]`, `model["primitive_models"]`.
pub record Model : Type 0 where
  pub dimensions : List (String × String)
  pub primitive_models : List (String × String)

pub record Scope : Type 0 where
  pub evidence_kind : String
  pub required_dimensions : List String
  pub required_primitives : List String

pub record Blocker : Type 0 where
  pub kind : String
  pub name : String
  pub status : String

pub record Decision : Type 0 where
  pub evidence_accepted : Bool
  pub calibration_accepted : Bool
  pub verification_accepted : Bool
  pub blocking_support : List Blocker

abbrev pub status_of : String → List (String × String) → Option String
status_of name [] = none
status_of name ((k, status) ∷ rest) = elim (str_eq k name) [
  | true ↦ some status
  | false ↦ status_of name rest
]

-- A missing name is a KeyError.
unfoldable pub blockers : String → List (String × String) → List String → Result (List Blocker)
blockers kind table [] = ok []
blockers kind table (name ∷ names) = elim (status_of name table) [
  | none ↦ err "KeyError"
  | some status ↦ blockers kind table names >>= λ rest. ok (
      if str_eq status "supported"
      then rest
      else record { kind = kind; name = name; status = status } ∷ rest)
]

unfoldable pub acceptance_decision : Scope → Model → Bool → Result Decision
unfolding blockers
acceptance_decision target model evidence_ok = do
  dimensions ← blockers "dimension" model.dimensions target.required_dimensions
  primitives ← blockers "primitive" model.primitive_models target.required_primitives
  ok (record {
    evidence_accepted = evidence_ok;
    calibration_accepted = evidence_ok && str_eq target.evidence_kind "calibration";
    verification_accepted =
        evidence_ok
        && str_eq target.evidence_kind "verification"
        && is_empty (dimensions ++ primitives);
    blocking_support = dimensions ++ primitives;
  })

abbrev pub IsSupported : List (String × String) → String → Type 0
IsSupported table name = status_of name table ≡ some "supported"

blockers_nil :
    (kind : String) (table : List (String × String)) (names : List String) {found : List Blocker}
    → blockers kind table names ≡ ok found
    → (is_empty found ≡ true) ↔ All (IsSupported table) names
unfolding blockers
blockers_nil kind table [] h = ((λ e. tt), (λ a. ap is_empty (sym (ok-injective h))))
blockers_nil kind table (name ∷ names) {found} h = elim (Option-cases (status_of name table)) [
  | inl e ↦
      let failed : err "KeyError" ≡ ok found = sym (rw (blockers, e) refl) ∙ h in
      absurd (ground arith)
  | inr (status, e) ↦
      let chain : (blockers kind table names >>= λ rest. ok (
            if str_eq status "supported"
            then rest
            else record { kind = kind; name = name; status = status } ∷ rest))
          ≡ ok found =
        sym (rw (blockers, e) refl) ∙ h in
      let (rest, p, q) = >>=-eq-ok (blockers kind table names) _ chain in
      let (f, g) = blockers_nil kind table names p in
      elim (Bool-cases (str_eq status "supported")) [
        | inl s ↦
            let same : rest ≡ found = ok-injective (sym (rw s refl) ∙ q) in
            let supported = e ∙ ap some ((eq_iff status "supported").0 s) in
            ((λ n. (supported, f (ap is_empty same ∙ n))), (λ a. sym (ap is_empty same) ∙ g a.1))
        | inr s ↦
            let blocked : Blocker = record { kind = kind; name = name; status = status } in
            let same : blocked ∷ rest ≡ found = ok-injective (sym (rw s refl) ∙ q) in
            let nonempty : is_empty found ≡ false = ap is_empty (sym same) in
            let named : IsSupported table name → str_eq status "supported" ≡ true =
              λ a. (eq_iff status "supported").1 (some-injective _ _ (sym e ∙ a)) in
            (
              (λ n. absurd (ground (arith, n, nonempty))),
              (λ a. absurd (ground (arith, s, named a.0))),
            )
      ]
]

is_empty-append :
    (xs ys : List Blocker)
    → (is_empty (xs ++ ys) ≡ true) ↔ ((is_empty xs ≡ true) × (is_empty ys ≡ true))
is_empty-append [] ys = ((λ h. (refl, h)), (λ h. h.1))
is_empty-append (x ∷ xs) ys = ((λ h. absurd (ground arith)), (λ h. absurd (ground (arith, h.0))))

-- What verification takes: evidence of that kind, and support for all that the target requires.
pub record IsVerifiable (target : Scope) (model : Model) (evidence_ok : Bool) : Type 0 where
  pub evidence : evidence_ok ≡ true
  pub kind : target.evidence_kind ≡ "verification"
  pub dimensions : All (IsSupported model.dimensions) target.required_dimensions
  pub primitives : All (IsSupported model.primitive_models) target.required_primitives

-- Where a decision is made, verification is accepted exactly if the evidence holds, is meant as
-- verification, and every required dimension and primitive is "supported"; a target that is accepted
-- as a calibration is not accepted as verified.
pub acceptance_decision_iff :
    (target : Scope) (model : Model) (evidence_ok : Bool) (d : Decision)
    → acceptance_decision target model evidence_ok ≡ ok d
    → ((d.verification_accepted ≡ true) ↔ IsVerifiable target model evidence_ok)
      × (d.calibration_accepted ≡ true → d.verification_accepted ≡ false)
unfolding acceptance_decision
acceptance_decision_iff target model evidence_ok d h =
    let (ds, p, h1) =
      >>=-eq-ok (blockers "dimension" model.dimensions target.required_dimensions) _ h in
    let (ps, q, h2) =
      >>=-eq-ok (blockers "primitive" model.primitive_models target.required_primitives) _ h1 in
    let made = ok-injective h2 in
    let verified : evidence_ok && str_eq target.evidence_kind "verification" && is_empty (ds ++ ps)
        ≡ d.verification_accepted =
      ap (λ x. x.verification_accepted) made in
    let calibrated : evidence_ok && str_eq target.evidence_kind "calibration"
        ≡ d.calibration_accepted =
      ap (λ x. x.calibration_accepted) made in
    (
      ((λ v. accepted ds ps p q (verified ∙ v)), (λ i. sym verified ∙ verifiable ds ps p q i)),
      (λ c. sym verified ∙ apart ds ps (calibrated ∙ c)),
    )
  where
    accepted :
        (ds ps : List Blocker)
        → blockers "dimension" model.dimensions target.required_dimensions ≡ ok ds
        → blockers "primitive" model.primitive_models target.required_primitives ≡ ok ps
        → evidence_ok && str_eq target.evidence_kind "verification" && is_empty (ds ++ ps) ≡ true
        → IsVerifiable target model evidence_ok
    accepted ds ps p q v =
        let (first, none_left) = &&-eq-true _ (is_empty (ds ++ ps)) v in
        let (evidence, kind) = &&-eq-true evidence_ok _ first in
        let (x, y) = (is_empty-append ds ps).0 none_left in
        record {
          evidence = evidence;
          kind = (eq_iff target.evidence_kind "verification").0 kind;
          dimensions = (blockers_nil _ _ target.required_dimensions p).0 x;
          primitives = (blockers_nil _ _ target.required_primitives q).0 y;
        }

    verifiable :
        (ds ps : List Blocker)
        → blockers "dimension" model.dimensions target.required_dimensions ≡ ok ds
        → blockers "primitive" model.primitive_models target.required_primitives ≡ ok ps
        → IsVerifiable target model evidence_ok
        → evidence_ok && str_eq target.evidence_kind "verification" && is_empty (ds ++ ps) ≡ true
    verifiable ds ps p q i =
        let none_left = (is_empty-append ds ps).1 (
          (blockers_nil _ _ target.required_dimensions p).1 i.dimensions,
          (blockers_nil _ _ target.required_primitives q).1 i.primitives,
        ) in
        let kind : str_eq target.evidence_kind "verification" ≡ true =
          (eq_iff target.evidence_kind "verification").1 i.kind in
        rw (i.evidence, kind, none_left) refl

    apart :
        (ds ps : List Blocker)
        → evidence_ok && str_eq target.evidence_kind "calibration" ≡ true
        → evidence_ok && str_eq target.evidence_kind "verification" && is_empty (ds ++ ps) ≡ false
    apart ds ps c =
        let (evidence, kind) = &&-eq-true evidence_ok _ c in
        let calibration = (eq_iff target.evidence_kind "calibration").0 kind in
        rw (evidence, calibration) refl
