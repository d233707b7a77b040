-- ===== src/Coverage/Verdicts/Evaluated.antt =====
-- _verdict on what `evaluate_target` of fragma/report.py made.
use fragma.Prelude.{
  ◌≡◌, refl, sym, ap, ◌∙◌, Bool, true, false, Option, none, some, String, str_eq, eq_iff,
  str_differs, ok, Bool-cases, inl, inr, arith,
}
use fragma.Verdict.Evaluation.{Evaluation}
use fragma.Report.Target.{Target}
use fragma.Report.Evaluate.{Evidence, evaluate_target, role_of}
use fragma.Report.Evaluate.Decision.{is_passing, evaluate_target-IsConsistent}
use fragma.Coverage.Verdicts.{
  Retained, is_proof, passing_status, verdict, check_verdict, settle_verdict,
}

-- The evidence of a target that the suite retains: the status and the acceptance of its evaluation
-- beside it, and the role that the registry declares.
abbrev pub retained_of : Option String → Evaluation → Retained
retained_of role r = record {
  verdict = record {
    accepted = some (some r.accepted);
    verified = none;
    local_policy_passed = none;
    status = some (some r.status);
  };
  evaluation = some (record {
    accepted = some (some r.accepted);
    verified = some (some r.verified);
    local_policy_passed = some (r.local_policy_passed);
    status = some (some r.status);
  });
  role = role;
}

verdict-accepted :
    (role : Option String) (r : Evaluation)
    → r.accepted ≡ true
    → r.status ≡ passing_status (is_proof role)
    → r.verified ≡ is_proof role
    → r.local_policy_passed ≡ some true
    → verdict (retained_of role r) ≡ ok true
unfolding verdict check_verdict settle_verdict
verdict-accepted role r accepted status verified passed = elim (Bool-cases (is_proof role)) [
  | inl p ↦
      let named : r.status ≡ "passed" = status ∙ ap passing_status p in
      let proved : r.verified ≡ true = verified ∙ p in rw (accepted, named, proved, passed, p) refl
  | inr p ↦
      let named : r.status ≡ "calibration-passed" = status ∙ ap passing_status p in
      let calibrated : r.verified ≡ false = verified ∙ p in
      rw (accepted, named, calibrated, passed, p) refl
]

verdict-refused :
    (role : Option String) (r : Evaluation) (b : Bool)
    → r.accepted ≡ false
    → is_passing r.status ≡ false
    → r.verified ≡ false
    → r.local_policy_passed ≡ some b
    → verdict (retained_of role r) ≡ ok false
unfolding verdict check_verdict settle_verdict
verdict-refused role r b refused failing unverified decided =
    let own : str_eq r.status r.status ≡ true = (eq_iff r.status r.status).1 refl in
    rw (refused, unverified, own, decided) (ground (arith, failing))

-- The check of the retained verdicts takes every record that the evaluation of a target makes, whose
-- role the registry declares, and counts it as accepted exactly where the record says so.
pub verdict-evaluate_target :
    (resolve : String → String) (t : Target) (e : Evidence)
    → t.role ≡ some (role_of t)
    → verdict (retained_of t.role (evaluate_target resolve t e))
      ≡ ok (evaluate_target resolve t e).accepted
verdict-evaluate_target resolve t e role =
    let r = evaluate_target resolve t e in
    let same = evaluate_target-IsConsistent resolve t e in
    let is_named : is_proof t.role ≡ str_eq (role_of t) "proof" = ap is_proof role in
    elim (Bool-cases r.accepted) [
      | inl a ↦
          let (no_issue, settled_all) = same.accepts.0 a in
          verdict-accepted t.role r a (same.passes_as a ∙ ap passing_status (sym is_named))
            (is_verified a ∙ sym is_named) (same.passes.0 no_issue)
          ∙ ap ok (sym a)
      | inr a ↦
          let (b, decided) = same.decides in
          verdict-refused t.role r b a (same.fails_as a) (not_verified a) decided ∙ ap ok (sym a)
    ]
  where
    is_verified :
        (evaluate_target resolve t e).accepted ≡ true
        → (evaluate_target resolve t e).verified ≡ str_eq (role_of t) "proof"
    is_verified a = elim (Bool-cases (str_eq (role_of t) "proof")) [
      | inl p ↦
          (evaluate_target-IsConsistent resolve t e).verifies.1
            (a, (eq_iff (role_of t) "proof").0 p)
          ∙ sym p
      | inr p ↦ elim (Bool-cases (evaluate_target resolve t e).verified) [
        | inl v ↦ absurd (
            str_differs (role_of t) "proof" p
              ((evaluate_target-IsConsistent resolve t e).verifies.0 v).1)
        | inr v ↦ v ∙ sym p
      ]
    ]

    not_verified :
        (evaluate_target resolve t e).accepted ≡ false
        → (evaluate_target resolve t e).verified ≡ false
    not_verified a = elim (Bool-cases (evaluate_target resolve t e).verified) [
      | inl v ↦ let accepted = ((evaluate_target-IsConsistent resolve t e).verifies.0 v).0 in cc
      | inr v ↦ v
    ]
