-- ===== src/Report/Evaluate/Decision.antt =====
-- `evaluate_target` of fragma/report.py: how the fields of its record agree.
use fragma.Prelude.{
  ◌≡◌, refl, sym, ap, ◌∙◌, subst, Bool, true, false, not, ◌||◌, all, map, member, &&-eq-true, arith,
  List, [], ◌∷◌, Option, none, some, String, str_eq, eq_iff, is_empty, append_nil, Bool-cases,
  Option-cases, inl, inr, ◌↔◌, if◌then◌else◌,
}
use fragma.Verdict.Evaluation.{Evaluation, Issue}
use fragma.Report.Target.{
  Target, declared_names, analysis_declared, structure_issue, structure_issues, is_zero,
}
use fragma.Report.Evaluate.{
  Evidence, role_of, malformed, decided, all_issues, confirmed_of, evaluate_target,
  returncode_issues, first_kind, status_order,
}

-- A status that only an accepted target has.
abbrev pub is_passing : String → Bool
is_passing status = str_eq status "passed" || str_eq status "calibration-passed"

-- The fields of the record of one target.
pub record IsConsistent (t : Target) (r : Evaluation) : Type 0 where
  pub decides : (b : Bool) × (r.local_policy_passed ≡ some b)
  pub passes : (r.issues ≡ []) ↔ (r.local_policy_passed ≡ some true)
  pub accepts : (r.accepted ≡ true) ↔ ((r.issues ≡ []) × (is_empty t.expected_unresolved ≡ true))
  pub verifies : (r.verified ≡ true) ↔ ((r.accepted ≡ true) × (role_of t ≡ "proof"))
  pub waits : r.issues ≡ [] → is_empty t.expected_unresolved ≡ false → r.status ≡ "needs-companion"
  pub passes_as :
      r.accepted ≡ true
      → r.status ≡ (if str_eq (role_of t) "proof" then "passed" else "calibration-passed")
  pub fails_as : r.accepted ≡ false → is_passing r.status ≡ false

refused-IsConsistent :
    (t : Target) (r : Evaluation)
    → (r.issues ≡ [] → ⊥)
    → r.local_policy_passed ≡ some false
    → r.accepted ≡ false
    → r.verified ≡ false
    → is_passing r.status ≡ false
    → IsConsistent t r
refused-IsConsistent t r some_issue not_passed not_accepted not_verified failing = record {
  decides = (false, not_passed);
  passes = ((λ n. absurd (some_issue n)), (λ p. cc));
  accepts = ((λ a. cc), (λ b. absurd (some_issue b.0)));
  verifies = ((λ v. cc), (λ b. let a = b.0 in cc));
  waits = λ n. absurd (some_issue n);
  passes_as = λ a. cc;
  fails_as = λ a. failing;
}

waiting-IsConsistent :
    (t : Target) (r : Evaluation)
    → is_empty t.expected_unresolved ≡ false
    → r.issues ≡ []
    → r.local_policy_passed ≡ some true
    → r.accepted ≡ false
    → r.verified ≡ false
    → r.status ≡ "needs-companion"
    → IsConsistent t r
waiting-IsConsistent t r u no_issue passed not_accepted not_verified status = record {
  decides = (true, passed);
  passes = ((λ n. passed), (λ p. no_issue));
  accepts = ((λ a. cc), (λ b. let empty = b.1 in cc));
  verifies = ((λ v. cc), (λ b. let a = b.0 in cc));
  waits = λ n w. status;
  passes_as = λ a. cc;
  fails_as = λ a. ap is_passing status;
}

accepted-IsConsistent :
    (t : Target) (r : Evaluation)
    → is_empty t.expected_unresolved ≡ true
    → r.issues ≡ []
    → r.local_policy_passed ≡ some true
    → r.accepted ≡ true
    → r.verified ≡ str_eq (role_of t) "proof"
    → r.status ≡ (if str_eq (role_of t) "proof" then "passed" else "calibration-passed")
    → IsConsistent t r
accepted-IsConsistent t r u no_issue passed accepted verified status = record {
  decides = (true, passed);
  passes = ((λ n. passed), (λ p. no_issue));
  accepts = ((λ a. (no_issue, u)), (λ b. accepted));
  verifies = (
    (λ v. (accepted, (eq_iff (role_of t) "proof").0 (sym verified ∙ v))),
    (λ b. verified ∙ (eq_iff (role_of t) "proof").1 b.1),
  );
  waits = λ n w. cc;
  passes_as = λ a. status;
  fails_as = λ a. cc;
}

-- No kind in the list is a passing status, and "failed" is none.
first_kind-failing :
    (ks kinds : List String)
    → all (λ k. not (is_passing k)) ks ≡ true
    → is_passing (first_kind ks kinds) ≡ false
unfolding first_kind
first_kind-failing [] kinds h = refl
first_kind-failing (k ∷ ks) kinds h =
    let (here, later) = &&-eq-true (not (is_passing k)) _ h in
    let rest = first_kind-failing ks kinds later in
    elim (Bool-cases (member k kinds)) [ inl e ↦ rw e (ground (arith, here)) | inr e ↦ rw e rest ]

malformed_failing :
    (completed : Bool) → is_passing (if completed then "incomplete" else "tool-error") ≡ false
malformed_failing true = refl
malformed_failing false = refl

decided-IsConsistent :
    (t : Target) (confirmed : List String) (issues : List Issue)
    → IsConsistent t (decided t confirmed issues)
unfolding decided
decided-IsConsistent t confirmed (i ∷ is) =
    refused-IsConsistent t (decided t confirmed (i ∷ is)) (λ n. cc) refl refl refl
      (first_kind-failing status_order (map (λ x. x.kind) (i ∷ is)) refl)
decided-IsConsistent t confirmed [] = elim (Bool-cases (is_empty t.expected_unresolved)) [
  | inl u ↦
      accepted-IsConsistent t (decided t confirmed []) u (rw (decided, u) refl)
        (rw (decided, u) refl) (rw (decided, u) refl) (rw (decided, u) refl) (rw (decided, u) refl)
  | inr u ↦
      waiting-IsConsistent t (decided t confirmed []) u (rw (decided, u) refl)
        (rw (decided, u) refl) (rw (decided, u) refl) (rw (decided, u) refl) (rw (decided, u) refl)
]

-- A list that is malformed has an issue.
structure_issue-none :
    (message : String) (o : Option (List String)) → structure_issue message o ≡ [] → o ≡ none → ⊥
structure_issue-none message none h n = cc
structure_issue-none message (some ns) h n = cc

structure_issues-nil :
    (t : Target)
    → structure_issues t ≡ []
    → (declared_names t.functions ≡ none → ⊥)
      × (declared_names (analysis_declared t) ≡ none → ⊥)
      × (declared_names t.required_properties ≡ none → ⊥)
unfolding structure_issues
structure_issues-nil t h =
    let (a, h1) = append_nil (structure_issue _ (declared_names t.functions)) _ h in
    let (b, c) = append_nil (structure_issue _ (declared_names (analysis_declared t))) _ h1 in
    (structure_issue-none _ _ a, structure_issue-none _ _ b, structure_issue-none _ _ c)

module _ (resolve : String → String) (t : Target) (e : Evidence) where
  malformed-IsConsistent : (structure_issues t ≡ [] → ⊥) → IsConsistent t (malformed resolve t e)
  malformed-IsConsistent refused =
      refused-IsConsistent t (malformed resolve t e)
        (λ n. refused (append_nil (returncode_issues resolve e) (structure_issues t) n).1) refl refl
        refl (malformed_failing (is_zero e.returncode))

  -- The fields of a record agree: the local policy is decided, and passed where there is no issue, a target is accepted
  -- where it passed and nothing is left unresolved, it is verified where it is an accepted proof target,
  -- one that only waits for its companion is "needs-companion", an accepted proof target is "passed" and
  -- any other accepted one "calibration-passed", and one that is not accepted is neither.
  pub evaluate_target-IsConsistent : IsConsistent t (evaluate_target resolve t e)
  unfolding evaluate_target
  evaluate_target-IsConsistent = elim (Option-cases (declared_names t.functions)) [
    | inl n1 ↦
        subst (IsConsistent t) (sym (rw (evaluate_target, n1) refl))
          (malformed-IsConsistent (λ h. (structure_issues-nil t h).0 n1))
    | inr (fs, e1) ↦ elim (Option-cases (declared_names (analysis_declared t))) [
      | inl n2 ↦
          subst (IsConsistent t) (sym (rw (evaluate_target, e1, n2) refl))
            (malformed-IsConsistent (λ h. (structure_issues-nil t h).1 n2))
      | inr (gs, e2) ↦ elim (Option-cases (declared_names t.required_properties)) [
        | inl n3 ↦
            subst (IsConsistent t) (sym (rw (evaluate_target, e1, e2, n3) refl))
              (malformed-IsConsistent (λ h. (structure_issues-nil t h).2 n3))
        | inr (rs, e3) ↦ subst (IsConsistent t) (sym (rw (evaluate_target, e1, e2, e3) refl)) (
            decided-IsConsistent t (confirmed_of resolve t e gs rs)
              (all_issues resolve t e fs gs rs))
      ]
    ]
  ]
