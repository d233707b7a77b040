-- ===== src/Report/Evaluate/Accepted.antt =====
-- What stands behind the record of a target that `evaluate_target` of fragma/report.py verifies.
use fragma.Prelude.{
  ◌≡◌, refl, sym, ap, ◌∙◌, true, false, not, ◌&&◌, ◌||◌, List, [], ◌∷◌, Option, none, some, String,
  str_eq, eq_iff, str_differs, is_empty, All, All-imp, append_nil, Bool-cases, Option-cases, inl,
  inr, ◌⊎◌, arith,
}
use fragma.Prelude.Json.{ℤ, pos, negsuc}
use fragma.Verdict.Evaluation.{Evaluation, Issue, is}
use fragma.Report.Rows.{Goal, Property}
use fragma.Report.Eva.{Confirmations}
use fragma.Report.Aliases.{property_aliases}
use fragma.Report.Target.{
  Target, unless, declared_names, analysis_declared, is_zero, expectation_issues,
}
use fragma.Report.Wp.Clean.{unless_nil}
use fragma.Report.Dependencies.{is_trusted, dependency_issues}
use fragma.Report.Dependencies.Clean.{IsRowClean, dependency_issues-IsRowClean, not_excused}
use fragma.Report.Evaluate.{
  Evidence, role_of, decided, goals_of, selected_rows, confirmations_of, returncode_issues,
  input_issues, branch_issues, tail_issues, all_issues, confirmed_of, evaluate_target,
}

decided-verified :
    (t : Target) (confirmed : List String) (issues : List Issue)
    → (decided t confirmed issues).verified ≡ true
    → (issues ≡ []) × (is_empty t.expected_unresolved ≡ true) × (str_eq (role_of t) "proof" ≡ true)
unfolding decided
decided-verified t confirmed (i ∷ is) h = cc
decided-verified t confirmed [] h = elim (Bool-cases (is_empty t.expected_unresolved)) [
  | inl e ↦ (refl, e, (rw (decided, e) at h))
  | inr e ↦ let refused : false ≡ true = (rw (decided, e) at h) in cc
]

is_zero-pos : (code : Option ℤ) → is_zero code ≡ true → code ≡ some (pos 0)
is_zero-pos none h = cc
is_zero-pos (some (pos n)) h = ap (λ k. some (pos k)) (ground (arith, h))
is_zero-pos (some (negsuc n)) h = cc

proof_uncalibrated :
    (t : Target) → str_eq (role_of t) "proof" ≡ true → is t.role "calibration" ≡ false
proof_uncalibrated t h = elim (Bool-cases (is t.role "calibration")) [
  | inr e ↦ e
  | inl e ↦ absurd (clash t.role h e)
]
  where
    clash :
        (r : Option String)
        → str_eq (elim r [ none ↦ "proof" | some s ↦ s ]) "proof" ≡ true
        → is r "calibration" ≡ true
        → ⊥
    clash none p c = cc
    clash (some s) p c =
        str_differs "proof" "calibration" refl
          (sym ((eq_iff s "proof").0 p) ∙ (eq_iff s "calibration").0 c)

-- A proof target declares no expected failure.
expectation_issues-uncalibrated :
    (t : Target) (functions analysis_functions required : List String)
    → expectation_issues t functions analysis_functions required ≡ []
    → str_eq (role_of t) "proof" ≡ true
    → is_empty t.expected_invalid ≡ true
unfolding expectation_issues
expectation_issues-uncalibrated t functions analysis_functions required h role =
    let (subsets, h1) = append_nil (unless _ _) _ h in
    let (declared, h2) = append_nil (unless _ _) _ h1 in
    let calibrated : ((is_empty t.expected_invalid && is_empty t.expected_unresolved)
          || is t.role "calibration")
        ≡ true =
      unless_nil _ _ declared in
    let ordinary = proof_uncalibrated t role in ground (arith, calibrated, ordinary)

module _ (resolve : String → String) (t : Target) (e : Evidence) where
  -- The lists of a target whose evaluation is verified, and what its issues were.
  record Settled : Type 0 where
    functions : List String
    analysis_functions : List String
    required : List String
    declared : declared_names t.functions ≡ some functions
    declared_analysis : declared_names (analysis_declared t) ≡ some analysis_functions
    declared_required : declared_names t.required_properties ≡ some required
    result :
        evaluate_target resolve t e
        ≡ decided t
            (confirmed_of resolve t e analysis_functions required)
            (all_issues resolve t e functions analysis_functions required)

  settled : (evaluate_target resolve t e).verified ≡ true → Settled
  unfolding evaluate_target
  settled h = elim (Option-cases (declared_names t.functions)) [
    | inl n1 ↦ let refused : false ≡ true = (rw (evaluate_target, n1) at h) in cc
    | inr (fs, e1) ↦ elim (Option-cases (declared_names (analysis_declared t))) [
      | inl n2 ↦ let refused : false ≡ true = (rw (evaluate_target, e1, n2) at h) in cc
      | inr (gs, e2) ↦ elim (Option-cases (declared_names t.required_properties)) [
        | inl n3 ↦ let refused : false ≡ true = (rw (evaluate_target, e1, e2, n3) at h) in cc
        | inr (rs, e3) ↦ record {
          functions = fs;
          analysis_functions = gs;
          required = rs;
          declared = e1;
          declared_analysis = e2;
          declared_required = e3;
          result = rw (evaluate_target, e1, e2, e3) refl;
        }
      ]
    ]
  ]

  row_settled :
      (c : Confirmations) (goals : List Goal) (row : Property)
      → is_empty t.expected_unresolved ≡ true
      → is_empty t.expected_invalid ≡ true
      → IsRowClean c t.expected_unresolved t.expected_invalid goals row
      → (row.outcome ≡ "valid") ⊎ (is_trusted row ≡ true)
  row_settled c goals row u i clean =
      let none_excused =
        not_excused c t.expected_unresolved t.expected_invalid row (property_aliases row goals) u
          i in
      let accepted = clean.accepted in
      elim (Bool-cases (str_eq row.outcome "valid")) [
        | inl v ↦ inl ((eq_iff row.outcome "valid").0 v)
        | inr v ↦ inr (ground (arith, none_excused, accepted, v))
      ]

  -- What stands behind the record of a verified target, whichever analysis made it.
  pub record IsAnswered : Type 0 where
    pub functions : List String
    pub analysis_functions : List String
    pub required : List String
    pub declared : declared_names t.functions ≡ some functions
    pub declared_analysis : declared_names (analysis_declared t) ≡ some analysis_functions
    pub declared_required : declared_names t.required_properties ≡ some required
    pub completed : e.returncode ≡ some (pos 0)
    pub no_unresolved : is_empty t.expected_unresolved ≡ true
    pub no_invalid : is_empty t.expected_invalid ≡ true
    pub inputs : input_issues resolve t e ≡ []
    pub branch : branch_issues resolve t e functions analysis_functions required ≡ []
    pub some_row : is_empty (selected_rows resolve t e analysis_functions) ≡ false
    pub every_row :
        All
          (λ row. (row.outcome ≡ "valid") ⊎ (is_trusted row ≡ true))
          (selected_rows resolve t e analysis_functions)

  pub evaluate_target-IsAnswered : (evaluate_target resolve t e).verified ≡ true → IsAnswered
  unfolding all_issues tail_issues
  evaluate_target-IsAnswered h =
      let s = settled h in
      let fs = s.analysis_functions in
      let rs = s.required in
      let (no_issue, u, role) =
        decided-verified t _ (all_issues resolve t e s.functions fs rs)
          (sym (ap (λ (r : Evaluation). r.verified) s.result) ∙ h) in
      let (code, h1) = append_nil (returncode_issues resolve e) _ no_issue in
      let (expectations, h2) = append_nil (expectation_issues t s.functions fs rs) _ h1 in
      let (inputs, h3) = append_nil (input_issues resolve t e) _ h2 in
      let (branch, tail) = append_nil (branch_issues resolve t e s.functions fs rs) _ h3 in
      let (some_rows, t1) =
        append_nil (unless (not (is_empty (selected_rows resolve t e fs))) _) _ tail in
      let goals = goals_of resolve t e in
      let (rows, t2) =
        append_nil
          (dependency_issues (confirmations_of resolve t e) t.expected_unresolved t.expected_invalid
            goals [] (selected_rows resolve t e fs))
          _ t1 in
      let i = expectation_issues-uncalibrated t s.functions fs rs expectations role in
      let clean = dependency_issues-IsRowClean _ _ _ goals [] (selected_rows resolve t e fs) rows in
      record {
        functions = s.functions;
        analysis_functions = fs;
        required = rs;
        declared = s.declared;
        declared_analysis = s.declared_analysis;
        declared_required = s.declared_required;
        completed = is_zero-pos e.returncode (unless_nil (is_zero e.returncode) _ code);
        no_unresolved = u;
        no_invalid = i;
        inputs = inputs;
        branch = branch;
        some_row =
            ground (arith, unless_nil (not (is_empty (selected_rows resolve t e fs))) _ some_rows);
        every_row =
            All-imp _ _ (selected_rows resolve t e fs)
              (λ row. row_settled (confirmations_of resolve t e) goals row u i) clean;
      }
