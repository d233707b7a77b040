-- ===== src/Report/Evaluate/WpVerified.antt =====
-- `evaluate_target` of fragma/report.py: what a verified target stands for that WP analyses.
use fragma.Prelude.{
  ◌≡◌, refl, sym, ap, ◌∙◌, Bool, true, false, List, [], ◌∷◌, none, some, String, str_eq, eq_iff,
  member, is_empty, Result, ok, err, All, All-imp, if_true, All-get, append_nil, arith,
  if◌then◌else◌,
}
use fragma.Verdict.Evaluation.{is}
use fragma.Report.Rows.{Goal}
use fragma.Report.Goals.{wp_rows}
use fragma.Report.Target.{Target, issue, unless}
use fragma.Report.Wp.{Expectations, is_expected, wp_issues}
use fragma.Report.Wp.Clean.{HasGoal, IsGoalClean, wp_issues-IsWpClean}
use fragma.Report.Evaluate.Accepted.{IsAnswered, evaluate_target-IsAnswered}
use fragma.Report.Evaluate.{
  Evidence, is_given, or_empty, parsed_goals, rows_of, goals_of, goal_gate, expectations_of,
  gated_reviews, input_issues, branch_issues, evaluate_target, normalized,
}

member_none : (s : String) (xs : List String) → is_empty xs ≡ true → member s xs ≡ false
member_none s [] h = refl
member_none s (x ∷ xs) h = cc

expected_valid :
    (x : Expectations) (g : Goal)
    → is_empty x.unresolved ≡ true
    → is_empty x.invalid ≡ true
    → is_expected x g ≡ true
    → g.outcome ≡ "valid"
expected_valid x g u i h =
    let no_unknown = member_none g.property x.unresolved u in
    let no_invalid = member_none g.property x.invalid i in
    let valid : str_eq g.outcome "valid" ≡ true = ground (arith, h, no_unknown, no_invalid) in
    (eq_iff g.outcome "valid").0 valid

-- An ordinary goal of the list that came out valid.
valid_goal :
    (x : Expectations) (goals : List Goal) (P : Goal → Type 0)
    → All (IsGoalClean x) goals
    → is_empty x.unresolved ≡ true
    → is_empty x.invalid ≡ true
    → HasGoal goals P
    → HasGoal goals (λ g. P g × (g.outcome ≡ "valid"))
valid_goal x goals P clean u i found =
    let expected =
      (All-get (IsGoalClean x) goals found.index clean found.stands).expected found.ordinary in
    record {
      index = found.index;
      goal = found.goal;
      stands = found.stands;
      ordinary = found.ordinary;
      holds = (found.holds, expected_valid x found.goal u i expected);
    }

goal_gate-ok :
    (given : Bool) (parsed : Result (List Goal))
    → goal_gate given parsed ≡ []
    → parsed ≡ ok (parsed_goals parsed)
goal_gate-ok given (ok goals) h = refl
goal_gate-ok given (err message) h = cc

module _ (resolve : String → String) (t : Target) (e : Evidence) where
  goals_read :
      is t.analysis "wp" ≡ true
      → input_issues resolve t e ≡ []
      → wp_rows resolve e.wp_goals ≡ ok (goals_of resolve t e)
  unfolding input_issues
  goals_read wp inputs =
      let (some_properties, i1) = append_nil (unless (is_given e.properties) _) _ inputs in
      let (normal, i2) = append_nil ((normalized (or_empty e.properties)).0) _ i1 in
      let (diagnostics, i3) =
        append_nil
          (elim e.warnings [
            | none ↦ issue "tool-error" "Warnings must be a diagnostic array" [] ∷ []
            | some ws ↦ []
          ])
          _ i2 in
      let (parse, i4) =
        append_nil
          (if is t.analysis "wp"
            then goal_gate (is_given e.wp_goals) (wp_rows resolve e.wp_goals)
            else [])
          _ i3 in
      let taken : goals_of resolve t e ≡ parsed_goals (wp_rows resolve e.wp_goals) = rw wp refl in
      goal_gate-ok (is_given e.wp_goals) (wp_rows resolve e.wp_goals) (rw wp at parse)
      ∙ ap ok (sym taken)

  -- The evidence that the record of a verified target stands for where WP is its analysis.
  pub record IsWpVerified : Type 0 where
    pub answered : IsAnswered resolve t e
    pub goals : List Goal
    pub parsed : wp_rows resolve e.wp_goals ≡ ok goals
    pub every_function :
        All
          (λ f. HasGoal goals (λ g. (g.function ≡ f) × (g.outcome ≡ "valid")))
          answered.analysis_functions
    pub every_required :
        All
          (λ name. HasGoal goals (λ g. (g.property ≡ name) × (g.outcome ≡ "valid")))
          answered.required
    pub every_goal : All (λ g. g.smoke ≡ false → g.outcome ≡ "valid") goals
    pub every_smoke :
        All
          (λ g.
            g.smoke ≡ true
            → g.outcome ≡ "inconsistent"
            → member g.goal (gated_reviews e.reviews).smoke ≡ true)
          goals

  -- Where WP evaluates a target and the record says "verified", the analyzer returned zero, no failure
  -- is expected, the goals of the report were read without an error, every function of the analysis and
  -- every required property has an ordinary goal that is valid, every ordinary goal is valid, every
  -- smoke goal that came out inconsistent is one that a review covers, and the selected rows of the
  -- consolidated report, of which there is one at least, are each valid or a trusted precondition,
  -- axiom or assumption.
  pub evaluate_target-IsWpVerified :
      is t.analysis "wp" ≡ true → (evaluate_target resolve t e).verified ≡ true → IsWpVerified
  unfolding branch_issues
  evaluate_target-IsWpVerified wp h =
      let a = evaluate_target-IsAnswered resolve t e h in
      let x = expectations_of resolve t e a.analysis_functions a.required in
      let goals = goals_of resolve t e in
      let u = a.no_unresolved in
      let i = a.no_invalid in
      let issues = wp_issues x (rows_of resolve e) goals in
      let clean =
        wp_issues-IsWpClean x (rows_of resolve e) goals
          (sym (if_true (is t.analysis "wp") issues _ wp) ∙ a.branch) in
      record {
        answered = a;
        goals = goals;
        parsed = goals_read wp a.inputs;
        every_function =
            All-imp _ _ a.analysis_functions
              (λ f. valid_goal x goals (λ g. g.function ≡ f) clean.clean u i) clean.functions;
        every_required =
            All-imp _ _ a.required
              (λ name. valid_goal x goals (λ g. g.property ≡ name) clean.clean u i) clean.required;
        every_goal =
            All-imp _ _ goals
              (λ g (c : IsGoalClean x g) ordinary. expected_valid x g u i (c.expected ordinary))
              clean.clean;
        every_smoke = All-imp _ _ goals (λ g (c : IsGoalClean x g). c.reviewed) clean.clean;
      }
