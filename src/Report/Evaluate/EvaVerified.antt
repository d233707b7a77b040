-- ===== src/Report/Evaluate/EvaVerified.antt =====
-- `evaluate_target` of fragma/report.py: what a verified target stands for that EVA analyses.
use fragma.Prelude.{
  ℕ, ◌≡◌, refl, sym, ◌∙◌, true, false, not, List, [], ◌∷◌, Option, none, some, String, str_eq,
  eq_iff, str_differs, member, is_empty, all, All, All-all, All-imp, append_nil, Bool-cases, inl,
  inr, arith, if_true, if_false, if◌then◌else◌, any-get, get_elem?,
}
use fragma.Verdict.Evaluation.{is}
use fragma.Report.Rows.{Property}
use fragma.Report.Target.{Target, unless}
use fragma.Report.Wp.Clean.{unless_nil}
use fragma.Report.Eva.{
  Confirmations, entry_of, named_rows, row_outcome, evidence_issues, eva_required_issue,
  eva_required_issues, eva_issues,
}
use fragma.Report.Evaluate.{
  Evidence, is_given, rows_of, confirmations_of, branch_issues, evaluate_target,
}
use fragma.Report.Evaluate.Accepted.{IsAnswered, evaluate_target-IsAnswered}

-- The rows of a required property: there are some, and all are valid.
pub record IsProved (rows : List Property) : Type 0 where
  pub some_row : is_empty rows ≡ false
  pub every_row : All (λ row. row.outcome ≡ "valid") rows

-- A row of the list that stands for the function.
pub record HasRow (rows : List Property) (function : String) : Type 0 where
  pub index : ℕ
  pub row : Property
  pub stands : get_elem? rows index ≡ some row
  pub same : row.function ≡ function

evidence_issues-HasRow :
    (rows : List Property) (fs : List String) → evidence_issues rows fs ≡ [] → All (HasRow rows) fs
unfolding evidence_issues
evidence_issues-HasRow rows [] h = tt
evidence_issues-HasRow rows (f ∷ fs) h =
    let (here, later) = append_nil (unless _ _) (evidence_issues rows fs) h in
    let (i, row, stands, same) = any-get _ rows (unless_nil _ _ here) in
    (
      record { index = i; row = row; stands = stands; same = (eq_iff row.function f).0 same },
      evidence_issues-HasRow rows fs later,
    )

member_none : (s : String) (xs : List String) → is_empty xs ≡ true → member s xs ≡ false
member_none s [] h = refl
member_none s (x ∷ xs) h = cc

eva_required_issue-IsProved :
    (c : Confirmations) (invalid : List String) (name : String) (rows : List Property)
    → is_empty invalid ≡ true
    → eva_required_issue c invalid name rows ≡ []
    → IsProved rows
unfolding eva_required_issue
eva_required_issue-IsProved c invalid name [] i h = cc
eva_required_issue-IsProved c invalid name (r ∷ rs) i h =
    let valid =
      unless_nil (all (row_outcome "valid") (r ∷ rs)) _
        (sym (if_false (member name invalid) _ _ (member_none name invalid i)) ∙ h) in
    record {
      some_row = refl;
      every_row =
          All-imp _ _ (r ∷ rs) (λ row. (eq_iff row.outcome "valid").0)
            (All-all (row_outcome "valid") (r ∷ rs) valid);
    }

eva_required_issues-IsProved :
    (c : Confirmations) (invalid functions : List String) (rows : List Property)
    (names : List String)
    → is_empty invalid ≡ true
    → eva_required_issues c invalid functions rows names ≡ []
    → All (λ name. IsProved (named_rows functions name rows)) names
unfolding eva_required_issues
eva_required_issues-IsProved c invalid functions rows [] i h = tt
eva_required_issues-IsProved c invalid functions rows (name ∷ names) i h =
    let (here, later) =
      append_nil (eva_required_issue c invalid name (named_rows functions name rows))
        (eva_required_issues c invalid functions rows names) h in
    (
      eva_required_issue-IsProved c invalid name (named_rows functions name rows) i here,
      eva_required_issues-IsProved c invalid functions rows names i later,
    )

eva_not_wp : (a : Option String) → is a "eva" ≡ true → is a "wp" ≡ false
eva_not_wp none h = cc
eva_not_wp (some s) h = elim (Bool-cases (str_eq s "wp")) [
  | inr e ↦ e
  | inl e ↦ absurd (str_differs "eva" "wp" refl (sym ((eq_iff s "eva").0 h) ∙ (eq_iff s "wp").0 e))
]

module _ (resolve : String → String) (t : Target) (e : Evidence) where
  -- The evidence that the record of a verified target stands for where EVA is its analysis.
  pub record IsEvaVerified : Type 0 where
    pub answered : IsAnswered resolve t e
    pub no_goals : is_given e.wp_goals ≡ false
    pub every_function : All (HasRow (rows_of resolve e)) (
        if member (entry_of t.entry) answered.functions
        then answered.functions
        else entry_of t.entry ∷ answered.functions)
    pub every_required :
        All
          (λ name.
            IsProved (
              named_rows (entry_of t.entry ∷ answered.analysis_functions) name (rows_of resolve e)))
          answered.required

  -- Where EVA evaluates a target and the record says "verified", the analyzer returned zero, no failure
  -- is expected, no goals were handed in, every source function and the entry have a row in the
  -- consolidated report, every required property has a row within the analysis and all such rows are
  -- valid, and the selected rows, of which there is one at least, are each valid or a trusted
  -- precondition, axiom or assumption.
  pub evaluate_target-IsEvaVerified :
      is t.analysis "eva" ≡ true → (evaluate_target resolve t e).verified ≡ true → IsEvaVerified
  unfolding branch_issues eva_issues
  evaluate_target-IsEvaVerified eva h =
      let a = evaluate_target-IsAnswered resolve t e h in
      let c = confirmations_of resolve t e in
      let rows = rows_of resolve e in
      let entry = entry_of t.entry in
      let issues =
        eva_issues c t.expected_invalid (is_given e.wp_goals) a.functions a.analysis_functions entry
          rows a.required in
      let branch : issues ≡ [] =
        sym (if_true (is t.analysis "eva") issues _ eva)
        ∙ (sym (if_false (is t.analysis "wp") _ _ (eva_not_wp t.analysis eva)) ∙ a.branch) in
      let (goals, h1) = append_nil (unless (not (is_given e.wp_goals)) _) _ branch in
      let covered = if member entry a.functions then a.functions else entry ∷ a.functions in
      let (evidence, h2) = append_nil (evidence_issues rows covered) _ h1 in
      record {
        answered = a;
        no_goals = ground (arith, unless_nil (not (is_given e.wp_goals)) _ goals);
        every_function = evidence_issues-HasRow rows covered evidence;
        every_required =
            eva_required_issues-IsProved c t.expected_invalid (entry ∷ a.analysis_functions) rows
              a.required a.no_invalid h2;
      }
