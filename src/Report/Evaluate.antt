-- ===== src/Report/Evaluate.antt =====
-- `evaluate_target` of fragma/report.py. The results of its two gates, `_validated_reviews` and
-- `_validated_native` (Report/Native.antt), are arguments, errors included; its record is less the lists that only report what was
-- seen (smoke goals, trusted and unresolved dependencies, ambiguities, counts).
pub mod Accepted
pub mod WpVerified
pub mod EvaVerified
pub mod Decision
use fragma.Prelude.{
  ℕ, Bool, true, false, not, ◌&&◌, ◌||◌, List, [], ◌∷◌, ◌++◌, Option, none, some, String, str_eq,
  member, any, all, keep, is_empty, map, Result, ok, err, if◌then◌else◌,
}
use fragma.Prelude.Json.{ℤ}
use fragma.Verdict.Evaluation.{Evaluation, Issue, is}
use fragma.Report.Rows.{Goal, Property, outcome_of}
use fragma.Report.Goals.{RawGoal, wp_rows}
use fragma.Report.Aliases.{Warning, eva_reached_invalid_checks}
use fragma.Report.Target.{
  Target, issue, unless, declared_names, analysis_declared, is_zero, structure_issues,
  expectation_issues,
}
use fragma.Report.Wp.{Expectations, wp_issues, wp_confirmed}
use fragma.Report.Eva.{Confirmations, entry_of, eva_issues, eva_confirmed}
use fragma.Report.Dependencies.{dependency_issues, warning_issues}

-- What the review gate hands over: the goals and the indices of the diagnostics that it covers.
pub record Reviews : Type 0 where
  pub smoke : List String
  pub warnings : List ℕ

pub record Evidence : Type 0 where
  -- none for `None`, which a process that did not end has
  pub returncode : Option ℤ
  -- none for `None`
  pub wp_goals : Option (List (Option RawGoal))
  -- in the list, none for a record that lacks a key
  pub properties : Option (List (Option Property))
  pub warnings : Option (List Warning)
  pub reviews : Result Reviews
  pub native : Result (List (String × Property))

-- The rows that are well formed, with the outcome of their status, and the issues of the others.
unfoldable pub normalized : List (Option Property) → List Issue × List Property
normalized [] = ([], [])
normalized (none ∷ rest) =
    let (issues, rows) = normalized rest in
    (issue "tool-error" "Malformed consolidated property record" [] ∷ issues, rows)
normalized (some row ∷ rest) =
    let (issues, rows) = normalized rest in
    elim (outcome_of row.status) [
      | none ↦ (
        issue "tool-error" "Unknown consolidated property status"
              (("property_status", row.status) ∷ [])
            ∷ issues,
        rows,
      )
      | some outcome ↦ (issues, record row { outcome = outcome } ∷ rows)
    ]

abbrev pub is_given {ℓ} : {A : Type ℓ} → Option (List A) → Bool
is_given (some (x ∷ xs)) = true
is_given _ = false

abbrev pub or_empty {ℓ} : {A : Type ℓ} → Option (List A) → List A
or_empty none = []
or_empty (some xs) = xs

abbrev gate_issue {ℓ} : {A : Type ℓ} → Result A → List Issue
gate_issue (ok a) = []
gate_issue (err message) = issue "review-required" message [] ∷ []

abbrev pub gated_reviews : Result Reviews → Reviews
gated_reviews (ok r) = r
gated_reviews (err message) = record { smoke = []; warnings = [] }

abbrev pub gated_native : Result (List (String × Property)) → List (String × Property)
gated_native (ok n) = n
gated_native (err message) = []

abbrev pub goal_gate : Bool → Result (List Goal) → List Issue
goal_gate given (ok goals) = []
goal_gate given (err message) = issue (if given then "tool-error" else "incomplete") message [] ∷ []

abbrev pub parsed_goals : Result (List Goal) → List Goal
parsed_goals (ok goals) = goals
parsed_goals (err message) = []

-- The first kind in this order that an issue has.
abbrev pub status_order : List String
status_order =
    "tool-error" ∷ "inconsistent" ∷ "unsupported" ∷ "review-required" ∷ "incomplete" ∷ "invalid"
    ∷ "timeout" ∷ "unknown" ∷ []

unfoldable pub first_kind : List String → List String → String
first_kind [] kinds = "failed"
first_kind (k ∷ ks) kinds = let rest = first_kind ks kinds in if member k kinds then k else rest

abbrev pub role_of : Target → String
role_of t = elim t.role [ none ↦ "proof" | some r ↦ r ]

-- The record, before the status is decided.
abbrev pub initial : Target → Evaluation
initial t = record {
  target_id = t.id;
  status = "incomplete";
  accepted = false;
  verified = false;
  local_policy_passed = some false;
  role = some (role_of t);
  profile = t.profile;
  source = t.source;
  analysis = t.analysis;
  functions = elim (declared_names t.functions) [ none ↦ [] | some fs ↦ fs ];
  required_companion = t.required_companion;
  companion_property_map = t.companion_property_map;
  companion_mapping_reason = t.companion_mapping_reason;
  expected_unresolved = t.expected_unresolved;
  expected_invalid = t.expected_invalid;
  confirmed_invalid_properties = [];
  issues = [];
  companion_evidence = none;
}

-- The status where there are issues, and where there are none.
unfoldable pub decided : Target → List String → List Issue → Evaluation
unfolding first_kind
decided t confirmed (i ∷ is) = record (initial t) {
  confirmed_invalid_properties = confirmed;
  issues = i ∷ is;
  status = first_kind status_order (map (λ x. x.kind) (i ∷ is));
}
decided t confirmed [] =
    if not (is_empty t.expected_unresolved)
    then record (initial t) {
      confirmed_invalid_properties = confirmed;
      local_policy_passed = some true;
      status = "needs-companion";
    }
    else record (initial t) {
      confirmed_invalid_properties = confirmed;
      local_policy_passed = some true;
      accepted = true;
      verified = str_eq (role_of t) "proof";
      status = if str_eq (role_of t) "proof" then "passed" else "calibration-passed";
    }

module _ (resolve : String → String) where
  -- What the branches are given, once the target's lists are read.
  abbrev pub rows_of : Evidence → List Property
  rows_of e = (normalized (or_empty e.properties)).1

  abbrev pub goals_of : Target → Evidence → List Goal
  goals_of t e = if is t.analysis "wp" then parsed_goals (wp_rows resolve e.wp_goals) else []

  abbrev pub confirmations_of : Target → Evidence → Confirmations
  confirmations_of t e = record {
    reached = eva_reached_invalid_checks (rows_of e) (or_empty e.warnings) t.expected_invalid;
    native = gated_native e.native;
  }

  abbrev pub expectations_of : Target → Evidence → List String → List String → Expectations
  expectations_of t e analysis_functions required = record {
    analysis_functions = analysis_functions;
    required = required;
    required_goals = t.required_goals;
    unresolved = t.expected_unresolved;
    invalid = t.expected_invalid;
    reviewed_smoke = (gated_reviews e.reviews).smoke;
    require_smoke = t.require_smoke;
  }

  -- The functions whose rows are selected: EVA adds its entry.
  abbrev pub selected_functions : Target → List String → List String
  selected_functions t analysis_functions =
      if is t.analysis "eva" then entry_of t.entry ∷ analysis_functions else analysis_functions

  abbrev pub selected_rows : Target → Evidence → List String → List Property
  selected_rows t e analysis_functions =
      keep (λ row. member row.function (selected_functions t analysis_functions)) (rows_of e)

  -- The issues of what is handed in.
  unfoldable pub input_issues : Target → Evidence → List Issue
  unfolding normalized
  input_issues t e =
      unless (is_given e.properties)
        (issue "incomplete" "Missing or empty consolidated property report" [])
      ++ ((normalized (or_empty e.properties)).0
          ++ (elim e.warnings [
            | none ↦ issue "tool-error" "Warnings must be a diagnostic array" [] ∷ []
            | some ws ↦ []
          ]
              ++ ((if is t.analysis "wp"
                    then goal_gate (is_given e.wp_goals) (wp_rows resolve e.wp_goals)
                    else [])
                  ++ (gate_issue e.reviews ++ gate_issue e.native))))

  unfoldable pub branch_issues :
      Target → Evidence → List String → List String → List String → List Issue
  branch_issues t e functions analysis_functions required =
      if is t.analysis "wp"
      then wp_issues (expectations_of t e analysis_functions required) (rows_of e) (goals_of t e)
      else if is t.analysis "eva"
      then eva_issues (confirmations_of t e) t.expected_invalid (is_given e.wp_goals) functions
          analysis_functions (entry_of t.entry) (rows_of e) required
      else issue "unsupported" "Unsupported analysis kind"
          (elim t.analysis [ none ↦ [] | some a ↦ ("analysis", a) ∷ [] ])
        ∷ []

  unfoldable pub confirmed_of : Target → Evidence → List String → List String → List String
  confirmed_of t e analysis_functions required =
      if is t.analysis "wp"
      then wp_confirmed (expectations_of t e analysis_functions required) (goals_of t e)
      else if is t.analysis "eva"
      then eva_confirmed (confirmations_of t e) t.expected_invalid
          (entry_of t.entry ∷ analysis_functions) (rows_of e) required
      else []

  unfoldable pub tail_issues : Target → Evidence → List String → List Issue
  tail_issues t e analysis_functions =
      unless (not (is_empty (selected_rows t e analysis_functions)))
        (issue "incomplete" "Consolidated report has no selected-function properties" [])
      ++ (dependency_issues (confirmations_of t e) t.expected_unresolved t.expected_invalid
            (goals_of t e) [] (selected_rows t e analysis_functions)
          ++ warning_issues t.claims (gated_reviews e.reviews).warnings 0 (or_empty e.warnings))

  abbrev pub returncode_issues : Evidence → List Issue
  returncode_issues e =
      unless (is_zero e.returncode)
        (issue "tool-error" "Analyzer process did not complete successfully" [])

  -- All issues of a target whose lists are well formed.
  unfoldable pub all_issues :
      Target → Evidence → List String → List String → List String → List Issue
  unfolding input_issues branch_issues tail_issues
  all_issues t e functions analysis_functions required =
      returncode_issues e
      ++ (expectation_issues t functions analysis_functions required
          ++ (input_issues t e
              ++ (branch_issues t e functions analysis_functions required
                  ++ tail_issues t e analysis_functions)))

  -- `if not structure_valid`
  abbrev pub malformed : Target → Evidence → Evaluation
  malformed t e = record (initial t) {
    issues = returncode_issues e ++ structure_issues t;
    status = if is_zero e.returncode then "incomplete" else "tool-error";
  }

  unfoldable pub evaluate_target : Target → Evidence → Evaluation
  unfolding decided all_issues confirmed_of
  evaluate_target t e = elim (declared_names t.functions) [
    | none ↦ malformed t e
    | some functions ↦ elim (declared_names (analysis_declared t)) [
      | none ↦ malformed t e
      | some analysis_functions ↦ elim (declared_names t.required_properties) [
        | none ↦ malformed t e
        | some required ↦
            decided t (confirmed_of t e analysis_functions required)
              (all_issues t e functions analysis_functions required)
      ]
    ]
  ]
