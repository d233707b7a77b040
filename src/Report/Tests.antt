-- ===== src/Report/Tests.antt =====
-- A function that WP proves, and one that EVA checks.
use fragma.Prelude.{◌≡◌, refl, true, false, List, [], ◌∷◌, Option, none, some, String, ok, Both}
use fragma.Prelude.Json.{pos}
use fragma.Report.Rows.{Goal, Property, outcome_of}
use fragma.Report.Goals.{RawProver, RawGoal, wp_rows}
use fragma.Report.Goals.Sound.{IsParsed, wp_rows-IsParsed}
use fragma.Report.Target.{Target, declared_names, expectation_issues}
use fragma.Report.Wp.{wp_issues}
use fragma.Report.Eva.{eva_issues}
use fragma.Report.Aliases.{property_aliases}
use fragma.Report.Dependencies.{dependency_issues, warning_issues}
use fragma.Report.Evaluate.{Evidence, evaluate_target}
use fragma.Report.Evaluate.WpVerified.{IsWpVerified, evaluate_target-IsWpVerified}
use fragma.Report.Evaluate.EvaVerified.{IsEvaVerified, evaluate_target-IsEvaVerified}
use fragma.Report.Evaluate.Decision.{IsConsistent, evaluate_target-IsConsistent}

abbrev in_tree : String → String
in_tree path = path

abbrev solver : RawProver
solver = record { prover = some "alt-ergo"; time = some 4; success = some 1 }

abbrev ensures_goal : RawGoal
ensures_goal = record {
  goal = some "typed_f_ensures";
  property = some "f_ensures";
  function = some "f";
  file = some "lib/f.c";
  verdict = some "valid";
  line = some 7;
  smoke = some false;
  passed = some true;
  provers = some (some solver ∷ []);
}

abbrev smoke_goal : RawGoal
smoke_goal = record {
  goal = some "typed_f_smoke";
  property = some "f_smoke";
  function = some "f";
  file = some "lib/f.c";
  verdict = some "unknown";
  line = some 7;
  smoke = some true;
  passed = some true;
  provers = some (some solver ∷ []);
}

abbrev raw_goals : List (Option RawGoal)
raw_goals = some ensures_goal ∷ some smoke_goal ∷ []

abbrev read_goals : List Goal
read_goals =
    record {
      goal = "typed_f_ensures";
      property = "f_ensures";
      function = "f";
      path = "lib/f.c";
      line = 7;
      smoke = false;
      passed = true;
      verdict = "valid";
      outcome = "valid";
    }
    ∷ record {
      goal = "typed_f_smoke";
      property = "f_smoke";
      function = "f";
      path = "lib/f.c";
      line = 7;
      smoke = true;
      passed = true;
      verdict = "unknown";
      outcome = "inconclusive";
    }
    ∷ []

abbrev ensures_row : Property
ensures_row = record {
  path = "lib/f.c";
  line = 7;
  function = "f";
  kind = "postcondition";
  status = "Valid";
  outcome = "valid";
  property = "f ensures";
  names = "f_ensures" ∷ [];
  report_row = 2;
  exported_identity_ambiguous = false;
  exported_occurrences = [];
}

abbrev proved_target : Target
proved_target = record {
  id = "f";
  profile = some "x86-64";
  source = some "lib/f.c";
  role = none;
  analysis = some "wp";
  functions = some (some "f" ∷ []);
  analysis_functions = none;
  required_properties = some (some "f_ensures" ∷ []);
  required_goals = "typed_f_ensures" ∷ [];
  expected_unresolved = [];
  expected_invalid = [];
  required_companion = none;
  companion_property_map = [];
  companion_mapping_reason = none;
  entry = none;
  claims = "functional" ∷ [];
  require_smoke = true;
}

abbrev proof_evidence : Evidence
proof_evidence = record {
  returncode = some (pos 0);
  wp_goals = some raw_goals;
  properties = some (some ensures_row ∷ []);
  warnings = some [];
  reviews = ok (record { smoke = []; warnings = [] });
  native = ok [];
}

abbrev checked_target : Target
checked_target = record proved_target {
  analysis = some "eva";
  entry = some "f";
  required_goals = [];
  require_smoke = false;
}

abbrev eva_evidence : Evidence
eva_evidence = record proof_evidence { wp_goals = none }

wp_rows-raw_goals : wp_rows in_tree (some raw_goals) ≡ ok read_goals
unfolding wp_rows
wp_rows-raw_goals = refl

wp_rows-IsParsed_example : Both (IsParsed in_tree) raw_goals read_goals
wp_rows-IsParsed_example = wp_rows-IsParsed in_tree raw_goals read_goals wp_rows-raw_goals

verified_wp : (evaluate_target in_tree proved_target proof_evidence).verified ≡ true
unfolding evaluate_target declared_names expectation_issues outcome_of wp_rows wp_issues
    property_aliases dependency_issues warning_issues
verified_wp = refl

evaluate_target-IsWpVerified_example : IsWpVerified in_tree proved_target proof_evidence
evaluate_target-IsWpVerified_example =
    evaluate_target-IsWpVerified in_tree proved_target proof_evidence refl verified_wp

verified_eva : (evaluate_target in_tree checked_target eva_evidence).verified ≡ true
unfolding evaluate_target declared_names expectation_issues outcome_of eva_issues dependency_issues
    warning_issues
verified_eva = refl

evaluate_target-IsEvaVerified_example : IsEvaVerified in_tree checked_target eva_evidence
evaluate_target-IsEvaVerified_example =
    evaluate_target-IsEvaVerified in_tree checked_target eva_evidence refl verified_eva

evaluate_target-IsConsistent_example :
    IsConsistent proved_target (evaluate_target in_tree proved_target proof_evidence)
evaluate_target-IsConsistent_example =
    evaluate_target-IsConsistent in_tree proved_target proof_evidence
