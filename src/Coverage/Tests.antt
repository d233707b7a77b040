-- ===== src/Coverage/Tests.antt =====
-- The retained record of a target whose analysis failed.
use fragma.Prelude.{◌≡◌, refl, false, [], ◌∷◌, none, some, String, ok}
use fragma.Prelude.Json.{pos}
use fragma.Report.Target.{Target}
use fragma.Report.Evaluate.{Evidence, evaluate_target}
use fragma.Coverage.Verdicts.{verdict}
use fragma.Coverage.Verdicts.Evaluated.{retained_of, verdict-evaluate_target}

abbrev in_place : String → String
in_place path = path

abbrev declared_target : Target
declared_target = record {
  id = "g";
  profile = some "arm64";
  source = some "lib/g.c";
  role = some "proof";
  analysis = some "eva";
  functions = some (some "g" ∷ []);
  analysis_functions = none;
  required_properties = some (some "g_check" ∷ []);
  required_goals = [];
  expected_unresolved = [];
  expected_invalid = [];
  required_companion = none;
  companion_property_map = [];
  companion_mapping_reason = none;
  entry = some "g";
  claims = [];
  require_smoke = false;
}

abbrev failed_evidence : Evidence
failed_evidence = record {
  returncode = some (pos 2);
  wp_goals = none;
  properties = none;
  warnings = some [];
  reviews = ok (record { smoke = []; warnings = [] });
  native = ok [];
}

verdict-evaluate_target_example :
    verdict (retained_of (some "proof") (evaluate_target in_place declared_target failed_evidence))
    ≡ ok (evaluate_target in_place declared_target failed_evidence).accepted
verdict-evaluate_target_example =
    verdict-evaluate_target in_place declared_target failed_evidence refl
