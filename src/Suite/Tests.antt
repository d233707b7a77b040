-- ===== src/Suite/Tests.antt =====
-- A registry of two targets that name each other as companions, limits, and a receipt.
use fragma.Prelude.{
  all_distinct, ◌≡◌, refl, List, [], ◌∷◌, some, Result, ok, ◌↔◌, String, All, true,
}
use fragma.Suite.Strategy.{Search, strategy, strategy_options}
use fragma.Suite.Strategy.Bounded.{IsBounded, strategy_options-IsBounded}
use fragma.Prelude.Json.{Fields, Json, null, int, pos, str, arr, obj, nil, cons, end, field}
use fragma.Suite.Routes.{
  routed, native_evidence_routes, add_routes, matching, select_native_targets, inventory, case_ids,
  case_id,
}
use fragma.Suite.Routes.Unambiguous.{IsRouted, native_evidence_routes-IsRouted}
use fragma.Suite.Limits.{Limits, analysis_limits, bounded, IsLimitsOf, analysis_limits_iff}
use fragma.Suite.Selection.{
  Target, select_targets, close, missing_companion, find_target, is_requested,
}
use fragma.Suite.Selection.Measure.{select_targets_terminates}
use fragma.Suite.Selection.Closed.{IsSelection, select_targets-IsSelection}

abbrev wp_target : Target
wp_target = record {
  id = "wp";
  role = "calibration";
  analysis = "wp";
  suite = "core";
  profile = "x86-64";
  required_companion = some "eva";
}

abbrev eva_target : Target
eva_target = record {
  id = "eva";
  role = "calibration";
  analysis = "eva";
  suite = "extra";
  profile = "x86-64";
  required_companion = some "wp";
}

abbrev registry : List Target
registry = eva_target ∷ wp_target ∷ []

select_targets-wp :
    select_targets registry ("wp" ∷ []) [] [] ≡ some (ok (wp_target ∷ eva_target ∷ []))
unfolding select_targets close missing_companion find_target is_requested
select_targets-wp = refl

select_targets_terminates_example :
    (r : Result (List Target)) × (select_targets registry ("wp" ∷ []) [] [] ≡ some r)
select_targets_terminates_example = select_targets_terminates registry ("wp" ∷ []) [] []

select_targets-IsSelection_example :
    IsSelection registry ("wp" ∷ []) [] [] (wp_target ∷ eva_target ∷ [])
select_targets-IsSelection_example =
    select_targets-IsSelection registry ("wp" ∷ []) [] [] (wp_target ∷ eva_target ∷ [])
      select_targets-wp

-- The command line's defaults.
abbrev limits : Limits
limits = record { wall_timeout_seconds = 1200; solver_timeout_seconds = 20; jobs = 4 }

analysis_limits-default : analysis_limits (int (pos 20)) (int (pos 4)) null ≡ ok limits
unfolding analysis_limits bounded
analysis_limits-default = refl

analysis_limits_iff_example :
    (analysis_limits (int (pos 20)) (int (pos 4)) null ≡ ok limits)
    ↔ IsLimitsOf (int (pos 20)) (int (pos 4)) null limits
analysis_limits_iff_example = analysis_limits_iff (int (pos 20)) (int (pos 4)) null limits

-- One receipt, which lists the EVA calibration.
abbrev receipt : Json
receipt = obj (
    field "kind" (str "fragma-native-spec-sensitivity")
      (field "cases" (arr (cons (obj (field "target_id" (str "eva") end)) nil)) end))

abbrev read_receipt : String → Result Json
read_receipt path = ok receipt

abbrev stay : String → String
stay path = path

native_evidence_routes-eva :
    native_evidence_routes read_receipt registry stay ("/r.json" ∷ [])
    ≡ ok (("eva", "/r.json") ∷ [], "/r.json" ∷ [])
unfolding native_evidence_routes add_routes matching select_native_targets inventory case_ids
    case_id all_distinct
native_evidence_routes-eva = refl

native_evidence_routes-IsRouted_example :
    (all_distinct (routed (("eva", "/r.json") ∷ [])) ≡ true)
    × All (IsRouted read_receipt registry) (("eva", "/r.json") ∷ [])
native_evidence_routes-IsRouted_example =
    native_evidence_routes-IsRouted read_receipt registry stay ("/r.json" ∷ [])
      (("eva", "/r.json") ∷ []) ("/r.json" ∷ []) native_evidence_routes-eva

abbrev tip_target : Fields
tip_target = field "analysis" (str "wp") (
    field "wp_strategy" (str "FragmaTip") (
      field "wp_strategy_file" (str "lib/f.c")
        (field "wp_strategy_provers" (arr (cons (str "z3") nil)) end)))

abbrev tip_search : Search
tip_search = strategy "FragmaTip" 64 2 ("z3" ∷ [])

strategy_options-tip_target : strategy_options tip_target "alt-ergo" ≡ ok tip_search
unfolding strategy_options all_distinct
strategy_options-tip_target = refl

strategy_options-IsBounded_example : IsBounded tip_target "alt-ergo" tip_search
strategy_options-IsBounded_example =
    strategy_options-IsBounded tip_target "alt-ergo" strategy_options-tip_target
