-- ===== src/Report/Wp.antt =====
-- The WP branch of `evaluate_target` of fragma/report.py: the issues that the goals raise, and what is
-- confirmed. A set's elements are visited in the order of its list.
pub mod Clean
use fragma.Prelude.{
  ℕ, suc, zero, ◌+◌, Bool, true, false, not, ◌&&◌, ◌||◌, List, [], ◌∷◌, ◌++◌, Option, none, some,
  String, str_eq, member, any, all, keep, is_empty, map, in_text, if◌then◌else◌, length, ◌==◌,
}
use fragma.Verdict.Evaluation.{Issue}
use fragma.Report.Rows.{Goal, Property}
use fragma.Report.Aliases.{property_aliases}
use fragma.Report.Target.{issue, unless}

-- The expectations of a target, and the goals that a review has scoped out.
pub record Expectations : Type 0 where
  pub analysis_functions : List String
  pub required : List String
  pub required_goals : List String
  pub unresolved : List String
  pub invalid : List String
  pub reviewed_smoke : List String
  pub require_smoke : Bool

abbrev pub ordinary : List Goal → List Goal
ordinary = keep (λ g. not g.smoke)

unfoldable pub function_issues : List Goal → List String → List Issue
function_issues goals [] = []
function_issues goals (f ∷ fs) =
    unless (any (λ g. not g.smoke && str_eq g.function f) goals)
      (issue "incomplete" "No proof goals for selected function" (("function", f) ∷ []))
    ++ function_issues goals fs

unfoldable pub smoke_issues : Expectations → Goal → List Issue
smoke_issues x g =
    if str_eq g.outcome "inconsistent"
    then unless (member g.goal x.reviewed_smoke) (
        issue "inconsistent"
          "Smoke test detected inconsistent assumptions or a dead path requiring individual review"
          (("goal", g.goal) ∷ []))
    else unless (not (str_eq g.outcome "tool-error"))
        (issue "tool-error" "Smoke test tool failure" (("goal", g.goal) ∷ []))

abbrev pub is_expected : Expectations → Goal → Bool
is_expected x g =
    str_eq g.outcome "valid"
    || (member g.property x.unresolved
        && (str_eq g.outcome "unknown" || str_eq g.outcome "timeout"))
    || (member g.property x.invalid && str_eq g.outcome "invalid")

unfoldable pub goal_issues : Expectations → Goal → List Issue
unfolding smoke_issues
goal_issues x g =
    unless (member g.function x.analysis_functions) (
      issue "incomplete" "WP report contains an unexpected function"
        (("function", g.function) ∷ []))
    ++ (if g.smoke
        then smoke_issues x g
        else unless (is_expected x g) (
            issue g.outcome "Required proof goal did not pass"
              (("goal", g.goal) ∷ ("property", g.property) ∷ [])))

unfoldable pub all_goal_issues : Expectations → List Goal → List Issue
unfolding goal_issues
all_goal_issues x [] = []
all_goal_issues x (g ∷ gs) = goal_issues x g ++ all_goal_issues x gs

abbrev pub named : String → List Goal → List Goal
named name = keep (λ g. not g.smoke && str_eq g.property name)

abbrev pub has_outcome : String → Goal → Bool
has_outcome outcome g = str_eq g.outcome outcome

-- The issue of one required property, `matched` being its goals.
unfoldable pub required_issue : Expectations → String → List Goal → List Issue
required_issue x name [] =
    issue "incomplete" "Missing required named property" (("property", name) ∷ []) ∷ []
required_issue x name (g ∷ gs) =
    let proved : Bool = all (has_outcome "valid") (g ∷ gs) in
    if member name x.unresolved && proved
    then issue "review-required" "Expected unresolved property became valid"
        (("property", name) ∷ [])
      ∷ []
    else if member name x.invalid
    then unless (any (has_outcome "invalid") (g ∷ gs)) (
        issue (if proved then "review-required" else "incomplete")
          "Expected invalidity was not established" (("property", name) ∷ []))
    else []

unfoldable pub required_issues : Expectations → List Goal → List String → List Issue
unfolding required_issue
required_issues x goals [] = []
required_issues x goals (name ∷ names) =
    required_issue x name (named name goals) ++ required_issues x goals names

-- `confirmed_invalid_properties`
abbrev is_confirmed : Expectations → List Goal → String → Bool
is_confirmed x goals name =
    not (member name x.unresolved && all (has_outcome "valid") (named name goals))
    && member name x.invalid
    && any (has_outcome "invalid") (named name goals)

unfoldable pub wp_confirmed : Expectations → List Goal → List String
wp_confirmed x goals = keep (is_confirmed x goals) x.required

unfoldable pub baseline_issues : List Goal → List String → List Issue
baseline_issues goals [] = []
baseline_issues goals (name ∷ names) =
    unless (any (λ g. str_eq g.goal name) goals)
      (issue "incomplete" "Missing named baseline proof goal" (("goal", name) ∷ []))
    ++ baseline_issues goals names

-- A row of the consolidated report at the place of the goal, with the goal's property as an alias.
abbrev pub is_reported_by : Goal → Property → Bool
is_reported_by g row =
    str_eq row.path g.path
    && row.line == g.line
    && str_eq row.function g.function
    && member g.property (property_aliases row (g ∷ []))

abbrev pub is_reported : List Property → Goal → Bool
is_reported properties g = any (is_reported_by g) properties || in_text "_loop_variant" g.property

unfoldable pub report_issues : List Property → List Goal → List Issue
report_issues properties [] = []
report_issues properties (g ∷ gs) =
    unless (g.smoke || is_reported properties g) (
      issue "incomplete" "WP property is missing from the consolidated dependency report"
        (("property", g.property) ∷ ("goal", g.goal) ∷ []))
    ++ report_issues properties gs

-- `if target.get("analysis") == "wp"`
unfoldable pub wp_issues : Expectations → List Property → List Goal → List Issue
unfolding function_issues all_goal_issues required_issues baseline_issues report_issues
wp_issues x properties goals =
    function_issues goals x.analysis_functions
    ++ (all_goal_issues x goals
        ++ (required_issues x goals x.required
            ++ (baseline_issues goals x.required_goals
                ++ (report_issues properties goals
                    ++ unless (not x.require_smoke || any (λ g. g.smoke) goals)
                        (issue "incomplete" "Required smoke test evidence is missing" [])))))
