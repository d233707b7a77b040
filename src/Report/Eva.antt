-- ===== src/Report/Eva.antt =====
-- The EVA branch of `evaluate_target` of fragma/report.py.
use fragma.Prelude.{
  Bool, false, not, ◌&&◌, ◌||◌, List, [], ◌∷◌, ◌++◌, Option, none, some, String, str_eq, member,
  any, all, keep, is_empty, if◌then◌else◌,
}
use fragma.Verdict.Evaluation.{Issue}
use fragma.Report.Rows.{Property}
use fragma.Report.Aliases.{confirms}
use fragma.Report.Target.{issue, unless}

-- What the branch compares with: the alarms that confirm a check, and the native observations.
pub record Confirmations : Type 0 where
  pub reached : List (String × Property)
  pub native : List (String × Property)

-- target.get("entry", "main")
abbrev pub entry_of : Option String → String
entry_of none = "main"
entry_of (some e) = e

unfoldable pub evidence_issues : List Property → List String → List Issue
evidence_issues properties [] = []
evidence_issues properties (f ∷ fs) =
    unless (any (λ row. str_eq row.function f) properties)
      (issue "incomplete" "No property evidence for selected EVA function" (("function", f) ∷ []))
    ++ evidence_issues properties fs

abbrev pub named_rows : List String → String → List Property → List Property
named_rows functions name = keep (λ row. member row.function functions && member name row.names)

abbrev pub row_outcome : String → Property → Bool
row_outcome outcome row = str_eq row.outcome outcome

-- The two ways in which an expected invalidity is established.
abbrev pub shown_invalid : Confirmations → String → List Property → Bool
shown_invalid c name = all (λ row. row_outcome "invalid" row || confirms c.reached row name)

abbrev pub shown_native : Confirmations → String → List Property → Bool
shown_native c name (row ∷ []) = confirms c.native row name
shown_native c name _ = false

-- The issue of one required property, `matched` being its rows.
unfoldable pub eva_required_issue :
    Confirmations → List String → String → List Property → List Issue
eva_required_issue c invalid name [] =
    issue "incomplete" "Missing required named EVA property; provide exact source-location mapping"
      (("property", name) ∷ [])
    ∷ []
eva_required_issue c invalid name (r ∷ rs) =
    let valid : Bool = all (row_outcome "valid") (r ∷ rs) in
    if member name invalid
    then unless (shown_invalid c name (r ∷ rs) || shown_native c name (r ∷ rs)) (
        issue (if valid then "review-required" else "incomplete")
          "Expected EVA invalidity was not established" (("property", name) ∷ []))
    else unless valid (
        issue "incomplete" "Required EVA property is not unconditionally valid"
          (("property", name) ∷ []))

unfoldable pub eva_required_issues :
    Confirmations → List String → List String → List Property → List String → List Issue
unfolding eva_required_issue
eva_required_issues c invalid functions properties [] = []
eva_required_issues c invalid functions properties (name ∷ names) =
    eva_required_issue c invalid name (named_rows functions name properties)
    ++ eva_required_issues c invalid functions properties names

abbrev is_confirmed : Confirmations → List String → List String → List Property → String → Bool
is_confirmed c invalid functions properties name =
    let matched : List Property = named_rows functions name properties in
    not (is_empty matched)
    && member name invalid
    && (shown_invalid c name matched || shown_native c name matched)

unfoldable pub eva_confirmed :
    Confirmations → List String → List String → List Property → List String → List String
eva_confirmed c invalid functions properties required =
    keep (is_confirmed c invalid functions properties) required

-- `elif target.get("analysis") == "eva"`; the flag is `wp_goals`, and `functions` are the source's.
unfoldable pub eva_issues :
    Confirmations
    → List String
    → Bool
    → List String
    → List String
    → String
    → List Property
    → List String
    → List Issue
unfolding evidence_issues eva_required_issues
eva_issues c invalid given functions analysis_functions entry properties required =
    unless (not given) (issue "incomplete" "EVA target unexpectedly supplied WP goals" [])
    ++ (evidence_issues properties (if member entry functions then functions else entry ∷ functions)
        ++ eva_required_issues c invalid (entry ∷ analysis_functions) properties required)
