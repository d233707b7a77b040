-- ===== src/Report/Dependencies.antt =====
-- The last loops of `evaluate_target` of fragma/report.py: every selected row of the consolidated
-- report, and every diagnostic.
pub mod Clean
use fragma.Prelude.{
  ℕ, suc, ◌+◌, Bool, true, false, not, ◌&&◌, ◌||◌, List, [], ◌∷◌, ◌++◌, Option, none, some, String,
  str_eq, member, any, all, keep, is_empty, common, map, in_text, if◌then◌else◌, ◌==◌,
}
use fragma.Verdict.Evaluation.{Issue}
use fragma.Report.Rows.{Goal, Property}
use fragma.Report.Aliases.{Warning, property_aliases, confirms}
use fragma.Report.Diagnostics.{read_warning, reports_unsupported}
use fragma.Report.Target.{issue, unless}
use fragma.Report.Eva.{Confirmations}

abbrev pub same_identity : Property → Property → Bool
same_identity a b =
    str_eq a.path b.path
    && a.line == b.line
    && str_eq a.function b.function
    && str_eq a.kind b.kind
    && str_eq a.property b.property

-- A conditional or dead status counts as incomplete.
abbrev dependency_kind : String → String
dependency_kind outcome =
    if member outcome ("pending" ∷ "assumed" ∷ "unreachable" ∷ []) then "incomplete" else outcome

abbrev pub is_trusted : Property → Bool
is_trusted row =
    str_eq row.outcome "assumed" && member row.kind ("precondition" ∷ "axiom" ∷ "assumption" ∷ [])

-- What excuses a row that is not valid: the aliases are those of the row.
abbrev pub is_excused : Confirmations → List String → List String → Property → List String → Bool
is_excused c unresolved invalid row aliases =
    let expected : List String = common aliases invalid in
    (not (is_empty expected)
      && (str_eq row.outcome "invalid" || any (confirms c.reached row) expected))
    || (str_eq row.outcome "unreachable" && any (confirms c.native row) expected)
    || (not (is_empty (common aliases unresolved))
        && (str_eq row.outcome "unknown" || str_eq row.outcome "pending"))

unfoldable pub row_issues :
    Confirmations → List String → List String → List Goal → List Property → Property → List Issue
row_issues c unresolved invalid goals seen row =
    unless (not row.exported_identity_ambiguous && not (any (same_identity row) seen)) (
      issue "incomplete" "Selected property has an ambiguous exported identity"
        (("function", row.function) ∷ ("path", row.path) ∷ ("property", row.property) ∷ []))
    ++ unless
        (str_eq row.outcome "valid"
          || is_trusted row
          || is_excused c unresolved invalid row (property_aliases row goals))
        (issue (dependency_kind row.outcome) "Consolidated property is not unconditionally proved" (
          ("property", row.property)
          ∷ ("function", row.function)
          ∷ ("path", row.path)
          ∷ ("property_status", row.status)
          ∷ []))

-- `for row in selected_rows`, behind the rows `seen`
unfoldable pub dependency_issues :
    Confirmations
    → List String
    → List String
    → List Goal
    → List Property
    → List Property
    → List Issue
unfolding row_issues
dependency_issues c unresolved invalid goals seen [] = []
dependency_issues c unresolved invalid goals seen (row ∷ rows) =
    row_issues c unresolved invalid goals seen row
    ++ dependency_issues c unresolved invalid goals (row ∷ seen) rows

-- The issue of one diagnostic that is well formed.
abbrev diagnostic_issue : List String → Bool → String → Option String → List Issue
diagnostic_issue claims reviewed message severity =
    let unsupported : Bool = elim severity [ none ↦ false | some s ↦ str_eq s "unsupported" ] in
    let failed : Bool = elim severity [ none ↦ false | some s ↦ str_eq s "error" ] in
    if failed
    then issue "tool-error" message [] ∷ []
    else if reviewed
    then []
    else if unsupported || reports_unsupported message
    then issue "unsupported" message [] ∷ []
    else unless (not (in_text "Missing RTE guards" message && member "runtime-safety" claims))
        (issue "incomplete" "Runtime-safety claim lacks RTE guards" [])

unfoldable pub warning_issue : List String → Bool → Warning → List Issue
warning_issue claims reviewed w = elim (read_warning w) [
  | none ↦ issue "tool-error" "Malformed warning diagnostic" [] ∷ []
  | some (message, severity) ↦ diagnostic_issue claims reviewed message severity
]

-- `for index, warning in enumerate(warnings)`; `reviewed` are the indices that a review covers.
unfoldable pub warning_issues : List String → List ℕ → ℕ → List Warning → List Issue
unfolding warning_issue
warning_issues claims reviewed index [] = []
warning_issues claims reviewed index (w ∷ ws) =
    warning_issue claims (any (λ i. i == index) reviewed) w
    ++ warning_issues claims reviewed (index + 1) ws
