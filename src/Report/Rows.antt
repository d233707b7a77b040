-- ===== src/Report/Rows.antt =====
-- The rows that the parsers of fragma/report.py make, and what the evaluation reads of a target and
-- of a diagnostic.
use fragma.Prelude.{
  same_names, ℕ, Bool, true, false, ◌&&◌, List, [], ◌∷◌, Option, String, str_eq, ◌==◌, assoc,
}

-- A goal of the WP report, with `outcome` and the resolved path; less `solver_seconds`.
pub record Goal : Type 0 where
  pub goal : String
  pub property : String
  pub function : String
  pub path : String
  pub line : ℕ
  pub smoke : Bool
  pub passed : Bool
  pub verdict : String
  pub outcome : String

-- A row of the consolidated report.
pub record Property : Type 0 where
  pub path : String
  pub line : ℕ
  pub function : String
  pub kind : String
  pub status : String
  pub outcome : String
  pub property : String
  pub names : List String
  pub report_row : ℕ
  pub exported_identity_ambiguous : Bool
  pub exported_occurrences : List ℕ

-- CSV_STATUSES
abbrev pub csv_statuses : List (String × String)
csv_statuses =
    ("Valid", "valid")
    ∷ ("Invalid", "invalid")
    ∷ ("Unknown", "unknown")
    ∷ ("Partially proven", "pending")
    ∷ ("Considered valid", "assumed")
    ∷ ("Inconsistent", "inconsistent")
    ∷ ("Never tried", "unknown")
    ∷ ("Valid_under_hyp", "pending")
    ∷ ("Invalid_under_hyp", "pending")
    ∷ ("Valid_but_dead", "unreachable")
    ∷ ("Invalid_but_dead", "unreachable")
    ∷ ("Unknown_but_dead", "unreachable")
    ∷ ("Considered_valid", "assumed")
    ∷ ("Valid (under hypotheses)", "pending")
    ∷ ("Invalid (under hypotheses)", "pending")
    ∷ ("Valid (dead)", "unreachable")
    ∷ ("Invalid (dead)", "unreachable")
    ∷ ("Unknown (dead)", "unreachable")
    ∷ ("Unreachable", "unreachable")
    ∷ ("Dead", "unreachable")
    ∷ ("Invalid or unreachable", "unreachable")
    ∷ []

unfoldable pub outcome_of : String → Option String
outcome_of status = assoc status csv_statuses

abbrev pub same_numbers : List ℕ → List ℕ → Bool
same_numbers [] [] = true
same_numbers (x ∷ xs) (y ∷ ys) = x == y && same_numbers xs ys
same_numbers _ _ = false

abbrev pub same_flag : Bool → Bool → Bool
same_flag true b = b
same_flag false true = false
same_flag false false = true

-- `row == other` of two rows; `file` and `directory` are in the path.
unfoldable pub same_row : Property → Property → Bool
same_row a b =
    str_eq a.path b.path
    && a.line == b.line
    && str_eq a.function b.function
    && str_eq a.kind b.kind
    && str_eq a.status b.status
    && str_eq a.outcome b.outcome
    && str_eq a.property b.property
    && same_names a.names b.names
    && a.report_row == b.report_row
    && same_flag a.exported_identity_ambiguous b.exported_identity_ambiguous
    && same_numbers a.exported_occurrences b.exported_occurrences
