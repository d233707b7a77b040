-- ===== src/Report/Aliases.antt =====
-- `_property_aliases` and `_eva_reached_invalid_checks` of fragma/report.py, and the diagnostics that the
-- second reads.
use fragma.Prelude.{
  ℕ, Bool, false, not, ◌&&◌, ◌||◌, List, [], ◌∷◌, ◌++◌, Option, none, some, String, str_eq, ◌==◌,
  member, keep, map, in_text, starts_with, codes, text_eq, assoc,
}
use fragma.Report.Rows.{Goal, Property, same_row}

-- A diagnostic of the log; none for a missing key.
pub record Diagnostic : Type 0 where
  pub message : Option String
  pub severity : Option String
  pub plugin : Option String
  pub path : Option String
  pub line : Option ℕ

-- An element of `warnings`: a dict, a text, or anything else.
pub data Warning : Type 0 where
  diagnostic : Diagnostic → Warning
  text : String → Warning
  other : Warning

-- `compatible`
unfoldable pub is_compatible : String → String → Bool
is_compatible kind prop =
    (str_eq kind "postcondition" && (in_text "_ensures" prop || in_text "_exits" prop))
    || (str_eq kind "termination clause"
        && (in_text "_terminates" prop || in_text "_termination" prop))
    || (str_eq kind "assigns clause" && in_text "_assigns" prop)
    || (str_eq kind "loop invariant" && in_text "_loop_invariant" prop)
    || (str_eq kind "loop variant" && in_text "_loop_variant" prop)
    || (starts_with (codes "precondition") (codes kind) && in_text "_requires" prop)
    || (str_eq kind "user assertion" && in_text "_assert_" prop)
    || (str_eq kind "user check" && in_text "_check_" prop)
    || (not (
          member kind (
            "postcondition" ∷ "termination clause" ∷ "assigns clause" ∷ "loop invariant"
            ∷ "user assertion" ∷ "user check" ∷ []))
        && in_text "_assert_rte_" prop)

-- An ordinary goal at the place of the row.
abbrev pub located : Property → Goal → Bool
located row goal =
    not goal.smoke
    && str_eq goal.function row.function
    && goal.line == row.line
    && str_eq goal.path row.path

unfoldable pub property_aliases : Property → List Goal → List String
unfolding is_compatible
property_aliases row goals =
    row.names
    ++ map (λ g. g.property) (keep (λ g. located row g && is_compatible row.kind g.property) goals)

abbrev is_text : Option String → String → Bool
is_text none t = false
is_text (some s) t = str_eq s t

abbrev is_line : Option ℕ → ℕ → Bool
is_line none n = false
is_line (some m) n = m == n

-- f"check '{name}' got status invalid."
abbrev got_invalid : String → Option String → Bool
got_invalid name none = false
got_invalid name (some message) =
    text_eq (codes message) (codes "check '" ++ (codes name ++ codes "' got status invalid."))

abbrev pub is_reached_row : String → Property → Bool
is_reached_row name row =
    str_eq row.kind "user check"
    && str_eq row.status "Invalid or unreachable"
    && member name row.names

abbrev pub is_reached_alarm : String → Property → Warning → Bool
is_reached_alarm name row (diagnostic d) =
    is_text d.plugin "eva:alarm"
    && is_text d.severity "warning"
    && is_text d.path row.path
    && is_line d.line row.line
    && got_invalid name d.message
is_reached_alarm name row _ = false

abbrev pub sole {ℓ} : {A : Type ℓ} → List A → Option A
sole (x ∷ []) = some x
sole _ = none

-- The row that an alarm confirms as invalid, for one expected name.
unfoldable pub reached_check : List Property → List Warning → String → Option Property
reached_check properties warnings name = elim (sole (keep (is_reached_row name) properties)) [
  | none ↦ none
  | some row ↦ elim (sole (keep (is_reached_alarm name row) warnings)) [
    | none ↦ none
    | some w ↦ some row
  ]
]

unfoldable pub eva_reached_invalid_checks :
    List Property → List Warning → List String → List (String × Property)
unfolding reached_check
eva_reached_invalid_checks properties warnings [] = []
eva_reached_invalid_checks properties warnings (name ∷ names) =
    let rest = eva_reached_invalid_checks properties warnings names in
    elim (reached_check properties warnings name) [ none ↦ rest | some row ↦ (name, row) ∷ rest ]

-- `eva_check_confirms`, and the same test of the native observations
abbrev pub confirms : List (String × Property) → Property → String → Bool
confirms records row name = elim (assoc name records) [ none ↦ false | some r ↦ same_row row r ]
