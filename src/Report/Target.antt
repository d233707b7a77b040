-- ===== src/Report/Target.antt =====
-- What `evaluate_target` of fragma/report.py reads of a registered target, and its checks on it.
use fragma.Prelude.{
  Bool, false, not, ◌&&◌, ◌||◌, List, [], ◌∷◌, ◌++◌, Option, none, some, String, str_eq, subset,
  same_set, common, is_empty, all, all_distinct, map, if◌then◌else◌, ◌==◌,
}
use fragma.Prelude.Json.{ℤ, pos}
use fragma.Verdict.Evaluation.{Issue, is}

-- A list as the registry's file has it: none for what is no list, and for an element that is no text.
abbrev pub Declared : Type 0
Declared = Option (List (Option String))

pub record Target : Type 0 where
  pub id : String
  pub profile : Option String
  pub source : Option String
  pub role : Option String
  pub analysis : Option String
  pub functions : Declared
  -- none where the key is missing
  pub analysis_functions : Option Declared
  pub required_properties : Declared
  pub required_goals : List String
  pub expected_unresolved : List String
  pub expected_invalid : List String
  pub required_companion : Option String
  pub companion_property_map : List (String × String)
  pub companion_mapping_reason : Option String
  pub entry : Option String
  pub claims : List String
  pub require_smoke : Bool

abbrev pub issue : String → String → List (String × String) → Issue
issue kind message details = record {
  kind = kind;
  message = message;
  details = details;
  files = [];
}

abbrev pub unless : Bool → Issue → List Issue
unless holds i = if holds then [] else i ∷ []

-- The names of a list, where all its elements are texts that are not empty.
unfoldable pub texts : List (Option String) → Option (List String)
texts [] = some []
texts (none ∷ rest) = none
texts (some s ∷ rest) =
    let names = texts rest in
    if str_eq s "" then none else elim names [ none ↦ none | some ns ↦ some (s ∷ ns) ]

-- `not isinstance(values, list) or not values or ... or len(set(values)) != len(values)`
unfoldable pub declared_names : Declared → Option (List String)
unfolding texts all_distinct
declared_names none = none
declared_names (some []) = none
declared_names (some (v ∷ vs)) = elim (texts (v ∷ vs)) [
  | none ↦ none
  | some ns ↦ if all_distinct ns then some ns else none
]

abbrev pub analysis_declared : Target → Declared
analysis_declared t = elim t.analysis_functions [ none ↦ t.functions | some d ↦ d ]

abbrev pub has_companion : Option String → Bool
has_companion none = false
has_companion (some s) = not (str_eq s "")

abbrev pub is_zero : Option ℤ → Bool
is_zero (some (pos n)) = n == 0
is_zero _ = false

abbrev pub structure_issue : String → Option (List String) → List Issue
structure_issue message none = issue "incomplete" message [] ∷ []
structure_issue message (some names) = []

-- The issues of the three lists that a target has to declare.
unfoldable pub structure_issues : Target → List Issue
structure_issues t =
    structure_issue "Target must declare nonempty distinct functions" (declared_names t.functions)
    ++ (structure_issue "Target must declare nonempty distinct analysis_functions"
          (declared_names (analysis_declared t))
        ++ structure_issue "Target must declare nonempty distinct required_properties"
            (declared_names t.required_properties))

abbrev union : List String → List String → List String
union xs ys = xs ++ ys

-- The issues of the expectations, with the three lists as they were read.
unfoldable pub expectation_issues : Target → List String → List String → List String → List Issue
expectation_issues t functions analysis_functions required =
    unless
      (is_empty (common t.expected_invalid t.expected_unresolved)
        && subset (union t.expected_unresolved t.expected_invalid) required)
      (issue "incomplete" "Calibration expectations must be disjoint subsets of required properties"
        [])
    ++ (unless
          ((is_empty t.expected_invalid && is_empty t.expected_unresolved)
            || is t.role "calibration")
          (issue "incomplete" "Only calibration targets can declare expected failures" [])
        ++ (unless (is_empty t.expected_unresolved || has_companion t.required_companion) (
              issue "incomplete"
                "Expected solver uncertainty requires an independent invalidating companion" [])
            ++ (unless
                  (same_set (map (λ e. e.0) t.companion_property_map) t.expected_unresolved
                    && all (λ e. not (str_eq e.1 "")) t.companion_property_map)
                  (issue "incomplete"
                    "Every expected unresolved property requires an exact companion property mapping"
                    [])
                ++ unless (subset functions analysis_functions) (
                    issue "incomplete" "analysis_functions must include every source function"
                      []))))
