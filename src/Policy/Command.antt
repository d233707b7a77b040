-- ===== src/Policy/Command.antt =====
-- _check_model_command of fragma/analysis_policy.py. `argv` is none for what is no list, an element none
-- for what is no text; `argv.index(flag)` is asked only of flags that were observed.
pub mod Order
pub mod Parts
use fragma.Prelude.{
  ℕ, Bool, true, false, not, ◌&&◌, ◌||◌, List, [], ◌∷◌, ◌++◌, Option, none, some, String, str_eq,
  Result, ok, err, require, ◌>>=◌, ◌>>◌, member, same_names, any, all, keep, length, ltb, codes,
  starts_with, ◌==◌, map,
}
use fragma.Prelude.Json.{Json, Fields, str, obj, find}
use fragma.Policy.Texts.{
  Text, before, after, without_dashes, removeprefix, text_in, index, first_index, is_str,
}
use fragma.Policy.Model.{
  ModelIdentity, pointer_flag, semantic_options, stage_options, given, model_identity,
  analyzer_flags,
}

abbrev pub Argv : Type 0
Argv = Option (List (Option String))

abbrev pub all_texts : List (Option String) → Option (List String)
all_texts [] = some []
all_texts (none ∷ rest) = none
all_texts (some arg ∷ rest) = elim (all_texts rest) [ none ↦ none | some args ↦ some (arg ∷ args) ]

abbrev pub argv_texts : Argv → Option (List String)
argv_texts none = none
argv_texts (some args) = all_texts args

-- "=" in arg and arg.split("=", 1)[0] in STAGE_OPTIONS
abbrev pub is_assigned_stage : String → Bool
is_assigned_stage arg = elim (after 61 (codes arg)) [
  | none ↦ false
  | some value ↦ text_in (before 61 (codes arg)) stage_options
]

abbrev pub is_selector : String → Bool
is_selector arg = starts_with (codes "-then") (codes arg) && not (str_eq arg "-then")

abbrev pub is_opposing : String → Bool
is_opposing arg =
    member arg ("-no-wp" ∷ "-no-eva" ∷ "-no-rte" ∷ "-wp-no-rte" ∷ "-rte-use-eva-results" ∷ [])

-- arg.lstrip("-").removeprefix("no-").split("=", 1)[0] in SEMANTIC_OPTIONS
abbrev pub is_semantic : String → Bool
is_semantic arg =
    text_in (before 61 (removeprefix (codes "no-") (without_dashes (codes arg)))) semantic_options

abbrev pub is_stage : String → Bool
is_stage arg = member arg ("-wp" ∷ "-rte" ∷ "-eva" ∷ [])

-- The settings that the flags lead to: the arithmetic flags less "-no", and the pointer flag.
abbrev pub required_settings : List (String × String)
required_settings =
    ("-warn-signed-overflow", "false")
    ∷ ("-warn-unsigned-overflow", "false")
    ∷ ("-warn-signed-downcast", "false")
    ∷ ("-warn-unsigned-downcast", "false")
    ∷ ("-warn-right-shift-negative", "false")
    ∷ (pointer_flag, "true")
    ∷ []

-- correctness.get(key) == value
abbrev pub has_setting : Fields → String → String → Bool
has_setting fs key value = elim (find key fs) [ none ↦ false | some v ↦ is_str v value ]

-- audit_parameters["eva"]["correctness-parameters"]
unfoldable pub correctness_of : Json → Result Fields
correctness_of (obj audit) = elim (find "eva" audit) [
  | some (obj eva) ↦ elim (find "correctness-parameters" eva) [
    | some (obj fs) ↦ ok fs
    | _ ↦ err "missing actual correctness audit"
  ]
  | _ ↦ err "missing actual correctness audit"
]
correctness_of _ = err "missing actual correctness audit"

-- The checks on the spelling of the arguments.
unfoldable pub check_spelling : List String → Result (Unit {0})
check_spelling argv = do
  require (not (any is_assigned_stage argv)) "noncanonical analysis option spelling"
  require (not (any is_selector argv)) "unregistered project or phase selector"
  require (not (any is_opposing argv)) "opposing analysis stage control"

-- The checks on the semantic flags and where they stand.
unfoldable pub check_flags : List String → List String → Result (Unit {0})
check_flags expected argv = do
  require (same_names (keep is_semantic argv) expected)
      "actual semantic flags are missing, duplicated or contradictory"
  require
      (not (first_index is_stage argv == length argv)
        && all (λ flag. ltb (index flag argv) (first_index is_stage argv)) expected)
      "semantic flags must precede every analysis phase"

unfoldable pub check_settings : Json → Result Fields
unfolding correctness_of
check_settings audit = do
  correctness ← correctness_of audit
  require (all (λ setting. has_setting correctness setting.0 setting.1) required_settings)
      "actual audited semantic settings differ"
  ok correctness

-- The identity, the arguments and the audited settings of a command that passes.
pub record CheckedCommand : Type 0 where
  pub model : ModelIdentity
  pub arguments : List String
  pub correctness : Fields

unfoldable pub check_model_command : Json → Argv → Json → Result CheckedCommand
unfolding check_spelling check_flags check_settings
check_model_command analysis argv audit = do
  identity ← model_identity analysis
  args ← given "analysis command is not an argv array" (argv_texts argv)
  check_spelling args
  expected ← analyzer_flags analysis
  check_flags expected args
  correctness ← check_settings audit
  ok (record { model = identity; arguments = args; correctness = correctness })

-- validate_actual_model_policy, less the constant fields of its record
unfoldable pub validate_actual_model_policy : Json → Argv → Json → Result ModelIdentity
unfolding check_model_command
validate_actual_model_policy analysis argv audit = do
  checked ← check_model_command analysis argv audit
  ok (checked.model)
