-- ===== src/Policy/Model.antt =====
-- The recorded model: the constants of fragma/analysis_policy.py, model_identity and analyzer_flags.
use fragma.Prelude.{
  Bool, false, ◌&&◌, List, [], ◌∷◌, ◌++◌, Option, none, some, String, str_eq, Result, ok, err,
  require, ◌>>=◌, ◌>>◌, subset, same_names,
}
use fragma.Prelude.Json.{Json, obj, end, field, get}
use fragma.Policy.Texts.{texts_of, keys, is_str}

abbrev pub arithmetic_flags : List String
arithmetic_flags =
    "-no-warn-signed-overflow" ∷ "-no-warn-unsigned-overflow" ∷ "-no-warn-signed-downcast"
    ∷ "-no-warn-unsigned-downcast" ∷ "-no-warn-right-shift-negative" ∷ []

abbrev pub pointer_flag : String
pointer_flag = "-warn-invalid-pointer"

-- SEMANTIC_KEYS, DOCUMENTARY_KEYS and GENERATED_KEYS
abbrev pub known_keys : List String
known_keys =
    "wp_model" ∷ "arithmetic_flags" ∷ "runtime_checks" ∷ "shift_count_validity"
    ∷ "signed_arithmetic" ∷ "pointer_arithmetic" ∷ "machdep" ∷ "cpp_command" ∷ "cpp_extra_args"
    ∷ "calibration_cpp_extra_args" ∷ "compiler_flags" ∷ []

abbrev pub semantic_options : List String
semantic_options =
    "warn-signed-overflow" ∷ "warn-unsigned-overflow" ∷ "warn-signed-downcast"
    ∷ "warn-unsigned-downcast" ∷ "warn-right-shift-negative" ∷ "warn-invalid-pointer" ∷ []

abbrev pub stage_options : List String
stage_options =
    "-wp" ∷ "-no-wp" ∷ "-eva" ∷ "-no-eva" ∷ "-rte" ∷ "-no-rte" ∷ "-wp-model" ∷ "-wp-fct" ∷ "-wp-rte"
    ∷ "-wp-no-rte" ∷ "-main" ∷ "-eva-slevel" ∷ "-rte-select" ∷ "-rte-use-eva-results"
    ∷ "-rte-no-use-eva-results" ∷ "-then" ∷ []

-- The recorded values of the three semantic keys.
pub record ModelIdentity : Type 0 where
  pub wp_model : String
  pub flags : List String
  pub pointer_formation : String

-- `set(analysis) - SEMANTIC_KEYS - DOCUMENTARY_KEYS - GENERATED_KEYS` is empty
abbrev pub has_known_keys : Json → Bool
has_known_keys (obj fs) = subset (keys fs) known_keys
has_known_keys _ = false

-- runtime == RUNTIME_CHECKS
abbrev pub is_runtime_checks : Json → Bool
is_runtime_checks (obj (field k v end)) = str_eq k "pointer_formation" && is_str v "object-or-null"
is_runtime_checks _ = false

abbrev pub given {ℓ} : {A : Type ℓ} → String → Option A → Result A
given message none = err message
given message (some a) = ok a

unfoldable pub model_identity : Json → Result ModelIdentity
model_identity analysis = do
  require (has_known_keys analysis) "unknown analysis-policy setting"
  require (is_str (get analysis "wp_model") "Typed") "unsupported WP memory model"
  flags ←
      given "unsupported or incomplete arithmetic policy"
        (texts_of (get analysis "arithmetic_flags"))
  require (same_names flags arithmetic_flags) "unsupported or incomplete arithmetic policy"
  require (is_runtime_checks (get analysis "runtime_checks"))
      "missing or unsupported runtime-check policy"
  ok (record { wp_model = "Typed"; flags = flags; pointer_formation = "object-or-null" })

unfoldable pub analyzer_flags : Json → Result (List String)
unfolding model_identity
analyzer_flags analysis = do
  identity ← model_identity analysis
  ok (identity.flags ++ (pointer_flag ∷ []))
