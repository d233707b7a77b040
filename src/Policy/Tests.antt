-- ===== src/Policy/Tests.antt =====
-- A command for a WP target, and one for an EVA target with generated guards.
use fragma.Prelude.{◌≡◌, refl, true, List, [], ◌∷◌, ◌++◌, some, String, ok, map, all_distinct}
use fragma.Prelude.Json.{Json, Fields, Items, obj, arr, str, field, end, cons, nil}
use fragma.Policy.Texts.{distinct_texts}
use fragma.Policy.Model.{
  ModelIdentity, arithmetic_flags, pointer_flag, model_identity, analyzer_flags,
}
use fragma.Policy.Pipeline.{wp_rte, rte_eva, pipeline_identity}
use fragma.Policy.Pipeline.Covering.{IsCovering, pipeline_identity-IsCovering}
use fragma.Policy.Actual.{CheckedPolicy, validate_actual_policy}
use fragma.Policy.Actual.Sound.{IsPolicyMet, validate_actual_policy-IsPolicyMet}

abbrev array : List String → Items
array [] = nil
array (s ∷ ss) = cons (str s) (array ss)

abbrev recorded_analysis : Json
recorded_analysis = obj (
    field "wp_model" (str "Typed") (
      field "arithmetic_flags" (arr (array arithmetic_flags))
        (field "runtime_checks" (obj (field "pointer_formation" (str "object-or-null") end)) end)))

abbrev settings_with : Fields → Json
settings_with more = obj (
    field "eva"
      (obj (
        field "correctness-parameters"
          (obj (
            field "-warn-signed-overflow" (str "false") (
              field "-warn-unsigned-overflow" (str "false") (
                field "-warn-signed-downcast" (str "false") (
                  field "-warn-unsigned-downcast" (str "false") (
                    field "-warn-right-shift-negative" (str "false")
                      (field "-warn-invalid-pointer" (str "true") more)))))))
          end))
      end)

abbrev wp_target : Json
wp_target = obj (field "analysis" (str "wp") (field "functions" (arr (cons (str "f") nil)) end))

abbrev eva_target : Json
eva_target = obj (
    field "analysis" (str "eva") (
      field "analysis_pipeline" (obj (field "kind" (str "rte-eva") end))
        (field "functions" (arr (cons (str "f") nil)) (field "entry" (str "main") end))))

abbrev report_phase : List String
report_phase = "-then" ∷ "-report" ∷ "-report-absolute-path" ∷ "-report-csv" ∷ "/run/f.csv" ∷ []

abbrev wp_command : List String
wp_command =
    ("frama-c" ∷ arithmetic_flags)
    ++ ((pointer_flag ∷ "-wp" ∷ "-wp-rte" ∷ "-wp-model" ∷ "Typed" ∷ "-wp-fct" ∷ "f" ∷ [])
        ++ report_phase)

abbrev rte_command : List String
rte_command =
    ("frama-c" ∷ arithmetic_flags)
    ++ ((pointer_flag ∷ "-rte" ∷ "-rte-select" ∷ "f,main" ∷ "-rte-no-use-eva-results" ∷ "-then"
          ∷ "-eva" ∷ "-main" ∷ "main" ∷ "-eva-slevel" ∷ "100" ∷ [])
        ++ report_phase)

abbrev eva_settings : Fields
eva_settings =
    field "-main" (str "main")
      (field "-eva-builtins-auto" (str "true") (field "-eva-builtin" (str "") end))

abbrev recorded_model : ModelIdentity
recorded_model = record {
  wp_model = "Typed";
  flags = arithmetic_flags;
  pointer_formation = "object-or-null";
}

abbrev checked_wp : CheckedPolicy
checked_wp = record { model = recorded_model; pipeline = wp_rte ("f" ∷ []) }

abbrev checked_eva : CheckedPolicy
checked_eva = record {
  model = recorded_model;
  pipeline =
      rte_eva (record { entry = "main"; builtins = []; auto_builtins = true }) ("f" ∷ "main" ∷ []);
}

validate-wp_command :
    validate_actual_policy recorded_analysis wp_target
      (some (map some wp_command))
      (settings_with end)
    ≡ ok checked_wp
unfolding validate_actual_policy model_identity analyzer_flags all_distinct
validate-wp_command = refl

validate-rte_command :
    validate_actual_policy recorded_analysis eva_target
      (some (map some rte_command))
      (settings_with eva_settings)
    ≡ ok checked_eva
unfolding validate_actual_policy model_identity analyzer_flags all_distinct distinct_texts
validate-rte_command = refl

validate_actual_policy-IsPolicyMet_example :
    IsPolicyMet recorded_analysis eva_target
      (some (map some rte_command))
      (settings_with eva_settings)
      checked_eva
validate_actual_policy-IsPolicyMet_example =
    validate_actual_policy-IsPolicyMet recorded_analysis eva_target (some (map some rte_command))
      (settings_with eva_settings) validate-rte_command

pipeline-eva_target : pipeline_identity eva_target ≡ ok checked_eva.pipeline
unfolding pipeline_identity all_distinct distinct_texts
pipeline-eva_target = refl

pipeline_identity-IsCovering_example : IsCovering eva_target checked_eva.pipeline
pipeline_identity-IsCovering_example = pipeline_identity-IsCovering eva_target pipeline-eva_target
