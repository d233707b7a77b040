-- ===== src/Policy/Actual.antt =====
-- validate_actual_policy of fragma/analysis_policy.py.
pub mod Stages
pub mod Sound
use fragma.Prelude.{
  ℕ, ◌+◌, ◌-◌, Bool, true, false, not, ◌&&◌, ◌||◌, List, [], ◌∷◌, ◌++◌, Option, none, some, String,
  str_eq, Result, ok, err, require, ◌>>=◌, ◌>>◌, member, same_names, any, all, keep, length, ltb,
  leb, codes, text_eq, starts_with, ◌==◌, map, take, drop, is_empty, get_elem?, if◌then◌else◌,
}
use fragma.Prelude.Json.{Json, Fields, str, obj, find}
use fragma.Policy.Texts.{Text, before, without_dashes, commas, same_texts, count, index, is_str}
use fragma.Policy.Model.{ModelIdentity, given}
use fragma.Policy.Pipeline.{Pipeline, EvaPlan, wp_rte, eva, rte_eva, pipeline_identity, rte_options}
use fragma.Policy.Command.{Argv, CheckedCommand, check_model_command, has_setting}

abbrev pub report_tail : List String
report_tail = "-then" ∷ "-report" ∷ "-report-absolute-path" ∷ "-report-csv" ∷ []

-- `argv[-5:-1] == report_tail` and an absolute path behind it
abbrev pub ends_with_report : List String → Bool
ends_with_report (a ∷ b ∷ c ∷ d ∷ path ∷ []) =
    same_names (a ∷ b ∷ c ∷ d ∷ []) report_tail && starts_with (codes "/") (codes path)
ends_with_report _ = false

unfoldable pub check_report : List String → Result (Unit {0})
check_report argv =
    require
      (leb 5 (length argv)
        && ends_with_report (drop (length argv - 5) argv)
        && all (λ option. count option argv == 1)
            ("-report" ∷ "-report-absolute-path" ∷ "-report-csv" ∷ []))
      "analysis must end with exactly one unchanged report phase"

unfoldable pub check_engine : String → List String → Result (Unit {0})
check_engine engine argv =
    require (member engine argv && ltb (index engine argv) (length argv - 5))
      "analysis engine must precede the final report phase"

-- argument(option)
unfoldable pub argument : String → List String → Result String
argument option argv = do
  require (count option argv == 1) "missing or duplicated analysis selector"
  given "missing or duplicated analysis selector" (get_elem? argv (index option argv + 1))

-- The start of the name of an option that controls builtins.
abbrev pub is_builtin_control : String → Bool
is_builtin_control arg =
    any (λ start. starts_with (codes start) (without_dashes (before 61 (codes arg))))
      ("eva-builtin" ∷ "eva-no-builtin" ∷ "no-eva-builtin" ∷ "val-builtin" ∷ "val-no-builtin"
        ∷ "no-val-builtin" ∷ [])

abbrev pub is_rte_option : String → Bool
is_rte_option arg = str_eq arg "-rte" || starts_with (codes "-rte-") (codes arg)

-- WP: the selection, no builtin control and no other stage.
unfoldable pub check_wp : ModelIdentity → List String → List String → Result (Unit {0})
unfolding argument
check_wp identity functions argv = do
  require (count "-wp" argv == 1 && not (member "-eva" argv) && count "-wp-rte" argv == 1)
      "actual WP/RTE function selection differs"
  model ← argument "-wp-model" argv
  require (str_eq model identity.wp_model) "actual WP/RTE function selection differs"
  selected ← argument "-wp-fct" argv
  require (text_eq (codes selected) (commas functions)) "actual WP/RTE function selection differs"
  require (not (any is_builtin_control argv)) "EVA builtin controls on a WP command"
  require (is_empty (keep is_rte_option argv) && count "-then" argv == 1)
      "unregistered analysis stage"

abbrev auto_text : Bool → String
auto_text auto = if auto then "true" else "false"

-- The audited overrides: none, or those of the plan behind an empty default.
abbrev pub audited_overrides : List String → Text
audited_overrides [] = []
audited_overrides (b ∷ bs) = codes "@default," ++ commas (b ∷ bs)

-- correctness.get(key) == text
abbrev pub has_text_setting : Fields → String → Text → Bool
has_text_setting fs key text = elim (find key fs) [
  | some (str s) ↦ text_eq (codes s) text
  | _ ↦ false
]

unfoldable pub check_eva_audit : EvaPlan → Fields → Result (Unit {0})
check_eva_audit plan correctness = do
  require (has_setting correctness "-main" plan.entry) "actual audited EVA entry differs"
  require
      (has_setting correctness "-eva-builtins-auto" (auto_text plan.auto_builtins)
        && has_text_setting correctness "-eva-builtin" (audited_overrides plan.builtins))
      "actual audited EVA builtin semantics differ"

-- expected_eva, as texts
abbrev pub eva_command : EvaPlan → List Text
eva_command plan =
    codes "-eva"
    ∷ codes "-main"
    ∷ codes plan.entry
    ∷ codes "-eva-slevel"
    ∷ codes "100"
    ∷ ((if plan.auto_builtins then [] else codes "-eva-no-builtins-auto" ∷ [])
        ++ (if is_empty plan.builtins
            then []
            else codes "-eva-builtin" ∷ commas plan.builtins ∷ []))

-- argv[first:last]
abbrev pub slice : ℕ → ℕ → List String → List String
slice first last argv = take (last - first) (drop first argv)

unfoldable pub check_eva : EvaPlan → List String → Result (Unit {0})
unfolding argument
check_eva plan argv = do
  require
      (count "-eva" argv == 1
        && not (member "-wp" argv)
        && not (any (λ option. member option argv) ("-wp-model" ∷ "-wp-fct" ∷ "-wp-rte" ∷ [])))
      "actual EVA selection or precision differs"
  main ← argument "-main" argv
  require (str_eq main plan.entry) "actual EVA selection or precision differs"
  slevel ← argument "-eva-slevel" argv
  require (str_eq slevel "100") "actual EVA selection or precision differs"
  require
      (same_texts (slice (index "-eva" argv) (length argv - 5) argv) (eva_command plan)
        && not (any is_builtin_control (take (index "-eva" argv) argv)))
      "actual EVA phase or builtin controls differ"

-- No stage but EVA, or the guards' stage directly in front of it.
unfoldable pub check_eva_stages : List String → Result (Unit {0})
check_eva_stages argv =
    require (is_empty (keep is_rte_option argv) && count "-then" argv == 1)
      "unregistered analysis stage"

unfoldable pub check_rte_stages : List String → List String → Result (Unit {0})
check_rte_stages functions argv =
    require
      (count "-rte" argv == 1
        && count "-eva" argv == 1
        && same_names (keep is_rte_option argv)
            ("-rte" ∷ "-rte-select" ∷ "-rte-no-use-eva-results" ∷ [])
        && same_texts (slice (index "-rte" argv) (index "-eva" argv) argv) (rte_options functions)
        && count "-then" argv == 2)
      "RTE must precede EVA exactly once without result reuse"

-- The record, less its constant fields.
pub record CheckedPolicy : Type 0 where
  pub model : ModelIdentity
  pub pipeline : Pipeline

unfoldable pub check_pipeline : CheckedCommand → Pipeline → Result (Unit {0})
unfolding check_engine check_wp check_eva_audit check_eva check_eva_stages check_rte_stages
check_pipeline checked (wp_rte functions) = do
  check_engine "-wp" checked.arguments
  check_wp checked.model functions checked.arguments
check_pipeline checked (eva plan) = do
  check_engine "-eva" checked.arguments
  check_eva_audit plan checked.correctness
  check_eva plan checked.arguments
  check_eva_stages checked.arguments
check_pipeline checked (rte_eva plan functions) = do
  check_engine "-eva" checked.arguments
  check_eva_audit plan checked.correctness
  check_eva plan checked.arguments
  check_rte_stages functions checked.arguments

unfoldable pub validate_actual_policy : Json → Json → Argv → Json → Result CheckedPolicy
unfolding check_model_command pipeline_identity check_report check_pipeline
validate_actual_policy analysis target argv audit = do
  checked ← check_model_command analysis argv audit
  pipeline ← pipeline_identity target
  check_report checked.arguments
  check_pipeline checked pipeline
  ok (record { model = checked.model; pipeline = pipeline })
