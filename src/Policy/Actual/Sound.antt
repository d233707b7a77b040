-- ===== src/Policy/Actual/Sound.antt =====
-- validate_actual_policy: the stages of a command that passes.
use fragma.Prelude.{
  ◌+◌, ◌-◌, ◌≡◌, refl, ap, ◌∙◌, subst, true, false, not, ◌&&◌, List, [], ◌∷◌, ◌++◌, Option, none,
  some, String, str_eq, ok, >>=-eq-ok, require-eq-ok, require-true, ok-injective, member,
  same_names, same_names_sound, any, keep, is_empty, length, leb, get_elem?, take, drop, map, codes,
  text_eq, text_eq_sound, &&-eq-true, arith, ◌==◌, ==_iff,
}
use fragma.Prelude.Json.{Json}
use fragma.Policy.Texts.{count, index, commas, same_texts}
use fragma.Policy.Model.{ModelIdentity, given, model_identity}
use fragma.Policy.Pipeline.{Pipeline, EvaPlan, wp_rte, eva, rte_eva, pipeline_identity, rte_options}
use fragma.Policy.Command.{Argv, CheckedCommand, is_stage, check_model_command, correctness_of}
use fragma.Policy.Command.Parts.{check_model_command-parts}
use fragma.Policy.Command.Order.{IsOrdered, check_model_command-IsOrdered}
use fragma.Policy.Actual.{
  report_tail, ends_with_report, check_report, check_engine, argument, is_builtin_control,
  is_rte_option, check_wp, eva_command, slice, check_eva, check_eva_audit, check_eva_stages,
  check_rte_stages, check_pipeline, CheckedPolicy, validate_actual_policy,
}
use fragma.Policy.Actual.Stages.{same_texts_sound, repeated, keep-repeated, wp_alone, eva_alone}

-- The argument behind an option that occurs once.
pub record IsArgument (option : String) (argv : List String) (P : String → Type 0) : Type 0 where
  pub once : count option argv ≡ 1
  pub value : String
  pub follows : get_elem? argv (index option argv + 1) ≡ some value
  pub holds : P value

argument-IsArgument :
    (option : String) (argv : List String) (P : String → Type 0) {value : String}
    → argument option argv ≡ ok value
    → P value
    → IsArgument option argv P
unfolding argument
argument-IsArgument option argv P {value} h p =
    let (once, h1) = require-eq-ok (count option argv == 1) _ _ h in
    record {
      once = (==_iff (count option argv) 1).0 once;
      value = value;
      follows = taken (get_elem? argv (index option argv + 1)) h1;
      holds = p;
    }
  where
    taken :
        (o : Option String)
        → given "missing or duplicated analysis selector" o ≡ ok value
        → o ≡ some value
    taken none e = cc
    taken (some a) e = ap some (ok-injective e)

-- What runs, by the kind of the plan.
pub IsStaged : List String → Pipeline → Type 0
IsStaged argv (wp_rte functions) =
    (keep is_stage argv ≡ "-wp" ∷ [])
    × (count "-wp-rte" argv ≡ 1)
    × IsArgument "-wp-fct" argv (λ value. codes value ≡ commas functions)
IsStaged argv (eva plan) =
    (keep is_stage argv ≡ "-eva" ∷ [])
    × (map codes (slice (index "-eva" argv) (length argv - 5) argv) ≡ eva_command plan)
IsStaged argv (rte_eva plan functions) =
    (count "-rte" argv ≡ 1)
    × (count "-eva" argv ≡ 1)
    × (member "-wp" argv ≡ false)
    × (map codes (slice (index "-rte" argv) (index "-eva" argv) argv) ≡ rte_options functions)
    × (map codes (slice (index "-eva" argv) (length argv - 5) argv) ≡ eva_command plan)

check_wp-IsStaged :
    (m : ModelIdentity) (functions argv : List String)
    → check_wp m functions argv ≡ ok tt
    → IsStaged argv (wp_rte functions)
unfolding check_wp IsStaged
check_wp-IsStaged m functions argv h =
    let (counts, h1) =
      require-eq-ok (count "-wp" argv == 1 && not (member "-eva" argv) && count "-wp-rte" argv == 1)
        _ _ h in
    let (model, a, h2) = >>=-eq-ok (argument "-wp-model" argv) _ h1 in
    let (typed, h3) = require-eq-ok (str_eq model m.wp_model) _ _ h2 in
    let (selected, b, h4) = >>=-eq-ok (argument "-wp-fct" argv) _ h3 in
    let (exact, h5) = require-eq-ok (text_eq (codes selected) (commas functions)) _ _ h4 in
    let (controls, h6) = require-eq-ok (not (any is_builtin_control argv)) _ _ h5 in
    let stages =
      require-true (is_empty (keep is_rte_option argv) && count "-then" argv == 1) _ h6 in
    let (no_rte, thens) = &&-eq-true (is_empty (keep is_rte_option argv)) _ stages in
    let (others, guards) =
      &&-eq-true (count "-wp" argv == 1 && not (member "-eva" argv)) _ counts in
    let (once, no_eva) = &&-eq-true (count "-wp" argv == 1) _ others in
    let alone = wp_alone argv (ground (arith, no_eva)) no_rte in
    (
      keep-repeated is_stage "-wp" argv refl alone
          ∙ ap (λ n. repeated n "-wp") ((==_iff (count "-wp" argv) 1).0 once),
      (==_iff (count "-wp-rte" argv) 1).0 guards,
      argument-IsArgument "-wp-fct" argv (λ value. codes value ≡ commas functions) b
          (text_eq_sound _ _ exact),
    )

-- The checks that EVA's two plans share.
record IsEvaChecked (plan : EvaPlan) (argv : List String) : Type 0 where
  once : count "-eva" argv ≡ 1
  no_wp : member "-wp" argv ≡ false
  phase : map codes (slice (index "-eva" argv) (length argv - 5) argv) ≡ eva_command plan

check_eva-IsEvaChecked :
    (plan : EvaPlan) (argv : List String) → check_eva plan argv ≡ ok tt → IsEvaChecked plan argv
unfolding check_eva
check_eva-IsEvaChecked plan argv h =
    let (counts, h1) =
      require-eq-ok
        (count "-eva" argv == 1
          && not (member "-wp" argv)
          && not (any (λ option. member option argv) ("-wp-model" ∷ "-wp-fct" ∷ "-wp-rte" ∷ [])))
        _ _ h in
    let (main, a, h2) = >>=-eq-ok (argument "-main" argv) _ h1 in
    let (entry, h3) = require-eq-ok (str_eq main plan.entry) _ _ h2 in
    let (slevel, b, h4) = >>=-eq-ok (argument "-eva-slevel" argv) _ h3 in
    let (precise, h5) = require-eq-ok (str_eq slevel "100") _ _ h4 in
    let phases =
      require-true
        (same_texts (slice (index "-eva" argv) (length argv - 5) argv) (eva_command plan)
          && not (any is_builtin_control (take (index "-eva" argv) argv)))
        _ h5 in
    let (phase, controls) =
      &&-eq-true (same_texts (slice (index "-eva" argv) (length argv - 5) argv) (eva_command plan))
        _ phases in
    let (others, selectors) =
      &&-eq-true (count "-eva" argv == 1 && not (member "-wp" argv)) _ counts in
    let (once, no_wp) = &&-eq-true (count "-eva" argv == 1) _ others in
    record {
      once = (==_iff (count "-eva" argv) 1).0 once;
      no_wp = ground (arith, no_wp);
      phase = same_texts_sound _ (eva_command plan) phase;
    }

check_pipeline-IsStaged :
    (checked : CheckedCommand) (pipeline : Pipeline)
    → check_pipeline checked pipeline ≡ ok tt
    → IsStaged checked.arguments pipeline
unfolding check_pipeline check_eva_stages check_rte_stages IsStaged
check_pipeline-IsStaged checked (wp_rte functions) h =
    let (u, e1, h1) = >>=-eq-ok (check_engine "-wp" checked.arguments) _ h in
    check_wp-IsStaged checked.model functions checked.arguments h1
check_pipeline-IsStaged checked (eva plan) h =
    let argv = checked.arguments in
    let (u1, e1, h1) = >>=-eq-ok (check_engine "-eva" argv) _ h in
    let (u2, e2, h2) = >>=-eq-ok (check_eva_audit plan checked.correctness) _ h1 in
    let (u3, e3, h3) = >>=-eq-ok (check_eva plan argv) _ h2 in
    let found = check_eva-IsEvaChecked plan argv e3 in
    let stages =
      require-true (is_empty (keep is_rte_option argv) && count "-then" argv == 1) _ h3 in
    let (no_rte, thens) = &&-eq-true (is_empty (keep is_rte_option argv)) _ stages in
    (
      keep-repeated is_stage "-eva" argv refl (eva_alone argv found.no_wp no_rte)
          ∙ ap (λ n. repeated n "-eva") found.once,
      found.phase,
    )
check_pipeline-IsStaged checked (rte_eva plan functions) h =
    let argv = checked.arguments in
    let (u1, e1, h1) = >>=-eq-ok (check_engine "-eva" argv) _ h in
    let (u2, e2, h2) = >>=-eq-ok (check_eva_audit plan checked.correctness) _ h1 in
    let (u3, e3, h3) = >>=-eq-ok (check_eva plan argv) _ h2 in
    let found = check_eva-IsEvaChecked plan argv e3 in
    let stages = require-true _ _ h3 in
    let (s1, thens) = &&-eq-true _ _ stages in
    let (s2, guards) = &&-eq-true _ _ s1 in
    let (s3, names) = &&-eq-true _ _ s2 in
    let (once, engine) = &&-eq-true (count "-rte" argv == 1) _ s3 in
    (
      (==_iff (count "-rte" argv) 1).0 once,
      found.once,
      found.no_wp,
      same_texts_sound _ (rte_options functions) guards,
      found.phase,
    )

-- A command that passes, for the plan of its target.
pub record IsPolicyMet (analysis target : Json) (argv : Argv) (audit : Json)
    (policy : CheckedPolicy) : Type 0 where
  pub planned : pipeline_identity target ≡ ok policy.pipeline
  pub command : CheckedCommand
  -- These are the arguments of the command, every one of them and in its order.
  pub as_run : argv ≡ some (map some command.arguments)
  pub identity : model_identity analysis ≡ ok policy.model
  pub same_model : command.model ≡ policy.model
  pub audited : correctness_of audit ≡ ok command.correctness
  pub ordered : IsOrdered command
  pub path : String
  pub reported : drop (length command.arguments - 5) command.arguments ≡ report_tail ++ (path ∷ [])
  pub staged : IsStaged command.arguments policy.pipeline

ends_with_report-path :
    (argv : List String)
    → ends_with_report argv ≡ true
    → (path : String) × (argv ≡ report_tail ++ (path ∷ []))
ends_with_report-path (a ∷ b ∷ c ∷ d ∷ path ∷ []) h =
    let (tail, absolute) = &&-eq-true (same_names (a ∷ b ∷ c ∷ d ∷ []) report_tail) _ h in
    (
      path,
      ap (λ start. start ++ (path ∷ [])) (same_names_sound (a ∷ b ∷ c ∷ d ∷ []) report_tail tail),
    )
ends_with_report-path _ h = cc

check_report-path :
    (argv : List String)
    → check_report argv ≡ ok tt
    → (path : String) × (drop (length argv - 5) argv ≡ report_tail ++ (path ∷ []))
unfolding check_report
check_report-path argv h =
    let (ends, once) =
      &&-eq-true (leb 5 (length argv) && ends_with_report (drop (length argv - 5) argv)) _
        (require-true _ _ h) in
    let (long, tail) = &&-eq-true (leb 5 (length argv)) _ ends in
    ends_with_report-path (drop (length argv - 5) argv) tail

-- A command that passes for a target is the argument vector as it was given, whole and in order, with
-- the recorded model's identity and the audit's correctness settings; it has the semantic flags of the model before every stage, ends in
-- the report phase, and runs what the plan of the target says: with WP the only stage is one -wp, on
-- the functions of the plan and with its guards generated; with EVA the only stage is one -eva, with
-- exactly the arguments of the plan up to the report phase; and where guards are generated first, the
-- phase that does so stands directly before that one -eva, exactly as planned, and no -wp runs.
pub validate_actual_policy-IsPolicyMet :
    (analysis target : Json) (argv : Argv) (audit : Json) {policy : CheckedPolicy}
    → validate_actual_policy analysis target argv audit ≡ ok policy
    → IsPolicyMet analysis target argv audit policy
unfolding validate_actual_policy
validate_actual_policy-IsPolicyMet analysis target argv audit h =
    let (checked, e1, h1) = >>=-eq-ok (check_model_command analysis argv audit) _ h in
    let (pipeline, e2, h2) = >>=-eq-ok (pipeline_identity target) _ h1 in
    let (u3, e3, h3) = >>=-eq-ok (check_report checked.arguments) _ h2 in
    let (u4, e4, h4) = >>=-eq-ok (check_pipeline checked pipeline) _ h3 in
    let (path, reported) = check_report-path checked.arguments e3 in
    let parts = check_model_command-parts analysis argv audit e1 in
    subst (IsPolicyMet analysis target argv audit) (ok-injective h4) (record {
      planned = e2;
      command = checked;
      as_run = parts.0;
      identity = parts.1;
      same_model = refl;
      audited = parts.2;
      ordered = check_model_command-IsOrdered analysis argv audit e1;
      path = path;
      reported = reported;
      staged = check_pipeline-IsStaged checked pipeline e4;
    })
