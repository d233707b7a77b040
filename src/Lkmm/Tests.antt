-- ===== src/Lkmm/Tests.antt =====
-- Tests of the model of fragma/concurrency_c3_lkmm.py on the repository's declaration.
use fragma.Prelude.{
  Result, ◌&&◌, all, str_eq, none, ℕ, All, all_distinct, Option, some, String, ◌≡◌, refl, true,
  false, List, [], ◌∷◌, ok, err, codes,
}
use fragma.Lkmm.Values.{nonempty, strings, natural, digest, version, allowed_strings}
use fragma.Lkmm.Paths.{relative, case_path}
use fragma.Lkmm.Cases.{read_expected, check_role, read_case, read_cases, load_cases}
use fragma.Lkmm.Pairs.{check_members, read_pair, read_pairs, referenced, load_pairs}
use fragma.Lkmm.Kernel.{pinned, pinned_files, identities, has_suffixes, load_kernel}
use fragma.Lkmm.Provider.{check_upstream, check_library, load_provider}
use fragma.Lkmm.Manifest.{check_scope, load_manifest}
use fragma.Policy.Texts.{count, distinct_texts}
use fragma.Provenance.Scan.{find_part}
use fragma.Lkmm.Herd.{
  Herd, parse_herd_output, parse_lines, state_lines, consistent, splitlines, ending, flagged,
  closing_lines,
}
use fragma.Lkmm.Lines.{test_line, states_line, witness_line, observation_line, time_line, hash_line}
use fragma.Lkmm.Source.{
  code_without_comments, without_comments, comment_length, operation_present, present,
}
use fragma.Lkmm.Run.{
  Run, Check, World, passes, run_case, case_checks, as_expected, same_result, run_pair, pair_checks,
  result_of, decide_run,
}
use fragma.Lkmm.Inventory.{
  document_checks, provider_checks, argument_checks, inventory_checks, run_c3_lkmm,
}
use fragma.Lkmm.Cases.{case_names}
use fragma.Lkmm.Pairs.Partition.{load_manifest-once}
use fragma.Lkmm.Manifest.{Manifest}
use fragma.Lkmm.Run.Distinguished.{IsDistinguished}
use fragma.Lkmm.Run.Accepted.{case_passed, hashes_apart, decide_run-accepted}
use fragma.Lkmm.Inventory.Distinguished.{run_c3_lkmm-IsDistinguished}
use fragma.Lkmm.Samples.{mp_once_once, declaration, manifest, files, world, host}

load_declaration : load_manifest files declaration ≡ ok manifest
unfolding load_manifest nonempty strings natural digest version allowed_strings relative case_path
    read_expected check_role read_case read_cases load_cases check_members read_pair read_pairs
    referenced load_pairs pinned pinned_files identities has_suffixes load_kernel check_upstream
    check_library load_provider check_scope all_distinct
load_declaration = refl

abbrev run_or_none : Result Run → Run
run_or_none (ok r) = r
run_or_none (err message) = record { cases = []; pairs = []; checks = []; accepted = false }

abbrev map_states : Result Herd → Option (List (List ℕ))
map_states (ok h) = some h.state_values
map_states (err message) = none

abbrev run : Run
run = run_or_none (run_c3_lkmm files world host declaration)

-- herd7 answers the ordered test of the first pair as if it were not ordered.
abbrev unordered : World
unordered = record world {
  herd = λ c. elim (str_eq c.id "mp_release_acquire") [
    | true ↦ world.herd mp_once_once
    | false ↦ world.herd c
  ];
}

-- The run of the declaration is accepted, and with such an answer it is not.
run_made :
    (run_c3_lkmm files world host declaration ≡ ok run)
    × (run.accepted ≡ true)
    × ((run_or_none (run_c3_lkmm files unordered host declaration)).accepted ≡ false)
unfolding run_c3_lkmm inventory_checks document_checks provider_checks argument_checks decide_run
    run_case case_checks as_expected same_result run_pair pair_checks result_of parse_herd_output
    parse_lines state_lines test_line states_line consistent splitlines ending flagged witness_line
    closing_lines observation_line time_line hash_line code_without_comments without_comments
    comment_length operation_present present find_part distinct_texts load_manifest nonempty strings
    natural digest version allowed_strings relative case_path read_expected check_role read_case
    read_cases load_cases check_members read_pair read_pairs referenced load_pairs pinned
    pinned_files identities has_suffixes load_kernel check_upstream check_library load_provider
    check_scope all_distinct
run_made = (refl, refl, refl)

load_manifest-once_example : All (λ name. count name (referenced manifest.pairs) ≡ 1) case_names
load_manifest-once_example = load_manifest-once files declaration manifest load_declaration

run_c3_lkmm-IsDistinguished_example :
    (m : Manifest) × (load_manifest files declaration ≡ ok m)
    × All (IsDistinguished world m) m.pairs
run_c3_lkmm-IsDistinguished_example =
    run_c3_lkmm-IsDistinguished files world host declaration run run_made.0 run_made.1

abbrev failed : Check
failed = record { name = "herd7 realpath"; passed = false }

decide_run-accepted_example :
    (r : Run) × (decide_run world (failed ∷ []) manifest ≡ ok r)
    × (r.accepted ≡ (
        all passes (failed ∷ [])
        && (all (case_passed world) manifest.cases
            && all (hashes_apart world manifest.cases) manifest.pairs)))
decide_run-accepted_example =
    decide_run-accepted files declaration world (failed ∷ []) manifest load_declaration

-- A line "Ok" among the states does not end them when the rest does not fit behind it.
abbrev odd_output : String
odd_output =
    "Test T Allowed\nStates 2\nOk\nWitnesses\nOk\nWitnesses\nPositive: 1 Negative: 2\nFlag a\nCondition c\nObservation T Sometimes 1 2\nTime T 0.5\nHash=00000000000000000000000000000000\n"

odd_states :
    map_states (parse_herd_output (codes odd_output)) ≡ some (codes "Ok" ∷ (codes "Witnesses" ∷ []))
unfolding parse_herd_output parse_lines state_lines test_line states_line consistent splitlines
    ending flagged witness_line closing_lines observation_line time_line hash_line distinct_texts
odd_states = refl

no_positive :
    parse_herd_output (codes "Test T Allowed\nStates 1\nx\nOk\n")
    ≡ err "herd7 output does not match the pinned format"
unfolding parse_herd_output parse_lines state_lines test_line states_line consistent splitlines
    ending flagged witness_line closing_lines observation_line time_line hash_line distinct_texts
no_positive = refl
