-- ===== src/Verdict/Tests.antt =====
-- Two calibrations of one function, the WP one waiting for the EVA one.
use fragma.Prelude.{
  ◌≡◌, refl, true, false, List, [], ◌∷◌, Option, none, some, ok, Both, All, codes, is_empty, ◌↔◌,
}
use fragma.Verdict.Evaluation.{Evaluation}
use fragma.Verdict.Integrity.{
  Text, Observed, changed_files, absolute, split, join, record_of, put, put_all, insert, sort,
  merge_records,
}
use fragma.Verdict.Integrity.Intact.{IsIntact, changed_files_iff}
use fragma.Verdict.Companions.{
  finalize_companions, lookup, distinct_ids, awaited, is_mapped, success, resolve, settle,
  settle_all, approved,
}
use fragma.Verdict.Companions.Sound.{IsSound, finalize_companions-IsSound}
use fragma.Verdict.Companions.Complete.{IsApproved, finalize_companions-IsApproved}
use fragma.Verdict.Run.{
  Item, invalidate, updated, update_all, invalidate_item, finalize_results, run_accepted,
  run_status,
}
use fragma.Verdict.Run.Companioned.{IsCompanioned, certified_companion}
use fragma.Verdict.Run.Accepted.{IsBacked, finalize_results-IsBacked, run_status_passed}

abbrev wp_run : Evaluation
wp_run = record {
  target_id = "wp";
  status = "needs-companion";
  accepted = false;
  verified = false;
  local_policy_passed = some true;
  role = some "calibration";
  profile = some "x86-64";
  source = some "lib/string.c";
  analysis = some "wp";
  functions = "strlen" ∷ [];
  required_companion = some "eva";
  companion_property_map = ("goal", "bound") ∷ [];
  companion_mapping_reason = some "same bound";
  expected_unresolved = "goal" ∷ [];
  expected_invalid = [];
  confirmed_invalid_properties = [];
  issues = [];
  companion_evidence = none;
}

abbrev eva_run : Evaluation
eva_run = record {
  target_id = "eva";
  status = "calibration-passed";
  accepted = true;
  verified = false;
  local_policy_passed = some true;
  role = some "calibration";
  profile = some "x86-64";
  source = some "lib/string.c";
  analysis = some "eva";
  functions = "strlen" ∷ [];
  required_companion = none;
  companion_property_map = [];
  companion_mapping_reason = none;
  expected_unresolved = [];
  expected_invalid = "bound" ∷ [];
  confirmed_invalid_properties = "bound" ∷ [];
  issues = [];
  companion_evidence = none;
}

abbrev settled : List Evaluation
settled = approved wp_run "eva" eva_run ∷ eva_run ∷ []

finalize_companions-settled : finalize_companions (wp_run ∷ eva_run ∷ []) ≡ ok settled
unfolding finalize_companions distinct_ids settle_all settle awaited resolve success is_mapped
    lookup
finalize_companions-settled = refl

finalize_companions-IsSound_example : Both (IsSound settled) (wp_run ∷ eva_run ∷ []) settled
finalize_companions-IsSound_example =
    finalize_companions-IsSound (wp_run ∷ eva_run ∷ []) settled finalize_companions-settled

lookup-eva : lookup "eva" (wp_run ∷ eva_run ∷ []) ≡ some eva_run
unfolding lookup
lookup-eva = refl

finalize_companions-IsApproved_example :
    Both (IsApproved "eva" eva_run) (wp_run ∷ eva_run ∷ []) settled
finalize_companions-IsApproved_example =
    finalize_companions-IsApproved (wp_run ∷ eva_run ∷ []) settled "eva" eva_run
      finalize_companions-settled lookup-eva refl

-- 64 times the digit `a`
abbrev digest : Text
digest = codes "aaaaaaaaaaaaaaaaaaaaaaaaaaaaaaaaaaaaaaaaaaaaaaaaaaaaaaaaaaaaaaaa"

abbrev current : Text → Option Text
current path = some digest

abbrev driver : Observed
driver = record { filename = some (codes "/k/./lib//string.c"); expected = some digest }

absolute-driver : absolute (codes "/k/./lib//string.c") ≡ codes "/k/lib/string.c"
unfolding absolute split join
absolute-driver = refl

changed_files_iff_example :
    (changed_files current (driver ∷ driver ∷ []) ≡ ok [])
    ↔ All (IsIntact current) (driver ∷ driver ∷ [])
changed_files_iff_example = changed_files_iff current (driver ∷ driver ∷ [])

abbrev item_of : Evaluation → Item
item_of e = record {
  status = e.status;
  accepted = e.accepted;
  integrity_inputs = driver ∷ [];
  changed_inputs = [];
  evaluation = e;
}

abbrev finished : List Item
finished =
    updated (item_of wp_run) (approved wp_run "eva" eva_run)
    ∷ updated (item_of eva_run) eva_run
    ∷ []

finalize_results-finished :
    finalize_results current (item_of wp_run ∷ item_of eva_run ∷ []) (driver ∷ []) ≡ ok finished
unfolding finalize_results invalidate_item invalidate update_all changed_files merge_records put_all
    put record_of absolute split join sort insert finalize_companions distinct_ids settle_all settle
    awaited resolve success is_mapped lookup
finalize_results-finished = refl

finalize_results-IsBacked_example :
    Both (IsBacked current (driver ∷ []) finished) (item_of wp_run ∷ item_of eva_run ∷ []) finished
finalize_results-IsBacked_example =
    finalize_results-IsBacked current (item_of wp_run ∷ item_of eva_run ∷ []) (driver ∷ []) finished
      finalize_results-finished

awaited-wp_run : awaited wp_run ≡ some "eva"
unfolding awaited
awaited-wp_run = refl

certified_companion_example :
    IsCompanioned current finished "eva"
      (item_of wp_run)
      (updated (item_of wp_run) (approved wp_run "eva" eva_run))
certified_companion_example =
    certified_companion current (item_of wp_run ∷ item_of eva_run ∷ []) (driver ∷ []) finished 0
      "eva" (item_of wp_run) (updated (item_of wp_run) (approved wp_run "eva" eva_run))
      finalize_results-finished refl awaited-wp_run refl refl

run_status-finished : run_status finished ≡ "passed"
unfolding run_status run_accepted
run_status-finished = refl

run_status_passed_example :
    (is_empty finished ≡ false)
    × All (λ item. (item.accepted ≡ true) × All (IsIntact current) item.integrity_inputs) finished
    × All (IsIntact current) (driver ∷ [])
run_status_passed_example =
    run_status_passed current (item_of wp_run ∷ item_of eva_run ∷ []) (driver ∷ []) finished
      finalize_results-finished run_status-finished
