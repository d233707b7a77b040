-- ===== src/Verdict/Run.antt =====
-- How a run ends: `invalidate` of fragma/integrity.py, `finalize_results` and the status of
-- `write_terminal_summary` of fragma/suite.py.
pub mod Checked
pub mod Accepted
pub mod Companioned
use fragma.Prelude.{
  ℕ, ◌≡◌, Bool, true, false, not, ◌&&◌, ◌||◌, List, [], ◌∷◌, ◌++◌, Option, none, some, String,
  str_eq, is_empty, all, any, Result, ok, err, ◌>>◌, ◌>>=◌, require, map, collect, if◌then◌else◌,
}
use fragma.Verdict.Evaluation.{Evaluation, Issue}
use fragma.Verdict.Integrity.{Text, Observed, Change, changed_files}
use fragma.Verdict.Companions.{finalize_companions}

-- The evidence of one target, with the keys that the end of a run reads and writes.
pub record Item : Type 0 where
  pub status : String
  pub accepted : Bool
  pub integrity_inputs : List Observed
  pub changed_inputs : List Change
  pub evaluation : Evaluation

abbrev change_issue : List Change → Issue
change_issue changes = record {
  kind = "input-changed";
  message = "A required input changed during the run";
  details = [];
  files = changes;
}

unfoldable pub invalidate : Item → List Change → Item
invalidate item [] = item
invalidate item (c ∷ cs) = record item {
  status = "input-changed";
  accepted = false;
  changed_inputs = c ∷ cs;
  evaluation = record (item.evaluation) {
    status = "input-changed";
    accepted = false;
    verified = false;
    local_policy_passed = some false;
    issues = item.evaluation.issues ++ (change_issue (c ∷ cs) ∷ []);
  };
}

-- item.update(evaluation=..., accepted=..., status=...)
abbrev pub updated : Item → Evaluation → Item
updated item e = record item { evaluation = e; accepted = e.accepted; status = e.status }

-- `for item, evaluation in zip(items, finalized)`
unfoldable pub update_all : List Item → List Evaluation → List Item
update_all (item ∷ items) (e ∷ es) = updated item e ∷ update_all items es
update_all _ _ = []

module _ (current : Text → Option Text) where
  unfoldable pub invalidate_item : List Change → Item → Result Item
  unfolding invalidate
  invalidate_item shared item =
      changed_files current item.integrity_inputs >>= λ own. ok (invalidate item (shared ++ own))

  unfoldable pub finalize_results : List Item → List Observed → Result (List Item)
  unfolding invalidate_item update_all
  finalize_results items shared_inputs = do
    shared ← changed_files current shared_inputs
    checked ← collect (invalidate_item shared) items
    finalized ← finalize_companions (map (λ item. item.evaluation) checked)
    ok (update_all checked finalized)

-- summary["accepted"] and summary["status"], where the preflight did not fail
unfoldable pub run_accepted : List Item → Bool
run_accepted items = not (is_empty items) && all (λ item. item.accepted) items

unfoldable pub run_status : List Item → String
unfolding run_accepted
run_status items = if run_accepted items then "passed" else "incomplete"
