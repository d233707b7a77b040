-- ===== src/Report/Goals.antt =====
-- `_wp_rows` of fragma/report.py. A decoded goal has none where a key is missing or its value has not
-- the type that the code asks for; a message is less the index or the name in it.
-- `Path(...).resolve()` is a parameter: it reads the file system.
pub mod Outcomes
pub mod Sound
use fragma.Prelude.{
  ℕ, zero, suc, Bool, true, false, not, ◌&&◌, ◌||◌, List, [], ◌∷◌, Option, none, some, String,
  str_eq, Result, ok, err, require, ◌>>=◌, ◌>>◌, ltb, leb, member, any, assoc, has_text,
  if◌then◌else◌, each,
}
use fragma.Report.Rows.{Goal, same_flag}

-- `time` in units of 2^-1074 s, of which every finite float is a multiple: none for what is no finite
-- number, and for a negative one. `success`: none for what is no integer, and for a negative one.
pub record RawProver : Type 0 where
  pub prover : Option String
  pub time : Option ℕ
  pub success : Option ℕ

pub record RawGoal : Type 0 where
  pub goal : Option String
  pub property : Option String
  pub function : Option String
  pub file : Option String
  pub verdict : Option String
  pub line : Option ℕ
  pub smoke : Option Bool
  pub passed : Option Bool
  pub provers : Option (List (Option RawProver))

abbrev pub wp_verdicts : List String
wp_verdicts = "valid" ∷ "invalid" ∷ "unknown" ∷ "timeout" ∷ "failed" ∷ "noresult" ∷ "error" ∷ []

-- `not isinstance(row.get(field), str) or not row[field].strip()`
unfoldable pub text_field : String → Option String → Result String
text_field message none = err message
text_field message (some s) = require (has_text s) message >> ok s

abbrev pub required {ℓ} : {A : Type ℓ} → String → Option A → Result A
required message none = err message
required message (some a) = ok a

-- The checks on one prover record, and its success count.
unfoldable pub prover_success : Option RawProver → Result ℕ
prover_success none = err "Malformed WP prover record"
prover_success (some p) = do
  name ← required "Malformed WP prover record" p.prover
  elapsed ← required "Invalid WP prover elapsed time" p.time
  required "Invalid WP prover success count" p.success

unfoldable pub prover_successes : List (Option RawProver) → Result (List ℕ)
unfolding prover_success
prover_successes [] = ok []
prover_successes (p ∷ ps) = do n ← prover_success p; ns ← prover_successes ps; ok (n ∷ ns)

-- A smoke goal that is proved means a contradiction.
unfoldable pub smoke_outcome : String → Bool → String
smoke_outcome verdict passed =
    if str_eq verdict "failed" || str_eq verdict "error"
    then "tool-error"
    else if str_eq verdict "valid" || not passed
    then "inconsistent"
    else "inconclusive"

abbrev pub ordinary_name : String → String
ordinary_name verdict =
    if str_eq verdict "failed" || str_eq verdict "error"
    then "tool-error"
    else if str_eq verdict "noresult"
    then "unknown"
    else verdict

unfoldable pub ordinary_outcome : String → Bool → List ℕ → Result String
ordinary_outcome verdict passed successes = do
  require (same_flag passed (str_eq verdict "valid")) "Contradictory WP verdict/passed fields"
  require (not (str_eq verdict "valid") || any (λ n. ltb 0 n) successes)
      "Valid WP goal has no successful prover result"
  ok (ordinary_name verdict)

unfoldable pub goal_outcome : Bool → String → Bool → List ℕ → Result String
unfolding smoke_outcome ordinary_outcome
goal_outcome true verdict passed successes = ok (smoke_outcome verdict passed)
goal_outcome false verdict passed successes = ordinary_outcome verdict passed successes

unfoldable pub nonempty_provers :
    Option (List (Option RawProver)) → Result (List (Option RawProver))
nonempty_provers (some (p ∷ ps)) = ok (p ∷ ps)
nonempty_provers _ = err "WP goal has no prover result"

pub record Identity : Type 0 where
  pub goal : String
  pub property : String
  pub function : String
  pub file : String
  pub verdict : String

-- `for field in ("goal", "property", "function", "file", "verdict")`
unfoldable pub goal_identity : RawGoal → Result Identity
unfolding text_field
goal_identity r = do
  goal ← text_field "WP goal has no goal" r.goal
  property ← text_field "WP goal has no property" r.property
  function ← text_field "WP goal has no function" r.function
  file ← text_field "WP goal has no file" r.file
  verdict ← text_field "WP goal has no verdict" r.verdict
  ok (record {
    goal = goal;
    property = property;
    function = function;
    file = file;
    verdict = verdict;
  })

pub record Judgement : Type 0 where
  pub line : ℕ
  pub smoke : Bool
  pub passed : Bool
  pub outcome : String

-- The checks behind the one on duplicates.
unfoldable pub goal_judgement : String → RawGoal → Result Judgement
unfolding prover_successes goal_outcome nonempty_provers
goal_judgement verdict r = do
  line ← required "WP goal has no valid source line" r.line
  require (leb 1 line) "WP goal has no valid source line"
  smoke ← required "WP goal has no Boolean smoke/passed fields" r.smoke
  passed ← required "WP goal has no Boolean smoke/passed fields" r.passed
  require (member verdict wp_verdicts) "Unknown WP verdict"
  provers ← nonempty_provers r.provers
  successes ← prover_successes provers
  outcome ← goal_outcome smoke verdict passed successes
  ok (record { line = line; smoke = smoke; passed = passed; outcome = outcome })

module _ (resolve : String → String) where
  abbrev judged : Identity → Judgement → Goal
  judged i j = record {
    goal = i.goal;
    property = i.property;
    function = i.function;
    path = resolve i.file;
    line = j.line;
    smoke = j.smoke;
    passed = j.passed;
    verdict = i.verdict;
    outcome = j.outcome;
  }

  -- One goal, where the goals `seen` stand before it.
  unfoldable pub goal_row : List String → RawGoal → Result Goal
  unfolding goal_identity goal_judgement
  goal_row seen r = do
    identity ← goal_identity r
    require (not (member identity.goal seen)) "Duplicate WP goal"
    judgement ← goal_judgement identity.verdict r
    ok (judged identity judgement)

  unfoldable pub goal_rows : List String → List (Option RawGoal) → Result (List Goal)
  unfolding goal_row
  goal_rows seen [] = ok []
  goal_rows seen (none ∷ rest) = err "WP goal is not an object"
  goal_rows seen (some r ∷ rest) = do
    g ← goal_row seen r
    gs ← goal_rows (g.goal ∷ seen) rest
    ok (g ∷ gs)

  -- none: what is no array
  unfoldable pub wp_rows : Option (List (Option RawGoal)) → Result (List Goal)
  unfolding goal_rows
  wp_rows (some (r ∷ rs)) = goal_rows [] (r ∷ rs)
  wp_rows _ = err "WP report must contain a nonempty goal array"
