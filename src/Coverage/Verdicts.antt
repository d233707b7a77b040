-- ===== src/Coverage/Verdicts.antt =====
-- _verdict of fragma/coverage.py, on the retained evidence of one target.
pub mod Evaluated
use fragma.Prelude.{
  ℕ, Bool, true, false, not, ◌&&◌, ◌||◌, List, [], ◌∷◌, Option, none, some, String, str_eq, Result,
  ok, err, require, ◌>>=◌, ◌>>◌, if◌then◌else◌,
}
use fragma.Report.Rows.{same_flag}

-- A verdict as it was read: none for what is no Boolean.
abbrev pub Flag : Type 0
Flag = Option Bool

-- The keys that the check reads, none where the key is missing; a status is a text, or none for `None`.
pub record Verdict : Type 0 where
  pub accepted : Option Flag
  pub verified : Option Flag
  pub local_policy_passed : Option Flag
  pub status : Option (Option String)

pub record Retained : Type 0 where
  pub verdict : Verdict
  -- none for what is no object; an object without keys where the key is missing
  pub evaluation : Option Verdict
  pub role : Option String

-- field in value and type(value[field]) is not bool
abbrev is_flag : Option Flag → Bool
is_flag none = true
is_flag (some none) = false
is_flag (some (some b)) = true

abbrev pub has_flags : Verdict → Bool
has_flags v = is_flag v.accepted && is_flag v.verified && is_flag v.local_policy_passed

-- value.get(field) is the Boolean
abbrev pub is_bool : Option Flag → Bool → Bool
is_bool (some (some a)) b = same_flag a b
is_bool _ b = false

abbrev pub is_status : Option (Option String) → String → Bool
is_status (some (some s)) t = str_eq s t
is_status _ t = false

-- field not in evaluation or evaluation[field] == item.get(field), of two that are Boolean where given
abbrev agrees_on_accepted : Option Flag → Option Flag → Bool
agrees_on_accepted none item = true
agrees_on_accepted (some (some a)) item = is_bool item a
agrees_on_accepted (some none) item = false

abbrev given_status : Option (Option String) → Option String
given_status none = none
given_status (some s) = s

abbrev same_status : Option String → Option String → Bool
same_status none none = true
same_status (some s) (some t) = str_eq s t
same_status _ _ = false

abbrev agrees_on_status : Option (Option String) → Option (Option String) → Bool
agrees_on_status none item = true
agrees_on_status (some s) item = same_status s (given_status item)

abbrev pub is_proof : Option String → Bool
is_proof none = false
is_proof (some role) = str_eq role "proof"

abbrev pub passing_status : Bool → String
passing_status proof = if proof then "passed" else "calibration-passed"

-- The fields of an accepted target.
abbrev pub is_green : Retained → Verdict → Bool
is_green item evaluation =
    let proof : Bool = is_proof item.role in
    is_status item.verdict.status (passing_status proof)
    && is_status evaluation.status (passing_status proof)
    && is_bool evaluation.accepted true
    && is_bool evaluation.verified proof
    && is_bool evaluation.local_policy_passed true

abbrev pub claims_success : Retained → Verdict → Bool
claims_success item evaluation =
    is_status item.verdict.status "passed"
    || is_status item.verdict.status "calibration-passed"
    || is_bool evaluation.verified true

abbrev pub evaluation_of : Option Verdict → Result Verdict
evaluation_of none = err "malformed target evaluation"
evaluation_of (some evaluation) = ok evaluation

-- The two branches on the acceptance of the item.
unfoldable pub settle_verdict : Bool → Retained → Verdict → Result Bool
settle_verdict true item evaluation = do
  require (is_green item evaluation) "inconsistent accepted/status/verified target fields"
  ok true
settle_verdict false item evaluation = do
  require (not (claims_success item evaluation))
      "unsuccessful target claims a passing status or verification"
  ok false

unfoldable pub check_verdict : Retained → Verdict → Result Bool
unfolding settle_verdict
check_verdict item evaluation = do
  require (has_flags item.verdict && has_flags evaluation) "non-Boolean target verdict"
  require
      (agrees_on_accepted evaluation.accepted item.verdict.accepted
        && agrees_on_status evaluation.status item.verdict.status)
      "target/evaluation verdicts disagree"
  settle_verdict (is_bool item.verdict.accepted true) item evaluation

unfoldable pub verdict : Retained → Result Bool
unfolding check_verdict
verdict item = do evaluation ← evaluation_of item.evaluation; check_verdict item evaluation
