-- ===== src/Verdict/Companions.antt =====
-- `finalize_companions` of fragma/report.py. The loop updates the records that `lookup` refers to,
-- so a later record sees what the loop has made of an earlier one: the state is the whole list, the
-- settled records in front.
pub mod Lookup
pub mod Sound
pub mod Complete
use fragma.Prelude.{
  member, subset, same_set, ℕ, ◌≡◌, Bool, true, false, not, ◌&&◌, ◌||◌, List, [], ◌∷◌, ◌++◌, Option,
  none, some, String, str_eq, is_empty, all, any, Result, ok, err, ◌>>◌, ◌>>=◌, require, map,
  has_text, if◌then◌else◌,
}
use fragma.Verdict.Evaluation.{Evaluation, Issue, CompanionEvidence, same, is, is_true}

-- `lookup`: ids are distinct, so the first record with an id is the one.
unfoldable pub lookup : String → List Evaluation → Option Evaluation
lookup k [] = none
lookup k (r ∷ rs) = let rest = lookup k rs in if str_eq r.target_id k then some r else rest

unfoldable pub distinct_ids : List Evaluation → Bool
distinct_ids [] = true
distinct_ids (r ∷ rs) = not (any (λ s. str_eq s.target_id r.target_id) rs) && distinct_ids rs

-- `not companion_id`
abbrev pub companion_of : Evaluation → Option String
companion_of r = elim r.required_companion [
  | none ↦ none
  | some k ↦ if str_eq k "" then none else some k
]

-- `companion_id` where the record still waits for it
unfoldable pub awaited : Evaluation → Option String
awaited r = if str_eq r.status "needs-companion" then companion_of r else none

abbrev keys : List (String × String) → List String
keys = map (λ e. e.0)

abbrev pub values : List (String × String) → List String
values = map (λ e. e.1)

unfoldable pub is_mapped : Evaluation → Bool
is_mapped r =
    not (is_empty r.expected_unresolved)
    && same_set (keys r.companion_property_map) r.expected_unresolved
    && all (λ name. not (str_eq name "")) (values r.companion_property_map)

abbrev has_reason : Option String → Bool
has_reason none = false
has_reason (some reason) = has_text reason

-- What `success` asks of the companion itself.
abbrev pub companion_passed : Evaluation → Bool
companion_passed c =
    c.accepted
    && is_true c.local_policy_passed
    && not c.verified
    && str_eq c.status "calibration-passed"
    && is c.role "calibration"

abbrev pub covers : Evaluation → Evaluation → Bool
covers r c =
    subset (values r.companion_property_map) c.confirmed_invalid_properties
    && subset (values r.companion_property_map) c.expected_invalid

-- The same functions of the same source and profile, by another analysis.
abbrev pub corresponds : Evaluation → Evaluation → Bool
corresponds r c =
    same c.profile r.profile
    && same c.source r.source
    && not (is_empty r.functions)
    && same_set c.functions r.functions
    && not (same c.analysis r.analysis)

unfoldable pub success : Evaluation → Evaluation → Bool
unfolding is_mapped
success r c =
    is_mapped r
    && is_true r.local_policy_passed
    && has_reason r.companion_mapping_reason
    && companion_passed c
    && is r.role "calibration"
    && covers r c
    && corresponds r c

abbrev pub approved : Evaluation → String → Evaluation → Evaluation
approved r k c = record r {
  accepted = true;
  verified = false;
  status = "calibration-passed";
  companion_evidence = some (record {
    target_id = k;
    property_map = r.companion_property_map;
    confirmed_invalid_properties = c.confirmed_invalid_properties;
    mapping_reason = r.companion_mapping_reason;
  });
}

abbrev companion_issue : String → Issue
companion_issue k = record {
  kind = "incomplete";
  message =
      "Independent invalidating calibration companion is missing, failed, or does not establish the exact mapped properties";
  details = ("companion", k) ∷ [];
  files = [];
}

abbrev pub rejected : Evaluation → String → Evaluation
rejected r k = record r {
  accepted = false;
  verified = false;
  status = "incomplete";
  issues = r.issues ++ (companion_issue k ∷ []);
}

unfoldable pub resolve : Evaluation → String → Option Evaluation → Evaluation
unfolding success
resolve r k none = rejected r k
resolve r k (some c) = if success r c then approved r k c else rejected r k

-- The body of the loop, at the list as it stands.
unfoldable pub settle : List Evaluation → Evaluation → Evaluation
unfolding awaited resolve lookup
settle records r = elim (awaited r) [ none ↦ r | some k ↦ resolve r k (lookup k records) ]

-- `for record in records`: the settled records are `seen`; the result is that of the others.
unfoldable pub settle_all : List Evaluation → List Evaluation → List Evaluation
unfolding settle
settle_all seen [] = []
settle_all seen (r ∷ rs) =
    let after : Evaluation = settle (seen ++ (r ∷ rs)) r in
    after ∷ settle_all (seen ++ (after ∷ [])) rs

unfoldable pub finalize_companions : List Evaluation → Result (List Evaluation)
unfolding distinct_ids settle_all
finalize_companions records =
    require (distinct_ids records) "Duplicate target IDs during companion policy"
    >> ok (settle_all [] records)
