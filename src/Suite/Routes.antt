-- ===== src/Suite/Routes.antt =====
-- `select_native_targets` and `native_evidence_routes` of fragma/suite.py. What a path resolves to and
-- what `read_json` reads there are parameters: they stand for the file system.
mod Distinct
pub mod Unambiguous
use fragma.Prelude.{
  all_distinct, ℕ, Bool, true, false, not, ◌&&◌, ◌||◌, List, [], ◌∷◌, ◌++◌, Option, none, some,
  String, str_eq, member, map, keep, is_empty, any, all, Result, ok, err, require, ◌>>=◌, ◌>>◌,
  if◌then◌else◌,
}
use fragma.Prelude.Json.{Json, Items, Fields, null, str, arr, obj, nil, cons, get}
use fragma.Suite.Selection.{Target, ids_of}

-- `case["target_id"]` of an object whose value is text
unfoldable pub case_id : Json → Option String
case_id (obj fields) = elim (get (obj fields) "target_id") [ str s ↦ some s | _ ↦ none ]
case_id _ = none

-- The ids of all cases, where each has one.
unfoldable pub case_ids : Items → Option (List String)
unfolding case_id
case_ids nil = some []
case_ids (cons case cases) =
    let rest = case_ids cases in
    elim (case_id case) [
      | none ↦ none
      | some i ↦ elim rest [ none ↦ none | some is ↦ some (i ∷ is) ]
    ]

abbrev no_inventory : Result (List String)
no_inventory = err "native calibration evidence contains no target inventory"

abbrev nonempty_cases : Option (List String) → Result (List String)
nonempty_cases (some (i ∷ is)) = ok (i ∷ is)
nonempty_cases _ = no_inventory

abbrev listed : Json → Result (List String)
listed (arr items) = nonempty_cases (case_ids items)
listed _ = no_inventory

abbrev single : Json → Result (List String)
single (str i) = ok (i ∷ [])
single _ = no_inventory

-- `cases`, by the kind of the receipt
unfoldable pub inventory : Json → Result (List String)
unfolding case_ids
inventory receipt = elim (get receipt "kind") [
  | str kind ↦
      if str_eq kind "fragma-native-spec-sensitivity"
      then listed (get receipt "cases")
      else if str_eq kind "fragma-s390-spec-sensitivity"
      then single (get receipt "target_id")
      else err "unsupported native calibration evidence kind"
  | _ ↦ err "unsupported native calibration evidence kind"
]

abbrev pub is_eva_calibration : Target → Bool
is_eva_calibration t = str_eq t.role "calibration" && str_eq t.analysis "eva"

unfoldable pub select_native_targets : Json → List Target → Result (List String)
unfolding inventory all_distinct
select_native_targets receipt selected = do
  ids ← inventory receipt
  require (all_distinct ids && any (λ i. member i (ids_of selected)) ids)
      "native evidence has duplicate targets or covers no selected target"
  require (all (λ t. not (member t.id ids) || is_eva_calibration t) selected)
      "native evidence may only corroborate selected EVA calibrations"
  ok ids

abbrev pub Routes : Type 0
Routes = List (String × String)

abbrev pub routed : Routes → List String
routed = map (λ r. r.0)

module _ (read_json : String → Result Json) (selected : List Target) where
  -- The selected targets that the receipt at a path covers.
  unfoldable pub matching : String → Result (List String)
  unfolding select_native_targets
  matching path = read_json path >>= λ receipt. select_native_targets receipt selected >>= λ ids.
      ok (keep (λ i. member i (ids_of selected)) ids)

  -- `for path in resolved`
  unfoldable pub add_routes : Routes → List String → Result Routes
  unfolding matching
  add_routes routes [] = ok routes
  add_routes routes (path ∷ paths) = do
    ids ← matching path
    require (not (any (λ i. member i (routed routes)) ids))
        "multiple native receipts cover the same selected target"
    add_routes (routes ++ map (λ i. (i, path)) ids) paths

  unfoldable pub native_evidence_routes :
      (String → String) → List String → Result (Routes × List String)
  unfolding all_distinct add_routes
  native_evidence_routes resolve paths = do
    let resolved = map resolve paths
    require (all_distinct resolved) "duplicate native evidence receipt"
    routes ← add_routes [] resolved
    ok (routes, resolved)
