-- ===== src/Lkmm/Pairs.antt =====
-- The pairs of the declaration: the loop over manifest["pairs"] in load_manifest of
-- fragma/concurrency_c3_lkmm.py.
pub mod Occurrences
pub mod Declared
pub mod Partition
use fragma.Prelude.{
  Bool, true, false, not, ◌&&◌, List, [], ◌∷◌, Option, none, some, String, str_eq, Result, ok, err,
  ◌>>=◌, ◌>>◌, require, member, same_set, subset,
}
use fragma.Prelude.Json.{Json, get}
use fragma.Policy.Texts.{is_str}
use fragma.Lkmm.Values.{has_keys, listed, text, nonempty, allowed_strings}
use fragma.Lkmm.Cases.{Case, case_names, operations}

pub record Pair : Type 0 where
  pub id : String
  pub weakened_control : String
  pub ordered_calibration : String
  pub ordering_primitives : List String
  pub expected_transition : String

-- by_id.get(name)
abbrev pub by_id : String → List Case → Option Case
by_id name [] = none
by_id name (c ∷ cs) =
    let rest = by_id name cs in elim (str_eq c.id name) [ true ↦ some c | false ↦ rest ]

abbrev pub member_case : List Case → String → Result Case
member_case cases name = elim (by_id name cases) [
  | none ↦ err "invalid C3 pair members"
  | some c ↦ ok c
]

-- The checks on the two members of a pair.
unfoldable pub check_members : List String → Case → Case → Result (Unit {0})
check_members primitives weak ordered = do
  require (subset primitives ordered.required) "ordered case omits pair primitive"
  require (subset primitives weak.forbidden) "weak control does not remove pair primitive"
  require (str_eq weak.expected.condition ordered.expected.condition) "C3 pair conditions differ"

abbrev pub pair_keys : List String
pair_keys =
    "id" ∷ "weakened_control" ∷ "ordered_calibration" ∷ "ordering_primitives"
    ∷ "expected_transition" ∷ []

-- One round of the loop; the list has the ids of the pairs before it.
unfoldable pub read_pair : List Case → List String → Json → Result Pair
unfolding nonempty check_members
read_pair cases seen value = do
  require (has_keys pair_keys value) "C3 pair record is not exact"
  id ← nonempty (get value "id")
  require (not (member id seen)) "duplicate C3 pair id"
  first ← text (get value "weakened_control")
  second ← text (get value "ordered_calibration")
  weak ← member_case cases first
  ordered ← member_case cases second
  require (not (str_eq first second)) "invalid C3 pair members"
  require (str_eq weak.role "weakened_control" && str_eq ordered.role "ordered_calibration")
      "reversed C3 pair roles"
  primitives ← allowed_strings operations (get value "ordering_primitives")
  check_members primitives weak ordered
  require (is_str (get value "expected_transition") "Sometimes->Never") "invalid C3 transition"
  ok (record {
    id = id;
    weakened_control = first;
    ordered_calibration = second;
    ordering_primitives = primitives;
    expected_transition = "Sometimes->Never";
  })

unfoldable pub read_pairs : List Case → List String → List Json → Result (List Pair)
unfolding read_pair
read_pairs cases seen [] = ok []
read_pairs cases seen (value ∷ values) = do
  p ← read_pair cases seen value
  rest ← read_pairs cases (p.id ∷ seen) values
  ok (p ∷ rest)

-- The names that the pairs refer to, in order and with repetitions.
unfoldable pub referenced : List Pair → List String
referenced [] = []
referenced (p ∷ ps) = p.weakened_control ∷ (p.ordered_calibration ∷ referenced ps)

unfoldable pub load_pairs : List Case → Json → Result (List Pair)
unfolding read_pairs referenced
load_pairs cases value = do
  values ← listed 2 "C3 requires exactly two A/B pairs" value
  pairs ← read_pairs cases [] values
  require (same_set (referenced pairs) case_names) "each C3 case must belong to exactly one pair"
  ok pairs
