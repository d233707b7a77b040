-- ===== src/Lkmm/Cases.antt =====
-- The cases of the declaration: the loop over manifest["cases"] in load_manifest of
-- fragma/concurrency_c3_lkmm.py. A case is a record of the values that the run reads from it.
pub mod Declared
use fragma.Prelude.{
  ℕ, Bool, true, false, not, ◌&&◌, ◌||◌, List, [], ◌∷◌, Option, none, some, String, str_eq, Result,
  ok, err, ◌>>=◌, ◌>>◌, require, ◌==◌, leb, member, same_set, all, all_distinct, common, is_empty,
  map, if◌then◌else◌,
}
use fragma.Prelude.Json.{Json, get}
use fragma.Policy.Texts.{texts_of}
use fragma.Policy.Model.{given}
use fragma.Lkmm.Values.{
  has_keys, listed, text, nonempty, some_letter, allowed_strings, natural, digest,
}
use fragma.Lkmm.Paths.{Parts, Files, case_path}

-- _CASE_IDS, _ROLES, _OBSERVATIONS and _OPERATIONS
abbrev pub case_names : List String
case_names = "mp_once_once" ∷ "mp_release_acquire" ∷ "sb_once_once" ∷ "sb_full_barrier" ∷ []

abbrev pub roles : List String
roles = "weakened_control" ∷ "ordered_calibration" ∷ []

abbrev pub observations : List String
observations = "Sometimes" ∷ "Never" ∷ []

abbrev pub operations : List String
operations = "READ_ONCE" ∷ "WRITE_ONCE" ∷ "smp_store_release" ∷ "smp_load_acquire" ∷ "smp_mb" ∷ []

-- The result that a case declares.
pub record Expected : Type 0 where
  pub test : String
  pub disposition : String
  pub states : ℕ
  pub marker : String
  pub positive : ℕ
  pub negative : ℕ
  pub flags : List String
  pub condition : String
  pub observation : String
  pub hash : String

pub record Case : Type 0 where
  pub id : String
  pub path : Parts
  pub sha256 : String
  pub role : String
  pub required : List String
  pub forbidden : List String
  pub expected : Expected

abbrev expected_keys : List String
expected_keys =
    "test" ∷ "disposition" ∷ "states" ∷ "marker" ∷ "positive" ∷ "negative" ∷ "flags" ∷ "condition"
    ∷ "observation" ∷ "hash" ∷ []

-- The checks on case["expected"] before the role is looked at.
unfoldable pub read_expected : Json → Result Expected
unfolding nonempty natural digest
read_expected value = do
  require (has_keys expected_keys value) "expected output is not exact"
  test ← nonempty (get value "test")
  disposition ← nonempty (get value "disposition")
  marker ← nonempty (get value "marker")
  condition ← nonempty (get value "condition")
  observation ← nonempty (get value "observation")
  flags ← given "expected flags are invalid" (texts_of (get value "flags"))
  require (all some_letter flags && all_distinct flags) "expected flags are invalid"
  states ← natural (get value "states")
  positive ← natural (get value "positive")
  negative ← natural (get value "negative")
  hash ← digest 32 (get value "hash")
  ok (record {
    test = test;
    disposition = disposition;
    states = states;
    marker = marker;
    positive = positive;
    negative = negative;
    flags = flags;
    condition = condition;
    observation = observation;
    hash = hash;
  })

-- What a control that detects and a calibration that orders have to declare.
abbrev pub detects : Expected → Bool
detects e = str_eq e.observation "Sometimes" && leb 1 e.positive && str_eq e.marker "Ok"

abbrev pub orders : Expected → Bool
orders e = str_eq e.observation "Never" && e.positive == 0 && str_eq e.marker "No"

abbrev pub check_result : String → Expected → Result (Unit {0})
check_result role e =
    if str_eq role "weakened_control"
    then require (detects e) "is not a detecting weak control"
    else require (orders e) "is not an ordered Never calibration"

unfoldable pub check_role : String → Expected → Result (Unit {0})
check_role role e = do
  require (str_eq e.disposition "Allowed") "disposition must be Allowed"
  require (member e.observation observations) "observation is unsupported"
  check_result role e

abbrev pub case_keys : List String
case_keys =
    "id" ∷ "path" ∷ "sha256" ∷ "role" ∷ "required_operations" ∷ "forbidden_operations" ∷ "expected"
    ∷ []

-- One round of the loop; the list has the ids of the cases before it.
unfoldable pub read_case : Files → Parts → List String → Json → Result Case
unfolding read_expected check_role
read_case files model seen value = do
  require (has_keys case_keys value) "C3 case record is not exact"
  id ← text (get value "id")
  require (member id case_names && not (member id seen)) "invalid or duplicate C3 case"
  path ← case_path files model (get value "path")
  sha256 ← digest 64 (get value "sha256")
  role ← text (get value "role")
  require (member role roles) "invalid C3 role"
  required ← allowed_strings operations (get value "required_operations")
  forbidden ← allowed_strings operations (get value "forbidden_operations")
  require (is_empty (common required forbidden)) "contradictory operations"
  expected ← read_expected (get value "expected")
  check_role role expected
  ok (record {
    id = id;
    path = path;
    sha256 = sha256;
    role = role;
    required = required;
    forbidden = forbidden;
    expected = expected;
  })

unfoldable pub read_cases : Files → Parts → List String → List Json → Result (List Case)
unfolding read_case
read_cases files model seen [] = ok []
read_cases files model seen (value ∷ values) = do
  c ← read_case files model seen value
  rest ← read_cases files model (c.id ∷ seen) values
  ok (c ∷ rest)

abbrev pub id_of : Case → String
id_of c = c.id

-- The cases of a declaration, which are the four that are known.
unfoldable pub load_cases : Files → Parts → Json → Result (List Case)
unfolding read_cases
load_cases files model value = do
  values ← listed 4 "C3 requires exactly four calibrations" value
  cases ← read_cases files model [] values
  require (same_set (map id_of cases) case_names) "C3 calibration inventory is incomplete"
  ok cases
