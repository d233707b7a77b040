-- ===== src/Lkmm/Run.antt =====
-- The decision of run_c3_lkmm of fragma/concurrency_c3_lkmm.py: the checks on each case and on each pair,
-- and what is accepted. What the files hold, their digests and what herd7 answers are parameters.
pub mod Observed
pub mod Distinguished
pub mod Accepted
use fragma.Prelude.{
  ℕ, Bool, true, false, not, ◌&&◌, ◌||◌, List, [], ◌∷◌, ◌++◌, Option, none, some, String, str_eq,
  Result, ok, err, ◌>>=◌, ◌>>◌, ◌==◌, ltb, all, map, collect, codes, text_eq, is_empty, length,
  if◌then◌else◌,
}
use fragma.Lkmm.Values.{Text}
use fragma.Lkmm.Paths.{Parts, Files}
use fragma.Lkmm.Cases.{Case, Expected}
use fragma.Lkmm.Pairs.{Pair}
use fragma.Lkmm.Herd.{Core, Herd, parse_herd_output}
use fragma.Lkmm.Source.{code_without_comments, operation_present}
use fragma.Lkmm.Manifest.{Manifest}

-- What _run returns. Whether the exit code is 0 is all that is asked of it.
pub record Process : Type 0 where
  pub exit_ok : Bool
  pub stdout : Text
  pub stderr : Text
  pub timed_out : Bool

-- What the run finds outside: the text and the digest of a file under the root, and what herd7 does
-- when it is started on a case.
pub record World : Type 0 where
  pub letter : ℕ → Bool
  pub read : Parts → Text
  pub sha256 : Parts → String
  pub herd : Case → Process

-- _check: of the two values that are compared it keeps whether they are equal.
pub record Check : Type 0 where
  pub name : String
  pub passed : Bool

abbrev same_flags : List String → List Text → Bool
same_flags [] [] = true
same_flags (x ∷ xs) (t ∷ ts) = text_eq (codes x) t && same_flags xs ts
same_flags _ _ = false

-- case["expected"] == _core_result(parsed)
unfoldable pub same_result : Expected → Core → Bool
same_result e c =
    text_eq (codes e.test) c.test
    && text_eq (codes e.disposition) c.disposition
    && e.states == c.states
    && text_eq (codes e.marker) c.marker
    && e.positive == c.positive
    && e.negative == c.negative
    && same_flags e.flags c.flags
    && text_eq (codes e.condition) c.condition
    && text_eq (codes e.observation) c.observation
    && text_eq (codes e.hash) c.hash

unfoldable pub as_expected : Expected → Option Herd → Bool
unfolding same_result
as_expected e none = false
as_expected e (some h) = same_result e h.core

abbrev parsed_of : Result Herd → Option Herd
parsed_of (ok h) = some h
parsed_of (err message) = none

abbrev has_parsed : Option Herd → Bool
has_parsed none = false
has_parsed (some h) = true

pub record CaseResult : Type 0 where
  pub id : String
  pub parsed : Option Herd
  pub checks : List Check
  pub passed : Bool

abbrev pub passes : Check → Bool
passes c = c.passed

abbrev pub required_check : World → Case → String → Check
required_check w c op = record {
  name = "required operation";
  passed = operation_present w.letter (code_without_comments (w.read c.path)) op;
}

abbrev pub forbidden_check : World → Case → String → Check
forbidden_check w c op = record {
  name = "forbidden operation";
  passed = not (operation_present w.letter (code_without_comments (w.read c.path)) op);
}

unfoldable pub case_checks : World → Case → Option Herd → List Check
unfolding as_expected operation_present code_without_comments
case_checks w c parsed =
    record { name = "litmus identity"; passed = str_eq c.sha256 (w.sha256 c.path) }
    ∷ (record { name = "timed out"; passed = not (w.herd c).timed_out }
        ∷ (record { name = "exit code"; passed = (w.herd c).exit_ok }
            ∷ (record { name = "stderr empty"; passed = is_empty (w.herd c).stderr }
                ∷ (record { name = "parse error"; passed = has_parsed parsed }
                    ∷ (record { name = "semantic result"; passed = as_expected c.expected parsed }
                        ∷ (map (required_check w c) c.required
                            ++ map (forbidden_check w c) c.forbidden))))))

-- One round of the loop over manifest["cases"].
unfoldable pub run_case : World → Case → CaseResult
unfolding case_checks parse_herd_output
run_case w c =
    let parsed = parsed_of (parse_herd_output (w.herd c).stdout) in
    record {
      id = c.id;
      parsed = parsed;
      checks = case_checks w c parsed;
      passed = all passes (case_checks w c parsed);
    }

-- by_id[name]
unfoldable pub result_of : String → List CaseResult → Result CaseResult
result_of name [] = err "KeyError"
result_of name (r ∷ rs) =
    let rest = result_of name rs in elim (str_eq r.id name) [ true ↦ ok r | false ↦ rest ]

-- parsed.get("observation", "unparsed"), and the other keys, which have None for their default
abbrev observation_of : Option Herd → Text
observation_of none = codes "unparsed"
observation_of (some h) = h.core.observation

abbrev same_condition : Option Herd → Option Herd → Bool
same_condition none none = true
same_condition (some g) (some h) = text_eq g.core.condition h.core.condition
same_condition _ _ = false

abbrev same_hash : Option Herd → Option Herd → Bool
same_hash none none = true
same_hash (some g) (some h) = text_eq g.core.hash h.core.hash
same_hash _ _ = false

abbrev no_witness : Option Herd → Bool
no_witness none = false
no_witness (some h) = 0 == h.core.positive

abbrev witnessed : Option Herd → Bool
witnessed none = false
witnessed (some h) = ltb 0 h.core.positive

pub record PairResult : Type 0 where
  pub id : String
  pub checks : List Check
  pub passed : Bool

unfoldable pub pair_checks : Pair → CaseResult → CaseResult → List Check
pair_checks p weak ordered =
    record { name = "both pair members passed"; passed = weak.passed && ordered.passed }
    ∷ (record {
      name = "observation transition";
      passed =
          text_eq (codes p.expected_transition)
            (observation_of weak.parsed ++ (codes "->" ++ observation_of ordered.parsed));
    }
        ∷ (record {
          name = "condition preserved";
          passed = same_condition weak.parsed ordered.parsed;
        }
            ∷ (record {
              name = "ordered variant removes bad witnesses";
              passed = no_witness ordered.parsed;
            }
                ∷ (record {
                  name = "weakened control exposes bad witness";
                  passed = witnessed weak.parsed;
                }
                    ∷ (record {
                      name = "pair hashes differ";
                      passed = not (same_hash weak.parsed ordered.parsed);
                    }
                        ∷ [])))))

-- One round of the loop over manifest["pairs"].
unfoldable pub run_pair : List CaseResult → Pair → Result PairResult
unfolding result_of pair_checks
run_pair results p = do
  weak ← result_of p.weakened_control results
  ordered ← result_of p.ordered_calibration results
  ok (record {
    id = p.id;
    checks = pair_checks p weak ordered;
    passed = all passes (pair_checks p weak ordered);
  })

pub record Run : Type 0 where
  pub cases : List CaseResult
  pub pairs : List PairResult
  pub checks : List Check
  pub accepted : Bool

abbrev pub checks_of_cases : List CaseResult → List Check
checks_of_cases [] = []
checks_of_cases (r ∷ rs) = r.checks ++ checks_of_cases rs

abbrev pub checks_of_pairs : List PairResult → List Check
checks_of_pairs [] = []
checks_of_pairs (r ∷ rs) = r.checks ++ checks_of_pairs rs

-- What follows the inventory, whose checks are an argument.
unfoldable pub decide_run : World → List Check → Manifest → Result Run
unfolding run_case run_pair
decide_run w inventory m = do
  pairs ← collect (run_pair (map (run_case w) m.cases)) m.pairs
  ok (record {
    cases = map (run_case w) m.cases;
    pairs = pairs;
    checks = inventory ++ (checks_of_cases (map (run_case w) m.cases) ++ checks_of_pairs pairs);
    accepted =
        all passes
          (inventory ++ (checks_of_cases (map (run_case w) m.cases) ++ checks_of_pairs pairs));
  })
