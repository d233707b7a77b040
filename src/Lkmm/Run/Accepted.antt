-- ===== src/Lkmm/Run/Accepted.antt =====
-- When the run of fragma/concurrency_c3_lkmm.py is accepted.
use fragma.Prelude.{
  ◌≡◌, refl, sym, ap, ◌∙◌, subst, Bool, true, false, not, ◌&&◌, List, [], ◌∷◌, ◌++◌, Option, none,
  some, ok, all, map, collect, All, All-all, arith, codes, text_eq, text_eq_refl, ==_iff,
}
use fragma.Prelude.Json.{Json}
use fragma.Lkmm.Paths.{Files}
use fragma.Lkmm.Cases.{Case}
use fragma.Lkmm.Cases.Declared.{CaseDeclared, load_cases-CaseDeclared}
use fragma.Lkmm.Pairs.{Pair, by_id}
use fragma.Lkmm.Pairs.Declared.{PairDeclared, load_pairs-PairDeclared}
use fragma.Lkmm.Manifest.{Manifest, load_manifest}
use fragma.Lkmm.Manifest.Loaded.{load_manifest-Loaded}
use fragma.Lkmm.Herd.{Herd}
use fragma.Lkmm.Run.{
  World, Check, passes, PairResult, Run, run_case, run_pair, pair_checks, checks_of_cases,
  checks_of_pairs, decide_run, parsed_of, same_hash,
}
use fragma.Lkmm.Run.Observed.{CaseObserved, run_case-CaseObserved, all-append}
use fragma.Lkmm.Run.Distinguished.{run_pair-members, by_id-All, checks_of_cases-passed}

-- The case has passed all its checks.
abbrev pub case_passed : World → Case → Bool
case_passed w c = (run_case w c).passed

abbrev parsed_by : World → Option Case → Option Herd
parsed_by w none = none
parsed_by w (some c) = (run_case w c).parsed

-- The two members of the pair have different hashes.
abbrev pub hashes_apart : World → List Case → Pair → Bool
hashes_apart w cases p = not (
    same_hash (parsed_by w (by_id p.weakened_control cases))
      (parsed_by w (by_id p.ordered_calibration cases)))

last_of_six :
    (a b c d e f : Bool)
    → a ≡ true
    → b ≡ true
    → c ≡ true
    → d ≡ true
    → e ≡ true
    → (a && (b && (c && (d && (e && (f && true)))))) ≡ f
last_of_six a b c d e f h1 h2 h3 h4 h5 = rw (h1, h2, h3, h4, h5) (ground arith)

parsed-run_case :
    (w : World) (c : Case) (o : CaseObserved w c) → (run_case w c).parsed ≡ some o.output
unfolding run_case
parsed-run_case w c o = ap parsed_of o.parsed

-- Of two members that passed, the checks on the pair ask only whether the hashes differ.
module _ (w : World) (cases : List Case) (declared : All CaseDeclared cases) where
  pair_decision :
      (p : Pair) (d : PairDeclared cases p)
      → All (λ c. case_passed w c ≡ true) cases
      → all passes (pair_checks p (run_case w d.weak) (run_case w d.ordered))
        ≡ hashes_apart w cases p
  unfolding pair_checks
  pair_decision p d passed =
      let weak = by_id-All _ cases p.weakened_control declared d.weak_found in
      let ordered = by_id-All _ cases p.ordered_calibration declared d.ordered_found in
      let first =
        by_id-All (λ c. case_passed w c ≡ true) cases p.weakened_control passed d.weak_found in
      let second =
        by_id-All (λ c. case_passed w c ≡ true) cases p.ordered_calibration passed
          d.ordered_found in
      let g = run_case-CaseObserved w d.weak first in
      let h = run_case-CaseObserved w d.ordered second in
      let detects = weak.weakened d.weak_role in
      let orders = ordered.ordered d.ordered_role in
      let some_seen = sym g.observation ∙ ap (λ t. codes t) detects.sometimes in
      let none_seen = sym h.observation ∙ ap (λ t. codes t) orders.never in
      let condition = sym g.condition ∙ ap (λ t. codes t) d.one_condition ∙ h.condition in
      rw
        (
          d.weak_found,
          d.ordered_found,
          parsed-run_case w d.weak g,
          parsed-run_case w d.ordered h,
          first,
          second,
          d.transition,
          some_seen,
          none_seen,
        )
        (last_of_six true true _ _ _ _ refl refl
          (subst (λ t. text_eq g.output.core.condition t ≡ true) condition
            (text_eq_refl g.output.core.condition))
          ((==_iff 0 h.output.core.positive).1 (omega (arith, h.positive, orders.no_witness)))
          (ground (arith, g.positive, detects.witnessed)))

  -- Every pair has its results, and with all cases passed only the hashes decide.
  pairs_run :
      (pairs : List Pair)
      → All (PairDeclared cases) pairs
      → (results : List PairResult) × (collect (run_pair (map (run_case w) cases)) pairs
          ≡ ok results)
        × (All (λ c. case_passed w c ≡ true) cases
            → all passes (checks_of_pairs results) ≡ all (hashes_apart w cases) pairs)
  pairs_run [] ds = ([], refl, λ passed. refl)
  pairs_run (p ∷ pairs) ds =
      let (results, made, decided) = pairs_run pairs ds.1 in
      (
        record {
          id = p.id;
          checks = pair_checks p (run_case w ds.0.weak) (run_case w ds.0.ordered);
          passed = all passes (pair_checks p (run_case w ds.0.weak) (run_case w ds.0.ordered));
        }
            ∷ results,
        rw (run_pair-members w cases p ds.0, made) refl,
        λ passed.
            all-append passes (pair_checks p (run_case w ds.0.weak) (run_case w ds.0.ordered)) _
            ∙ ap (λ b. b && all passes (checks_of_pairs results)) (pair_decision p ds.0 passed)
            ∙ ap (λ b. hashes_apart w cases p && b) (decided passed),
      )

same_under : (a b c : Bool) → (a ≡ true → b ≡ c) → (a && b) ≡ (a && c)
same_under true b c h = h refl
same_under false b c h = refl

-- The run of a declaration that was accepted raises no KeyError, and it is accepted exactly when the
-- inventory is as declared, each case passes its own checks, and the members of each pair have
-- different hashes.
pub decide_run-accepted :
    (files : Files) (value : Json) (w : World) (inventory : List Check) (m : Manifest)
    → load_manifest files value ≡ ok m
    → (r : Run) × (decide_run w inventory m ≡ ok r)
      × (r.accepted ≡ (
          all passes inventory
          && (all (case_passed w) m.cases && all (hashes_apart w m.cases) m.pairs)))
unfolding decide_run
decide_run-accepted files value w inventory m loaded =
    let l = load_manifest-Loaded files value m loaded in
    let declared = load_cases-CaseDeclared files _ _ m.cases l.cases_loaded in
    let (results, made, decided) =
      pairs_run w m.cases declared m.pairs
        (load_pairs-PairDeclared m.cases _ m.pairs l.pairs_loaded) in
    let checks = checks_of_cases (map (run_case w) m.cases) in
    (
      record {
        cases = map (run_case w) m.cases;
        pairs = results;
        checks = inventory ++ (checks ++ checks_of_pairs results);
        accepted = all passes (inventory ++ (checks ++ checks_of_pairs results));
      },
      rw made refl,
      all-append passes inventory (checks ++ checks_of_pairs results)
          ∙ ap (λ b. all passes inventory && b)
              (all-append passes checks (checks_of_pairs results)
                ∙ ap (λ b. b && all passes (checks_of_pairs results))
                    (checks_of_cases-passed w m.cases)
                ∙ same_under (all (case_passed w) m.cases) _ _
                    (λ h. decided (All-all (case_passed w) m.cases h))),
    )
