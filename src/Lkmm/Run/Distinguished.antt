-- ===== src/Lkmm/Run/Distinguished.antt =====
-- What an accepted run of fragma/concurrency_c3_lkmm.py shows about each pair.
use fragma.Prelude.{
  ◌≤◌, ◌≡◌, ◌≢◌, refl, sym, ap, ◌∙◌, subst, Bool, true, false, not, ◌&&◌, List, [], ◌∷◌, some,
  String, str_eq, ok, all, map, collect, All, All-all, All-imp, arith, codes, text_eq, text_eq_refl,
  &&-eq-true, >>=-eq-ok, ok-injective,
}
use mathlib.Core.Option.{some-injective}
use fragma.Prelude.Json.{Json}
use fragma.Lkmm.Paths.{Files}
use fragma.Lkmm.Cases.{Case}
use fragma.Lkmm.Cases.Declared.{CaseDeclared, load_cases-CaseDeclared}
use fragma.Lkmm.Pairs.{Pair, by_id}
use fragma.Lkmm.Pairs.Declared.{PairDeclared, load_pairs-PairDeclared}
use fragma.Lkmm.Manifest.{Manifest, load_manifest}
use fragma.Lkmm.Manifest.Loaded.{load_manifest-Loaded}
use fragma.Lkmm.Herd.{Herd, parse_herd_output}
use fragma.Lkmm.Run.{
  World, Check, passes, PairResult, Run, run_case, run_pair, pair_checks, result_of,
  checks_of_cases, checks_of_pairs, decide_run, parsed_of, same_hash,
}
use fragma.Lkmm.Run.Observed.{calls, run_case-CaseObserved, all-append, All-member}

-- A case that is found has its result under the same name.
pub result_of-by_id :
    (w : World) (cases : List Case) (name : String) {c : Case}
    → by_id name cases ≡ some c
    → result_of name (map (run_case w) cases) ≡ ok (run_case w c)
unfolding result_of run_case
result_of-by_id w [] name h = cc
result_of-by_id w (d ∷ cases) name {c} h =
    by (str_eq d.id name) h (λ k. result_of-by_id w cases name k)
  where
    by :
        (b : Bool)
        → (elim b [ true ↦ some d | false ↦ by_id name cases ]) ≡ some c
        → (by_id name cases ≡ some c → result_of name (map (run_case w) cases) ≡ ok (run_case w c))
        → (elim b [ true ↦ ok (run_case w d) | false ↦ result_of name (map (run_case w) cases) ])
          ≡ ok (run_case w c)
    by true k next = ap (λ x. ok (run_case w x)) (some-injective _ _ k)
    by false k next = next k

pub by_id-All :
    (P : Case → Type 0) (cases : List Case) (name : String) {c : Case}
    → All P cases
    → by_id name cases ≡ some c
    → P c
by_id-All P [] name a h = cc
by_id-All P (d ∷ cases) name {c} a h = by (str_eq d.id name) h (λ k. by_id-All P cases name a.1 k)
  where
    by :
        (b : Bool)
        → (elim b [ true ↦ some d | false ↦ by_id name cases ]) ≡ some c
        → (by_id name cases ≡ some c → P c)
        → P c
    by true k next = subst P (some-injective _ _ k) a.0
    by false k next = next k

All-pair :
    (P Q : String → Type 0) (xs : List String) → All P xs → All Q xs → All (λ x. P x × Q x) xs
All-pair P Q [] a b = tt
All-pair P Q (x ∷ xs) a b = ((a.0, b.0), All-pair P Q xs a.1 b.1)

-- Two runs of herd7 under one condition: the weak control shows the outcome, the ordered
-- calibration, which alone calls the primitives of the pair, never does.
pub record IsDistinguished (w : World) (m : Manifest) (p : Pair) : Type 0 where
  pub weak : Case
  pub ordered : Case
  pub weak_found : by_id p.weakened_control m.cases ≡ some weak
  pub ordered_found : by_id p.ordered_calibration m.cases ≡ some ordered
  pub weak_pinned : weak.sha256 ≡ w.sha256 weak.path
  pub ordered_pinned : ordered.sha256 ≡ w.sha256 ordered.path
  pub weak_output : Herd
  pub ordered_output : Herd
  pub weak_parsed : parse_herd_output (w.herd weak).stdout ≡ ok weak_output
  pub ordered_parsed : parse_herd_output (w.herd ordered).stdout ≡ ok ordered_output
  pub sometimes : weak_output.core.observation ≡ codes "Sometimes"
  pub witnessed : 1 ≤ weak_output.core.positive
  pub never : ordered_output.core.observation ≡ codes "Never"
  pub no_witness : ordered_output.core.positive ≡ 0
  pub one_condition : weak_output.core.condition ≡ ordered_output.core.condition
  pub two_tests : weak_output.core.hash ≢ ordered_output.core.hash
  pub ordering :
      All (λ op. (calls w ordered op ≡ true) × (calls w weak op ≡ false)) p.ordering_primitives

-- All checks on cases pass exactly when each case passed.
pub checks_of_cases-passed :
    (w : World) (cases : List Case)
    → all passes (checks_of_cases (map (run_case w) cases)) ≡ all (λ c. (run_case w c).passed) cases
unfolding run_case
checks_of_cases-passed w [] = refl
checks_of_cases-passed w (c ∷ cases) =
    all-append passes (run_case w c).checks _
    ∙ ap (λ b. (run_case w c).passed && b) (checks_of_cases-passed w cases)

-- The results of the two members of a pair.
pub run_pair-members :
    (w : World) (cases : List Case) (p : Pair) (d : PairDeclared cases p)
    → run_pair (map (run_case w) cases) p
      ≡ ok (record {
        id = p.id;
        checks = pair_checks p (run_case w d.weak) (run_case w d.ordered);
        passed = all passes (pair_checks p (run_case w d.weak) (run_case w d.ordered));
      })
unfolding run_pair
run_pair-members w cases p d =
    rw
      (
        result_of-by_id w cases p.weakened_control d.weak_found,
        result_of-by_id w cases p.ordered_calibration d.ordered_found,
      )
      refl

hashes_differ :
    (w : World) (p : Pair) (weak ordered : Case) (g h : Herd)
    → all passes (pair_checks p (run_case w weak) (run_case w ordered)) ≡ true
    → parse_herd_output (w.herd weak).stdout ≡ ok g
    → parse_herd_output (w.herd ordered).stdout ≡ ok h
    → g.core.hash ≢ h.core.hash
unfolding pair_checks run_case
hashes_differ w p weak ordered g h passed e f same =
    let last =
      (All-all passes (pair_checks p (run_case w weak) (run_case w ordered)) passed).1.1.1.1.1.0 in
    let differ : not (text_eq g.core.hash h.core.hash) ≡ true =
      subst (λ r. not (same_hash (some g) (parsed_of r)) ≡ true) f
        (subst
          (λ r.
            not (same_hash (parsed_of r) (parsed_of (parse_herd_output (w.herd ordered).stdout)))
            ≡ true)
          e last) in
    let equal : text_eq g.core.hash h.core.hash ≡ true =
      subst (λ t. text_eq g.core.hash t ≡ true) same (text_eq_refl g.core.hash) in
    ground arith

module _ (w : World) (m : Manifest) where
  pair-IsDistinguished :
      (p : Pair) (d : PairDeclared m.cases p)
      → All CaseDeclared m.cases
      → All (λ c. (run_case w c).passed ≡ true) m.cases
      → all passes (pair_checks p (run_case w d.weak) (run_case w d.ordered)) ≡ true
      → IsDistinguished w m p
  pair-IsDistinguished p d declared passed checked =
      let weak = by_id-All _ m.cases p.weakened_control declared d.weak_found in
      let ordered = by_id-All _ m.cases p.ordered_calibration declared d.ordered_found in
      let g =
        run_case-CaseObserved w d.weak
          (by_id-All _ m.cases p.weakened_control passed d.weak_found) in
      let h =
        run_case-CaseObserved w d.ordered
          (by_id-All _ m.cases p.ordered_calibration passed d.ordered_found) in
      let detects = weak.weakened d.weak_role in
      let orders = ordered.ordered d.ordered_role in
      record {
        weak = d.weak;
        ordered = d.ordered;
        weak_found = d.weak_found;
        ordered_found = d.ordered_found;
        weak_pinned = g.pinned;
        ordered_pinned = h.pinned;
        weak_output = g.output;
        ordered_output = h.output;
        weak_parsed = g.parsed;
        ordered_parsed = h.parsed;
        sometimes = sym g.observation ∙ ap (λ t. codes t) detects.sometimes;
        witnessed = omega (arith, g.positive, detects.witnessed);
        never = sym h.observation ∙ ap (λ t. codes t) orders.never;
        no_witness = sym h.positive ∙ orders.no_witness;
        one_condition = sym g.condition ∙ ap (λ t. codes t) d.one_condition ∙ h.condition;
        two_tests = hashes_differ w p d.weak d.ordered g.output h.output checked g.parsed h.parsed;
        ordering =
            All-pair _ _ p.ordering_primitives
              (All-imp _ _ p.ordering_primitives
                (λ op k. All-member _ d.ordered.required op h.uses k) d.required)
              (All-imp _ _ p.ordering_primitives
                (λ op k. All-member _ d.weak.forbidden op g.avoids k) d.removed);
      }

  pairs-IsDistinguished :
      (pairs : List Pair) (results : List PairResult)
      → All (PairDeclared m.cases) pairs
      → All CaseDeclared m.cases
      → All (λ c. (run_case w c).passed ≡ true) m.cases
      → collect (run_pair (map (run_case w) m.cases)) pairs ≡ ok results
      → all passes (checks_of_pairs results) ≡ true
      → All (IsDistinguished w m) pairs
  pairs-IsDistinguished [] results declared cases passed made checked = tt
  pairs-IsDistinguished (p ∷ pairs) results declared cases passed made checked =
      let (r, e1, k1) = >>=-eq-ok (run_pair (map (run_case w) m.cases) p) _ made in
      let (rs, e2, k2) = >>=-eq-ok (collect (run_pair (map (run_case w) m.cases)) pairs) _ k1 in
      let same = ok-injective (sym (run_pair-members w m.cases p declared.0) ∙ e1) in
      let split =
        sym (all-append passes r.checks (checks_of_pairs rs))
        ∙ ap (λ l. all passes (checks_of_pairs l)) (ok-injective k2)
        ∙ checked in
      let (first, rest) = &&-eq-true (all passes r.checks) _ split in
      (
        pair-IsDistinguished p declared.0 cases passed (ap (λ x. all passes x.checks) same ∙ first),
        pairs-IsDistinguished pairs rs declared.1 cases passed e2 rest,
      )

-- When the run of a declaration that was accepted is accepted itself, each of its pairs is
-- distinguished by what herd7 answered on the pinned files.
pub decide_run-IsDistinguished :
    (files : Files) (value : Json) (w : World) (inventory : List Check) (m : Manifest) (r : Run)
    → load_manifest files value ≡ ok m
    → decide_run w inventory m ≡ ok r
    → r.accepted ≡ true
    → All (IsDistinguished w m) m.pairs
unfolding decide_run
decide_run-IsDistinguished files value w inventory m r loaded decided accepted =
    let l = load_manifest-Loaded files value m loaded in
    let (results, e, k) =
      >>=-eq-ok (collect (run_pair (map (run_case w) m.cases)) m.pairs) _ decided in
    let verdict = ap (λ x. x.accepted) (ok-injective k) ∙ accepted in
    let (i, rest) =
      &&-eq-true (all passes inventory) _ (sym (all-append passes inventory _) ∙ verdict) in
    let (c, ps) =
      &&-eq-true (all passes (checks_of_cases (map (run_case w) m.cases))) _
        (sym (all-append passes (checks_of_cases (map (run_case w) m.cases)) _) ∙ rest) in
    pairs-IsDistinguished w m m.pairs results
      (load_pairs-PairDeclared m.cases _ m.pairs l.pairs_loaded)
      (load_cases-CaseDeclared files _ _ m.cases l.cases_loaded)
      (All-all _ m.cases (sym (checks_of_cases-passed w m.cases) ∙ c)) e ps
