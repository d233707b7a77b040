-- ===== src/Lkmm/Run/Observed.antt =====
-- What the checks of run_c3_lkmm of fragma/concurrency_c3_lkmm.py on a case say when they pass.
use fragma.Prelude.{
  ◌≡◌, refl, sym, ◌∙◌, subst, Bool, true, false, not, ◌&&◌, List, [], ◌∷◌, ◌++◌, String, str_eq,
  eq_iff, Result, ok, err, all, map, All, All-all, All-imp, arith, any-get, All-get, member, codes,
  text_eq, text_eq_sound, ==_iff, &&-eq-true, ◌==◌, is_empty,
}
use fragma.Lkmm.Cases.{Case, Expected}
use fragma.Lkmm.Herd.{Core, Herd, parse_herd_output}
use fragma.Lkmm.Source.{code_without_comments, operation_present}
use fragma.Lkmm.Run.{
  World, passes, run_case, case_checks, as_expected, same_result, parsed_of, same_flags, has_parsed,
  required_check, forbidden_check,
}

pub all-append {ℓ} :
    {A : Type ℓ} (p : A → Bool) (xs ys : List A) → all p (xs ++ ys) ≡ (all p xs && all p ys)
all-append p [] ys = refl
all-append p (x ∷ xs) ys = ground (arith, all-append p xs ys)

pub All-map {ℓ κ} :
    {A : Type ℓ} {B : Type κ} (P : B → Type 0) (f : A → B) (xs : List A)
    → All P (map f xs)
    → All (λ x. P (f x)) xs
All-map P f [] h = tt
All-map P f (x ∷ xs) h = (h.0, All-map P f xs h.1)

-- What holds of all names of a list holds of each member.
pub All-member :
    (P : String → Type 0) (xs : List String) (name : String)
    → All P xs
    → member name xs ≡ true
    → P name
All-member P xs name a h =
    let (i, x, found, same) = any-get (λ y. str_eq y name) xs h in
    subst P ((eq_iff x name).0 same) (All-get P xs i a found)

-- The code of a case's litmus test calls the operation.
abbrev pub calls : World → Case → String → Bool
calls w c op = operation_present w.letter (code_without_comments (w.read c.path)) op

-- The case was run on the file that the declaration pins, and herd7 answered what it declares.
pub record CaseObserved (w : World) (c : Case) : Type 0 where
  pub pinned : c.sha256 ≡ w.sha256 c.path
  pub output : Herd
  pub parsed : parse_herd_output (w.herd c).stdout ≡ ok output
  pub observation : codes c.expected.observation ≡ output.core.observation
  pub positive : c.expected.positive ≡ output.core.positive
  pub condition : codes c.expected.condition ≡ output.core.condition
  pub uses : All (λ op. calls w c op ≡ true) c.required
  pub avoids : All (λ op. calls w c op ≡ false) c.forbidden

record SameResult (e : Expected) (c : Core) : Type 0 where
  observation : codes e.observation ≡ c.observation
  positive : e.positive ≡ c.positive
  condition : codes e.condition ≡ c.condition

same_result-SameResult : (e : Expected) (c : Core) → same_result e c ≡ true → SameResult e c
unfolding same_result
same_result-SameResult e c h =
    let (h1, hash) = &&-eq-true _ (text_eq (codes e.hash) c.hash) h in
    let (h2, observation) = &&-eq-true _ (text_eq (codes e.observation) c.observation) h1 in
    let (h3, condition) = &&-eq-true _ (text_eq (codes e.condition) c.condition) h2 in
    let (h4, flags) = &&-eq-true _ (same_flags e.flags c.flags) h3 in
    let (h5, negative) = &&-eq-true _ (e.negative == c.negative) h4 in
    let (h6, positive) = &&-eq-true _ (e.positive == c.positive) h5 in
    record {
      observation = text_eq_sound _ _ observation;
      positive = (==_iff _ _).0 positive;
      condition = text_eq_sound _ _ condition;
    }

-- A result that is as expected was parsed.
expected-parsed :
    (e : Expected) (r : Result Herd)
    → as_expected e (parsed_of r) ≡ true
    → (h : Herd) × (r ≡ ok h) × SameResult e h.core
unfolding as_expected
expected-parsed e (ok h) k = (h, refl, same_result-SameResult e h.core k)
expected-parsed e (err message) k = cc

negated : (b : Bool) → not b ≡ true → b ≡ false
negated true h = cc
negated false h = refl

pub run_case-CaseObserved : (w : World) (c : Case) → (run_case w c).passed ≡ true → CaseObserved w c
unfolding run_case case_checks
run_case-CaseObserved w c h =
    let (a1, h1) = &&-eq-true (str_eq c.sha256 (w.sha256 c.path)) _ h in
    let (a2, h2) = &&-eq-true (not (w.herd c).timed_out) _ h1 in
    let (a3, h3) = &&-eq-true (w.herd c).exit_ok _ h2 in
    let (a4, h4) = &&-eq-true (is_empty (w.herd c).stderr) _ h3 in
    let (a5, h5) = &&-eq-true (has_parsed (parsed_of (parse_herd_output (w.herd c).stdout))) _ h4 in
    let (a6, h6) =
      &&-eq-true (as_expected c.expected (parsed_of (parse_herd_output (w.herd c).stdout))) _ h5 in
    let (a7, a8) = &&-eq-true _ _ (
      sym (
        all-append passes (map (required_check w c) c.required)
          (map (forbidden_check w c) c.forbidden))
      ∙ h6) in
    let (output, parsed, same) = expected-parsed c.expected _ a6 in
    record {
      pinned = (eq_iff _ _).0 a1;
      output = output;
      parsed = parsed;
      observation = same.observation;
      positive = same.positive;
      condition = same.condition;
      uses = All-map (λ k. k.passed ≡ true) (required_check w c) c.required (All-all passes _ a7);
      avoids =
          All-imp _ _ c.forbidden (λ op k. negated (calls w c op) k)
            (All-map (λ k. k.passed ≡ true) (forbidden_check w c) c.forbidden
              (All-all passes _ a8));
    }
