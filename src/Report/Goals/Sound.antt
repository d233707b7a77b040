-- ===== src/Report/Goals/Sound.antt =====
-- `_wp_rows`: which goals count as valid.
use fragma.Prelude.{
  ◌≡◌, refl, sym, ap, ◌∙◌, subst, ◌≤◌, true, false, not, List, [], ◌∷◌, Option, none, some, String,
  ok, leb, leb→le, member, >>=-eq-ok, require-eq-ok, ok-injective, Both, arith,
}
use fragma.Report.Rows.{Goal}
use fragma.Report.Goals.{
  RawProver, RawGoal, text_field, required, prover_successes, goal_outcome, nonempty_provers,
  goal_row, Identity, Judgement, goal_identity, goal_judgement, goal_rows, wp_rows, wp_verdicts,
}
use fragma.Report.Goals.Outcomes.{
  goal_outcome_valid, goal_outcome_smoke, HasSuccess, required-eq-ok, successes-HasSuccess,
}

-- What a parsed goal says of the goal of the report.
pub record IsParsed (resolve : String → String) (raw : Option RawGoal) (g : Goal) : Type 0 where
  pub goal : RawGoal
  pub given : raw ≡ some goal
  pub same_goal : goal.goal ≡ some g.goal
  pub same_property : goal.property ≡ some g.property
  pub same_verdict : goal.verdict ≡ some g.verdict
  pub line : (goal.line ≡ some g.line) × (1 ≤ g.line)
  pub valid_only :
      g.outcome ≡ "valid"
      → (goal.smoke ≡ some false)
        × (goal.passed ≡ some true)
        × (g.verdict ≡ "valid")
        × ((provers : List (Option RawProver)) × (goal.provers ≡ some provers) × HasSuccess provers)
  pub smoke_proved : g.smoke ≡ true → g.verdict ≡ "valid" → g.outcome ≡ "inconsistent"

text_field-eq-ok :
    (message : String) (o : Option String) {s : String} → text_field message o ≡ ok s → o ≡ some s
unfolding text_field
text_field-eq-ok message none h = absurd (ground arith)
text_field-eq-ok message (some t) h =
    let (filled, h1) = require-eq-ok _ _ _ h in ap some (ok-injective h1)

nonempty_provers-eq-ok :
    (o : Option (List (Option RawProver))) {ps : List (Option RawProver)}
    → nonempty_provers o ≡ ok ps
    → o ≡ some ps
unfolding nonempty_provers
nonempty_provers-eq-ok none h = absurd (ground arith)
nonempty_provers-eq-ok (some []) h = absurd (ground arith)
nonempty_provers-eq-ok (some (p ∷ ps)) h = ap some (ok-injective h)

goal_identity-eq-ok :
    (r : RawGoal) {i : Identity}
    → goal_identity r ≡ ok i
    → (r.goal ≡ some i.goal) × (r.property ≡ some i.property) × (r.verdict ≡ some i.verdict)
unfolding goal_identity
goal_identity-eq-ok r {i} h =
    let (goal, e1, h1) = >>=-eq-ok (text_field "WP goal has no goal" r.goal) _ h in
    let (property, e2, h2) = >>=-eq-ok (text_field "WP goal has no property" r.property) _ h1 in
    let (function, e3, h3) = >>=-eq-ok (text_field "WP goal has no function" r.function) _ h2 in
    let (file, e4, h4) = >>=-eq-ok (text_field "WP goal has no file" r.file) _ h3 in
    let (verdict, e5, h5) = >>=-eq-ok (text_field "WP goal has no verdict" r.verdict) _ h4 in
    let made = ok-injective h5 in
    (
      text_field-eq-ok _ r.goal e1 ∙ ap (λ (x : Identity). some x.goal) made,
      text_field-eq-ok _ r.property e2 ∙ ap (λ (x : Identity). some x.property) made,
      text_field-eq-ok _ r.verdict e5 ∙ ap (λ (x : Identity). some x.verdict) made,
    )

-- What the judgement of a goal with the given verdict says of the report.
record IsJudged (verdict : String) (r : RawGoal) (j : Judgement) : Type 0 where
  line : (r.line ≡ some j.line) × (1 ≤ j.line)
  valid_only :
      j.outcome ≡ "valid"
      → (r.smoke ≡ some false)
        × (r.passed ≡ some true)
        × (verdict ≡ "valid")
        × ((provers : List (Option RawProver)) × (r.provers ≡ some provers) × HasSuccess provers)
  smoke_proved : j.smoke ≡ true → verdict ≡ "valid" → j.outcome ≡ "inconsistent"

goal_judgement-IsJudged :
    (verdict : String) (r : RawGoal) {j : Judgement}
    → goal_judgement verdict r ≡ ok j
    → IsJudged verdict r j
unfolding goal_judgement
goal_judgement-IsJudged verdict r {j} h =
    let (line, e7, h7) = >>=-eq-ok (required "WP goal has no valid source line" r.line) _ h in
    let (positive, h8) = require-eq-ok (leb 1 line) _ _ h7 in
    let (smoke, e9, h9) =
      >>=-eq-ok (required "WP goal has no Boolean smoke/passed fields" r.smoke) _ h8 in
    let (passed, e10, h10) =
      >>=-eq-ok (required "WP goal has no Boolean smoke/passed fields" r.passed) _ h9 in
    let (known, h11) = require-eq-ok (member verdict wp_verdicts) _ _ h10 in
    let (provers, e12, h12) = >>=-eq-ok (nonempty_provers r.provers) _ h11 in
    let (successes, e13, h13) = >>=-eq-ok (prover_successes provers) _ h12 in
    let (outcome, e14, h14) = >>=-eq-ok (goal_outcome smoke verdict passed successes) _ h13 in
    subst (IsJudged verdict r) (ok-injective h14) (record {
      line = (required-eq-ok _ r.line e7, leb→le 1 line positive);
      valid_only = λ v.
          let (ordinary, valid, pass, some_success) =
            goal_outcome_valid smoke verdict passed successes e14 v in
          (
            required-eq-ok _ r.smoke e9 ∙ ap some ordinary,
            required-eq-ok _ r.passed e10 ∙ ap some pass,
            valid,
            (
              provers,
              nonempty_provers-eq-ok r.provers e12,
              successes-HasSuccess provers e13 some_success,
            ),
          );
      smoke_proved = λ s v.
          goal_outcome_smoke verdict passed successes
            (sym (ap (λ b. goal_outcome b verdict passed successes) s) ∙ e14) v;
    })

module _ (resolve : String → String) where
  goal_row-IsParsed :
      (seen : List String) (r : RawGoal) {g : Goal}
      → goal_row resolve seen r ≡ ok g
      → IsParsed resolve (some r) g
  unfolding goal_row
  goal_row-IsParsed seen r {g} h =
      let (i, e1, h1) = >>=-eq-ok (goal_identity r) _ h in
      let (new, h2) = require-eq-ok (not (member i.goal seen)) _ _ h1 in
      let (j, e3, h3) = >>=-eq-ok (goal_judgement i.verdict r) _ h2 in
      let (goal, property, verdict) = goal_identity-eq-ok r e1 in
      let found = goal_judgement-IsJudged i.verdict r e3 in
      subst (IsParsed resolve (some r)) (ok-injective h3) (record {
        goal = r;
        given = refl;
        same_goal = goal;
        same_property = property;
        same_verdict = verdict;
        line = found.line;
        valid_only = found.valid_only;
        smoke_proved = found.smoke_proved;
      })

  goal_rows-IsParsed :
      (seen : List String) (rs : List (Option RawGoal)) {gs : List Goal}
      → goal_rows resolve seen rs ≡ ok gs
      → Both (IsParsed resolve) rs gs
  unfolding goal_rows
  goal_rows-IsParsed seen [] h = subst (Both (IsParsed resolve) []) (ok-injective h) tt
  goal_rows-IsParsed seen (none ∷ rs) h = absurd (ground arith)
  goal_rows-IsParsed seen (some r ∷ rs) h =
      let (g, p, h1) = >>=-eq-ok (goal_row resolve seen r) _ h in
      let (gs, q, h2) = >>=-eq-ok (goal_rows resolve (g.goal ∷ seen) rs) _ h1 in
      subst (Both (IsParsed resolve) (some r ∷ rs)) (ok-injective h2)
        (goal_row-IsParsed seen r p, goal_rows-IsParsed (g.goal ∷ seen) rs q)

  -- Goal by goal: the name, the property, the verdict and the line are those of the report. Only an
  -- ordinary goal that passed, with the verdict "valid" and a prover that counts a success, comes out
  -- as "valid"; a smoke goal with that verdict comes out as "inconsistent".
  pub wp_rows-IsParsed :
      (raws : List (Option RawGoal)) (goals : List Goal)
      → wp_rows resolve (some raws) ≡ ok goals
      → Both (IsParsed resolve) raws goals
  unfolding wp_rows
  wp_rows-IsParsed [] goals h = absurd (ground arith)
  wp_rows-IsParsed (r ∷ rs) goals h = goal_rows-IsParsed [] (r ∷ rs) h
