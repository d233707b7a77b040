-- ===== src/Report/Wp/Clean.antt =====
-- What holds of the goals where the WP branch of `evaluate_target` raises no issue.
use fragma.Prelude.{
  ℕ, ◌≡◌, refl, sym, ap, ◌∙◌, Bool, true, false, not, ◌&&◌, ◌||◌, List, [], ◌∷◌, some, String,
  str_eq, eq_iff, member, any, any-get, keep, get_elem?, All, append_nil, if◌then◌else◌, Bool-cases,
  inl, inr, &&-eq-true, arith, str_differs, ◌⊎◌, keep_miss,
}
use fragma.Verdict.Evaluation.{Issue}
use fragma.Report.Rows.{Goal, Property}
use fragma.Report.Target.{unless}
use fragma.Report.Wp.{
  Expectations, function_issues, smoke_issues, goal_issues, all_goal_issues, required_issue,
  required_issues, baseline_issues, report_issues, wp_issues, is_expected, named, is_reported,
}

pub unless_nil : (holds : Bool) (i : Issue) → unless holds i ≡ [] → holds ≡ true
unless_nil true i h = refl
unless_nil false i h = cc

-- An ordinary goal of the list.
pub record HasGoal (goals : List Goal) (P : Goal → Type 0) : Type 0 where
  pub index : ℕ
  pub goal : Goal
  pub stands : get_elem? goals index ≡ some goal
  pub ordinary : goal.smoke ≡ false
  pub holds : P goal

pub record IsGoalClean (x : Expectations) (g : Goal) : Type 0 where
  pub selected : member g.function x.analysis_functions ≡ true
  pub reviewed : g.smoke ≡ true → g.outcome ≡ "inconsistent" → member g.goal x.reviewed_smoke ≡ true
  pub ran : g.smoke ≡ true → g.outcome ≡ "tool-error" → ⊥
  pub expected : g.smoke ≡ false → is_expected x g ≡ true

function_issues-HasGoal :
    (goals : List Goal) (fs : List String)
    → function_issues goals fs ≡ []
    → All (λ f. HasGoal goals (λ g. g.function ≡ f)) fs
unfolding function_issues
function_issues-HasGoal goals [] h = tt
function_issues-HasGoal goals (f ∷ fs) h =
    let (here, later) = append_nil (unless _ _) (function_issues goals fs) h in
    let (i, g, stands, passes) = any-get _ goals (unless_nil _ _ here) in
    let (ordinary, named) = &&-eq-true (not g.smoke) (str_eq g.function f) passes in
    (
      record {
        index = i;
        goal = g;
        stands = stands;
        ordinary = ground (arith, ordinary);
        holds = (eq_iff g.function f).0 named;
      },
      function_issues-HasGoal goals fs later,
    )

smoke_issues-reviewed :
    (x : Expectations) (g : Goal)
    → smoke_issues x g ≡ []
    → (g.outcome ≡ "inconsistent" → member g.goal x.reviewed_smoke ≡ true)
      × (g.outcome ≡ "tool-error" → ⊥)
unfolding smoke_issues
smoke_issues-reviewed x g h = elim (Bool-cases (str_eq g.outcome "inconsistent")) [
  | inl e ↦ (
    (λ o. unless_nil (member g.goal x.reviewed_smoke) _ (rw (smoke_issues, e) at h)),
    (λ o.
        str_differs "tool-error" "inconsistent" refl
          (sym o ∙ (eq_iff g.outcome "inconsistent").0 e)),
  )
  | inr e ↦
      let ran : not (str_eq g.outcome "tool-error") ≡ true =
        unless_nil (not (str_eq g.outcome "tool-error")) _ (rw (smoke_issues, e) at h) in
      (
        (λ o. absurd (str_differs g.outcome "inconsistent" e o)),
        (λ o.
            let same : str_eq g.outcome "tool-error" ≡ true = (eq_iff g.outcome "tool-error").1 o in
            ground (arith, ran, same)),
      )
]

goal_issues-IsGoalClean : (x : Expectations) (g : Goal) → goal_issues x g ≡ [] → IsGoalClean x g
unfolding goal_issues
goal_issues-IsGoalClean x g h =
    let (selected, rest) =
      append_nil (unless (member g.function x.analysis_functions) _)
        (if g.smoke then smoke_issues x g else unless (is_expected x g) _) h in
    elim (Bool-cases g.smoke) [
      | inl e ↦
          let clean = smoke_issues-reviewed x g (rw e at rest) in
          record {
            selected = unless_nil _ _ selected;
            reviewed = λ s. clean.0;
            ran = λ s. clean.1;
            expected = λ s. absurd (ground (arith, s, e));
          }
      | inr e ↦
          let expected : is_expected x g ≡ true = unless_nil (is_expected x g) _ (rw e at rest) in
          record {
            selected = unless_nil _ _ selected;
            reviewed = λ s. absurd (ground (arith, s, e));
            ran = λ s. absurd (ground (arith, s, e));
            expected = λ s. expected;
          }
    ]

all_goal_issues-IsGoalClean :
    (x : Expectations) (goals : List Goal)
    → all_goal_issues x goals ≡ []
    → All (IsGoalClean x) goals
unfolding all_goal_issues
all_goal_issues-IsGoalClean x [] h = tt
all_goal_issues-IsGoalClean x (g ∷ gs) h =
    let (here, later) = append_nil (goal_issues x g) (all_goal_issues x gs) h in
    (goal_issues-IsGoalClean x g here, all_goal_issues-IsGoalClean x gs later)

any-or-none : (p : Goal → Bool) (goals : List Goal) → (any p goals ≡ true) ⊎ (keep p goals ≡ [])
any-or-none p [] = inr refl
any-or-none p (g ∷ gs) = elim (Bool-cases (p g)) [
  | inl e ↦ inl (rw e refl)
  | inr e ↦ elim (any-or-none p gs) [
    | inl later ↦ inl (rw (e, later) refl)
    | inr empty ↦ inr (keep_miss p g gs e ∙ empty)
  ]
]

required_issues-HasGoal :
    (x : Expectations) (goals : List Goal) (names : List String)
    → required_issues x goals names ≡ []
    → All (λ name. HasGoal goals (λ g. g.property ≡ name)) names
unfolding required_issues required_issue
required_issues-HasGoal x goals [] h = tt
required_issues-HasGoal x goals (name ∷ names) h =
    let (here, later) =
      append_nil (required_issue x name (named name goals)) (required_issues x goals names) h in
    (has_named here, required_issues-HasGoal x goals names later)
  where
    missing : required_issue x name [] ≡ [] → ⊥
    missing e = ground (arith, e)

    has_named :
        required_issue x name (named name goals) ≡ [] → HasGoal goals (λ g. g.property ≡ name)
    has_named e = elim (any-or-none (λ g. not g.smoke && str_eq g.property name) goals) [
      | inl found ↦
          let (i, g, stands, passes) = any-get _ goals found in
          let (ordinary, same) = &&-eq-true (not g.smoke) (str_eq g.property name) passes in
          record {
            index = i;
            goal = g;
            stands = stands;
            ordinary = ground (arith, ordinary);
            holds = (eq_iff g.property name).0 same;
          }
      | inr empty ↦ absurd (missing (sym (ap (required_issue x name) empty) ∙ e))
    ]

or_right : (a b : Bool) → (a || b) ≡ true → a ≡ false → b ≡ true
or_right true b h e = cc
or_right false b h e = h

report_issues-All :
    (properties : List Property) (goals : List Goal)
    → report_issues properties goals ≡ []
    → All (λ g. g.smoke ≡ false → is_reported properties g ≡ true) goals
unfolding report_issues
report_issues-All properties [] h = tt
report_issues-All properties (g ∷ gs) h =
    let (here, later) =
      append_nil (unless (g.smoke || is_reported properties g) _) (report_issues properties gs) h in
    let reported : (g.smoke || is_reported properties g) ≡ true = unless_nil _ _ here in
    ((λ s. or_right g.smoke _ reported s), report_issues-All properties gs later)

-- No issue of the branch: every selected function and every required property has an ordinary goal;
-- every ordinary goal is as expected and is in the consolidated report.
pub record IsWpClean (x : Expectations) (properties : List Property) (goals : List Goal)
    : Type 0 where
  pub functions : All (λ f. HasGoal goals (λ g. g.function ≡ f)) x.analysis_functions
  pub clean : All (IsGoalClean x) goals
  pub required : All (λ name. HasGoal goals (λ g. g.property ≡ name)) x.required
  pub reported : All (λ g. g.smoke ≡ false → is_reported properties g ≡ true) goals

pub wp_issues-IsWpClean :
    (x : Expectations) (properties : List Property) (goals : List Goal)
    → wp_issues x properties goals ≡ []
    → IsWpClean x properties goals
unfolding wp_issues
wp_issues-IsWpClean x properties goals h =
    let (f, h1) = append_nil (function_issues goals x.analysis_functions) _ h in
    let (g, h2) = append_nil (all_goal_issues x goals) _ h1 in
    let (r, h3) = append_nil (required_issues x goals x.required) _ h2 in
    let (b, h4) = append_nil (baseline_issues goals x.required_goals) _ h3 in
    let (p, h5) = append_nil (report_issues properties goals) _ h4 in
    record {
      functions = function_issues-HasGoal goals x.analysis_functions f;
      clean = all_goal_issues-IsGoalClean x goals g;
      required = required_issues-HasGoal x goals x.required r;
      reported = report_issues-All properties goals p;
    }
