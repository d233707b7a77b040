-- ===== src/Progress/Aggregate.antt =====
-- `_bounded_progress_aggregate`: every schedule of a bounded domain, and what the rows add up to.
pub mod Totals
pub mod Verdict
use fragma.Prelude.{
  ℕ, zero, suc, ◌+◌, ◌*◌, ◌^◌, ◌≤◌, ◌<◌, ◌≡◌, ◌≢◌, refl, sym, ◌∙◌, subst, ap, Bool, true, false,
  not, ◌&&◌, ◌||◌, List, [], ◌∷◌, ◌++◌, map, length, length-append, length-map, All, All-append,
  All-imp, arith, inl, inr, ◌⊎◌, Option, none, some, Result, ok, err, ◌>>=◌, collect, ltb, leb,
  keep, Bool-cases, ◌==◌, if◌then◌else◌, keep_hit, keep_miss, >>=-eq-ok, ok-injective,
}
use fragma.Progress.Enumeration.{each_of, product, larger, max_from, max_of, next_of}
use fragma.Progress.Schedule.{Outcome, successful, zero_exited, nonterminating, Row, simulate}

-- `progress["domain"]`
pub record Domain : Type 0 where
  pub initial_values : List ℕ
  pub interference_values : List ℕ
  pub max_interference_observations : ℕ
  pub increment : ℕ

pub record Aggregate : Type 0 where
  pub total_schedules : ℕ
  pub successful_rows : ℕ
  pub zero_exit_rows : ℕ
  pub nonterminating_rows : ℕ
  pub max_cas_attempts : ℕ
  pub max_failures : ℕ
  pub max_attempt_witness : Row
  pub nonterminating_witness : Option Row

-- `for length in range(n + 1) for schedule in product(...)`
unfoldable pub schedules : List ℕ → ℕ → List (List ℕ)
unfolding product
schedules values zero = product values zero
schedules values (suc n) = schedules values n ++ product values (suc n)

unfoldable pub cases : Domain → List (ℕ × List ℕ)
unfolding schedules
cases d =
    each_of
      (λ initial.
        map (λ s. (initial, s)) (schedules d.interference_values d.max_interference_observations))
      d.initial_values

abbrev pub simulate_case : Domain → Bool → ℕ × List ℕ → Result Row
simulate_case d update_expected (initial, s) = simulate initial s d.increment update_expected

unfoldable pub rows : Domain → Bool → Result (List Row)
unfolding cases simulate
rows d update_expected = collect (simulate_case d update_expected) (cases d)

abbrev pub attempts_of : Row → ℕ
attempts_of r = r.cas_attempts

abbrev pub failures_of : Row → ℕ
failures_of r = r.cas_failures

abbrev pub is_successful : Row → Bool
is_successful r = elim r.outcome [ successful ↦ true | _ ↦ false ]

abbrev pub is_zero_exit : Row → Bool
is_zero_exit r = elim r.outcome [ zero_exited ↦ true | _ ↦ false ]

abbrev pub is_nonterminating : Row → Bool
is_nonterminating r = elim r.outcome [ nonterminating ↦ true | _ ↦ false ]

abbrev pub first : List Row → Option Row
first [] = none
first (r ∷ rs) = some r

abbrev pub totals : List Row → ℕ → ℕ → Row → Aggregate
totals rs max_attempts max_failures witness = record {
  total_schedules = length rs;
  successful_rows = length (keep is_successful rs);
  zero_exit_rows = length (keep is_zero_exit rs);
  nonterminating_rows = length (keep is_nonterminating rs);
  max_cas_attempts = max_attempts;
  max_failures = max_failures;
  max_attempt_witness = witness;
  nonterminating_witness = first (keep is_nonterminating rs);
}

unfoldable pub summarize : List Row → Result Aggregate
unfolding max_from
summarize rs = do
  max_attempts ← max_of attempts_of rs
  max_failures ← max_of failures_of rs
  witness ← next_of (keep (λ (r : Row). r.cas_attempts == max_attempts) rs)
  ok (totals rs max_attempts max_failures witness)

unfoldable pub aggregate : Domain → Bool → Result Aggregate
unfolding rows summarize
aggregate d update_expected = do rs ← rows d update_expected; summarize rs
