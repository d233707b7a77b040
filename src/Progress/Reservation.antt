-- ===== src/Progress/Reservation.antt =====
-- `_bounded_diagnostic` of fragma/concurrency_c3_llsc_progress.py: what a bound on the failures of
-- store-conditional would give.
pub mod Sharp
use fragma.Prelude.{
  ℕ, zero, suc, ◌+◌, Bool, List, [], ◌∷◌, ◌++◌, map, Result, ok, err, ◌>>=◌, length, keep, ◌==◌,
  false,
}
use fragma.Progress.Enumeration.{each_of, product, max_from, max_of, next_of}

-- A row of the enumeration; its outcome is always "completed_under_hypothetical_bound".
pub record Attempt : Type 0 where
  pub source_cas_attempts : ℕ
  pub store_conditional_failures : ℕ
  pub store_conditional_attempts : ℕ
  pub failure_schedule : List ℕ

pub record Diagnostic : Type 0 where
  pub finite_schedules : ℕ
  pub max_source_cas_attempts : ℕ
  pub max_store_conditional_attempts : ℕ
  pub max_store_conditional_failures : ℕ
  pub maximum_witness : Attempt

-- range(i, i + n)
abbrev pub range_from : ℕ → ℕ → List ℕ
range_from i zero = []
range_from i (suc n) = i ∷ range_from (i + 1) n

abbrev pub sum : List ℕ → ℕ
sum [] = 0
sum (x ∷ xs) = x + sum xs

-- `sum(value + 1 for value in failures)`
abbrev pub tries : List ℕ → ℕ
tries [] = 0
tries (x ∷ xs) = x + 1 + tries xs

abbrev pub attempt_row : ℕ → List ℕ → Attempt
attempt_row source failures = record {
  source_cas_attempts = source;
  store_conditional_failures = sum failures;
  store_conditional_attempts = tries failures;
  failure_schedule = failures;
}

unfoldable pub attempt_rows : ℕ → List ℕ → List Attempt
attempt_rows maximum sources =
    each_of (λ n. map (attempt_row n) (product (range_from 0 (maximum + 1)) n)) sources

abbrev pub source_of : Attempt → ℕ
source_of r = r.source_cas_attempts

abbrev pub tries_of : Attempt → ℕ
tries_of r = r.store_conditional_attempts

abbrev pub failed_of : Attempt → ℕ
failed_of r = r.store_conditional_failures

abbrev pub diagnostic_of : List Attempt → ℕ → ℕ → ℕ → Attempt → Diagnostic
diagnostic_of rows most_source most_tries most_failures witness = record {
  finite_schedules = length rows;
  max_source_cas_attempts = most_source;
  max_store_conditional_attempts = most_tries;
  max_store_conditional_failures = most_failures;
  maximum_witness = witness;
}

unfoldable pub bounded_diagnostic : ℕ → List ℕ → Result Diagnostic
unfolding attempt_rows
bounded_diagnostic maximum sources = do
  let rows : List Attempt = attempt_rows maximum sources
  most_tries ← max_of tries_of rows
  most_failures ← max_of failed_of rows
  most_source ← max_of source_of rows
  witness ← next_of (keep (λ (r : Attempt). r.store_conditional_attempts == most_tries) rows)
  ok (diagnostic_of rows most_source most_tries most_failures witness)
