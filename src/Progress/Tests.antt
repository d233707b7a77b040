-- ===== src/Progress/Tests.antt =====
-- The progress models at the configured domain, and at small inputs.
use mathlib.Core.List.{Memᴰ}
use fragma.Prelude.{
  is_empty, ℕ, ◌+◌, ◌*◌, ◌≡◌, ◌≢◌, refl, true, false, [], ◌∷◌, length, ok, ◌⊎◌, ◌↔◌, arith,
}
use fragma.Progress.Schedule.{
  Row, successful, zero_exited, nonterminating, initial_read, interference_observation,
  cas_mismatch, cas_success, quiescent_stale_expected_cycle, run, simulate,
}
use fragma.Progress.Schedule.Accounting.{IsAccounted, simulate-IsAccounted}
use fragma.Progress.Schedule.Updated.{simulate_updated_terminates}
use fragma.Progress.Schedule.Stale.{Misses, simulate_stale_cycles_iff}
use fragma.Progress.Aggregate.{Domain, Aggregate, cases, aggregate}
use fragma.Progress.Aggregate.Totals.{mem-cases}
use fragma.Progress.Aggregate.Verdict.{IsBoundedProgress, aggregate-IsBoundedProgress}
use fragma.Progress.Cycles.{Cycle, interference_cycle}
use fragma.Progress.Cycles.Starvation.{alternate, interference_cycle_found, simulate_starved}
use fragma.Progress.Reservation.{Diagnostic, bounded_diagnostic}
use fragma.Progress.Reservation.Sharp.{IsSharp, bounded_diagnostic-IsSharp}

-- The counter changes from 1 to 3, and is 3 at the second attempt.
abbrev retried : Row
retried = record {
  outcome = successful;
  initial = 1;
  schedule = 3 ∷ 3 ∷ [];
  cas_attempts = 2;
  cas_failures = 1;
  refs = 4;
  expected = 3;
  trace =
      initial_read 1 1
      ∷ interference_observation 3 1
      ∷ cas_mismatch 3 1 3
      ∷ interference_observation 3 3
      ∷ cas_success 4 3
      ∷ [];
}

simulate-retried : simulate 1 (3 ∷ 3 ∷ []) 1 true ≡ ok retried
unfolding simulate run
simulate-retried = refl

abbrev stale_row : Row
stale_row = record {
  outcome = nonterminating;
  initial = 1;
  schedule = 2 ∷ [];
  cas_attempts = 2;
  cas_failures = 2;
  refs = 2;
  expected = 1;
  trace =
      initial_read 1 1
      ∷ interference_observation 2 1
      ∷ cas_mismatch 2 1 1
      ∷ quiescent_stale_expected_cycle 2 1
      ∷ [];
}

simulate-stale_row : simulate 1 (2 ∷ []) 1 false ≡ ok stale_row
unfolding simulate run
simulate-stale_row = refl

-- config/concurrency-c3-ipc-refcount.json
abbrev domain : Domain
domain = record {
  initial_values = 0 ∷ 1 ∷ 2 ∷ 3 ∷ [];
  interference_values = 0 ∷ 1 ∷ 2 ∷ 3 ∷ [];
  max_interference_observations = 3;
  increment = 1;
}

simulate-IsAccounted_example : IsAccounted 1 1 (3 ∷ 3 ∷ []) retried
simulate-IsAccounted_example = simulate-IsAccounted 1 (3 ∷ 3 ∷ []) 1 true retried simulate-retried

simulate_updated_terminates_example :
    (r : Row) × (simulate 1 (3 ∷ 0 ∷ []) 1 true ≡ ok r)
    × ((r.outcome ≡ successful) ⊎ (r.outcome ≡ zero_exited))
simulate_updated_terminates_example = simulate_updated_terminates 1 (3 ∷ 0 ∷ []) 1

simulate_stale_cycles_iff_example :
    (r : Row) × (simulate 1 (2 ∷ []) 1 false ≡ ok r)
    × ((r.outcome ≡ nonterminating)
        ↔ ((is_empty {A = ℕ} (2 ∷ []) ≡ false) × (◌≢◌ {A = ℕ} 1 0) × Misses 1 (2 ∷ [])))
simulate_stale_cycles_iff_example = simulate_stale_cycles_iff 1 (2 ∷ []) 1

aggregate-IsBoundedProgress_example :
    (a : Aggregate) × (aggregate domain true ≡ ok a) × IsBoundedProgress domain a
aggregate-IsBoundedProgress_example = aggregate-IsBoundedProgress domain 0 (1 ∷ 2 ∷ 3 ∷ []) refl

domain_has_schedule : Memᴰ (1, 3 ∷ []) (cases domain)
domain_has_schedule =
    mem-cases domain 1 (3 ∷ []) (Memᴰ.tail (Memᴰ.head refl))
      (Memᴰ.tail (Memᴰ.tail (Memᴰ.tail (Memᴰ.head refl))), tt) (omega arith)

interference_cycle_found_example :
    (c : Cycle) × (interference_cycle 1 (alternate 1 2 1) ≡ ok c)
    × (c.cycle_found ≡ true)
    × (length c.states ≡ c.cycle_length + 1)
interference_cycle_found_example = interference_cycle_found 1 2 1 (omega arith)

simulate_starved_example :
    (r : Row) × (simulate 1 (alternate 1 2 5) 1 true ≡ ok r)
    × (r.cas_failures ≡ 2 * 5)
    × (r.outcome ≡ successful)
simulate_starved_example = simulate_starved 1 2 1 5 (omega arith) (omega arith) (omega arith)

-- The diagnostic of config/concurrency-c3-llsc-progress.json: 1 to 4 attempts, 2 failures each.
bounded_diagnostic-IsSharp_example :
    (d : Diagnostic) × (bounded_diagnostic 2 (1 ∷ 2 ∷ 3 ∷ 4 ∷ []) ≡ ok d)
    × IsSharp 2 4 (1 ∷ 2 ∷ 3 ∷ 4 ∷ []) d
bounded_diagnostic-IsSharp_example =
    bounded_diagnostic-IsSharp 2 4 (1 ∷ 2 ∷ 3 ∷ 4 ∷ [])
      (Memᴰ.tail (Memᴰ.tail (Memᴰ.tail (Memᴰ.head refl)))) (omega arith)
