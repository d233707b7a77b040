-- ===== src/Progress/Aggregate/Verdict.antt =====
-- The aggregate of the updating loop, for every domain.
use fragma.Prelude.{
  ℕ, suc, ◌+◌, ◌*◌, ◌≤◌, ◌<◌, ◌≡◌, refl, ◌∙◌, ap, true, List, [], ◌∷◌, length, All, All-imp, arith,
  inl, inr, ◌⊎◌, none, ok, collect, keep, ◌==◌,
}
use fragma.Progress.Enumeration.{max_from}
use fragma.Progress.Enumeration.Maximum.{attained, next_of_found, max_from-le}
use fragma.Progress.Schedule.{successful, zero_exited, Row}
use fragma.Progress.Schedule.Accounting.{simulate-IsAccounted}
use fragma.Progress.Schedule.Updated.{simulate_updated_terminates}
use fragma.Progress.Aggregate.{
  Domain, Aggregate, cases, rows, aggregate, summarize, simulate_case, attempts_of, failures_of,
  is_successful, is_zero_exit, is_nonterminating, first, totals,
}
use fragma.Progress.Aggregate.Totals.{length-cases, power_sum, power_sum-pos, cases-within}

-- What every row of the updating loop satisfies, under a bound on the attempts.
record IsGood (bound : ℕ) (r : Row) : Type 0 where
  ends : (r.outcome ≡ successful) ⊎ (r.outcome ≡ zero_exited)
  few : r.cas_attempts ≤ bound

-- A comprehension of calls that all return.
collect_total :
    (d : Domain) (bound : ℕ) (xs : List (ℕ × List ℕ))
    → All (λ x. length x.1 + 1 ≤ bound) xs
    → (rs : List Row) × (collect (simulate_case d true) xs ≡ ok rs)
      × (length rs ≡ length xs)
      × All (IsGood bound) rs
collect_total d bound [] a = ([], refl, refl, tt)
collect_total d bound (x ∷ xs) a =
    let (r, p, q) = simulate_updated_terminates x.0 x.1 d.increment in
    let (rs, e, l, g) = collect_total d bound xs a.1 in
    let counted = simulate-IsAccounted x.0 x.1 d.increment true r p in
    (r ∷ rs, rw (p, e), ap suc l, (record { ends = q; few = omega (arith, counted.bounded) }, g))

counts :
    (bound : ℕ) (rs : List Row)
    → All (IsGood bound) rs
    → (length (keep is_successful rs) + length (keep is_zero_exit rs) ≡ length rs)
      × (keep is_nonterminating rs ≡ [])
counts bound [] g = (refl, refl)
counts bound (r ∷ rs) g = elim g.0.ends [
  | inl e ↦ ground (arith, e, counts bound rs g.1)
  | inr e ↦ ground (arith, e, counts bound rs g.1)
]

-- The verdict on a domain: how many rows there are, and how they end.
pub record IsBoundedProgress (d : Domain) (a : Aggregate) : Type 0 where
  pub total_is :
      a.total_schedules
      ≡ length d.initial_values
        * power_sum (length d.interference_values) d.max_interference_observations
  pub all_end : a.successful_rows + a.zero_exit_rows ≡ a.total_schedules
  pub none_cycles : (a.nonterminating_rows ≡ 0) × (a.nonterminating_witness ≡ none)
  pub few_attempts : a.max_cas_attempts ≤ d.max_interference_observations + 1

summarize_good :
    (d : Domain) (r : Row) (rs : List Row)
    → length (r ∷ rs)
      ≡ length d.initial_values
        * power_sum (length d.interference_values) d.max_interference_observations
    → All (IsGood (d.max_interference_observations + 1)) (r ∷ rs)
    → (a : Aggregate) × (summarize (r ∷ rs) ≡ ok a) × IsBoundedProgress d a
unfolding summarize
summarize_good d r rs total g =
    let bound : ℕ = d.max_interference_observations + 1 in
    let most : ℕ = max_from attempts_of r.cas_attempts rs in
    let (w, i, e) = attained attempts_of r rs in
    let (x, found) = next_of_found (λ (y : Row). y.cas_attempts == most) w (r ∷ rs) i e in
    let (ends, cycles) = counts bound (r ∷ rs) g in
    (
      totals (r ∷ rs) most (max_from failures_of r.cas_failures rs) x,
      rw found,
      record {
        total_is = total;
        all_end = ends;
        none_cycles = (ap length cycles, ap first cycles);
        few_attempts =
            max_from-le attempts_of bound r.cas_attempts rs g.0.few
              (All-imp (IsGood bound) _ rs (λ x h. h.few) g.1);
      },
    )

-- There is a row, so the maxima exist.
summarize_some :
    (d : Domain) (rs : List Row)
    → 0 < length d.initial_values
    → length rs
      ≡ length d.initial_values
        * power_sum (length d.interference_values) d.max_interference_observations
    → All (IsGood (d.max_interference_observations + 1)) rs
    → (a : Aggregate) × (summarize rs ≡ ok a) × IsBoundedProgress d a
summarize_some d [] p total g =
    absurd
      (grind (arith, power_sum-pos (length d.interference_values) d.max_interference_observations))
summarize_some d (r ∷ rs) p total g = summarize_good d r rs total g

-- From a domain with an initial value the updating loop has an aggregate: its total is the number
-- of initial values times the number of schedules up to the bound, every row ends with success or
-- zero, none cycles, and no row has more attempts than the bound plus one.
pub aggregate-IsBoundedProgress :
    (d : Domain) (initial : ℕ) (others : List ℕ)
    → d.initial_values ≡ initial ∷ others
    → (a : Aggregate) × (aggregate d true ≡ ok a) × IsBoundedProgress d a
unfolding aggregate rows
aggregate-IsBoundedProgress d initial others e =
    let (rs, p, l, g) =
      collect_total d (d.max_interference_observations + 1) (cases d) (cases-within d) in
    let (a, q, v) = summarize_some d rs (omega (arith, ap length e)) (l ∙ length-cases d) g in
    (a, rw p q, v)
