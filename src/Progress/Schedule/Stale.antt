-- ===== src/Progress/Schedule/Stale.antt =====
-- The control whose failed compare-and-swap leaves the expected value as it was.
use fragma.Prelude.{
  ℕ, ◌≡◌, ◌≢◌, refl, ◌∙◌, false, List, [], ◌∷◌, ok, ◌==◌, arith, Bool-cases, inl, inr, ◌↔◌, All,
  is_empty, true, ==_iff,
}
use fragma.Progress.Schedule.Steps.{run_zero, run_hit, run_miss}
use fragma.Progress.Schedule.{
  Outcome, successful, zero_exited, nonterminating, Loop, Row, start, interfere, mismatch, exchange,
  run, simulate, logged, zero_exit, terminal, quiet_cycle, quiet_zero, quiet_success, quiesce,
}

-- No value of the schedule is the expected one.
abbrev pub Misses : ℕ → List ℕ → Type 0
Misses expected = All (λ v. v ≢ expected)

-- With a stale expected value that differs from the counter, the loop cycles exactly if the
-- schedule never shows the expected value.
run_stale :
    (increment : ℕ) (schedule : List ℕ) (s : Loop)
    → s.expected ≢ 0
    → s.refs ≢ s.expected
    → (o : Outcome) × (t : Loop) × (run increment false schedule s ≡ ok (o, t))
      × ((o ≡ nonterminating) ↔ Misses s.expected schedule)
unfolding run
run_stale increment [] s nz ne =
    (nonterminating, quiet_cycle s, ground arith, ((λ e. tt), (λ e. refl)))
run_stale increment (v ∷ schedule) s nz ne = elim (Bool-cases (v == s.expected)) [
  | inl hit ↦ (
    successful,
    exchange increment (interfere v s),
    run_hit increment false v schedule s (ground arith) hit,
    ((λ e. cc), (λ m. absurd (m.0 (ground arith)))),
  )
  | inr miss ↦
      let (o, t, p, q) =
        run_stale increment schedule (mismatch false (interfere v s)) nz (ground arith) in
      (
        o,
        t,
        run_miss increment false v schedule s (ground arith) miss ∙ p,
        ((λ e. (ground arith, q.0 e)), (λ m. q.1 m.1)),
      )
]

-- The first round: the counter still shows the expected value.
first_round :
    (initial v : ℕ) (schedule : List ℕ) (increment : ℕ)
    → (initial == 0) ≡ false
    → (o : Outcome) × (t : Loop) × (run increment false (v ∷ schedule) (start initial) ≡ ok (o, t))
      × ((o ≡ nonterminating) ↔ Misses initial (v ∷ schedule))
first_round initial v schedule increment nz = elim (Bool-cases (v == initial)) [
  | inl hit ↦ (
    successful,
    exchange increment (interfere v (start initial)),
    run_hit increment false v schedule (start initial) nz hit,
    ((λ e. cc), (λ m. absurd (m.0 (ground arith)))),
  )
  | inr miss ↦
      let (o, t, p, q) =
        run_stale increment schedule (mismatch false (interfere v (start initial))) (ground arith)
          (ground arith) in
      (
        o,
        t,
        run_miss increment false v schedule (start initial) nz miss ∙ p,
        ((λ e. (ground arith, q.0 e)), (λ m. q.1 m.1)),
      )
]

-- A schedule with a first value.
simulate_stale_cons :
    (initial v : ℕ) (schedule : List ℕ) (increment : ℕ)
    → (r : Row) × (simulate initial (v ∷ schedule) increment false ≡ ok r)
      × ((r.outcome ≡ nonterminating) ↔ ((initial ≢ 0) × Misses initial (v ∷ schedule)))
unfolding simulate
simulate_stale_cons initial v schedule increment = elim (Bool-cases (initial == 0)) [
  | inl z ↦ (
    terminal initial (v ∷ schedule)
        (zero_exited, logged (start initial) (zero_exit initial initial)),
    rw (run_zero increment false v schedule (start initial) z),
    ((λ e. cc), (λ m. absurd (m.0 (ground arith)))),
  )
  | inr nz ↦
      let (o, t, p, q) = first_round initial v schedule increment nz in
      (terminal initial (v ∷ schedule) (o, t), rw p, ((λ e. (ground arith, q.0 e)), (λ m. q.1 m.1)))
]

-- For every schedule, the control with a stale expected value returns a row, and it is nonterminating
-- exactly if the schedule is not empty and the initial value is not zero and does not occur in it.
pub simulate_stale_cycles_iff :
    (initial : ℕ) (schedule : List ℕ) (increment : ℕ)
    → (r : Row) × (simulate initial schedule increment false ≡ ok r)
      × ((r.outcome ≡ nonterminating)
          ↔ ((is_empty schedule ≡ false) × (initial ≢ 0) × Misses initial schedule))
unfolding simulate run quiesce
simulate_stale_cycles_iff initial [] increment = elim (Bool-cases (initial == 0)) [
  | inl z ↦ (
    terminal initial [] (zero_exited, quiet_zero (start initial)),
    rw z refl,
    ((λ e. cc), (λ m. cc)),
  )
  | inr nz ↦
      let same : (initial == initial) ≡ true = (==_iff initial initial).1 refl in
      (
        terminal initial [] (successful, quiet_success increment (start initial)),
        rw (nz, same) refl,
        ((λ e. cc), (λ m. cc)),
      )
]
simulate_stale_cycles_iff initial (v ∷ schedule) increment =
    let (r, p, q) = simulate_stale_cons initial v schedule increment in
    (r, p, ((λ e. (refl, (q.0 e).0, (q.0 e).1)), (λ m. q.1 (m.1, m.2))))
