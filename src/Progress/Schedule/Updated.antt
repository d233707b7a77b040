-- ===== src/Progress/Schedule/Updated.antt =====
-- The loop as the kernel writes it: a failed compare-and-swap updates the expected value.
use fragma.Prelude.{
  ℕ, ◌≡◌, refl, ◌∙◌, true, List, [], ◌∷◌, ok, ◌==◌, arith, Bool-cases, inl, inr, ◌⊎◌,
}
use fragma.Progress.Schedule.Steps.{run_zero, run_hit, run_miss}
use fragma.Progress.Schedule.{
  Outcome, successful, zero_exited, Loop, Row, start, interfere, mismatch, exchange, quiesce, run,
  simulate, logged, zero_exit, terminal, quiet_zero, quiet_success,
}

-- The loop ends: with success, or with zero.
abbrev Ends : Outcome → Type 0
Ends o = (o ≡ successful) ⊎ (o ≡ zero_exited)

quiesce-Ends :
    (increment : ℕ) (s : Loop)
    → s.refs ≡ s.expected
    → (o : Outcome) × (t : Loop) × (quiesce increment true s ≡ ok (o, t)) × Ends o
unfolding quiesce
quiesce-Ends increment s e = elim (Bool-cases (s.expected == 0)) [
  | inl z ↦ (zero_exited, quiet_zero s, ground arith, inr refl)
  | inr nz ↦ (successful, quiet_success increment s, ground arith, inl refl)
]

run-Ends :
    (increment : ℕ) (schedule : List ℕ) (s : Loop)
    → s.refs ≡ s.expected
    → (o : Outcome) × (t : Loop) × (run increment true schedule s ≡ ok (o, t)) × Ends o
unfolding run
run-Ends increment [] s e = quiesce-Ends increment s e
run-Ends increment (v ∷ schedule) s e = elim (Bool-cases (s.expected == 0)) [
  | inl z ↦ (
    zero_exited,
    logged s (zero_exit s.refs s.expected),
    run_zero increment true v schedule s z,
    inr refl,
  )
  | inr nz ↦ elim (Bool-cases (v == s.expected)) [
    | inl hit ↦ (
      successful,
      exchange increment (interfere v s),
      run_hit increment true v schedule s nz hit,
      inl refl,
    )
    | inr miss ↦
        let (o, t, p, q) = run-Ends increment schedule (mismatch true (interfere v s)) refl in
        (o, t, run_miss increment true v schedule s nz miss ∙ p, q)
  ]
]

-- For every initial value, every schedule of any length and every increment, the updating loop
-- neither raises nor cycles: it returns a row that ends with success or with zero.
pub simulate_updated_terminates :
    (initial : ℕ) (schedule : List ℕ) (increment : ℕ)
    → (r : Row) × (simulate initial schedule increment true ≡ ok r)
      × ((r.outcome ≡ successful) ⊎ (r.outcome ≡ zero_exited))
unfolding simulate
simulate_updated_terminates initial schedule increment =
    let (o, t, p, q) = run-Ends increment schedule (start initial) refl in
    (terminal initial schedule (o, t), rw p, q)
