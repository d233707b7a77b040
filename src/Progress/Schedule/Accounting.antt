-- ===== src/Progress/Schedule/Accounting.antt =====
-- What the counters and the final state of a row say, in both variants of the loop.
use fragma.Prelude.{
  ℕ, suc, ◌+◌, ◌≤◌, ◌≡◌, ◌≢◌, refl, sym, ◌∙◌, subst, Bool, List, [], ◌∷◌, Result, ok, ◌==◌, length,
  arith, >>=-eq-ok, ok-injective, Bool-cases, inl, inr,
}
use fragma.Progress.Schedule.Steps.{run_zero, run_hit, run_miss}
use fragma.Progress.Schedule.{
  Outcome, successful, zero_exited, nonterminating, Loop, Row, start, interfere, mismatch, quiesce,
  run, simulate,
}

-- One attempt more than failures after a success, as many else; how the final values stand.
abbrev Explains : ℕ → Outcome → Loop → Type 0
Explains increment successful s =
    (s.attempts ≡ s.failures + 1) × (s.refs ≡ s.expected + increment) × (s.expected ≢ 0)
Explains increment zero_exited s = (s.attempts ≡ s.failures) × (s.expected ≡ 0)
Explains increment nonterminating s =
    (s.attempts ≡ s.failures) × (s.refs ≢ s.expected) × (s.expected ≢ 0)

quiesce-Explains :
    (increment : ℕ) (update : Bool) (s : Loop) (o : Outcome) (t : Loop)
    → s.attempts ≡ s.failures
    → quiesce increment update s ≡ ok (o, t)
    → Explains increment o t × (t.attempts ≤ s.attempts + 1)
unfolding quiesce
quiesce-Explains increment update s successful t e h = ground arith
quiesce-Explains increment update s zero_exited t e h = ground arith
quiesce-Explains increment update s nonterminating t e h = ground arith

-- A round that leaves the loop.
leaves :
    (increment n : ℕ) (s : Loop) {o o' : Outcome} {t t' : Loop} {r : Result (Outcome × Loop)}
    → s.attempts ≡ s.failures
    → r ≡ ok (o', t')
    → r ≡ ok (o, t)
    → Explains increment o' t'
    → t'.attempts ≤ s.attempts + 1
    → Explains increment o t × (t.attempts ≤ s.attempts + suc n + 1)
leaves increment n s {o} {o'} {t} {t'} e p q a b =
    subst
      (λ (x : Outcome × Loop). Explains increment x.0 x.1 × (x.1.attempts ≤ s.attempts + suc n + 1))
      (ok-injective (sym p ∙ q)) (a, omega arith)

run-Explains :
    (increment : ℕ) (update : Bool) (schedule : List ℕ) (s : Loop) (o : Outcome) (t : Loop)
    → s.attempts ≡ s.failures
    → run increment update schedule s ≡ ok (o, t)
    → Explains increment o t × (t.attempts ≤ s.attempts + length schedule + 1)
unfolding run
run-Explains increment update [] s o t e h =
    let (a, b) = quiesce-Explains increment update s o t e h in (a, omega arith)
run-Explains increment update (v ∷ schedule) s o t e h = elim (Bool-cases (s.expected == 0)) [
  | inl z ↦
      leaves increment (length schedule) s e (run_zero increment update v schedule s z) h
        (e, ground arith) (omega arith)
  | inr nz ↦ elim (Bool-cases (v == s.expected)) [
    | inl hit ↦
        leaves increment (length schedule) s e (run_hit increment update v schedule s nz hit) h
          (omega arith, refl, ground arith) (omega arith)
    | inr miss ↦
        let (a, b) =
          run-Explains increment update schedule (mismatch update (interfere v s)) o t (omega arith)
            (sym (run_miss increment update v schedule s nz miss) ∙ h) in
        (a, omega (arith, b))
  ]
]

-- Every row accounts for its attempts, and its final state fits its outcome.
pub record IsAccounted (increment initial : ℕ) (schedule : List ℕ) (r : Row) : Type 0 where
  pub inputs_kept : (r.initial ≡ initial) × (r.schedule ≡ schedule)
  pub bounded : r.cas_attempts ≤ length schedule + 1
  pub after_success :
      r.outcome ≡ successful
      → (r.cas_attempts ≡ r.cas_failures + 1) × (r.refs ≡ r.expected + increment) × (r.expected ≢ 0)
  pub after_zero : r.outcome ≡ zero_exited → (r.cas_attempts ≡ r.cas_failures) × (r.expected ≡ 0)
  pub after_cycle :
      r.outcome ≡ nonterminating
      → (r.cas_attempts ≡ r.cas_failures) × (r.refs ≢ r.expected) × (r.expected ≢ 0)

-- In both variants of the loop, a row has at most one attempt more than the schedule is long;
-- attempts exceed failures by one after a success and are equal to them otherwise; a success has
-- stored the expected value plus the increment, and that value was not zero.
pub simulate-IsAccounted :
    (initial : ℕ) (schedule : List ℕ) (increment : ℕ) (update : Bool) (r : Row)
    → simulate initial schedule increment update ≡ ok r
    → IsAccounted increment initial schedule r
unfolding simulate
simulate-IsAccounted initial schedule increment update r h =
    let ((o, t), e, k) = >>=-eq-ok (run increment update schedule (start initial)) _ h in
    let (a, b) = run-Explains increment update schedule (start initial) o t refl e in
    subst (IsAccounted increment initial schedule) (ok-injective k) (record {
      inputs_kept = (refl, refl);
      bounded = omega arith;
      after_success = λ p. subst (λ x. Explains increment x t) p a;
      after_zero = λ p. subst (λ x. Explains increment x t) p a;
      after_cycle = λ p. subst (λ x. Explains increment x t) p a;
    })
