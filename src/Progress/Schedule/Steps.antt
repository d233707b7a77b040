-- ===== src/Progress/Schedule/Steps.antt =====
-- The three ways through one round of the loop, as equations.
use fragma.Prelude.{ℕ, ◌≡◌, Bool, true, false, List, [], ◌∷◌, ok, ◌==◌, arith}
use fragma.Progress.Schedule.{
  zero_exited, successful, zero_exit, Loop, interfere, exchange, mismatch, run, logged,
  quiet_success,
}

module _ (increment : ℕ) (update : Bool) (v : ℕ) (schedule : List ℕ) (s : Loop) where
  pub run_zero :
      (s.expected == 0) ≡ true
      → run increment update (v ∷ schedule) s
        ≡ ok (zero_exited, logged s (zero_exit s.refs s.expected))
  unfolding run
  run_zero e = ground arith

  pub run_hit :
      (s.expected == 0) ≡ false
      → (v == s.expected) ≡ true
      → run increment update (v ∷ schedule) s ≡ ok (successful, exchange increment (interfere v s))
  unfolding run
  run_hit e f = ground arith

  pub run_miss :
      (s.expected == 0) ≡ false
      → (v == s.expected) ≡ false
      → run increment update (v ∷ schedule) s
        ≡ run increment update schedule (mismatch update (interfere v s))
  unfolding run
  run_miss e f = ground arith

pub run_quiet :
    (increment : ℕ) (update : Bool) (s : Loop)
    → (s.expected == 0) ≡ false
    → (s.refs == s.expected) ≡ true
    → run increment update [] s ≡ ok (successful, quiet_success increment s)
unfolding run
run_quiet increment update s e f = ground arith
