-- ===== src/Progress/Cycles/Starvation.antt =====
-- Two values that alternate keep the loop from ever succeeding, for any number of rounds.
use fragma.Prelude.{
  ℕ, zero, suc, ◌+◌, ◌*◌, ◌≡◌, ◌≢◌, refl, sym, ap, ◌∙◌, true, false, List, [], ◌∷◌, ok, ◌==◌,
  length, arith,
}
use fragma.Progress.Cycles.{CasState, Cycle, chase, last_state, same_state, interference_cycle}
use fragma.Progress.Schedule.{
  successful, Loop, Row, start, interfere, mismatch, run, simulate, terminal, quiet_success,
}
use fragma.Progress.Schedule.Steps.{run_miss, run_quiet}

-- b, a, b, a, …: `n` times both.
abbrev pub alternate : ℕ → ℕ → ℕ → List ℕ
alternate a b zero = []
alternate a b (suc n) = b ∷ a ∷ alternate a b n

abbrev at : ℕ → CasState
at a = record { refs = a; expected = a }

abbrev visited : ℕ → ℕ → ℕ → List CasState
visited a b zero = []
visited a b (suc n) = at b ∷ at a ∷ visited a b n

different : (a b : ℕ) → a ≢ b → (a == b) ≡ false
different a b h = ground arith

chase-alternate : (a b n : ℕ) → a ≢ b → chase (alternate a b n) (at a) ≡ ok (visited a b n)
unfolding chase
chase-alternate a b zero h = refl
chase-alternate a b (suc n) h =
    rw (different b a (λ e. h (sym e)), different a b h, chase-alternate a b n h)

last_visited : (a b n : ℕ) → last_state (at a) (visited a b n) ≡ at a
last_visited a b zero = refl
last_visited a b (suc n) = last_visited a b n

length-visited : (a b n : ℕ) → length (visited a b n) ≡ length (alternate a b n)
length-visited a b zero = refl
length-visited a b (suc n) = ap (λ k. suc (suc k)) (length-visited a b n)

-- For two different values, every number of rounds of their interference is survived with no
-- success and leads back to the state it began in: the control always finds its cycle.
pub interference_cycle_found :
    (a b n : ℕ)
    → a ≢ b
    → (c : Cycle) × (interference_cycle a (alternate a b n) ≡ ok c)
      × (c.cycle_found ≡ true)
      × (length c.states ≡ c.cycle_length + 1)
unfolding interference_cycle
interference_cycle_found a b n h = (
  record {
    cycle_found = same_state (last_state (at a) (visited a b n)) (at a);
    cycle_length = length (alternate a b n);
    states = at a ∷ visited a b n;
  },
  rw (chase-alternate a b n h),
  rw (last_visited a b n) (ground arith),
  omega (arith, length-visited a b n),
)

-- Both rounds of one alternation fail.
abbrev two_rounds : ℕ → ℕ → Loop → Loop
two_rounds a b s = mismatch true (interfere a (mismatch true (interfere b s)))

run-alternate :
    (a b increment n : ℕ) (s : Loop)
    → a ≢ b
    → a ≢ 0
    → b ≢ 0
    → s.refs ≡ a
    → s.expected ≡ a
    → (t : Loop) × (run increment true (alternate a b n) s ≡ ok (successful, t))
      × (t.failures ≡ s.failures + 2 * n)
run-alternate a b increment zero s h p q r e = (
  quiet_success increment s,
  run_quiet increment true s (ground arith) (ground arith),
  omega arith,
)
run-alternate a b increment (suc n) s h p q r e =
    let (t, x, y) = run-alternate a b increment n (two_rounds a b s) h p q refl refl in
    (
      t,
      run_miss increment true b (a ∷ alternate a b n) s (ground arith) (ground arith)
          ∙ run_miss increment true a (alternate a b n) (mismatch true (interfere b s))
              (ground arith) (ground arith)
          ∙ x,
      omega (arith, y),
    )

-- The failures of the bounded model have no bound that holds for every schedule: under `n` rounds
-- of two different values, not zero, the updating loop fails 2 * n times before it succeeds.
pub simulate_starved :
    (a b increment n : ℕ)
    → a ≢ b
    → a ≢ 0
    → b ≢ 0
    → (r : Row) × (simulate a (alternate a b n) increment true ≡ ok r)
      × (r.cas_failures ≡ 2 * n)
      × (r.outcome ≡ successful)
unfolding simulate
simulate_starved a b increment n h p q =
    let (t, x, y) = run-alternate a b increment n (start a) h p q refl refl in
    (terminal a (alternate a b n) (successful, t), rw x, omega (arith, y), refl)
