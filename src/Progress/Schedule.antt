-- ===== src/Progress/Schedule.antt =====
-- `_simulate_bounded_schedule`: one finite prefix of interference, and then quiescence.
pub mod Steps
pub mod Accounting
pub mod Updated
pub mod Stale
use fragma.Prelude.{
  ℕ, zero, suc, ◌+◌, Bool, true, false, List, [], ◌∷◌, ◌++◌, Result, ok, err, ◌>>=◌, ◌==◌,
  if◌then◌else◌,
}

-- The dicts of `trace`, by their key "event".
pub data Event : Type 0 where
  initial_read zero_exit interference_observation cas_success : ℕ → ℕ → Event
  zero_exit_after_quiescence quiescent_cas_success : ℕ → ℕ → Event
  quiescent_stale_expected_cycle : ℕ → ℕ → Event
  cas_mismatch : ℕ → ℕ → ℕ → Event

pub data Outcome : Type 0 where
  successful zero_exited nonterminating : Outcome

-- The local variables of the loop.
pub record Loop : Type 0 where
  pub refs : ℕ
  pub expected : ℕ
  pub attempts : ℕ
  pub failures : ℕ
  pub trace : List Event

-- What `terminal` returns.
pub record Row : Type 0 where
  pub outcome : Outcome
  pub initial : ℕ
  pub schedule : List ℕ
  pub cas_attempts : ℕ
  pub cas_failures : ℕ
  pub refs : ℕ
  pub expected : ℕ
  pub trace : List Event

abbrev pub logged : Loop → Event → Loop
logged s e = record s { trace = s.trace ++ e ∷ [] }

abbrev pub start : ℕ → Loop
start initial = record {
  refs = initial;
  expected = initial;
  attempts = 0;
  failures = 0;
  trace = initial_read initial initial ∷ [];
}

-- The environment writes, and the loop counts one more attempt.
abbrev pub interfere : ℕ → Loop → Loop
interfere observed s = record {
  refs = observed;
  expected = s.expected;
  attempts = s.attempts + 1;
  failures = s.failures;
  trace = s.trace ++ interference_observation observed s.expected ∷ [];
}

abbrev pub swapped : ℕ → Loop → Loop
swapped increment s = record s { refs = s.expected + increment }

abbrev pub exchange : ℕ → Loop → Loop
exchange increment s =
    logged (swapped increment s) (cas_success (s.expected + increment) s.expected)

abbrev pub mismatch : Bool → Loop → Loop
mismatch update_expected s =
    let after : ℕ = if update_expected then s.refs else s.expected in
    record {
      refs = s.refs;
      expected = after;
      attempts = s.attempts;
      failures = s.failures + 1;
      trace = s.trace ++ cas_mismatch s.refs s.expected after ∷ [];
    }

abbrev pub quiet_zero : Loop → Loop
quiet_zero s = logged s (zero_exit_after_quiescence s.refs s.expected)

abbrev pub quiet_success : ℕ → Loop → Loop
quiet_success increment s = record {
  refs = s.expected + increment;
  expected = s.expected;
  attempts = s.attempts + 1;
  failures = s.failures;
  trace = s.trace ++ quiescent_cas_success (s.expected + increment) s.expected ∷ [];
}

abbrev pub quiet_cycle : Loop → Loop
quiet_cycle s = record {
  refs = s.refs;
  expected = s.expected;
  attempts = s.attempts + 1;
  failures = s.failures + 1;
  trace = s.trace ++ quiescent_stale_expected_cycle s.refs s.expected ∷ [];
}

-- Behind the schedule: one more attempt with no interference.
unfoldable pub quiesce : ℕ → Bool → Loop → Result (Outcome × Loop)
quiesce increment update_expected s =
    if s.expected == 0
    then ok (zero_exited, quiet_zero s)
    else if s.refs == s.expected
    then ok (successful, quiet_success increment s)
    else if update_expected
    then err "updated expected value disagrees with quiescent counter"
    else ok (nonterminating, quiet_cycle s)

-- `for observed in schedule`, and what follows the loop.
unfoldable pub run : ℕ → Bool → List ℕ → Loop → Result (Outcome × Loop)
unfolding quiesce
run increment update_expected [] s = quiesce increment update_expected s
run increment update_expected (observed ∷ schedule) s =
    let rest =
      run increment update_expected schedule (mismatch update_expected (interfere observed s)) in
    if s.expected == 0
    then ok (zero_exited, logged s (zero_exit s.refs s.expected))
    else if observed == s.expected
    then ok (successful, exchange increment (interfere observed s))
    else rest

abbrev pub terminal : ℕ → List ℕ → Outcome × Loop → Row
terminal initial schedule (outcome, s) = record {
  outcome = outcome;
  initial = initial;
  schedule = schedule;
  cas_attempts = s.attempts;
  cas_failures = s.failures;
  refs = s.refs;
  expected = s.expected;
  trace = s.trace;
}

unfoldable pub simulate : ℕ → List ℕ → ℕ → Bool → Result Row
unfolding run
simulate initial schedule increment update_expected = do
  end ← run increment update_expected schedule (start initial)
  ok (terminal initial schedule end)
