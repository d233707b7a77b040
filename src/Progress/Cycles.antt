-- ===== src/Progress/Cycles.antt =====
-- `_spurious_failure_cycle` and `_unbounded_interference_cycle`, and `_unbounded_failure_cycle` of
-- fragma/concurrency_c3_llsc_progress.py: the controls that show what the bound excludes.
pub mod Starvation
use fragma.Prelude.{
  ℕ, ◌+◌, Bool, true, false, ◌&&◌, List, [], ◌∷◌, ◌++◌, Result, ok, err, ◌>>=◌, ◌==◌, if◌then◌else◌,
  length,
}

-- {"refs": …, "expected": …}
pub record CasState : Type 0 where
  pub refs : ℕ
  pub expected : ℕ

pub record Cycle : Type 0 where
  pub cycle_found : Bool
  pub cycle_length : ℕ
  pub states : List CasState

abbrev pub same_state : CasState → CasState → Bool
same_state a b = a.refs == b.refs && a.expected == b.expected

-- A spurious failure changes neither operand: `after = dict(before)`.
abbrev spurious_failure : CasState → CasState
spurious_failure before = before

unfoldable pub spurious_failure_cycle : Cycle
spurious_failure_cycle =
    let before : CasState = record { refs = 1; expected = 1 } in
    let after : CasState = spurious_failure before in
    record { cycle_found = same_state before after; cycle_length = 1; states = before ∷ after ∷ [] }

-- `for observed in interference`: the states behind each failure.
unfoldable pub chase : List ℕ → CasState → Result (List CasState)
chase [] s = ok []
chase (observed ∷ interference) s =
    let next : CasState = record { refs = observed; expected = observed } in
    let rest = chase interference next in
    if observed == s.expected
    then err "unbounded-interference control unexpectedly permits CAS success"
    else (do later ← rest; ok (next ∷ later))

abbrev pub last_state : CasState → List CasState → CasState
last_state s [] = s
last_state s (t ∷ ts) = last_state t ts

-- The source has no arguments: its interference is 2, 1, from a counter of 1, as in
-- `unbounded_interference_cycle` below. Both are arguments here, to state what holds of others.
unfoldable pub interference_cycle : ℕ → List ℕ → Result Cycle
unfolding chase
interference_cycle initial interference = do
  let begin : CasState = record { refs = initial; expected = initial }
  states ← chase interference begin
  ok (record {
    cycle_found = same_state (last_state begin states) begin;
    cycle_length = length interference;
    states = begin ∷ states;
  })

unfoldable pub unbounded_interference_cycle : Result Cycle
unfolding interference_cycle
unbounded_interference_cycle = interference_cycle 1 (2 ∷ 1 ∷ [])

-- {"refs": 1, "expected": 1, "reservation": "lost"}
pub record ReservationState : Type 0 where
  pub refs : ℕ
  pub expected : ℕ
  pub reserved : Bool

-- A store-conditional that fails has lost its reservation, and the same exchange is retried.
abbrev retry : ReservationState → ReservationState
retry s = record { refs = s.refs; expected = s.expected; reserved = false }

unfoldable pub unbounded_failure_cycle : Bool × ReservationState
unbounded_failure_cycle =
    let state : ReservationState = record { refs = 1; expected = 1; reserved = false } in
    let after : ReservationState = retry state in
    (state.refs == after.refs && state.expected == after.expected, after)
