-- ===== src/Report/Goals/Outcomes.antt =====
-- `_wp_rows`: the outcome of a goal and the successes of its provers.
use fragma.Prelude.{
  ℕ, suc, ◌≡◌, refl, sym, ap, ◌∙◌, ◌<◌, Bool, true, false, not, ◌||◌, List, [], ◌∷◌, Option, none,
  some, String, str_eq, ok, ltb, ltb→lt, any, >>=-eq-ok, require-eq-ok, ok-injective, Bool-cases,
  inl, inr, eq_iff, str_differs, get_elem?, arith,
}
use fragma.Report.Rows.{same_flag}
use fragma.Report.Goals.{
  RawProver, required, prover_success, prover_successes, smoke_outcome, ordinary_name,
  ordinary_outcome, goal_outcome,
}

smoke_outcome_invalid :
    (verdict : String) (passed : Bool) → smoke_outcome verdict passed ≡ "valid" → ⊥
unfolding smoke_outcome
smoke_outcome_invalid verdict passed h =
    elim (Bool-cases (str_eq verdict "failed" || str_eq verdict "error")) [
      | inl e ↦ str_differs "tool-error" "valid" refl (sym (rw (smoke_outcome, e) refl) ∙ h)
      | inr e ↦ elim (Bool-cases (str_eq verdict "valid" || not passed)) [
        | inl f ↦ str_differs "inconsistent" "valid" refl (sym (rw (smoke_outcome, e, f) refl) ∙ h)
        | inr f ↦ str_differs "inconclusive" "valid" refl (sym (rw (smoke_outcome, e, f) refl) ∙ h)
      ]
    ]

-- A smoke goal that the provers prove is never passed over.
smoke_outcome_proved : (passed : Bool) → smoke_outcome "valid" passed ≡ "inconsistent"
unfolding smoke_outcome
smoke_outcome_proved passed = refl

ordinary_name_valid : (verdict : String) → ordinary_name verdict ≡ "valid" → verdict ≡ "valid"
ordinary_name_valid verdict h =
    elim (Bool-cases (str_eq verdict "failed" || str_eq verdict "error")) [
      | inl e ↦ absurd (str_differs "tool-error" "valid" refl (sym (rw e refl) ∙ h))
      | inr e ↦ elim (Bool-cases (str_eq verdict "noresult")) [
        | inl f ↦ absurd (str_differs "unknown" "valid" refl (sym (rw (e, f) refl) ∙ h))
        | inr f ↦ sym (rw (e, f) refl) ∙ h
      ]
    ]

same_flag-true : (a b : Bool) → same_flag a b ≡ true → b ≡ true → a ≡ true
same_flag-true true b h e = refl
same_flag-true false true h e = cc
same_flag-true false false h e = cc

pub goal_outcome_valid :
    (smoke : Bool) (verdict : String) (passed : Bool) (successes : List ℕ) {outcome : String}
    → goal_outcome smoke verdict passed successes ≡ ok outcome
    → outcome ≡ "valid"
    → (smoke ≡ false)
      × (verdict ≡ "valid")
      × (passed ≡ true)
      × (any (λ n. ltb 0 n) successes ≡ true)
unfolding goal_outcome ordinary_outcome
goal_outcome_valid true verdict passed successes h v =
    absurd (smoke_outcome_invalid verdict passed (ok-injective h ∙ v))
goal_outcome_valid false verdict passed successes h v =
    let (agree, h1) = require-eq-ok (same_flag passed (str_eq verdict "valid")) _ _ h in
    let (proved, h2) =
      require-eq-ok (not (str_eq verdict "valid") || any (λ n. ltb 0 n) successes) _ _ h1 in
    let valid = ordinary_name_valid verdict (ok-injective h2 ∙ v) in
    let is_valid : str_eq verdict "valid" ≡ true = (eq_iff verdict "valid").1 valid in
    (refl, valid, same_flag-true passed _ agree is_valid, ground (arith, proved, is_valid))

pub goal_outcome_smoke :
    (verdict : String) (passed : Bool) (successes : List ℕ) {outcome : String}
    → goal_outcome true verdict passed successes ≡ ok outcome
    → verdict ≡ "valid"
    → outcome ≡ "inconsistent"
unfolding goal_outcome
goal_outcome_smoke verdict passed successes h v =
    sym (ok-injective h) ∙ (ap (λ w. smoke_outcome w passed) v ∙ smoke_outcome_proved passed)

-- A prover record that counts at least one success.
pub record HasSuccess (provers : List (Option RawProver)) : Type 0 where
  pub index : ℕ
  pub record_of : RawProver
  pub stands : get_elem? provers index ≡ some (some record_of)
  pub successes : ℕ
  pub counted : record_of.success ≡ some successes
  pub positive : 0 < successes

pub required-eq-ok {ℓ} :
    {A : Type ℓ} (message : String) (o : Option A) {a : A} → required message o ≡ ok a → o ≡ some a
required-eq-ok message none h = absurd (ground arith)
required-eq-ok message (some b) h = ap some (ok-injective h)

prover_success-counted :
    (p : Option RawProver) {n : ℕ}
    → prover_success p ≡ ok n
    → (q : RawProver) × (p ≡ some q) × (q.success ≡ some n)
unfolding prover_success
prover_success-counted none h = absurd (ground arith)
prover_success-counted (some p) h =
    let (name, a, h1) = >>=-eq-ok (required _ p.prover) _ h in
    let (elapsed, b, h2) = >>=-eq-ok (required _ p.time) _ h1 in
    (p, refl, required-eq-ok _ p.success h2)

pub successes-HasSuccess :
    (ps : List (Option RawProver)) {ns : List ℕ}
    → prover_successes ps ≡ ok ns
    → any (λ n. ltb 0 n) ns ≡ true
    → HasSuccess ps
unfolding prover_successes
successes-HasSuccess [] {ns} h a =
    let none_left : any (λ n. ltb 0 n) ns ≡ false =
      ap (any (λ n. ltb 0 n)) (sym (ok-injective h)) in
    absurd (ground (arith, a, none_left))
successes-HasSuccess (p ∷ ps) {ns} h a =
    let (n, hn, h1) = >>=-eq-ok (prover_success p) _ h in
    let (rest, hr, h2) = >>=-eq-ok (prover_successes ps) _ h1 in
    let split : any (λ n. ltb 0 n) (n ∷ rest) ≡ true =
      ap (any (λ n. ltb 0 n)) (ok-injective h2) ∙ a in
    elim (Bool-cases (ltb 0 n)) [
      | inl e ↦
          let (q, same, counted) = prover_success-counted p hn in
          record {
            index = 0;
            record_of = q;
            stands = ap some same;
            successes = n;
            counted = counted;
            positive = ltb→lt 0 n e;
          }
      | inr e ↦
          let found = successes-HasSuccess ps hr (ground (arith, split, e)) in
          record {
            index = suc found.index;
            record_of = found.record_of;
            stands = found.stands;
            successes = found.successes;
            counted = found.counted;
            positive = found.positive;
          }
    ]
