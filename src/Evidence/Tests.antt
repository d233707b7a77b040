-- ===== src/Evidence/Tests.antt =====
-- A calibration and a verification target of the registered model.
use fragma.Prelude.{
  ◌≡◌, refl, true, false, [], ◌∷◌, Option, none, some, String, ok, ◌↔◌, All, str_eq,
}
use fragma.Evidence.Acceptance.{
  Model, Scope, Decision, acceptance_decision, blockers, IsVerifiable, acceptance_decision_iff,
}
use fragma.Evidence.Drift.{Identity, identity_drift, is_current, IsCurrent, identity_drift_iff}

abbrev model : Model
model = record {
  dimensions = ("sequential", "supported") ∷ ("weak_memory_atomics", "partial") ∷ [];
  primitive_models = ("mutex", "supported") ∷ [];
}

abbrev atomics : Scope
atomics = record {
  evidence_kind = "verification";
  required_dimensions = "weak_memory_atomics" ∷ [];
  required_primitives = "mutex" ∷ [];
}

abbrev blocked : Decision
blocked = record {
  evidence_accepted = true;
  calibration_accepted = false;
  verification_accepted = false;
  blocking_support =
      record { kind = "dimension"; name = "weak_memory_atomics"; status = "partial" } ∷ [];
}

acceptance_decision-atomics : acceptance_decision atomics model true ≡ ok blocked
unfolding acceptance_decision blockers
acceptance_decision-atomics = refl

acceptance_decision_iff_example :
    ((blocked.verification_accepted ≡ true) ↔ IsVerifiable atomics model true)
    × (blocked.calibration_accepted ≡ true → blocked.verification_accepted ≡ false)
acceptance_decision_iff_example =
    acceptance_decision_iff atomics model true blocked acceptance_decision-atomics

abbrev recorded : String → Option Identity
recorded path = some (record { sha256 = some path; size = some 3 })

-- One of the files is gone.
abbrev present : String → Option Identity
present path = elim (str_eq path "b.c") [
  | true ↦ none
  | false ↦ some (record { sha256 = some path; size = some 3 })
]

identity_drift-gone : identity_drift recorded present ("a.c" ∷ "b.c" ∷ []) ≡ "b.c" ∷ []
unfolding identity_drift is_current
identity_drift-gone = refl

identity_drift_iff_example :
    (identity_drift recorded present ("a.c" ∷ []) ≡ [])
    ↔ All (IsCurrent recorded present) ("a.c" ∷ [])
identity_drift_iff_example = identity_drift_iff recorded present ("a.c" ∷ [])
