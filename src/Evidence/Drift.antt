-- ===== src/Evidence/Drift.antt =====
-- `identity_drift` of fragma/concurrency_evidence.py. The two maps are functions: none for a path
-- with no entry, and for an entry that is no object.
use mathlib.Core.Option.{some-injective}
use fragma.Prelude.{
  ℕ, ◌≡◌, refl, sym, ap, ◌∙◌, Bool, true, false, ◌&&◌, not, List, [], ◌∷◌, Option, none, some,
  String, str_eq, ◌==◌, All, ◌↔◌, Bool-cases, Option-cases, inl, inr, keep, keep_hit, keep_miss,
  eq_iff, ==_iff, &&-eq-true, arith,
}

-- `sha256` and `size` of an entry; none for a missing key.
pub record Identity : Type 0 where
  pub sha256 : Option String
  pub size : Option ℕ

abbrev same_text : Option String → Option String → Bool
same_text none none = true
same_text (some a) (some b) = str_eq a b
same_text _ _ = false

abbrev same_number : Option ℕ → Option ℕ → Bool
same_number none none = true
same_number (some a) (some b) = a == b
same_number _ _ = false

-- The path's identity is recorded, there, and the same.
unfoldable pub is_current : (String → Option Identity) → (String → Option Identity) → String → Bool
is_current expected current path = elim (expected path) [
  | none ↦ false
  | some before ↦ elim (current path) [
    | none ↦ false
    | some after ↦ same_text before.sha256 after.sha256 && same_number before.size after.size
  ]
]

unfoldable pub identity_drift :
    (String → Option Identity) → (String → Option Identity) → List String → List String
unfolding is_current
identity_drift expected current paths = keep (λ path. not (is_current expected current path)) paths

same_text-eq : (a b : Option String) → (same_text a b ≡ true) ↔ (a ≡ b)
same_text-eq none none = ((λ h. refl), (λ h. refl))
same_text-eq none (some b) = ((λ h. cc), (λ h. cc))
same_text-eq (some a) none = ((λ h. cc), (λ h. cc))
same_text-eq (some a) (some b) =
    ((λ h. ap some ((eq_iff a b).0 h)), (λ h. (eq_iff a b).1 (some-injective _ _ h)))

same_number-eq : (a b : Option ℕ) → (same_number a b ≡ true) ↔ (a ≡ b)
same_number-eq none none = ((λ h. refl), (λ h. refl))
same_number-eq none (some b) = ((λ h. cc), (λ h. cc))
same_number-eq (some a) none = ((λ h. cc), (λ h. cc))
same_number-eq (some a) (some b) =
    ((λ h. ap some ((==_iff a b).0 h)), (λ h. (==_iff a b).1 (some-injective _ _ h)))

module _ (expected current : String → Option Identity) where
  -- The same identity is recorded on both sides.
  abbrev pub IsCurrent : String → Type 0
  IsCurrent path = (i : Identity) × (expected path ≡ some i) × (current path ≡ some i)

  is_current_iff : (path : String) → (is_current expected current path ≡ true) ↔ IsCurrent path
  unfolding is_current
  is_current_iff path = (read, found)
    where
      read : is_current expected current path ≡ true → IsCurrent path
      read h = elim (Option-cases (expected path)) [
        | inl e ↦ absurd (ground (arith, e, h))
        | inr (b, e) ↦ elim (Option-cases (current path)) [
          | inl f ↦ absurd (ground (arith, e, f, h))
          | inr (a, f) ↦
              let equal : same_text b.sha256 a.sha256 && same_number b.size a.size ≡ true =
                sym (rw (is_current, e, f) refl) ∙ h in
              let (p, q) = &&-eq-true _ (same_number b.size a.size) equal in
              let text = (same_text-eq b.sha256 a.sha256).0 p in
              let number = (same_number-eq b.size a.size).0 q in
              let same : a ≡ b = cc in (b, e, f ∙ ap some same)
        ]
      ]

      found : IsCurrent path → is_current expected current path ≡ true
      found (i, e, f) =
          rw
            (
              is_current,
              e,
              f,
              (same_text-eq i.sha256 i.sha256).1 refl,
              (same_number-eq i.size i.size).1 refl,
            )
            refl

  -- No drift is reported exactly if each of the paths has one and the same identity on both sides.
  pub identity_drift_iff :
      (paths : List String) → (identity_drift expected current paths ≡ []) ↔ All IsCurrent paths
  unfolding identity_drift
  identity_drift_iff [] = ((λ h. tt), (λ a. refl))
  identity_drift_iff (path ∷ paths) = elim (Bool-cases (is_current expected current path)) [
    | inl e ↦
        let same = keep_miss (λ p. not (is_current expected current p)) path paths (rw e refl) in
        let (f, g) = identity_drift_iff paths in
        ((λ h. ((is_current_iff path).0 e, f (sym same ∙ h))), (λ a. same ∙ g a.1))
    | inr e ↦
        let same = keep_hit (λ p. not (is_current expected current p)) path paths (rw e refl) in
        (
          (λ h. absurd (ground (arith, same, h))),
          (λ a. absurd (ground (arith, e, (is_current_iff path).1 a.0))),
        )
  ]
