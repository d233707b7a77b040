-- ===== src/Suite/Selection/Measure.antt =====
-- The fuel of `select_targets` is enough: every round takes a target off the worklist, and one is
-- put on it only together with a target that was not selected before.
use fragma.Prelude.{
  ℕ, zero, suc, ◌+◌, ◌≤◌, ◌<◌, ◌≡◌, refl, sym, ap, ◌∙◌, subst, Bool, true, false, not, ◌||◌, List,
  [], ◌∷◌, ◌++◌, none, some, Result, ok, err, String, str_eq, member, subset, map, keep, is_empty,
  length, arith, Bool-cases, Option-cases, inl, inr, eq_iff, length-append, keep_hit, keep_miss,
}
use mathlib.Core.Option.{some-injective}
use fragma.Suite.Selection.{
  Target, ids_of, find_target, companion_of, missing_companion, close, reverse, is_requested,
  select_targets,
}

-- How many of the targets have an id that no selected one has.
abbrev unselected : List Target → List Target → ℕ
unselected selected targets = length (keep (λ t. not (member t.id (ids_of selected))) targets)

pub member-append :
    (k : String) (xs ys : List Target)
    → member k (ids_of (xs ++ ys)) ≡ (member k (ids_of xs) || member k (ids_of ys))
member-append k [] ys = refl
member-append k (x ∷ xs) ys = elim (Bool-cases (str_eq x.id k)) [
  | inl e ↦ rw e refl
  | inr e ↦ rw e (member-append k xs ys)
]

pub find_hit :
    (k : String) (t : Target) (ts : List Target)
    → str_eq t.id k ≡ true
    → find_target k (t ∷ ts) ≡ some t
unfolding find_target
find_hit k t ts e = rw e refl

pub find_miss :
    (k : String) (t : Target) (ts : List Target)
    → str_eq t.id k ≡ false
    → find_target k (t ∷ ts) ≡ find_target k ts
unfolding find_target
find_miss k t ts e = rw e refl

module _ (p q : Target → Bool) (weaker : (t : Target) → p t ≡ true → q t ≡ true) where
  length-keep_le : (ts : List Target) → length (keep p ts) ≤ length (keep q ts)
  length-keep_le [] = omega arith
  length-keep_le (t ∷ ts) = elim (Bool-cases (p t)) [
    | inl e ↦
        rw (keep_hit p t ts e, keep_hit q t ts (weaker t e)) (omega (arith, length-keep_le ts))
    | inr e ↦ elim (Bool-cases (q t)) [
      | inl f ↦ rw (keep_miss p t ts e, keep_hit q t ts f) (omega (arith, length-keep_le ts))
      | inr f ↦ rw (keep_miss p t ts e, keep_miss q t ts f) (length-keep_le ts)
    ]
  ]

  -- A registered target that only `q` keeps makes the difference.
  length-keep_lt :
      (k : String) (ts : List Target) {c : Target}
      → find_target k ts ≡ some c
      → p c ≡ false
      → q c ≡ true
      → length (keep p ts) < length (keep q ts)
  unfolding find_target
  length-keep_lt k [] h pc qc = absurd (ground arith)
  length-keep_lt k (t ∷ ts) {c} h pc qc = elim (Bool-cases (str_eq t.id k)) [
    | inl e ↦
        let same : t ≡ c = some-injective _ _ (sym (find_hit k t ts e) ∙ h) in
        rw (keep_miss p t ts (ap p same ∙ pc), keep_hit q t ts (ap q same ∙ qc))
          (omega (arith, length-keep_le ts))
    | inr e ↦
        let rest = length-keep_lt k ts (sym (find_miss k t ts e) ∙ h) pc qc in
        elim (Bool-cases (p t)) [
          | inl f ↦ rw (keep_hit p t ts f, keep_hit q t ts (weaker t f)) (omega (arith, rest))
          | inr f ↦ elim (Bool-cases (q t)) [
            | inl g ↦ rw (keep_miss p t ts f, keep_hit q t ts g) (omega (arith, rest))
            | inr g ↦ rw (keep_miss p t ts f, keep_miss q t ts g) rest
          ]
        ]
  ]

pub find_target-id :
    (k : String) (ts : List Target) {c : Target} → find_target k ts ≡ some c → c.id ≡ k
unfolding find_target
find_target-id k [] h = absurd (ground arith)
find_target-id k (t ∷ ts) {c} h = elim (Bool-cases (str_eq t.id k)) [
  | inl e ↦
      let same : t ≡ c = some-injective _ _ (sym (find_hit k t ts e) ∙ h) in
      ap (λ x. x.id) (sym same) ∙ (eq_iff t.id k).0 e
  | inr e ↦ find_target-id k ts (sym (find_miss k t ts e) ∙ h)
]

-- A companion to be added is named by the target and not selected.
pub missing_companion-some :
    (selected : List Target) (t : Target) {k : String}
    → missing_companion selected t ≡ some k
    → (companion_of t ≡ some k) × (member k (ids_of selected) ≡ false)
unfolding missing_companion
missing_companion-some selected t {k} h = elim (Option-cases (companion_of t)) [
  | inl e ↦
      let none_missing : missing_companion selected t ≡ none = rw (missing_companion, e) refl in
      absurd (ground arith)
  | inr (j, e) ↦ elim (Bool-cases (member j (ids_of selected))) [
    | inl m ↦
        let none_missing : missing_companion selected t ≡ none =
          rw (missing_companion, e, m) refl in
        absurd (ground arith)
    | inr m ↦
        let missing : missing_companion selected t ≡ some j = rw (missing_companion, e, m) refl in
        let same : j ≡ k = some-injective _ _ (sym missing ∙ h) in
        (e ∙ ap some same, subst (λ i. member i (ids_of selected) ≡ false) same m)
  ]
]

-- One more selected target, and fewer that are left.
unselected_lt :
    (selected targets : List Target) (k : String) {c : Target}
    → find_target k targets ≡ some c
    → member k (ids_of selected) ≡ false
    → unselected (selected ++ (c ∷ [])) targets < unselected selected targets
unselected_lt selected targets k {c} found fresh =
    length-keep_lt _ _ weaker k targets found out (rw (find_target-id k targets found, fresh) refl)
  where
    weaker :
        (t : Target)
        → not (member t.id (ids_of (selected ++ (c ∷ [])))) ≡ true
        → not (member t.id (ids_of selected)) ≡ true
    weaker t h = elim (Bool-cases (member t.id (ids_of selected))) [
      | inl e ↦
          let also : member t.id (ids_of (selected ++ (c ∷ []))) ≡ true =
            rw (member-append t.id selected (c ∷ []), e) refl in
          absurd (ground (arith, also, h))
      | inr e ↦ rw e refl
    ]

    out : not (member c.id (ids_of (selected ++ (c ∷ [])))) ≡ false
    out =
        let own : str_eq c.id c.id ≡ true = (eq_iff c.id c.id).1 refl in
        rw (member-append c.id selected (c ∷ []), own) (ground arith)

-- One round of the loop.
module _ (targets : List Target) (fuel : ℕ) (selected pending : List Target) (t : Target) where
  pub close_done :
      missing_companion selected t ≡ none
      → close targets (suc fuel) selected (t ∷ pending) ≡ close targets fuel selected pending
  unfolding close
  close_done e = rw (e, close) refl

  pub close_absent :
      (k : String)
      → missing_companion selected t ≡ some k
      → find_target k targets ≡ none
      → close targets (suc fuel) selected (t ∷ pending) ≡ some (err "missing registered companion")
  unfolding close
  close_absent k e f = rw (e, close, f) refl

  pub close_added :
      (k : String) (c : Target)
      → missing_companion selected t ≡ some k
      → find_target k targets ≡ some c
      → close targets (suc fuel) selected (t ∷ pending)
        ≡ close targets fuel (selected ++ (c ∷ [])) (c ∷ pending)
  unfolding close
  close_added k c e f = rw (e, close, f) refl

-- Fuel for the worklist and all that can still be put on it is enough.
close_terminates :
    (targets : List Target) (fuel : ℕ) (selected pending : List Target)
    → length pending + unselected selected targets ≤ fuel
    → (r : Result (List Target)) × (close targets fuel selected pending ≡ some r)
unfolding close
close_terminates targets zero selected [] h = (ok selected, refl)
close_terminates targets (suc fuel) selected [] h = (ok selected, refl)
close_terminates targets zero selected (t ∷ pending) h = absurd (omega (arith, h))
close_terminates targets (suc fuel) selected (t ∷ pending) h =
    elim (Option-cases (missing_companion selected t)) [
      | inl e ↦
          let (r, p) = close_terminates targets fuel selected pending (omega (arith, h)) in
          (r, close_done targets fuel selected pending t e ∙ p)
      | inr (k, e) ↦ elim (Option-cases (find_target k targets)) [
        | inl f ↦
            (err "missing registered companion", close_absent targets fuel selected pending t k e f)
        | inr (c, f) ↦
            let (named, fresh) = missing_companion-some selected t e in
            let (r, p) =
              close_terminates targets fuel (selected ++ (c ∷ [])) (c ∷ pending)
                (omega (arith, h, unselected_lt selected targets k f fresh)) in
            (r, close_added targets fuel selected pending t k c e f ∙ p)
      ]
    ]

length-reverse : (ts : List Target) → length (reverse ts) ≡ length ts
length-reverse [] = refl
length-reverse (t ∷ ts) = omega (arith, length-append (reverse ts) (t ∷ []), length-reverse ts)

length-keep : (p : Target → Bool) (ts : List Target) → length (keep p ts) ≤ length ts
length-keep p [] = omega arith
length-keep p (t ∷ ts) = elim (Bool-cases (p t)) [
  | inl e ↦ rw (keep_hit p t ts e) (omega (arith, length-keep p ts))
  | inr e ↦ rw (keep_miss p t ts e) (omega (arith, length-keep p ts))
]

-- Whatever the registry and the options are, the selection ends, with a list of targets or an error:
-- also where companions name one another in a circle.
pub select_targets_terminates :
    (targets : List Target) (ids suites profile_ids : List String)
    → (r : Result (List Target)) × (select_targets targets ids suites profile_ids ≡ some r)
unfolding select_targets
select_targets_terminates targets ids suites profile_ids =
    elim (Bool-cases (subset ids (ids_of targets))) [
      | inr e ↦ (err "unknown targets", rw e refl)
      | inl e ↦ elim (Bool-cases (subset suites (map (λ t. t.suite) targets))) [
        | inr f ↦ (err "unknown suites", rw (e, f) refl)
        | inl f ↦ elim (Bool-cases (is_empty selected)) [
          | inl g ↦ (err "selection contains no registered targets", rw (e, f, g) refl)
          | inr g ↦
              let (r, p) =
                close_terminates targets (length selected + length targets) selected
                  (reverse selected) enough in
              (r, rw (e, f, g) p)
        ]
      ]
    ]
  where
    selected : List Target
    selected = keep (is_requested ids suites profile_ids) targets

    enough :
        length (reverse selected) + unselected selected targets ≤ length selected + length targets
    enough = omega (
      arith,
      length-reverse selected,
      length-keep (λ t. not (member t.id (ids_of selected))) targets,
    )
