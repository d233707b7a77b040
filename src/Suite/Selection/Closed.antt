-- ===== src/Suite/Selection/Closed.antt =====
-- What `select_targets` selects: what was asked for, and the companions of all that it selects.
use mathlib.Core.List.{Memᴰ}
use mathlib.Core.Option.{some-injective}
use fragma.Prelude.{
  ℕ, zero, suc, ◌+◌, ◌≡◌, refl, sym, ap, ◌∙◌, subst, true, List, [], ◌∷◌, ◌++◌, none, some, ok, err,
  String, str_eq, member, subset, map, keep, is_empty, length, arith, Bool-cases, Option-cases, inl,
  inr, ◌⊎◌, eq_iff, All, All-imp, All-append, ok-injective,
}
use fragma.Suite.Selection.{
  Target, ids_of, find_target, companion_of, missing_companion, close, reverse, is_requested,
  select_targets,
}
use fragma.Suite.Selection.Measure.{
  member-append, find_target-id, close_done, close_absent, close_added, missing_companion-some,
}
use fragma.Suite.Selection.Members.{
  Mem-append, find_target-Mem, All-Mem, Mem-keep, Mem-keep_passes, Mem-reverse,
}

-- The companion of `t`, if it names one, is among `selected`.
abbrev pub IsCovered : List Target → Target → Type 0
IsCovered selected t = (k : String) → companion_of t ≡ some k → member k (ids_of selected) ≡ true

-- A selected target is on the worklist, or has its companion.
abbrev IsHandled : List Target → List Target → Target → Type 0
IsHandled selected pending t = Memᴰ t pending ⊎ IsCovered selected t

missing-IsCovered :
    (selected : List Target) (t : Target)
    → missing_companion selected t ≡ none
    → IsCovered selected t
unfolding missing_companion
missing-IsCovered selected t h k named = elim (Bool-cases (member k (ids_of selected))) [
  | inl e ↦ e
  | inr e ↦
      let missing : missing_companion selected t ≡ some k = rw (missing_companion, named, e) refl in
      absurd (ground arith)
]

IsCovered-append :
    (selected : List Target) (c t : Target)
    → IsCovered selected t
    → IsCovered (selected ++ (c ∷ [])) t
IsCovered-append selected c t h k named = rw (member-append k selected (c ∷ []), h k named) refl

step_done :
    (selected pending : List Target) (t : Target)
    → IsCovered selected t
    → (s : Target) → IsHandled selected (t ∷ pending) s
    → IsHandled selected pending s
step_done selected pending t covered s (inl (Memᴰ.head e)) =
    inr (subst (IsCovered selected) (sym e) covered)
step_done selected pending t covered s (inl (Memᴰ.tail m)) = inl m
step_done selected pending t covered s (inr c) = inr c

step_added :
    (selected pending : List Target) (t c : Target)
    → companion_of t ≡ some c.id
    → (s : Target) → IsHandled selected (t ∷ pending) s
    → IsHandled (selected ++ (c ∷ [])) (c ∷ pending) s
step_added selected pending t c named s (inl (Memᴰ.head e)) =
    inr (subst (IsCovered (selected ++ (c ∷ []))) (sym e) covered)
  where
    covered : IsCovered (selected ++ (c ∷ [])) t
    covered k same =
        let id : c.id ≡ k = some-injective _ _ (sym named ∙ same) in
        let own : str_eq c.id k ≡ true = (eq_iff c.id k).1 id in
        rw (member-append k selected (c ∷ []), own) (ground arith)
step_added selected pending t c named s (inl (Memᴰ.tail m)) = inl (Memᴰ.tail m)
step_added selected pending t c named s (inr h) = inr (IsCovered-append selected c s h)

close-IsCovered :
    (targets : List Target) (fuel : ℕ) (selected pending : List Target) {out : List Target}
    → All (IsHandled selected pending) selected
    → close targets fuel selected pending ≡ some (ok out)
    → All (IsCovered out) out
unfolding close
close-IsCovered targets fuel selected [] a h =
    let same = ok-injective (some-injective _ _ h) in
    subst (λ o. All (IsCovered o) o) same
      (All-imp (IsHandled selected []) (IsCovered selected) selected
        (λ t p. elim p [ inl m ↦ elim m [ ] | inr c ↦ c ]) a)
close-IsCovered targets zero selected (t ∷ pending) a h = absurd (ground arith)
close-IsCovered targets (suc fuel) selected (t ∷ pending) a h =
    elim (Option-cases (missing_companion selected t)) [
      | inl e ↦
          close-IsCovered targets fuel selected pending
            (All-imp _ _ selected (step_done selected pending t (missing-IsCovered selected t e)) a)
            (sym (close_done targets fuel selected pending t e) ∙ h)
      | inr (k, e) ↦ elim (Option-cases (find_target k targets)) [
        | inl f ↦
            let failed : some (err "missing registered companion") ≡ some (ok _) =
              sym (close_absent targets fuel selected pending t k e f) ∙ h in
            absurd (ground arith)
        | inr (c, f) ↦
            let (named, fresh) = missing_companion-some selected t e in
            let id : companion_of t ≡ some c.id =
              named ∙ ap some (sym (find_target-id k targets f)) in
            let handled = All-imp _ _ selected (step_added selected pending t c id) a in
            close-IsCovered targets fuel (selected ++ (c ∷ [])) (c ∷ pending)
              (All-append _ selected (c ∷ []) handled (inl (Memᴰ.head refl), tt))
              (sym (close_added targets fuel selected pending t k c e f) ∙ h)
      ]
    ]

-- The loop only adds registered targets.
close-Mem :
    (targets : List Target) (fuel : ℕ) (selected pending : List Target) {out : List Target}
    → close targets fuel selected pending ≡ some (ok out)
    → All (λ t. Memᴰ t targets) selected
    → ((t : Target) → Memᴰ t selected → Memᴰ t out) × All (λ t. Memᴰ t targets) out
unfolding close
close-Mem targets fuel selected [] h a =
    let same = ok-injective (some-injective _ _ h) in
    ((λ t m. subst (Memᴰ t) same m), subst (All (λ t. Memᴰ t targets)) same a)
close-Mem targets zero selected (t ∷ pending) h a = absurd (ground arith)
close-Mem targets (suc fuel) selected (t ∷ pending) h a =
    elim (Option-cases (missing_companion selected t)) [
      | inl e ↦
          close-Mem targets fuel selected pending
            (sym (close_done targets fuel selected pending t e) ∙ h) a
      | inr (k, e) ↦ elim (Option-cases (find_target k targets)) [
        | inl f ↦
            let failed : some (err "missing registered companion") ≡ some (ok _) =
              sym (close_absent targets fuel selected pending t k e f) ∙ h in
            absurd (ground arith)
        | inr (c, f) ↦
            let (kept, registered) =
              close-Mem targets fuel (selected ++ (c ∷ [])) (c ∷ pending)
                (sym (close_added targets fuel selected pending t k c e f) ∙ h)
                (All-append _ selected (c ∷ []) a (find_target-Mem k targets f, tt)) in
            ((λ s m. kept s (Mem-append s selected (c ∷ []) m)), registered)
      ]
    ]

-- All that was asked for, only registered targets, and with each target its companion.
pub record IsSelection (targets : List Target) (ids suites profile_ids : List String)
    (out : List Target) : Type 0 where
  pub requested :
      (t : Target) → Memᴰ t targets → is_requested ids suites profile_ids t ≡ true → Memᴰ t out
  pub registered : All (λ t. Memᴰ t targets) out
  pub covered : All (IsCovered out) out
  pub known : subset ids (ids_of targets) ≡ true

-- A selection holds every registered target that the options ask for, only registered targets, and
-- the companion of each of its targets; every id that was asked for is registered.
pub select_targets-IsSelection :
    (targets : List Target) (ids suites profile_ids : List String) (out : List Target)
    → select_targets targets ids suites profile_ids ≡ some (ok out)
    → IsSelection targets ids suites profile_ids out
unfolding select_targets
select_targets-IsSelection targets ids suites profile_ids out h =
    elim (Bool-cases (subset ids (ids_of targets))) [
      | inr e ↦ absurd (ground (arith, e, h))
      | inl e ↦ elim (Bool-cases (subset suites (map (λ t. t.suite) targets))) [
        | inr f ↦ absurd (ground (arith, e, f, h))
        | inl f ↦ elim (Bool-cases (is_empty selected)) [
          | inl g ↦ absurd (ground (arith, e, f, g, h))
          | inr g ↦
              let loop : close targets (length selected + length targets) selected
                    (reverse selected)
                  ≡ some (ok out) =
                sym (rw (select_targets, e, f, g) refl) ∙ h in
              done e loop
        ]
      ]
    ]
  where
    selected : List Target
    selected = keep (is_requested ids suites profile_ids) targets

    done :
        subset ids (ids_of targets) ≡ true
        → close targets (length selected + length targets) selected (reverse selected)
          ≡ some (ok out)
        → IsSelection targets ids suites profile_ids out
    done known loop =
        let stacked =
          All-Mem (IsHandled selected (reverse selected)) selected
            (λ t m. inl (Mem-reverse t selected m)) in
        let drawn = All-Mem (λ t. Memᴰ t targets) selected (λ t m. Mem-keep _ t targets m) in
        let (kept, registered) = close-Mem targets _ selected (reverse selected) loop drawn in
        record {
          requested = λ t m p. kept t (Mem-keep_passes _ t targets m p);
          registered = registered;
          covered = close-IsCovered targets _ selected (reverse selected) stacked loop;
          known = known;
        }
