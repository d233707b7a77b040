-- ===== src/Verdict/Companions/Sound.antt =====
-- `finalize_companions`: what stands behind an accepted record of its result.
use fragma.Prelude.{
  member, ◌≡◌, refl, sym, subst, true, false, List, [], ◌∷◌, ◌++◌, none, some, String, Bool-cases,
  Option-cases, inl, inr, ◌⊎◌, eq_iff, All, All-all, Both, require-eq-ok, ok, ok-injective,
  is_empty, not, arith, &&-eq-true,
}
use fragma.Verdict.Evaluation.{Evaluation, is_true}
use fragma.Verdict.Companions.{
  lookup, settle, settle_all, awaited, resolve, success, rejected, companion_passed, covers, values,
  finalize_companions, is_mapped, distinct_ids,
}
use fragma.Verdict.Companions.Lookup.{append_snoc, lookup-settle_all}

-- In `out` stands a companion that passed as a calibration and confirmed what `before` maps to it.
pub record IsCertified (out : List Evaluation) (before : Evaluation) : Type 0 where
  pub id : String
  pub companion : Evaluation
  pub named : awaited before ≡ some id
  pub found : lookup id out ≡ some companion
  pub accepted : companion.accepted ≡ true
  pub unverified : companion.verified ≡ false
  pub local_policy : is_true companion.local_policy_passed ≡ true
  pub own_policy : is_true before.local_policy_passed ≡ true
  pub unresolved : is_empty before.expected_unresolved ≡ false
  pub confirmed :
      All
        (λ v. member v companion.confirmed_invalid_properties ≡ true)
        (values before.companion_property_map)
  pub expected :
      All (λ v. member v companion.expected_invalid ≡ true) (values before.companion_property_map)

pub record IsSound (out : List Evaluation) (before after : Evaluation) : Type 0 where
  pub same_id : after.target_id ≡ before.target_id
  pub accepted_only :
      after.accepted ≡ true → ((awaited before ≡ none) × (after ≡ before)) ⊎ IsCertified out before
  pub verified_only : after.verified ≡ true → after ≡ before
  pub settled : awaited after ≡ none

is_mapped-unresolved :
    (r : Evaluation) → is_mapped r ≡ true → is_empty r.expected_unresolved ≡ false
unfolding is_mapped
is_mapped-unresolved r h =
    let (first, names) = &&-eq-true _ _ h in
    let (nonempty, keyed) = &&-eq-true (not (is_empty r.expected_unresolved)) _ first in
    ground (arith, nonempty)

-- What `success` has established of both records.
success-IsCertified :
    (out : List Evaluation) (r c : Evaluation) (k : String)
    → success r c ≡ true
    → awaited r ≡ some k
    → (c.status ≡ "calibration-passed" → lookup k out ≡ some c)
    → IsCertified out r
unfolding success
success-IsCertified out r c k h n found =
    let (h5, corresponding) = &&-eq-true _ _ h in
    let (h4, covered) = &&-eq-true _ (covers r c) h5 in
    let (h3, role) = &&-eq-true _ _ h4 in
    let (h2, passed) = &&-eq-true _ (companion_passed c) h3 in
    let (h1, reason) = &&-eq-true _ _ h2 in
    let (mapped, own) = &&-eq-true (is_mapped r) (is_true r.local_policy_passed) h1 in
    let (p3, calibration) = &&-eq-true _ _ passed in
    let (p2, status) = &&-eq-true _ _ p3 in
    let (p1, unverified) = &&-eq-true _ (not c.verified) p2 in
    let (acc, policy) = &&-eq-true c.accepted (is_true c.local_policy_passed) p1 in
    let (confirmed, expected) = &&-eq-true _ _ covered in
    record {
      id = k;
      companion = c;
      named = n;
      found = found ((eq_iff c.status "calibration-passed").0 status);
      accepted = acc;
      unverified = ground (arith, unverified);
      local_policy = policy;
      own_policy = own;
      unresolved = is_mapped-unresolved r mapped;
      confirmed = All-all _ (values r.companion_property_map) confirmed;
      expected = All-all _ (values r.companion_property_map) expected;
    }

rejected-IsSound :
    (out : List Evaluation) (r : Evaluation) (k : String) → IsSound out r (rejected r k)
unfolding awaited
rejected-IsSound out r k = record {
  same_id = refl;
  accepted_only = λ h. cc;
  verified_only = λ h. cc;
  settled = refl;
}

resolve-IsSound :
    (records out : List Evaluation) (r : Evaluation) (k : String)
    → ((c : Evaluation)
        → lookup k records ≡ some c
        → c.status ≡ "calibration-passed"
        → lookup k out ≡ some c)
    → awaited r ≡ some k
    → IsSound out r (resolve r k (lookup k records))
unfolding resolve awaited
resolve-IsSound records out r k stable e = elim (Option-cases (lookup k records)) [
  | inl m ↦ rw m (rejected-IsSound out r k)
  | inr (c, m) ↦ elim (Bool-cases (success r c)) [
    | inl s ↦
        rw (m, s)
          (record {
            same_id = refl;
            accepted_only = λ h. inr (success-IsCertified out r c k s e (stable c m));
            verified_only = λ h. cc;
            settled = refl;
          })
    | inr s ↦ rw (m, s) (rejected-IsSound out r k)
  ]
]

settle-IsSound :
    (records out : List Evaluation) (r : Evaluation)
    → ((k : String) (c : Evaluation)
        → lookup k records ≡ some c
        → c.status ≡ "calibration-passed"
        → lookup k out ≡ some c)
    → IsSound out r (settle records r)
unfolding settle
settle-IsSound records out r stable = elim (Option-cases (awaited r)) [
  | inl e ↦
      let same : settle records r ≡ r = rw (e, settle) refl in
      subst (IsSound out r) (sym same) (record {
        same_id = refl;
        accepted_only = λ h. inl (e, refl);
        verified_only = λ h. refl;
        settled = e;
      })
  | inr (k, e) ↦
      let same : settle records r ≡ resolve r k (lookup k records) = rw (e, settle) refl in
      subst (IsSound out r) (sym same) (resolve-IsSound records out r k (stable k) e)
]

settle_all-IsSound :
    (seen todo : List Evaluation)
    → Both (IsSound (seen ++ settle_all seen todo)) todo (settle_all seen todo)
unfolding settle_all
settle_all-IsSound seen [] = tt
settle_all-IsSound seen (r ∷ rs) =
    let after : Evaluation = settle (seen ++ (r ∷ rs)) r in
    let tail : List Evaluation = settle_all (seen ++ (after ∷ [])) rs in
    let whole : (seen ++ (after ∷ [])) ++ tail ≡ seen ++ (after ∷ tail) =
      append_snoc seen after tail in
    (
      settle-IsSound (seen ++ (r ∷ rs)) _ r (λ k c h p. lookup-settle_all k seen (r ∷ rs) c h p),
      subst (λ out. Both (IsSound out) rs tail) whole
          (settle_all-IsSound (seen ++ (after ∷ [])) rs),
    )

-- Record by record: an accepted one either did not wait for a companion and is unchanged, or its
-- companion stands in the result, accepted as a calibration and not verified, with every mapped
-- property confirmed and expected as invalid; a verified one is unchanged; no record waits any more.
pub finalize_companions-IsSound :
    (records out : List Evaluation)
    → finalize_companions records ≡ ok out
    → Both (IsSound out) records out
unfolding finalize_companions
finalize_companions-IsSound records out h =
    let (p, q) = require-eq-ok (distinct_ids records) _ _ h in
    subst (λ o. Both (IsSound o) records o) (ok-injective q) (settle_all-IsSound [] records)
