-- ===== src/Verdict/Companions/Complete.antt =====
-- `finalize_companions` accepts what it should.
use fragma.Prelude.{
  ◌≡◌, refl, ap, ◌∙◌, subst, true, List, [], ◌∷◌, ◌++◌, some, String, Both, ok, require-eq-ok,
  ok-injective,
}
use fragma.Verdict.Evaluation.{Evaluation}
use fragma.Verdict.Companions.{
  lookup, settle, settle_all, awaited, resolve, success, approved, finalize_companions,
  distinct_ids,
}
use fragma.Verdict.Companions.Lookup.{append_snoc, settle-id, settle_passed, lookup_update}

-- Where `c` is the companion that is awaited and satisfies the policy, the record is approved.
abbrev pub IsApproved : String → Evaluation → Evaluation → Evaluation → Type 0
IsApproved k c r after = awaited r ≡ some k → success r c ≡ true → after ≡ approved r k c

module _ (k : String) (c : Evaluation) (passed : c.status ≡ "calibration-passed") where
  settle-IsApproved :
      (records : List Evaluation) (r : Evaluation)
      → lookup k records ≡ some c
      → IsApproved k c r (settle records r)
  unfolding settle resolve
  settle-IsApproved records r found waits succeeds =
      rw (waits, settle, found, resolve, succeeds) refl

  settle_all-IsApproved :
      (seen todo : List Evaluation)
      → lookup k (seen ++ todo) ≡ some c
      → Both (IsApproved k c) todo (settle_all seen todo)
  unfolding settle_all
  settle_all-IsApproved seen [] found = tt
  settle_all-IsApproved seen (r ∷ rs) found =
      let after : Evaluation = settle (seen ++ (r ∷ rs)) r in
      let updated =
        lookup_update k seen rs r after c (settle-id _ r) (settle_passed _ r) found passed in
      (
        settle-IsApproved (seen ++ (r ∷ rs)) r found,
        settle_all-IsApproved (seen ++ (after ∷ [])) rs
            (ap (lookup k) (append_snoc seen after rs) ∙ updated),
      )

-- A record that waits for a companion is approved wherever in the list the two stand, if the
-- companion passed before and satisfies the policy's tests.
pub finalize_companions-IsApproved :
    (records out : List Evaluation) (k : String) (c : Evaluation)
    → finalize_companions records ≡ ok out
    → lookup k records ≡ some c
    → c.status ≡ "calibration-passed"
    → Both (IsApproved k c) records out
unfolding finalize_companions
finalize_companions-IsApproved records out k c h found passed =
    let (p, q) = require-eq-ok (distinct_ids records) _ _ h in
    subst (Both (IsApproved k c) records) (ok-injective q)
      (settle_all-IsApproved k c passed [] records found)
