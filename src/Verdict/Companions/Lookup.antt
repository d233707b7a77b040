-- ===== src/Verdict/Companions/Lookup.antt =====
-- What the loop of `finalize_companions` keeps of the records that it has settled.
use fragma.Prelude.{
  ◌≡◌, refl, sym, ap, ◌∙◌, true, false, List, [], ◌∷◌, ◌++◌, Option, none, some, String, str_eq,
  Bool-cases, Option-cases, inl, inr,
}
use fragma.Verdict.Evaluation.{Evaluation}
use fragma.Verdict.Companions.{lookup, settle, settle_all, awaited, resolve, success}
use mathlib.Core.Option.{some-injective}

pub append_snoc :
    (seen : List Evaluation) (r : Evaluation) (rs : List Evaluation)
    → (seen ++ (r ∷ [])) ++ rs ≡ seen ++ (r ∷ rs)
append_snoc [] r rs = refl
append_snoc (s ∷ seen) r rs = ap (λ t. s ∷ t) (append_snoc seen r rs)

pub resolve-id :
    (r : Evaluation) (k : String) (found : Option Evaluation)
    → (resolve r k found).target_id ≡ r.target_id
unfolding resolve
resolve-id r k none = refl
resolve-id r k (some c) = elim (Bool-cases (success r c)) [ inl e ↦ rw e refl | inr e ↦ rw e refl ]

pub settle-id :
    (records : List Evaluation) (r : Evaluation) → (settle records r).target_id ≡ r.target_id
unfolding settle
settle-id records r = elim (Option-cases (awaited r)) [
  | inl e ↦ rw (e, settle) refl
  | inr (k, e) ↦ rw (e, settle) (resolve-id r k (lookup k records))
]

pub settle_passed :
    (records : List Evaluation) (r : Evaluation)
    → r.status ≡ "calibration-passed"
    → settle records r ≡ r
unfolding settle awaited
settle_passed records r e = rw e refl

pub lookup_hit :
    (k : String) (r : Evaluation) (rs : List Evaluation)
    → str_eq r.target_id k ≡ true
    → lookup k (r ∷ rs) ≡ some r
unfolding lookup
lookup_hit k r rs e = rw e refl

pub lookup_miss :
    (k : String) (r : Evaluation) (rs : List Evaluation)
    → str_eq r.target_id k ≡ false
    → lookup k (r ∷ rs) ≡ lookup k rs
unfolding lookup
lookup_miss k r rs e = rw e refl

-- A record that passed is still found after another one was settled.
pub lookup_update :
    (k : String) (seen rs : List Evaluation) (r after c : Evaluation)
    → after.target_id ≡ r.target_id
    → (r.status ≡ "calibration-passed" → after ≡ r)
    → lookup k (seen ++ (r ∷ rs)) ≡ some c
    → c.status ≡ "calibration-passed"
    → lookup k (seen ++ (after ∷ rs)) ≡ some c
lookup_update k [] rs r after c same stays h p = elim (Bool-cases (str_eq r.target_id k)) [
  | inl e ↦
      let found : r ≡ c = some-injective _ _ (sym (lookup_hit k r rs e) ∙ h) in
      let hit : str_eq after.target_id k ≡ true = ap (λ i. str_eq i k) same ∙ e in
      lookup_hit k after rs hit ∙ ap some (stays (ap (λ x. x.status) found ∙ p) ∙ found)
  | inr e ↦
      let miss : str_eq after.target_id k ≡ false = ap (λ i. str_eq i k) same ∙ e in
      lookup_miss k after rs miss ∙ sym (lookup_miss k r rs e) ∙ h
]
lookup_update k (s ∷ seen) rs r after c same stays h p = elim (Bool-cases (str_eq s.target_id k)) [
  | inl e ↦ lookup_hit k s _ e ∙ sym (lookup_hit k s _ e) ∙ h
  | inr e ↦
      lookup_miss k s _ e
      ∙ lookup_update k seen rs r after c same stays (sym (lookup_miss k s _ e) ∙ h) p
]

pub lookup-settle_all :
    (k : String) (seen todo : List Evaluation) (c : Evaluation)
    → lookup k (seen ++ todo) ≡ some c
    → c.status ≡ "calibration-passed"
    → lookup k (seen ++ settle_all seen todo) ≡ some c
unfolding settle_all
lookup-settle_all k seen [] c h p = h
lookup-settle_all k seen (r ∷ rs) c h p =
    let after : Evaluation = settle (seen ++ (r ∷ rs)) r in
    let updated : lookup k (seen ++ (after ∷ rs)) ≡ some c =
      lookup_update k seen rs r after c (settle-id _ r) (settle_passed _ r) h p in
    let rest =
      lookup-settle_all k (seen ++ (after ∷ [])) rs c
        (ap (lookup k) (append_snoc seen after rs) ∙ updated) p in
    sym (ap (lookup k) (append_snoc seen after _)) ∙ rest
