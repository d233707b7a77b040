-- ===== src/Verdict/Run/Companioned.antt =====
-- An accepted item at the end of a run, and the companion that it waited for.
use fragma.Prelude.{
  ℕ, ◌≡◌, refl, sym, ap, ◌∙◌, subst, true, false, List, [], ◌∷◌, ◌++◌, Option, some, String, str_eq,
  ok, All, Both, Bool-cases, inl, inr, arith, eq_iff, get_elem?, suc, none, member, Both-get,
  Both-get_back,
}
use fragma.Verdict.Evaluation.{Evaluation}
use fragma.Verdict.Integrity.{Text, Observed}
use fragma.Verdict.Integrity.Intact.{IsIntact}
use fragma.Verdict.Companions.{awaited, lookup, values}
use fragma.Verdict.Companions.Lookup.{lookup_hit, lookup_miss}
use mathlib.Core.Option.{some-injective}
use fragma.Verdict.Companions.Sound.{IsCertified}
use fragma.Verdict.Run.{Item, invalidate, finalize_results}
use fragma.Verdict.Run.Checked.{evaluations, invalidate_none, invalidate-unchanged}
use fragma.Verdict.Run.Accepted.{IsBacked, finalize_results-IsBacked}

module _ (current : Text → Option Text) where
  -- The companion of an item, as an item of the result.
  lookup-item :
      (k : String) (items : List Item) {c : Evaluation}
      → lookup k (evaluations items) ≡ some c
      → (i : ℕ) × (item : Item) × (get_elem? items i ≡ some item)
        × (item.evaluation ≡ c)
        × (item.evaluation.target_id ≡ k)
  unfolding lookup
  lookup-item k [] h = absurd (ground arith)
  lookup-item k (item ∷ items) {c} h = elim (Bool-cases (str_eq item.evaluation.target_id k)) [
    | inl e ↦ (
      0,
      item,
      refl,
      some-injective _ _ (sym (lookup_hit k _ (evaluations items) e) ∙ h),
      (eq_iff item.evaluation.target_id k).0 e,
    )
    | inr e ↦
        let (i, found, p, q, named) =
          lookup-item k items (sym (lookup_miss k item.evaluation (evaluations items) e) ∙ h) in
        (suc i, found, p, q, named)
  ]

  -- What is known of an item that waited for the companion `k` and was accepted.
  pub record IsCompanioned (out : List Item) (k : String) (item result : Item) : Type 0 where
    pub place : ℕ
    pub companion : Item
    pub stands : get_elem? out place ≡ some companion
    pub named : companion.evaluation.target_id ≡ k
    pub accepted : companion.accepted ≡ true
    pub unverified : companion.evaluation.verified ≡ false
    pub intact : All (IsIntact current) companion.integrity_inputs
    pub confirmed :
        All
          (λ v. member v companion.evaluation.confirmed_invalid_properties ≡ true)
          (values item.evaluation.companion_property_map)
    pub result_unverified : result.evaluation.verified ≡ false

  -- An item that waited for a companion and is accepted in the result: the companion of that target id
  -- is an item of the same result, accepted and not verified; its inputs are there with the recorded
  -- digests, and it confirmed every property that the waiting item maps to it. The accepted item is not
  -- verified itself.
  pub certified_companion :
      (items : List Item) (shared_inputs : List Observed) (out : List Item) (i : ℕ) (k : String)
      (item result : Item)
      → finalize_results current items shared_inputs ≡ ok out
      → get_elem? items i ≡ some item
      → awaited item.evaluation ≡ some k
      → get_elem? out i ≡ some result
      → result.accepted ≡ true
      → IsCompanioned out k item result
  certified_companion items shared_inputs out i k item result h at waits at_result accepted =
      let all = finalize_results-IsBacked current items shared_inputs out h in
      let (y, at_y, found) = Both-get (IsBacked current shared_inputs out) items out i all at in
      let same = some-injective _ _ (sym at_y ∙ at_result) in
      let backed = subst (IsBacked current shared_inputs out item) same found in
      elim (backed.accepted_from accepted) [
        | inl (none_awaited, unchanged) ↦ absurd (ground (arith, none_awaited, waits))
        | inr certified ↦ by all backed certified
      ]
    where
      unverified_result :
          IsBacked current shared_inputs out item result → result.evaluation.verified ≡ false
      unverified_result backed = elim (Bool-cases result.evaluation.verified) [
        | inr e ↦ e
        | inl e ↦
            let same = backed.sound.verified_only e in
            let clean =
              invalidate-unchanged item (backed.shared ++ backed.own)
                (inl (sym (ap (λ x. x.accepted) same) ∙ sym backed.same_accepted ∙ accepted)) in
            let original : result.evaluation ≡ item.evaluation =
              same
              ∙ ap (λ changes. (invalidate item changes).evaluation) clean
              ∙ ap (λ x. x.evaluation) (invalidate_none item) in
            let clash : some k ≡ none =
              sym waits ∙ sym (ap awaited original) ∙ backed.sound.settled in
            cc
      ]

      by :
          Both (IsBacked current shared_inputs out) items out
          → IsBacked current shared_inputs out item result
          → IsCertified (evaluations out) item.evaluation
          → IsCompanioned out k item result
      by all backed certified =
          let (place, companion, stands, same, named) =
            lookup-item certified.id out certified.found in
          let (before, at_before, other) =
            Both-get_back (IsBacked current shared_inputs out) items out place all stands in
          let passed = other.same_accepted ∙ ap (λ e. e.accepted) same ∙ certified.accepted in
          record {
            place = place;
            companion = companion;
            stands = stands;
            named = named ∙ some-injective _ _ (sym certified.named ∙ waits);
            accepted = passed;
            unverified = ap (λ e. e.verified) same ∙ certified.unverified;
            intact = (other.intact passed).1;
            confirmed =
                subst
                  (λ c.
                    All (λ v. member v c.confirmed_invalid_properties ≡ true)
                      (values item.evaluation.companion_property_map))
                  (sym same) certified.confirmed;
            result_unverified = unverified_result backed;
          }
