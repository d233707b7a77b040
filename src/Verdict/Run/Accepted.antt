-- ===== src/Verdict/Run/Accepted.antt =====
-- What an accepted item at the end of a run rests on.
use fragma.Prelude.{
  append_nil, ◌≡◌, refl, sym, ap, ◌∙◌, subst, true, false, not, List, [], ◌∷◌, ◌++◌, Option, str_eq,
  is_empty, ok, collect, All, All-all, Both, >>=-eq-ok, ok-injective, Bool-cases, inl, inr, ◌⊎◌,
  arith, &&-eq-true, eq_iff, none, Both-collect,
}
use fragma.Verdict.Evaluation.{Evaluation}
use fragma.Verdict.Integrity.{Text, Observed, Change, changed_files}
use fragma.Verdict.Integrity.Intact.{IsIntact, changed_files_iff}
use fragma.Verdict.Companions.{finalize_companions, awaited}
use fragma.Verdict.Companions.Sound.{IsSound, IsCertified, finalize_companions-IsSound}
use fragma.Verdict.Run.Checked.{
  evaluations, IsChecked, invalidate_item-IsChecked, invalidate-inputs, invalidate_none,
  invalidate-unchanged,
}
use fragma.Verdict.Run.{
  Item, invalidate, updated, update_all, invalidate_item, finalize_results, run_accepted,
  run_status,
}

-- How an accepted record came to be: as it was, or by its companion.
abbrev pub IsAcceptedFrom : List Evaluation → Evaluation → Evaluation → Type 0
IsAcceptedFrom out before after =
    ((awaited before ≡ none) × (after ≡ before)) ⊎ IsCertified out before

module _ (current : Text → Option Text) where
  -- An item of the result and the item that it was before.
  pub record IsBacked (shared_inputs : List Observed) (out : List Item) (item result : Item)
      : Type 0 where
    pub same_inputs : result.integrity_inputs ≡ item.integrity_inputs
    pub same_accepted : result.accepted ≡ result.evaluation.accepted
    pub same_status : result.status ≡ result.evaluation.status
    pub shared : List Change
    pub shared_seen : changed_files current shared_inputs ≡ ok shared
    pub own : List Change
    pub own_seen : changed_files current item.integrity_inputs ≡ ok own
    pub sound :
        IsSound (evaluations out) (invalidate item (shared ++ own)).evaluation result.evaluation
    pub intact :
        result.accepted ≡ true
        → All (IsIntact current) shared_inputs × All (IsIntact current) result.integrity_inputs
    pub accepted_from :
        result.accepted ≡ true → IsAcceptedFrom (evaluations out) item.evaluation result.evaluation

  updated-IsBacked :
      (shared_inputs : List Observed) (shared : List Change) (out : List Item) (item checked : Item)
      (e : Evaluation)
      → changed_files current shared_inputs ≡ ok shared
      → IsChecked current shared item checked
      → IsSound (evaluations out) checked.evaluation e
      → IsBacked shared_inputs out item (updated checked e)
  updated-IsBacked shared_inputs shared out item checked e h c s =
      let inputs =
        ap (λ x. x.integrity_inputs) c.invalidated ∙ invalidate-inputs item (shared ++ c.own) in
      let sound = subst (λ x. IsSound (evaluations out) (x.evaluation) e) c.invalidated s in
      record {
        same_inputs = inputs;
        same_accepted = refl;
        same_status = refl;
        shared = shared;
        shared_seen = h;
        own = c.own;
        own_seen = c.own_seen;
        sound = sound;
        intact = λ a.
            let (no_shared, no_own) = append_nil shared c.own (unchanged sound a) in
            (
              (changed_files_iff current shared_inputs).0 (h ∙ ap ok no_shared),
              subst (All (IsIntact current)) (sym inputs)
                  ((changed_files_iff current item.integrity_inputs).0 (c.own_seen ∙ ap ok no_own)),
            );
        accepted_from = λ a.
            let same =
              ap (λ changes. (invalidate item changes).evaluation) (unchanged sound a)
              ∙ ap (λ x. x.evaluation) (invalidate_none item) in
            subst (λ before. IsAcceptedFrom (evaluations out) before e) same
              (sound.accepted_only a);
      }
    where
      unchanged :
          IsSound (evaluations out) (invalidate item (shared ++ c.own)).evaluation e
          → e.accepted ≡ true
          → (shared ++ c.own) ≡ []
      unchanged s a = invalidate-unchanged item (shared ++ c.own) (elim (s.accepted_only a) [
        | inl (w, same) ↦ inl (sym (ap (λ x. x.accepted) same) ∙ a)
        | inr certified ↦ inr (certified.id, certified.named)
      ])

  update_all-IsBacked :
      (shared_inputs : List Observed) (shared : List Change) (out items checked : List Item)
      (es : List Evaluation)
      → changed_files current shared_inputs ≡ ok shared
      → Both (IsChecked current shared) items checked
      → Both (IsSound (evaluations out)) (evaluations checked) es
      → Both (IsBacked shared_inputs out) items (update_all checked es)
  unfolding update_all
  update_all-IsBacked shared_inputs shared out [] [] [] h c s = tt
  update_all-IsBacked shared_inputs shared out [] [] (e ∷ es) h c s = absurd s
  update_all-IsBacked shared_inputs shared out [] (x ∷ checked) es h c s = absurd c
  update_all-IsBacked shared_inputs shared out (item ∷ items) [] es h c s = absurd c
  update_all-IsBacked shared_inputs shared out (item ∷ items) (x ∷ checked) [] h c s = absurd s
  update_all-IsBacked shared_inputs shared out (item ∷ items) (x ∷ checked) (e ∷ es) h c s = (
    updated-IsBacked shared_inputs shared out item x e h c.0 s.0,
    update_all-IsBacked shared_inputs shared out items checked es h c.1 s.1,
  )

  evaluations-update_all :
      (out : List Evaluation) (items : List Item) (es : List Evaluation)
      → Both (IsSound out) (evaluations items) es
      → evaluations (update_all items es) ≡ es
  unfolding update_all
  evaluations-update_all out [] [] s = refl
  evaluations-update_all out [] (e ∷ es) s = absurd s
  evaluations-update_all out (item ∷ items) [] s = absurd s
  evaluations-update_all out (item ∷ items) (e ∷ es) s =
      ap (λ t. e ∷ t) (evaluations-update_all out items es s.1)

  -- The result has one item for each item given, in order and with its inputs, and the verdict of an
  -- item is that of its evaluation. If it is accepted, then every shared input and every input of its
  -- own is there with the recorded digest; and either the item given waited for no companion and its
  -- evaluation is unchanged, or its companion stands accepted in the same result. An item with a
  -- changed input enters the companion policy invalidated.
  pub finalize_results-IsBacked :
      (items : List Item) (shared_inputs : List Observed) (out : List Item)
      → finalize_results current items shared_inputs ≡ ok out
      → Both (IsBacked shared_inputs out) items out
  unfolding finalize_results
  finalize_results-IsBacked items shared_inputs out h =
      let (shared, p, h1) = >>=-eq-ok (changed_files current shared_inputs) _ h in
      let (checked, q, h2) = >>=-eq-ok (collect (invalidate_item current shared) items) _ h1 in
      let (finalized, r, h3) = >>=-eq-ok (finalize_companions (evaluations checked)) _ h2 in
      let made : update_all checked finalized ≡ out = ok-injective h3 in
      let sound = finalize_companions-IsSound (evaluations checked) finalized r in
      let same : finalized ≡ evaluations out =
        sym (evaluations-update_all finalized checked finalized sound) ∙ ap evaluations made in
      subst (Both (IsBacked shared_inputs out) items) made (
        update_all-IsBacked shared_inputs shared out items checked finalized p
          (Both-collect (invalidate_item current shared) (IsChecked current shared) items
            (invalidate_item-IsChecked current shared) q)
          (subst (λ o. Both (IsSound o) (evaluations checked) finalized) same sound))

  backed-IsIntact :
      (shared_inputs : List Observed) (out items results : List Item)
      → Both (IsBacked shared_inputs out) items results
      → All
          (λ item.
            item.accepted ≡ true
            → All (IsIntact current) shared_inputs × All (IsIntact current) item.integrity_inputs)
          results
  backed-IsIntact shared_inputs out [] [] b = tt
  backed-IsIntact shared_inputs out [] (y ∷ ys) b = absurd b
  backed-IsIntact shared_inputs out (x ∷ xs) [] b = absurd b
  backed-IsIntact shared_inputs out (x ∷ xs) (y ∷ ys) b =
      (b.0.intact, backed-IsIntact shared_inputs out xs ys b.1)

  passed-accepted : (out : List Item) → run_status out ≡ "passed" → run_accepted out ≡ true
  unfolding run_status
  passed-accepted out p = elim (Bool-cases (run_accepted out)) [
    | inl e ↦ e
    | inr e ↦
        let wrong : "incomplete" ≡ "passed" = sym (rw (e, run_status) refl) ∙ p in
        let never : str_eq "incomplete" "passed" ≡ true = (eq_iff "incomplete" "passed").1 wrong in
        cc
  ]

  -- A run whose status is "passed" has a target; all its targets are accepted, and every input of
  -- any of them and every shared input is there with the recorded digest.
  pub run_status_passed :
      (items : List Item) (shared_inputs : List Observed) (out : List Item)
      → finalize_results current items shared_inputs ≡ ok out
      → run_status out ≡ "passed"
      → (is_empty out ≡ false)
        × All (λ item. (item.accepted ≡ true) × All (IsIntact current) item.integrity_inputs) out
        × All (IsIntact current) shared_inputs
  unfolding run_accepted
  run_status_passed items shared_inputs out h p =
      let (nonempty, accepted) = &&-eq-true (not (is_empty out)) _ (passed-accepted out p) in
      every out
        (backed-IsIntact shared_inputs out items out
          (finalize_results-IsBacked items shared_inputs out h))
        nonempty (All-all _ out accepted)
    where
      IsKept : Item → Type 0
      IsKept item =
          item.accepted ≡ true
          → All (IsIntact current) shared_inputs × All (IsIntact current) item.integrity_inputs

      both :
          (ys : List Item)
          → All IsKept ys
          → All (λ item. item.accepted ≡ true) ys
          → All (λ item. (item.accepted ≡ true) × All (IsIntact current) item.integrity_inputs) ys
      both [] b a = tt
      both (y ∷ ys) b a = ((a.0, (b.0 a.0).1), both ys b.1 a.1)

      every :
          (xs : List Item)
          → All IsKept xs
          → not (is_empty xs) ≡ true
          → All (λ item. item.accepted ≡ true) xs
          → (is_empty xs ≡ false)
            × All (λ item. (item.accepted ≡ true) × All (IsIntact current) item.integrity_inputs) xs
            × All (IsIntact current) shared_inputs
      every [] b n a = absurd (ground arith)
      every (x ∷ xs) b n a = (refl, both (x ∷ xs) b a, (b.0 a.0).0)
