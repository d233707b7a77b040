-- ===== src/Verdict/Run/Checked.antt =====
-- `invalidate`: an item before the companion policy of a run.
use fragma.Prelude.{
  ◌≡◌, refl, sym, true, List, [], ◌∷◌, ◌++◌, Option, some, String, ok, map, >>=-eq-ok, ok-injective,
  inl, inr, ◌⊎◌, arith,
}
use fragma.Verdict.Evaluation.{Evaluation}
use fragma.Verdict.Integrity.{Text, Change, changed_files}
use fragma.Verdict.Companions.{awaited}
use fragma.Verdict.Run.{Item, invalidate, invalidate_item}

abbrev pub evaluations : List Item → List Evaluation
evaluations = map (λ item. item.evaluation)

pub invalidate-inputs :
    (item : Item) (changes : List Change)
    → (invalidate item changes).integrity_inputs ≡ item.integrity_inputs
unfolding invalidate
invalidate-inputs item [] = refl
invalidate-inputs item (c ∷ cs) = refl

pub invalidate_none : (item : Item) → invalidate item [] ≡ item
unfolding invalidate
invalidate_none item = refl

-- What changed can neither be accepted nor wait for a companion.
pub invalidate-unchanged :
    (item : Item) (changes : List Change)
    → ((invalidate item changes).evaluation.accepted ≡ true)
      ⊎ ((k : String) × (awaited (invalidate item changes).evaluation ≡ some k))
    → changes ≡ []
unfolding invalidate awaited
invalidate-unchanged item [] p = refl
invalidate-unchanged item (c ∷ cs) p = elim p [
  | inl a ↦ absurd (ground arith)
  | inr (k, w) ↦ absurd (ground arith)
]

module _ (current : Text → Option Text) where
  -- An item before the companion policy: what changed of its inputs has invalidated it.
  pub record IsChecked (shared : List Change) (item checked : Item) : Type 0 where
    pub own : List Change
    pub own_seen : changed_files current item.integrity_inputs ≡ ok own
    pub invalidated : checked ≡ invalidate item (shared ++ own)

  pub invalidate_item-IsChecked :
      (shared : List Change) (item checked : Item)
      → invalidate_item current shared item ≡ ok checked
      → IsChecked shared item checked
  unfolding invalidate_item
  invalidate_item-IsChecked shared item checked h =
      let (own, p, q) = >>=-eq-ok (changed_files current item.integrity_inputs) _ h in
      record { own = own; own_seen = p; invalidated = sym (ok-injective q) }
