-- ===== src/Report/Dependencies/Clean.antt =====
-- What holds of the selected rows where `evaluate_target` raises no issue about them.
use fragma.Prelude.{
  ◌≡◌, refl, ◌∙◌, true, false, not, ◌&&◌, ◌||◌, List, [], ◌∷◌, String, str_eq, member, any,
  is_empty, common, All, append_nil, keep_miss, &&-eq-true, arith,
}
use fragma.Report.Rows.{Goal, Property}
use fragma.Report.Aliases.{property_aliases}
use fragma.Report.Target.{unless}
use fragma.Report.Eva.{Confirmations}
use fragma.Report.Wp.Clean.{unless_nil}
use fragma.Report.Dependencies.{
  same_identity, is_trusted, is_excused, row_issues, dependency_issues,
}

-- A row with an identity of its own that is valid, a trusted assumption, or excused.
pub record IsRowClean (c : Confirmations) (unresolved : List String) (invalid : List String)
    (goals : List Goal) (row : Property) : Type 0 where
  pub unambiguous : row.exported_identity_ambiguous ≡ false
  pub accepted :
      (str_eq row.outcome "valid"
        || is_trusted row
        || is_excused c unresolved invalid row (property_aliases row goals))
      ≡ true

row_issues-IsRowClean :
    (c : Confirmations) (unresolved invalid : List String) (goals : List Goal)
    (seen : List Property) (row : Property)
    → row_issues c unresolved invalid goals seen row ≡ []
    → IsRowClean c unresolved invalid goals row
unfolding row_issues
row_issues-IsRowClean c unresolved invalid goals seen row h =
    let (alone, accepted) =
      append_nil
        (unless (not row.exported_identity_ambiguous && not (any (same_identity row) seen)) _) _
        h in
    let (unambiguous, new) =
      &&-eq-true (not row.exported_identity_ambiguous) _ (unless_nil _ _ alone) in
    record { unambiguous = ground (arith, unambiguous); accepted = unless_nil _ _ accepted }

pub dependency_issues-IsRowClean :
    (c : Confirmations) (unresolved invalid : List String) (goals : List Goal)
    (seen rows : List Property)
    → dependency_issues c unresolved invalid goals seen rows ≡ []
    → All (IsRowClean c unresolved invalid goals) rows
unfolding dependency_issues
dependency_issues-IsRowClean c unresolved invalid goals seen [] h = tt
dependency_issues-IsRowClean c unresolved invalid goals seen (row ∷ rows) h =
    let (here, later) =
      append_nil (row_issues c unresolved invalid goals seen row)
        (dependency_issues c unresolved invalid goals (row ∷ seen) rows) h in
    (
      row_issues-IsRowClean c unresolved invalid goals seen row here,
      dependency_issues-IsRowClean c unresolved invalid goals (row ∷ seen) rows later,
    )

common_none : (xs : List String) → common xs [] ≡ []
common_none [] = refl
common_none (x ∷ xs) = keep_miss (λ y. member y []) x xs refl ∙ common_none xs

-- Without expected failures nothing is excused.
pub not_excused :
    (c : Confirmations) (unresolved invalid : List String) (row : Property) (aliases : List String)
    → is_empty unresolved ≡ true
    → is_empty invalid ≡ true
    → is_excused c unresolved invalid row aliases ≡ false
not_excused c [] [] row aliases u i = rw (common_none aliases) (ground arith)
not_excused c (x ∷ xs) invalid row aliases u i = cc
not_excused c [] (x ∷ xs) row aliases u i = cc
