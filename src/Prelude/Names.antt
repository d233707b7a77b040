-- ===== src/Prelude/Names.antt =====
-- Python's sets of names, as lists.
use Prim.Native.String.{String}
use mathlib.Core.Path.{◌≡◌, refl, ap, ◌∙◌}
use mathlib.Core.Option.{Option, none, some}
use mathlib.Core.Bool.{Bool, true, false, not, ◌&&◌}
use mathlib.Core.List.{List, [], ◌∷◌}
use text.Mathlib.Text.{◌==◌ as str_eq}
use text.Mathlib.TextEquality.{eq_iff}
use fragma.Prelude.Tests.{&&-eq-true}
use fragma.Prelude.Lists.{any, all, keep}
use native.Mathlib.Omega.{arith}

-- `x in xs`, `set(xs) <= set(ys)`, `set(xs) == set(ys)`
abbrev pub member : String → List String → Bool
member s xs = any (λ x. str_eq x s) xs

abbrev pub subset : List String → List String → Bool
subset xs ys = all (λ x. member x ys) xs

abbrev pub same_set : List String → List String → Bool
same_set xs ys = subset xs ys && subset ys xs

-- `table.get(key)` of a dict with text keys
abbrev pub assoc {ℓ} : {A : Type ℓ} → String → List (String × A) → Option A
assoc k [] = none
assoc k ((j, v) ∷ rest) = elim (str_eq j k) [ true ↦ some v | false ↦ assoc k rest ]

-- `len(set(xs)) == len(xs)`
unfoldable pub all_distinct : List String → Bool
all_distinct [] = true
all_distinct (s ∷ ss) = not (member s ss) && all_distinct ss

-- `set(xs) & set(ys)`, as the elements of the one that stand in the other
abbrev pub common : List String → List String → List String
common xs ys = keep (λ x. member x ys) xs

-- Two texts that compare as different.
pub str_differs : (a b : String) → str_eq a b ≡ false → a ≡ b → ⊥
str_differs a b differs same =
    let equal : str_eq a b ≡ true = (eq_iff a b).1 same in ground (arith, equal, differs)

-- `xs == ys` of two lists of texts
abbrev pub same_names : List String → List String → Bool
same_names [] [] = true
same_names (x ∷ xs) (y ∷ ys) = str_eq x y && same_names xs ys
same_names _ _ = false

pub same_names_sound : (xs ys : List String) → same_names xs ys ≡ true → xs ≡ ys
same_names_sound [] [] h = refl
same_names_sound [] (y ∷ ys) h = cc
same_names_sound (x ∷ xs) [] h = cc
same_names_sound (x ∷ xs) (y ∷ ys) h =
    let (p, q) = &&-eq-true (str_eq x y) _ h in
    ap (λ z. z ∷ xs) ((eq_iff x y).0 p) ∙ ap (λ t. y ∷ t) (same_names_sound xs ys q)
