-- ===== src/Lkmm/Pairs/Occurrences.antt =====
-- How often the names of a list occur in another, for fragma/concurrency_c3_lkmm.py.
use fragma.Prelude.{
  ℕ, suc, ◌+◌, ◌≤◌, ◌≡◌, refl, sym, subst, true, false, not, List, [], ◌∷◌, String, str_eq, eq_iff,
  member, subset, all_distinct, length, All, All-imp, All-all, arith, Bool-cases, inl, inr,
  &&-eq-true, if_true, if_false,
}
use fragma.Policy.Texts.{count}

module _ (name y : String) (ys : List String) where
  count_hit : str_eq y name ≡ true → count name (y ∷ ys) ≡ suc (count name ys)
  count_hit e = if_true (str_eq y name) _ _ e

  count_miss : str_eq y name ≡ false → count name (y ∷ ys) ≡ count name ys
  count_miss e = if_false (str_eq y name) _ _ e

-- A name that stands in a list occurs in it.
pub count-member : (name : String) (xs : List String) → member name xs ≡ true → 1 ≤ count name xs
count-member name [] h = cc
count-member name (x ∷ xs) h = elim (Bool-cases (str_eq x name)) [
  | inl e ↦ omega (arith, count_hit name x xs e)
  | inr e ↦
      let later : member name xs ≡ true = ground (arith, e, h) in
      omega (arith, count_miss name x xs e, count-member name xs later)
]

-- How often the names occur altogether.
abbrev total : List String → List String → ℕ
total [] xs = 0
total (name ∷ names) xs = count name xs + total names xs

total-nil : (names : List String) → total names [] ≡ 0
total-nil [] = refl
total-nil (name ∷ names) = omega (arith, total-nil names)

-- A text that is none of the names does not add to them, and it is one of them at most.
total_miss :
    (names : List String) (y : String) (ys : List String)
    → member y names ≡ false
    → total names (y ∷ ys) ≡ total names ys
total_miss [] y ys h = refl
total_miss (name ∷ names) y ys h = elim (Bool-cases (str_eq y name)) [
  | inl e ↦
      let same : str_eq name y ≡ true = (eq_iff name y).1 (sym ((eq_iff y name).0 e)) in
      absurd (ground (arith, same, h))
  | inr e ↦
      let later : member y names ≡ false = ground (arith, h) in
      omega (arith, count_miss name y ys e, total_miss names y ys later)
]

total_step :
    (names : List String) (y : String) (ys : List String)
    → all_distinct names ≡ true
    → total names (y ∷ ys) ≤ suc (total names ys)
unfolding all_distinct
total_step [] y ys h = omega arith
total_step (name ∷ names) y ys h =
    let (fresh, rest) = &&-eq-true (not (member name names)) _ h in
    elim (Bool-cases (str_eq y name)) [
      | inl e ↦
          let absent : member name names ≡ false = ground arith in
          let other : member y names ≡ false =
            subst (λ z. member z names ≡ false) (sym ((eq_iff y name).0 e)) absent in
          omega (arith, count_hit name y ys e, total_miss names y ys other)
      | inr e ↦ omega (arith, count_miss name y ys e, total_step names y ys rest)
    ]

total_bounded : (names xs : List String) → all_distinct names ≡ true → total names xs ≤ length xs
total_bounded names [] h = omega (arith, total-nil names)
total_bounded names (x ∷ xs) h = omega (arith, total_step names x xs h, total_bounded names xs h)

total_at_least :
    (names xs : List String) → All (λ name. 1 ≤ count name xs) names → length names ≤ total names xs
total_at_least [] xs a = omega arith
total_at_least (name ∷ names) xs a = omega (arith, a.0, total_at_least names xs a.1)

all_once :
    (names xs : List String)
    → All (λ name. 1 ≤ count name xs) names
    → total names xs ≤ length names
    → All (λ name. count name xs ≡ 1) names
all_once [] xs a h = tt
all_once (name ∷ names) xs a h =
    let more = total_at_least names xs a.1 in
    (omega (arith, a.0, more, h), all_once names xs a.1 (omega (arith, a.0, h)))

-- Distinct names that stand in a list that is no longer than they are occur once each.
pub subset-once :
    (names xs : List String)
    → all_distinct names ≡ true
    → subset names xs ≡ true
    → length xs ≤ length names
    → All (λ name. count name xs ≡ 1) names
subset-once names xs distinct within short =
    let found =
      All-imp _ (λ name. 1 ≤ count name xs) names (λ name h. count-member name xs h)
        (All-all (λ name. member name xs) names within) in
    all_once names xs found (omega (arith, total_bounded names xs distinct, short))
