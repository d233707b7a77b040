-- ===== src/Progress/Enumeration.antt =====
-- `itertools.product`, nested comprehensions, `max` and `next`, as the progress models use them.
pub mod Laws
pub mod Maximum
use fragma.Prelude.{
  ℕ, zero, suc, ◌+◌, ◌*◌, ◌^◌, ◌≤◌, ◌<◌, ◌≡◌, ◌≢◌, refl, sym, ◌∙◌, subst, ap, Bool, true, false,
  not, ◌&&◌, ◌||◌, List, [], ◌∷◌, ◌++◌, map, length, length-append, length-map, All, All-append,
  All-imp, arith, inl, inr, ◌⊎◌, Option, none, some, Result, ok, err, ◌>>=◌, collect, ltb, leb,
  keep, Bool-cases, ◌==◌, if◌then◌else◌, keep_hit, keep_miss, >>=-eq-ok, ok-injective,
}

module _ {ℓ κ} {A : Type ℓ} {B : Type κ} where
  -- `[y for x in xs for y in f(x)]`
  unfoldable pub each_of : (A → List B) → List A → List B
  each_of f [] = []
  each_of f (x ∷ xs) = f x ++ each_of f xs

-- `itertools.product(values, repeat=n)`: the last place changes fastest.
unfoldable pub product : List ℕ → ℕ → List (List ℕ)
unfolding each_of
product values zero = [] ∷ []
product values (suc n) = each_of (λ v. map (λ s. v ∷ s) (product values n)) values

abbrev pub larger : ℕ → ℕ → ℕ
larger a b = if ltb a b then b else a

unfoldable pub max_from {ℓ} : {A : Type ℓ} → (A → ℕ) → ℕ → List A → ℕ
max_from f m [] = m
max_from f m (r ∷ rs) = max_from f (larger m (f r)) rs

-- `max(...)` of a generator, which raises on an empty one.
abbrev pub max_of {ℓ} : {A : Type ℓ} → (A → ℕ) → List A → Result ℕ
max_of f [] = err "max() iterable argument is empty"
max_of f (r ∷ rs) = ok (max_from f (f r) rs)

-- `next(...)` of a generator, which raises on an empty one.
abbrev pub next_of {ℓ} : {A : Type ℓ} → List A → Result A
next_of [] = err "StopIteration"
next_of (r ∷ rs) = ok r
