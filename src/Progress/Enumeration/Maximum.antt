-- ===== src/Progress/Enumeration/Maximum.antt =====
-- A maximum is attained, and `next` finds where.
use mathlib.Core.List.{Memᴰ}
use fragma.Prelude.{
  ℕ, ◌≤◌, ◌≡◌, refl, subst, ap, Bool, true, List, [], ◌∷◌, All, arith, inl, inr, ◌⊎◌, ok, ltb, keep,
  Bool-cases, ◌==◌, keep_hit, keep_miss,
}
use fragma.Progress.Enumeration.{larger, max_from, max_of, next_of}

-- The maximum is the start or is attained.
max_from_attained :
    {A : Type 0} (f : A → ℕ) (m : ℕ) (rs : List A)
    → (max_from f m rs ≡ m) ⊎ ((w : A) × Memᴰ w rs × (f w ≡ max_from f m rs))
unfolding max_from
max_from_attained f m [] = inl refl
max_from_attained f m (r ∷ rs) = elim (max_from_attained f (larger m (f r)) rs) [
  | inr (w, i, e) ↦ inr (w, Memᴰ.tail i, e)
  | inl e ↦ elim (Bool-cases (ltb m (f r))) [
    | inl t ↦ inr (r, Memᴰ.head refl, ground (arith, e))
    | inr t ↦ inl (ground (arith, e))
  ]
]

pub attained :
    {A : Type 0} (f : A → ℕ) (r : A) (rs : List A)
    → (w : A) × Memᴰ w (r ∷ rs) × ((f w == max_from f (f r) rs) ≡ true)
attained f r rs = elim (max_from_attained f (f r) rs) [
  | inl e ↦ (r, Memᴰ.head refl, ground (arith, e))
  | inr (w, i, e) ↦ (w, Memᴰ.tail i, ground (arith, e))
]

pub next_of_found :
    {A : Type 0} (p : A → Bool) (w : A) (rs : List A)
    → Memᴰ w rs
    → p w ≡ true
    → (x : A) × (next_of (keep p rs) ≡ ok x)
next_of_found p w [] i t = elim i [ ]
next_of_found p w (r ∷ rs) (Memᴰ.head e) t = (r, rw (keep_hit p r rs (subst (λ x. p x ≡ true) e t)))
next_of_found p w (r ∷ rs) (Memᴰ.tail i) t = elim (Bool-cases (p r)) [
  | inl u ↦ (r, rw (keep_hit p r rs u))
  | inr u ↦ let (x, e) = next_of_found p w rs i t in (x, rw (keep_miss p r rs u) e)
]

module _ {A : Type 0} (f : A → ℕ) where
  max_from-ge_start : (m : ℕ) (rs : List A) → m ≤ max_from f m rs
  unfolding max_from
  max_from-ge_start m [] = omega arith
  max_from-ge_start m (r ∷ rs) = ground (arith, max_from-ge_start (larger m (f r)) rs)

  -- No element exceeds the maximum.
  pub max_from-ge : (m : ℕ) (w : A) (rs : List A) → Memᴰ w rs → f w ≤ max_from f m rs
  unfolding max_from
  max_from-ge m w [] i = elim i [ ]
  max_from-ge m w (r ∷ rs) (Memᴰ.head e) =
      ground (arith, max_from-ge_start (larger m (f r)) rs, ap f e)
  max_from-ge m w (r ∷ rs) (Memᴰ.tail i) = max_from-ge (larger m (f r)) w rs i

  -- A bound on the start and on every element bounds the maximum.
  pub max_from-le :
      (bound m : ℕ) (rs : List A) → m ≤ bound → All (λ r. f r ≤ bound) rs → max_from f m rs ≤ bound
  unfolding max_from
  max_from-le bound m [] h a = h
  max_from-le bound m (r ∷ rs) h a = max_from-le bound (larger m (f r)) rs (ground (arith, a.0)) a.1

  -- A maximum that is known by an element that reaches it.
  pub max_of_attained :
      (bound : ℕ) (w : A) (rs : List A)
      → Memᴰ w rs
      → f w ≡ bound
      → All (λ r. f r ≤ bound) rs
      → max_of f rs ≡ ok bound
  max_of_attained bound w [] i e a = elim i [ ]
  max_of_attained bound w (r ∷ rs) (Memᴰ.head p) e a =
      let low = max_from-ge_start (f r) rs in
      ap ok (omega (arith, low, max_from-le bound (f r) rs a.0 a.1, ap f p, e))
  max_of_attained bound w (r ∷ rs) (Memᴰ.tail i) e a =
      ap ok (omega (arith, max_from-ge (f r) w rs i, max_from-le bound (f r) rs a.0 a.1, e))
