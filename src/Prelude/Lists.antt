-- ===== src/Prelude/Lists.antt =====
-- Lists measured by native numbers, and predicates on all their elements.
use Prim.Native.Nat.{ℕ, zero, suc, ◌+◌, ◌-◌, ◌≤◌, min}
use mathlib.Core.Path.{◌≡◌, refl, sym, ap, ◌∙◌, subst}
use mathlib.Core.Bool.{Bool, true, false, ◌&&◌, ◌||◌}
use mathlib.Core.List.{List, [], ◌∷◌, ◌++◌, map}
use mathlib.Core.Option.{Option, none, some, some-injective}
use mathlib.Core.Logic.{inl, inr}
use native.Mathlib.Omega.{arith}
use fragma.Prelude.Tests.{Bool-cases}

module _ {ℓ} {A : Type ℓ} where
  abbrev pub length : List A → ℕ
  length [] = 0
  length (x ∷ xs) = suc (length xs)

  abbrev pub get_elem? : List A → ℕ → Option A
  get_elem? [] i = none
  get_elem? (x ∷ xs) zero = some x
  get_elem? (x ∷ xs) (suc i) = get_elem? xs i

  abbrev pub take : ℕ → List A → List A
  take zero xs = []
  take (suc n) [] = []
  take (suc n) (x ∷ xs) = x ∷ take n xs

  abbrev pub drop : ℕ → List A → List A
  drop zero xs = xs
  drop (suc n) [] = []
  drop (suc n) (x ∷ xs) = drop n xs

  abbrev pub is_empty : List A → Bool
  is_empty [] = true
  is_empty (x ∷ xs) = false

  -- Python's `all(p(x) for x in xs)` and `any(...)`.
  abbrev pub all : (A → Bool) → List A → Bool
  all p [] = true
  all p (x ∷ xs) = p x && all p xs

  abbrev pub any : (A → Bool) → List A → Bool
  any p [] = false
  any p (x ∷ xs) = p x || any p xs

  -- `[x for x in xs if p(x)]`
  abbrev pub keep : (A → Bool) → List A → List A
  keep p [] = []
  keep p (x ∷ xs) = let rest = keep p xs in elim (p x) [ true ↦ x ∷ rest | false ↦ rest ]

  pub length-append : (xs ys : List A) → length (xs ++ ys) ≡ length xs + length ys
  length-append [] ys = omega arith
  length-append (x ∷ xs) ys = omega (arith, length-append xs ys)

  pub length-take : (n : ℕ) (xs : List A) → length (take n xs) ≡ min n (length xs)
  length-take zero xs = omega arith
  length-take (suc n) [] = omega arith
  length-take (suc n) (x ∷ xs) = omega (arith, length-take n xs)

  pub length-drop : (n : ℕ) (xs : List A) → length (drop n xs) ≡ length xs - n
  length-drop zero xs = omega arith
  length-drop (suc n) [] = omega arith
  length-drop (suc n) (x ∷ xs) = omega (arith, length-drop n xs)

module _ {ℓ κ} {A : Type ℓ} where
  -- `P` holds of every element.
  abbrev pub All : (A → Type κ) → List A → Type κ
  All P [] = Unit
  All P (x ∷ xs) = P x × All P xs

module _ {ℓ κ} {A : Type ℓ} (P : A → Type κ) where
  pub All-append : (xs ys : List A) → All P xs → All P ys → All P (xs ++ ys)
  All-append [] ys h k = k
  All-append (x ∷ xs) ys h k = (h.0, All-append xs ys h.1 k)

module _ {ℓ κ μ} {A : Type ℓ} (P : A → Type κ) (Q : A → Type μ) where
  pub All-imp : (xs : List A) → ((x : A) → P x → Q x) → All P xs → All Q xs
  All-imp [] f h = tt
  All-imp (x ∷ xs) f h = (f x h.0, All-imp xs f h.1)

pub All-all {ℓ} :
    {A : Type ℓ} (p : A → Bool) (xs : List A) → all p xs ≡ true → All (λ x. p x ≡ true) xs
All-all p [] h = tt
All-all p (x ∷ xs) h = (ground arith, All-all p xs (ground arith))

pub length-map {ℓ κ} :
    {A : Type ℓ} {B : Type κ} (xs : List A) (f : A → B) → length (map f xs) ≡ length xs
length-map [] f = refl
length-map (x ∷ xs) f = ap suc (length-map xs f)

module _ {ℓ} {A : Type ℓ} where
  abbrev nothing : List A
  nothing = []

  drop-nil : (n : ℕ) → drop n nothing ≡ []
  drop-nil zero = refl
  drop-nil (suc n) = refl

  take-nil : (n : ℕ) → take n nothing ≡ []
  take-nil zero = refl
  take-nil (suc n) = refl

  drop-drop : (m n : ℕ) (xs : List A) → drop n (drop m xs) ≡ drop (m + n) xs
  drop-drop zero n xs = ap (λ k. drop k xs) (omega arith)
  drop-drop (suc m) n [] = rw (drop-nil n, drop-nil (suc m + n))
  drop-drop (suc m) n (x ∷ xs) =
      let e : suc (m + n) ≡ suc m + n = omega arith in
      drop-drop m n xs ∙ ap (λ k. drop k (x ∷ xs)) e

  take-take : (s n : ℕ) (xs : List A) → s ≤ n → take s (take n xs) ≡ take s xs
  take-take zero n xs h = refl
  take-take (suc s) zero xs h = absurd (omega arith)
  take-take (suc s) (suc n) [] h = refl
  take-take (suc s) (suc n) (x ∷ xs) h = ap (λ ys. x ∷ ys) (take-take s n xs (omega arith))

  take-drop-take :
      (v s n : ℕ) (xs : List A) → v + s ≤ n → take s (drop v (take n xs)) ≡ take s (drop v xs)
  take-drop-take zero s n xs h = take-take s n xs (omega arith)
  take-drop-take (suc v) s zero xs h = absurd (omega arith)
  take-drop-take (suc v) s (suc n) [] h = refl
  take-drop-take (suc v) s (suc n) (x ∷ xs) h = take-drop-take v s n xs (omega arith)

  -- A part of a part is a part.
  pub part_of_part :
      (xs : List A) (offset n v s : ℕ)
      → v + s ≤ n
      → take s (drop v (take n (drop offset xs))) ≡ take s (drop (offset + v) xs)
  part_of_part xs offset n v s h =
      take-drop-take v s n (drop offset xs) h ∙ ap (take s) (drop-drop offset v xs)

  -- A part that ends within the list is whole.
  pub length-part :
      (xs : List A) (offset s : ℕ) → offset + s ≤ length xs → length (take s (drop offset xs)) ≡ s
  length-part xs offset s h = omega (arith, length-take s (drop offset xs), length-drop offset xs)

module _ {ℓ} {A : Type ℓ} (p : A → Bool) where
  pub keep_hit : (x : A) (xs : List A) → p x ≡ true → keep p (x ∷ xs) ≡ x ∷ keep p xs
  keep_hit x xs e = rw (e, keep)

  pub keep_miss : (x : A) (xs : List A) → p x ≡ false → keep p (x ∷ xs) ≡ keep p xs
  keep_miss x xs e = rw (e, keep)

  -- An element that is kept stands in the list and passes the test.
  pub keep-get :
      (xs : List A) {s : A} {rest : List A}
      → keep p xs ≡ s ∷ rest
      → (i : ℕ) × (get_elem? xs i ≡ some s) × (p s ≡ true)
  keep-get [] h = cc
  keep-get (x ∷ xs) {s} h = elim (Bool-cases (p x)) [
    | inl e ↦
        let same : x ≡ s = cc (keep_hit x xs e) in (0, ap some same, subst (λ y. p y ≡ true) same e)
    | inr e ↦ let (i, q, r) = keep-get xs (sym (keep_miss x xs e) ∙ h) in (suc i, q, r)
  ]

  -- An element that passes the test.
  pub any-get :
      (xs : List A) → any p xs ≡ true → (i : ℕ) × (x : A) × (get_elem? xs i ≡ some x) × (p x ≡ true)
  any-get [] h = cc
  any-get (x ∷ xs) h = elim (Bool-cases (p x)) [
    | inl e ↦ (0, x, refl, e)
    | inr e ↦
        let later : any p xs ≡ true = ground (arith, e, h) in
        let (i, y, q, r) = any-get xs later in (suc i, y, q, r)
  ]

pub append_nil {ℓ} : {A : Type ℓ} (xs ys : List A) → xs ++ ys ≡ [] → (xs ≡ []) × (ys ≡ [])
append_nil [] ys h = (refl, h)
append_nil (x ∷ xs) ys h = cc

pub All-get {ℓ κ} :
    {A : Type ℓ} (P : A → Type κ) (xs : List A) (i : ℕ) {x : A}
    → All P xs
    → get_elem? xs i ≡ some x
    → P x
All-get P [] i a h = cc
All-get P (y ∷ ys) zero a h = subst P (some-injective _ _ h) a.0
All-get P (y ∷ ys) (suc i) a h = All-get P ys i a.1 h
