-- ===== src/Progress/Enumeration/Laws.antt =====
-- How long the enumerations are, and what stands in them.
use native.Mathlib.Nat.{pow-suc, pow-zero, mul_comm}
use mathlib.Core.List.{Memᴰ}
use fragma.Prelude.{
  ℕ, zero, suc, ◌*◌, ◌^◌, ◌≤◌, ◌≡◌, refl, sym, ◌∙◌, subst, ap, List, [], ◌∷◌, ◌++◌, map, length,
  length-append, length-map, All, All-append, arith,
}
use fragma.Progress.Enumeration.{each_of, product}

module _ {ℓ κ} {A : Type ℓ} {B : Type κ} where
  pub length-each_of :
      (f : A → List B) (n : ℕ) (xs : List A)
      → ((x : A) → length (f x) ≡ n)
      → length (each_of f xs) ≡ length xs * n
  unfolding each_of
  length-each_of f n [] h = omega arith
  length-each_of f n (x ∷ xs) h =
      omega (arith, length-append (f x) (each_of f xs), h x, length-each_of f n xs h)

pub length-product : (values : List ℕ) (n : ℕ) → length (product values n) ≡ length values ^ n
unfolding product
length-product values zero = sym (pow-zero (length values))
length-product values (suc n) =
    length-each_of (λ v. map (λ s. v ∷ s) (product values n)) (length values ^ n) values
      (λ v. length-map (product values n) (λ s. v ∷ s) ∙ length-product values n)
    ∙ mul_comm (length values) (length values ^ n)
    ∙ sym (pow-suc (length values) n)

module _ {ℓ} {A : Type ℓ} {x : A} where
  pub mem-append_left : {xs : List A} (ys : List A) → Memᴰ x xs → Memᴰ x (xs ++ ys)
  mem-append_left ys (Memᴰ.head e) = Memᴰ.head e
  mem-append_left ys (Memᴰ.tail l) = Memᴰ.tail (mem-append_left ys l)

  pub mem-append_right : (xs : List A) {ys : List A} → Memᴰ x ys → Memᴰ x (xs ++ ys)
  mem-append_right [] l = l
  mem-append_right (y ∷ xs) l = Memᴰ.tail (mem-append_right xs l)

module _ {ℓ κ} {A : Type ℓ} {B : Type κ} where
  pub mem-map : (f : A → B) {x : A} {xs : List A} → Memᴰ x xs → Memᴰ (f x) (map f xs)
  mem-map f (Memᴰ.head e) = Memᴰ.head (ap f e)
  mem-map f (Memᴰ.tail l) = Memᴰ.tail (mem-map f l)

  pub mem-each_of :
      (f : A → List B) {x : A} {y : B} {xs : List A}
      → Memᴰ x xs
      → Memᴰ y (f x)
      → Memᴰ y (each_of f xs)
  unfolding each_of
  mem-each_of f {y = y} (Memᴰ.head e) m = mem-append_left _ (subst (λ z. Memᴰ y (f z)) e m)
  mem-each_of f (Memᴰ.tail l) m = mem-append_right (f _) (mem-each_of f l m)

pub mem-product :
    (values s : List ℕ) → All (λ v. Memᴰ v values) s → Memᴰ s (product values (length s))
unfolding product
mem-product values [] a = Memᴰ.head refl
mem-product values (v ∷ s) a =
    mem-each_of (λ w. map (λ t. w ∷ t) (product values (length s))) a.0
      (mem-map (λ t. v ∷ t) (mem-product values s a.1))

module _ {ℓ κ} {A : Type ℓ} {B : Type κ} where
  pub All-each_of :
      (P : B → Type 0) (f : A → List B) (xs : List A)
      → ((x : A) → All P (f x))
      → All P (each_of f xs)
  unfolding each_of
  All-each_of P f [] h = tt
  All-each_of P f (x ∷ xs) h = All-append P (f x) (each_of f xs) (h x) (All-each_of P f xs h)

  pub All-map :
      (P : A → Type 0) (Q : B → Type 0) (f : A → B) (xs : List A)
      → ((x : A) → P x → Q (f x))
      → All P xs
      → All Q (map f xs)
  All-map P Q f [] h a = tt
  All-map P Q f (x ∷ xs) h a = (h x a.0, All-map P Q f xs h a.1)

-- No longer than the bound.
abbrev pub AtMost : ℕ → List ℕ → Type 0
AtMost n s = length s ≤ n

pub product-AtMost : (values : List ℕ) (n : ℕ) → All (AtMost n) (product values n)
unfolding product
product-AtMost values zero = (omega arith, tt)
product-AtMost values (suc n) = All-each_of (AtMost (suc n)) _ values (λ v.
    All-map (AtMost n) (AtMost (suc n)) (λ s. v ∷ s) (product values n) (λ s h. omega arith)
      (product-AtMost values n))

-- One more place in front.
extended-All :
    (P : ℕ → Type 0) (tails : List (List ℕ)) (values : List ℕ)
    → All (All P) tails
    → All P values
    → All (All P) (each_of (λ v. map (λ s. v ∷ s) tails) values)
unfolding each_of
extended-All P tails [] t a = tt
extended-All P tails (v ∷ values) t a =
    All-append (All P) (map (λ s. v ∷ s) tails) _
      (All-map (All P) (All P) (λ s. v ∷ s) tails (λ s h. (a.0, h)) t)
      (extended-All P tails values t a.1)

-- Every place of every list holds one of the values.
pub product-All :
    (P : ℕ → Type 0) (values : List ℕ) (n : ℕ) → All P values → All (All P) (product values n)
unfolding product
product-All P values zero a = (tt, tt)
product-All P values (suc n) a =
    extended-All P (product values n) values (product-All P values n a) a
