-- ===== src/Prelude/Errors.antt =====
-- Python's exceptions as values: an error is the message that the source raises.
use Prim.Native.Nat.{ℕ, zero, suc}
use mathlib.Core.Option.{some, some-injective}
use Prim.Native.String.{String}
use mathlib.Core.Path.{◌≡◌, refl, ap, subst}
use mathlib.Core.Bool.{Bool, true, false}
use mathlib.Core.List.{List, [], ◌∷◌}
use fragma.Prelude.Lists.{All, length, get_elem?}

pub data Result {ℓ} (A : Type ℓ) : Type ℓ where
  ok : A → Result A
  -- the exception's message
  err : String → Result A

infixl 5 ◌>>=◌
abbrev pub ◌>>=◌ {ℓ₁ ℓ₂} : {B : Type ℓ₁} {A : Type ℓ₂} → Result A → (A → Result B) → Result B
err message >>= next = err message
ok value >>= next = next value

-- A statement whose value is not used.
infixl 5 ◌>>◌
abbrev pub ◌>>◌ {ℓ} : {C : Type ℓ} → Result (Unit {0}) → Result C → Result C
checked >> next = checked >>= λ done. next

-- `require(condition, message)`: raise the message unless the condition holds.
abbrev pub require : Bool → String → Result (Unit {0})
require true message = ok tt
require false message = err message

-- What a chain that did not raise went through.
pub >>=-eq-ok {ℓ₁ ℓ₂} :
    {A : Type ℓ₁} {B : Type ℓ₂} (first : Result A) (next : A → Result B) {result : B}
    → (first >>= next) ≡ ok result
    → (value : A) × (first ≡ ok value) × (next value ≡ ok result)
>>=-eq-ok (err message) next h = cc
>>=-eq-ok (ok value) next h = (value, refl, h)

pub ok-injective {ℓ} : {A : Type ℓ} {a b : A} → ok a ≡ ok b → a ≡ b
ok-injective h = cc

-- What passed a check satisfies it, and the rest went through.
pub require-eq-ok {ℓ} :
    {B : Type ℓ} (c : Bool) (message : String) (k : Result B) {b : B}
    → (require c message >> k) ≡ ok b
    → (c ≡ true) × (k ≡ ok b)
require-eq-ok true message k h = (refl, h)
require-eq-ok false message k h = cc

pub require-true : (c : Bool) (message : String) → require c message ≡ ok tt → c ≡ true
require-true true message h = refl
require-true false message h = cc

-- A check on each element in turn.
abbrev pub each {ℓ} : {A : Type ℓ} → (A → Result (Unit {0})) → List A → Result (Unit {0})
each f [] = ok tt
each f (x ∷ xs) = f x >>= λ _. each f xs

-- A comprehension whose body may raise.
abbrev pub collect {ℓ κ} : {A : Type ℓ} {B : Type κ} → (A → Result B) → List A → Result (List B)
collect f [] = ok []
collect f (x ∷ xs) = f x >>= λ y. collect f xs >>= λ ys. ok (y ∷ ys)

-- Every element passed the check.
pub All-each {ℓ} :
    {A : Type ℓ} (f : A → Result (Unit {0})) (xs : List A)
    → each f xs ≡ ok tt
    → All (λ x. f x ≡ ok tt) xs
All-each f [] h = tt
All-each f (x ∷ xs) h = let (u, p, q) = >>=-eq-ok (f x) (λ _. each f xs) h in (p, All-each f xs q)

-- The elements of two lists of one length stand in a relation, place by place.
abbrev pub Both {ℓ κ} : {A : Type ℓ} {B : Type κ} → (A → B → Type 0) → List A → List B → Type 0
Both R [] [] = Unit
Both R (x ∷ xs) (y ∷ ys) = R x y × Both R xs ys
Both R _ _ = ⊥

-- A comprehension that did not raise has one result for each element.
pub Both-collect {ℓ κ} :
    {A : Type ℓ} {B : Type κ} (f : A → Result B) (R : A → B → Type 0) (xs : List A) {ys : List B}
    → ((x : A) (y : B) → f x ≡ ok y → R x y)
    → collect f xs ≡ ok ys
    → Both R xs ys
Both-collect f R [] {ys = []} rel h = tt
Both-collect f R [] {ys = y ∷ ys} rel h = cc
Both-collect f R (x ∷ xs) {ys} rel h =
    let (y, p, q) = >>=-eq-ok (f x) _ h in
    let (zs, r, s) = >>=-eq-ok (collect f xs) _ q in
    let made : y ∷ zs ≡ ys = cc in
    subst (Both R (x ∷ xs)) made (rel x y p, Both-collect f R xs rel r)

pub length-Both {ℓ κ} :
    {A : Type ℓ} {B : Type κ} (R : A → B → Type 0) (xs : List A) (ys : List B)
    → Both R xs ys
    → length ys ≡ length xs
length-Both R [] [] h = refl
length-Both R [] (y ∷ ys) h = absurd h
length-Both R (x ∷ xs) [] h = absurd h
length-Both R (x ∷ xs) (y ∷ ys) h = ap suc (length-Both R xs ys h.1)

-- What the relation carries over.
pub All-Both {ℓ κ} :
    {A : Type ℓ} {B : Type κ} (R : A → B → Type 0) (P : A → Type 0) (Q : B → Type 0) (xs : List A)
    (ys : List B)
    → ((x : A) (y : B) → R x y → P x → Q y)
    → Both R xs ys
    → All P xs
    → All Q ys
All-Both R P Q [] [] f h a = tt
All-Both R P Q [] (y ∷ ys) f h a = absurd h
All-Both R P Q (x ∷ xs) [] f h a = absurd h
All-Both R P Q (x ∷ xs) (y ∷ ys) f h a = (f x y h.0 a.0, All-Both R P Q xs ys f h.1 a.1)

-- The partner of an element, from either side.
pub Both-get {ℓ κ} :
    {A : Type ℓ} {B : Type κ} (R : A → B → Type 0) (xs : List A) (ys : List B) (i : ℕ) {x : A}
    → Both R xs ys
    → get_elem? xs i ≡ some x
    → (y : B) × (get_elem? ys i ≡ some y) × R x y
Both-get R [] ys i h e = cc
Both-get R (x ∷ xs) [] i h e = absurd h
Both-get R (x ∷ xs) (y ∷ ys) zero h e = (y, refl, subst (λ z. R z y) (some-injective _ _ e) h.0)
Both-get R (x ∷ xs) (y ∷ ys) (suc i) h e = Both-get R xs ys i h.1 e

pub Both-get_back {ℓ κ} :
    {A : Type ℓ} {B : Type κ} (R : A → B → Type 0) (xs : List A) (ys : List B) (i : ℕ) {y : B}
    → Both R xs ys
    → get_elem? ys i ≡ some y
    → (x : A) × (get_elem? xs i ≡ some x) × R x y
Both-get_back R [] [] i h e = cc
Both-get_back R [] (y ∷ ys) i h e = absurd h
Both-get_back R (x ∷ xs) [] i h e = cc
Both-get_back R (x ∷ xs) (y ∷ ys) zero h e =
    (x, refl, subst (λ z. R x z) (some-injective _ _ e) h.0)
Both-get_back R (x ∷ xs) (y ∷ ys) (suc i) h e = Both-get_back R xs ys i h.1 e
