-- ===== src/Provenance/Extract/Body.antt =====
-- `body` of extract_function: the tokens from one place up to another.
use fragma.Prelude.{
  ℕ, zero, suc, ◌+◌, ◌-◌, ◌≤◌, ◌<◌, ◌≡◌, refl, sym, ap, ◌∙◌, List, [], ◌∷◌, none, some, map, length,
  take, drop, get_elem?, arith, length-map,
}
use fragma.Provenance.Lex.{Token}
use fragma.Provenance.Extract.{body}

get-take {ℓ} :
    {A : Type ℓ} (n : ℕ) (xs : List A) (j : ℕ) → j < n → get_elem? (take n xs) j ≡ get_elem? xs j
get-take zero xs j h = absurd (omega (arith, h))
get-take (suc n) [] j h = refl
get-take (suc n) (x ∷ xs) zero h = refl
get-take (suc n) (x ∷ xs) (suc j) h = get-take n xs j (omega (arith, h))

get-drop {ℓ} :
    {A : Type ℓ} (r : ℕ) (xs : List A) (j : ℕ) → get_elem? (drop r xs) j ≡ get_elem? xs (r + j)
get-drop zero xs j = ap (get_elem? xs) (omega arith)
get-drop (suc r) [] j = refl
get-drop (suc r) (x ∷ xs) j =
    let next : suc r + j ≡ suc (r + j) = omega arith in
    get-drop r xs j ∙ sym (ap (get_elem? (x ∷ xs)) next)

get-map {ℓ κ} :
    {A : Type ℓ} {B : Type κ} (f : A → B) (xs : List A) (j : ℕ) {x : A}
    → get_elem? xs j ≡ some x
    → get_elem? (map f xs) j ≡ some (f x)
get-map f [] j h = cc
get-map f (x ∷ xs) zero h = ap (λ o. elim o [ none ↦ none | some y ↦ some (f y) ]) h
get-map f (x ∷ xs) (suc j) h = get-map f xs j h

-- A list with an element at j is cut after it.
length-take_get {ℓ} :
    {A : Type ℓ} (xs : List A) (j : ℕ) {x : A}
    → get_elem? xs j ≡ some x
    → length (take (suc j) xs) ≡ suc j
length-take_get [] j h = cc
length-take_get (x ∷ xs) zero h = refl
length-take_get (x ∷ xs) (suc j) h = ap suc (length-take_get xs j h)

pub get-body :
    (tokens : List Token) (raw stop place : ℕ) {t : Token}
    → get_elem? tokens place ≡ some t
    → place < stop
    → raw ≤ place
    → get_elem? (body tokens raw stop) (place - raw) ≡ some (t.value)
get-body tokens raw stop place h below above =
    get-map (λ t. t.value) (take (stop - raw) (drop raw tokens)) (place - raw)
      (get-take (stop - raw) (drop raw tokens) (place - raw) (omega (arith, below, above))
        ∙ get-drop raw tokens (place - raw)
        ∙ ap (get_elem? tokens) (omega (arith, above))
        ∙ h)

pub length-body :
    (tokens : List Token) (raw stop : ℕ) {t : Token}
    → get_elem? tokens stop ≡ some t
    → raw < stop
    → length (body tokens raw (stop + 1)) ≡ stop - raw + 1
length-body tokens raw stop h above =
    let many : stop + 1 - raw ≡ suc (stop - raw) = omega (arith, above) in
    let one : suc (stop - raw) ≡ stop - raw + 1 = omega arith in
    length-map (take (stop + 1 - raw) (drop raw tokens)) (λ t. t.value)
    ∙ ap (λ n. length (take n (drop raw tokens))) many
    ∙ length-take_get (drop raw tokens) (stop - raw)
        (get-drop raw tokens (stop - raw) ∙ ap (get_elem? tokens) (omega (arith, above)) ∙ h)
    ∙ one
