-- ===== src/Provenance/Scan/Bounds.antt =====
-- The matches of fragma/provenance.py stay within the text.
use fragma.Prelude.{
  ℕ, suc, ◌+◌, ◌≤◌, ◌≡◌, refl, sym, ap, true, ◌&&◌, ◌||◌, List, [], ◌∷◌, none, some, String, Result,
  ok, err, ok-injective, ◌==◌, any, codes, starts_with, length, length-drop, drop, Bool-cases,
  Option-cases, inl, inr, &&-eq-true, arith,
}
use mathlib.Core.Option.{some-injective}
use fragma.Provenance.Scan.{
  Text, is_one_of, is_head, is_digit, find_part, identifier_tail, identifier, number_tail, number,
  quote_behind, literal_start, literal_body, first_start,
}

pub starts_with-length :
    (part text : Text) → starts_with part text ≡ true → length part ≤ length text
starts_with-length [] text h = omega arith
starts_with-length (c ∷ part) [] h = cc
starts_with-length (c ∷ part) (d ∷ text) h =
    let (same, later) = &&-eq-true (c == d) _ h in omega (arith, starts_with-length part text later)

pub find_part-length :
    (part text : Text) {n : ℕ} → find_part part text ≡ some n → n + length part ≤ length text
unfolding find_part
find_part-length part [] h = cc
find_part-length part (c ∷ cs) {n} h = elim (Bool-cases (starts_with part (c ∷ cs))) [
  | inl t ↦
      let first : some 0 ≡ some n = (rw (find_part, t) at h) in
      let at_start : 0 ≡ n = some-injective _ _ first in
      omega (arith, starts_with-length part (c ∷ cs) t, at_start)
  | inr f ↦ elim (Option-cases (find_part part cs)) [
    | inl e ↦ let missing : none ≡ some n = (rw (find_part, f, e) at h) in cc
    | inr (k, e) ↦
        let next : some (suc k) ≡ some n = (rw (find_part, f, e) at h) in
        let same : suc k ≡ n = some-injective _ _ next in
        omega (arith, find_part-length part cs e, same)
  ]
]

identifier_tail-length : (text : Text) → identifier_tail text ≤ length text
identifier_tail-length [] = omega arith
identifier_tail-length (c ∷ cs) =
    let later = identifier_tail-length cs in
    elim (Bool-cases (is_head c || is_digit c)) [
      | inl t ↦ rw t (omega (arith, later))
      | inr f ↦ rw f (omega arith)
    ]

pub identifier-length : (text : Text) → identifier text ≤ length text
identifier-length [] = omega arith
identifier-length (c ∷ cs) =
    let later = identifier_tail-length cs in
    elim (Bool-cases (is_head c)) [
      | inl t ↦ rw t (omega (arith, later))
      | inr f ↦ rw f (omega arith)
    ]

number_tail-length : (text : Text) → number_tail text ≤ length text
unfolding number_tail
number_tail-length [] = omega arith
number_tail-length (c ∷ []) = elim (Bool-cases (is_head c || is_digit c || c == 46)) [
  | inl t ↦ rw t (omega arith)
  | inr f ↦ rw f (omega arith)
]
number_tail-length (c ∷ d ∷ cs) =
    let later = number_tail-length cs in
    let next = number_tail-length (d ∷ cs) in
    elim (Bool-cases (is_one_of c (codes "eEpP") && is_one_of d (codes "+-"))) [
      | inl t ↦ rw (number_tail, t) (omega (arith, later))
      | inr f ↦ elim (Bool-cases (is_head c || is_digit c || c == 46)) [
        | inl t ↦ rw (number_tail, f, t) (omega (arith, next))
        | inr g ↦ rw (number_tail, f, g) (omega arith)
      ]
    ]

pub number-length : (text : Text) → number text ≤ length text
unfolding number
number-length [] = omega arith
number-length (c ∷ []) = elim (Bool-cases (is_digit c)) [
  | inl t ↦ rw t (omega arith)
  | inr f ↦ rw f (omega arith)
]
number-length (c ∷ d ∷ cs) =
    let later = number_tail-length cs in
    let next = number_tail-length (d ∷ cs) in
    elim (Bool-cases (is_digit c)) [
      | inl t ↦ rw t (omega (arith, next))
      | inr f ↦ elim (Bool-cases (c == 46 && is_digit d)) [
        | inl t ↦ rw (f, t) (omega (arith, later))
        | inr g ↦ rw (f, g) (omega arith)
      ]
    ]

quote_behind-length :
    (n : ℕ) (text : Text) {m q : ℕ}
    → quote_behind n text ≡ some (m, q)
    → (m ≡ n) × (1 ≤ length text)
quote_behind-length n [] h = cc
quote_behind-length n (c ∷ cs) {m} {q} h = elim (Bool-cases (c == 34 || c == 39)) [
  | inl t ↦
      let found : some (n, c) ≡ some (m, q) = (rw t at h) in
      (sym (ap (λ p. p.0) (some-injective _ _ found)), omega arith)
  | inr f ↦ let missing : none ≡ some (m, q) = (rw f at h) in cc
]

pub literal_start-length :
    (text : Text) {n q : ℕ} → literal_start text ≡ some (n, q) → n + 1 ≤ length text
literal_start-length text {n} {q} h = elim (Bool-cases (starts_with (codes "u8") text)) [
  | inl t ↦
      let (same, filled) = quote_behind-length 2 (drop 2 text) (rw t at h) in
      omega (arith, same, filled, length-drop 2 text)
  | inr f ↦ elim (Bool-cases (any (λ c. starts_with (c ∷ []) text) (codes "uUL"))) [
    | inl t ↦
        let (same, filled) = quote_behind-length 1 (drop 1 text) (rw (f, t) at h) in
        omega (arith, same, filled, length-drop 1 text)
    | inr g ↦
        let (same, filled) = quote_behind-length 0 text (rw (f, g) at h) in
        omega (arith, same, filled)
  ]
]

pub first_start-length :
    (ps : List String) (text : Text) {p : String}
    → first_start ps text ≡ some p
    → length (codes p) ≤ length text
unfolding first_start
first_start-length [] text h = cc
first_start-length (q ∷ ps) text {p} h = elim (Bool-cases (starts_with (codes q) text)) [
  | inl t ↦
      let same : some q ≡ some p = (rw (first_start, t) at h) in
      let same_text : q ≡ p = some-injective _ _ same in
      omega (arith, starts_with-length (codes q) text t, ap (λ s. length (codes s)) same_text)
  | inr f ↦ first_start-length ps text (rw (first_start, f) at h)
]

pub literal_body-length :
    (quote : ℕ) (text : Text) {n : ℕ} → literal_body quote text ≡ ok n → n + 1 ≤ length text
unfolding literal_body
literal_body-length quote [] h = cc
literal_body-length quote (c ∷ []) {n} h = elim (Bool-cases (c == quote)) [
  | inl t ↦ let same : ok 0 ≡ ok n = (rw t at h) in omega (arith, ok-injective same)
  | inr f ↦ elim (Bool-cases (c == 10)) [
    | inl t ↦ let wrong : err "newline in C literal" ≡ ok n = (rw (f, t) at h) in cc
    | inr g ↦ let wrong : err "unterminated C literal" ≡ ok n = (rw (f, g) at h) in cc
  ]
]
literal_body-length quote (c ∷ d ∷ cs) {n} h = elim (Bool-cases (c == quote)) [
  | inl t ↦ let same : ok 0 ≡ ok n = (rw (literal_body, t) at h) in omega (arith, ok-injective same)
  | inr f ↦ elim (Bool-cases (c == 10)) [
    | inl t ↦ let wrong : err "newline in C literal" ≡ ok n = (rw (literal_body, f, t) at h) in cc
    | inr g ↦ elim (Bool-cases (c == 92)) [
      | inl t ↦
          let (k, e, same) = longer 2 (literal_body quote cs) (rw (literal_body, f, g, t) at h) in
          omega (arith, literal_body-length quote cs e, same)
      | inr i ↦
          let (k, e, same) =
            longer 1 (literal_body quote (d ∷ cs)) (rw (literal_body, f, g, i) at h) in
          omega (arith, literal_body-length quote (d ∷ cs) e, same)
    ]
  ]
]
  where
    longer :
        (m : ℕ) (r : Result ℕ) {n : ℕ}
        → (elim r [ err message ↦ err message | ok k ↦ ok (m + k) ]) ≡ ok n
        → (k : ℕ) × (r ≡ ok k) × (m + k ≡ n)
    longer m (err message) e = cc
    longer m (ok k) e = (k, refl, ok-injective e)
