-- ===== src/Suite/Routes/Distinct.antt =====
-- Lists of names without repetition, and what filtering and appending keep of them.
use fragma.Prelude.{
  all_distinct, ◌≡◌, refl, sym, ap, ◌∙◌, subst, Bool, true, false, not, ◌||◌, List, [], ◌∷◌, ◌++◌,
  String, str_eq, member, map, keep, any, All, Bool-cases, inl, inr, eq_iff, &&-eq-true, arith,
  keep_hit, keep_miss,
}
use fragma.Suite.Routes.{Routes, routed}

-- Names that are kept stand in the list and pass the test.
keep-member :
    (p : String → Bool) (names : List String) (i : String)
    → member i (keep p names) ≡ true
    → member i names ≡ true
keep-member p [] i h = h
keep-member p (n ∷ ns) i h = elim (Bool-cases (str_eq n i)) [
  | inl e ↦ rw e refl
  | inr e ↦ elim (Bool-cases (p n)) [
    | inl f ↦
        let here : member i (n ∷ keep p ns) ≡ true = sym (ap (member i) (keep_hit p n ns f)) ∙ h in
        let rest : member i (keep p ns) ≡ true = sym (rw e refl) ∙ here in
        rw (e, keep-member p ns i rest) refl
    | inr f ↦
        let rest : member i (keep p ns) ≡ true = sym (ap (member i) (keep_miss p n ns f)) ∙ h in
        rw (e, keep-member p ns i rest) refl
  ]
]

pub keep_distinct :
    (p : String → Bool) (names : List String)
    → all_distinct names ≡ true
    → all_distinct (keep p names) ≡ true
unfolding all_distinct
keep_distinct p [] h = h
keep_distinct p (n ∷ ns) h =
    let (new, rest) = &&-eq-true (not (member n ns)) _ h in
    elim (Bool-cases (p n)) [
      | inr f ↦ ap all_distinct (keep_miss p n ns f) ∙ keep_distinct p ns rest
      | inl f ↦ elim (Bool-cases (member n (keep p ns))) [
        | inl m ↦ absurd (ground (arith, new, keep-member p ns n m))
        | inr m ↦ ap all_distinct (keep_hit p n ns f) ∙ (rw (m, keep_distinct p ns rest) refl)
      ]
    ]

member-append :
    (i : String) (xs ys : List String) → member i (xs ++ ys) ≡ (member i xs || member i ys)
member-append i [] ys = refl
member-append i (x ∷ xs) ys = elim (Bool-cases (str_eq x i)) [
  | inl e ↦ rw e refl
  | inr e ↦ rw (e, member-append i xs ys) refl
]

both_false : (a b : Bool) → (a || b) ≡ false → (a ≡ false) × (b ≡ false)
both_false a b h = ground arith

differs : (x y : String) → str_eq x y ≡ false → str_eq y x ≡ false
differs x y h = elim (Bool-cases (str_eq y x)) [
  | inl e ↦
      let same : str_eq x y ≡ true = (eq_iff x y).1 (sym ((eq_iff y x).0 e)) in
      absurd (ground arith)
  | inr e ↦ e
]

-- No element of `ys` is `x` or stands in `xs`.
any_later :
    (x : String) (xs ys : List String)
    → any (λ i. member i (x ∷ xs)) ys ≡ false
    → (member x ys ≡ false) × (any (λ i. member i xs) ys ≡ false)
any_later x xs [] h = (refl, refl)
any_later x xs (y ∷ ys) h =
    let (first, rest) = both_false (member y (x ∷ xs)) (any (λ i. member i (x ∷ xs)) ys) h in
    let (other, absent) = both_false (str_eq x y) (member y xs) first in
    let (apart, later) = any_later x xs ys rest in
    (rw (differs x y other, apart) refl, rw (absent, later) refl)

pub append_distinct :
    (xs ys : List String)
    → all_distinct xs ≡ true
    → all_distinct ys ≡ true
    → any (λ i. member i xs) ys ≡ false
    → all_distinct (xs ++ ys) ≡ true
unfolding all_distinct
append_distinct [] ys a b h = b
append_distinct (x ∷ xs) ys a b h =
    let (new, rest) = &&-eq-true (not (member x xs)) _ a in
    let (apart, later) = any_later x xs ys h in
    let fresh : member x xs ≡ false = ground (arith, new) in
    rw (member-append x xs ys, fresh, apart, append_distinct xs ys rest b later) refl

pub routed-append :
    (routes : Routes) (ids : List String) (path : String)
    → routed (routes ++ map (λ i. (i, path)) ids) ≡ routed routes ++ ids
routed-append [] [] path = refl
routed-append [] (i ∷ ids) path = ap (λ t. i ∷ t) (routed-append [] ids path)
routed-append (r ∷ routes) ids path = ap (λ t. r.0 ∷ t) (routed-append routes ids path)

pub All-keep :
    (p : String → Bool) (names : List String)
    → All (λ i. (member i names ≡ true) × (p i ≡ true)) (keep p names)
All-keep p names = from names (λ i m. m)
  where
    own : (n : String) (ns : List String) → member n (n ∷ ns) ≡ true
    own n ns = let e : str_eq n n ≡ true = (eq_iff n n).1 refl in rw e refl

    later :
        (n : String) (ns : List String) (i : String) → member i ns ≡ true → member i (n ∷ ns) ≡ true
    later n ns i m = elim (Bool-cases (str_eq n i)) [ inl e ↦ rw e refl | inr e ↦ rw (e, m) refl ]

    from :
        (ns : List String)
        → ((i : String) → member i ns ≡ true → member i names ≡ true)
        → All (λ i. (member i names ≡ true) × (p i ≡ true)) (keep p ns)
    from [] f = tt
    from (n ∷ ns) f =
        let rest = from ns (λ i m. f i (later n ns i m)) in
        elim (Bool-cases (p n)) [
          | inl e ↦
              subst (All (λ i. (member i names ≡ true) × (p i ≡ true))) (sym (keep_hit p n ns e))
                ((f n (own n ns), e), rest)
          | inr e ↦
              subst (All (λ i. (member i names ≡ true) × (p i ≡ true))) (sym (keep_miss p n ns e))
                rest
        ]

pub All-map :
    (P : String × String → Type 0) (f : String → String × String) (xs : List String)
    → All (λ x. P (f x)) xs
    → All P (map f xs)
All-map P f [] a = tt
All-map P f (x ∷ xs) a = (a.0, All-map P f xs a.1)
