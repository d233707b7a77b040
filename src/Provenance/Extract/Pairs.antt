-- ===== src/Provenance/Extract/Pairs.antt =====
-- `matching` of extract_function: what its pairs join, and where normal tokens stand.
use fragma.Prelude.{
  ℕ, zero, suc, ◌+◌, ◌≤◌, ◌<◌, ◌≡◌, refl, ap, ◌∙◌, subst, Bool, true, false, List, [], ◌∷◌, none,
  some, Result, ok, err, All, Bool-cases, inl, inr, codes, text_eq_sound, get_elem?, drop, length,
  arith, ◌==◌, ==_iff, if◌then◌else◌,
}
use mathlib.Core.Option.{some-injective}
use fragma.Provenance.Scan.{Text}
use fragma.Provenance.Lex.{Token}
use fragma.Provenance.Extract.{
  is_c, normal_from, value_in, closes, Balance, balance, with_depth, with_pair, partner, value_at,
}

pub get_drop {ℓ} :
    {A : Type ℓ} (i : ℕ) (xs : List A) {t : A} {ts : List A}
    → drop i xs ≡ t ∷ ts
    → (get_elem? xs i ≡ some t) × (drop (i + 1) xs ≡ ts)
get_drop zero [] h = cc
get_drop zero (u ∷ xs) h = (cc, cc)
get_drop (suc i) [] h = cc
get_drop (suc i) (u ∷ xs) h =
    let (stands, later) = get_drop i xs h in
    let same : suc i + 1 ≡ suc (i + 1) = omega arith in
    (stands, ap (λ n. drop n (u ∷ xs)) same ∙ later)

module _ (normal : List (ℕ × Token)) where
  -- A pair joins an opening delimiter and the one that closes it, further on.
  pub record IsPair (p : ℕ × ℕ) : Type 0 where
    pub forward : p.0 < p.1
    pub open_value : Text
    pub close_value : Text
    pub open_at : value_at normal p.0 ≡ some open_value
    pub close_at : value_at normal p.1 ≡ some close_value
    pub kinds : closes open_value close_value ≡ true

  -- An open delimiter of the stack stands before the place reached.
  abbrev IsOpen : ℕ → ℕ × Text → Type 0
  IsOpen i d = (d.0 < i) × (value_at normal d.0 ≡ some d.1)

  further : (i : ℕ) (stack : List (ℕ × Text)) → All (IsOpen i) stack → All (IsOpen (i + 1)) stack
  further i [] a = tt
  further i (d ∷ stack) a = ((omega (arith, a.0.0), a.0.1), further i stack a.1)

  -- The pairs of what a balance returns.
  abbrev Paired : Result Balance → Type 0
  Paired (ok b) = All IsPair b.matching
  Paired (err message) = Unit

  with_depth-Paired : (d : ℕ) (r : Result Balance) → Paired r → Paired (with_depth d r)
  with_depth-Paired d (ok b) h = h
  with_depth-Paired d (err message) h = tt

  with_pair-Paired :
      (d start close : ℕ) (r : Result Balance)
      → IsPair (start, close)
      → Paired r
      → Paired (with_pair d start close r)
  with_pair-Paired d start close (ok b) p h = (p, h)
  with_pair-Paired d start close (err message) p h = tt

  -- What the recursion shows of the rest, for any stack.
  abbrev Later : ℕ → List (ℕ × Token) → Type 0
  Later i rest =
      (outer : List (ℕ × Text)) → All (IsOpen (i + 1)) outer → Paired (balance (i + 1) outer rest)

  balance-Paired :
      (i : ℕ) (stack : List (ℕ × Text)) (rest : List (ℕ × Token))
      → drop i normal ≡ rest
      → All (IsOpen i) stack
      → Paired (balance i stack rest)
  unfolding balance
  balance-Paired i [] [] h a = tt
  balance-Paired i (start ∷ stack) [] h a = tt
  balance-Paired i stack ((raw, t) ∷ rest) h a =
      opening (λ outer. balance-Paired (i + 1) outer rest (get_drop i normal h).1)
        (value_in t.value ("(" ∷ "[" ∷ "{" ∷ []))
    where
      stands : value_at normal i ≡ some t.value
      stands =
          ap (λ o. elim o [ none ↦ none | some (r, u) ↦ some (u.value) ]) (get_drop i normal h).0

      matched :
          Later i rest
          → (start : ℕ) (value : Text) (outer : List (ℕ × Text)) (x : Bool)
          → All (IsOpen i) ((start, value) ∷ outer)
          → closes value t.value ≡ x
          → Paired (elim x [
            | true ↦ with_pair (length outer + 1) start i (balance (i + 1) outer rest)
            | false ↦ err "unbalanced delimiter"
          ])
      matched later start value outer true o e =
          with_pair-Paired (length outer + 1) start i (balance (i + 1) outer rest)
            (record {
              forward = o.0.0;
              open_value = value;
              close_value = t.value;
              open_at = o.0.1;
              close_at = stands;
              kinds = e;
            })
            (later outer (further i outer o.1))
      matched later start value outer false o e = tt

      popped :
          Later i rest
          → (s : List (ℕ × Text)) → All (IsOpen i) s
          → Paired (elim s [
            | [] ↦ err "unbalanced delimiter"
            | (start, value) ∷ outer ↦ elim (closes value t.value) [
              | true ↦ with_pair (length outer + 1) start i (balance (i + 1) outer rest)
              | false ↦ err "unbalanced delimiter"
            ]
          ])
      popped later [] o = tt
      popped later ((start, value) ∷ outer) o =
          matched later start value outer (closes value t.value) o refl

      closing :
          Later i rest
          → (x : Bool)
          → Paired (elim x [
            | false ↦ with_depth (length stack) (balance (i + 1) stack rest)
            | true ↦ elim stack [
              | [] ↦ err "unbalanced delimiter"
              | (start, value) ∷ outer ↦ elim (closes value t.value) [
                | true ↦ with_pair (length outer + 1) start i (balance (i + 1) outer rest)
                | false ↦ err "unbalanced delimiter"
              ]
            ]
          ])
      closing later false =
          with_depth-Paired (length stack) (balance (i + 1) stack rest)
            (later stack (further i stack a))
      closing later true = popped later stack a

      opening :
          Later i rest
          → (x : Bool)
          → Paired (elim x [
            | true ↦ with_depth (length stack) (balance (i + 1) ((i, t.value) ∷ stack) rest)
            | false ↦ elim (value_in t.value (")" ∷ "]" ∷ "}" ∷ [])) [
              | false ↦ with_depth (length stack) (balance (i + 1) stack rest)
              | true ↦ elim stack [
                | [] ↦ err "unbalanced delimiter"
                | (start, value) ∷ outer ↦ elim (closes value t.value) [
                  | true ↦ with_pair (length outer + 1) start i (balance (i + 1) outer rest)
                  | false ↦ err "unbalanced delimiter"
                ]
              ]
            ]
          ])
      opening later true =
          with_depth-Paired (length stack) (balance (i + 1) ((i, t.value) ∷ stack) rest)
            (later ((i, t.value) ∷ stack) ((omega arith, stands), further i stack a))
      opening later false = closing later (value_in t.value (")" ∷ "]" ∷ "}" ∷ []))

  -- The partner of a place stands in a pair with it.
  pub partner-IsPair :
      (i : ℕ) (pairs : List (ℕ × ℕ)) {close : ℕ}
      → All IsPair pairs
      → partner i pairs ≡ some close
      → IsPair (i, close)
  partner-IsPair i [] a h = cc
  partner-IsPair i ((start, last) ∷ rest) {close} a h = elim (Bool-cases (start == i)) [
    | inl e ↦
        let same : last ≡ close = some-injective _ _ (ground (arith, h, e)) in
        subst (λ k. IsPair (k, close)) ((==_iff start i).0 e)
          (subst (λ k. IsPair (start, k)) same a.0)
    | inr e ↦ partner-IsPair i rest a.1 (ground (arith, h, e))
  ]

  pub balance-IsPair : {b : Balance} → balance 0 [] normal ≡ ok b → All IsPair b.matching
  balance-IsPair h = subst Paired h (balance-Paired 0 [] normal refl tt)

-- What closes a brace.
pub closes-brace : (w : Text) → closes (codes "{") w ≡ true → w ≡ codes "}"
closes-brace w h = text_eq_sound w (codes "}") (ground arith)

-- The places of normal tokens do not fall below the start.
normal_from-le :
    (k : ℕ) (ts : List Token) (a : ℕ) {p : ℕ × Token}
    → get_elem? (normal_from k ts) a ≡ some p
    → k ≤ p.0
normal_from-le k [] a h = cc
normal_from-le k (t ∷ ts) a {p} h = by (λ x. normal_from-le (k + 1) ts x) (is_c t.kind) a h
  where
    by :
        ((a : ℕ) → get_elem? (normal_from (k + 1) ts) a ≡ some p → k + 1 ≤ p.0)
        → (x : Bool) (a : ℕ)
        → get_elem? (if x then (k, t) ∷ normal_from (k + 1) ts else normal_from (k + 1) ts) a
          ≡ some p
        → k ≤ p.0
    by below true zero e = let same = ap (λ q. q.0) (some-injective _ _ e) in omega (arith, same)
    by below true (suc a) e = let above = below a e in omega (arith, above)
    by below false a e = let above = below a e in omega (arith, above)

-- They grow with the index.
pub normal_from-lt :
    (k : ℕ) (ts : List Token) (a c : ℕ) {p q : ℕ × Token}
    → get_elem? (normal_from k ts) a ≡ some p
    → get_elem? (normal_from k ts) c ≡ some q
    → a < c
    → p.0 < q.0
normal_from-lt k [] a c g h l = cc
normal_from-lt k (t ∷ ts) a c {p} {q} g h l =
    by (λ x y. normal_from-lt (k + 1) ts x y) (is_c t.kind) a c g h l
  where
    by :
        ((a c : ℕ)
          → get_elem? (normal_from (k + 1) ts) a ≡ some p
          → get_elem? (normal_from (k + 1) ts) c ≡ some q
          → a < c
          → p.0 < q.0)
        → (x : Bool) (a c : ℕ)
        → get_elem? (if x then (k, t) ∷ normal_from (k + 1) ts else normal_from (k + 1) ts) a
          ≡ some p
        → get_elem? (if x then (k, t) ∷ normal_from (k + 1) ts else normal_from (k + 1) ts) c
          ≡ some q
        → a < c
        → p.0 < q.0
    by grow true zero zero g h l = absurd (omega (arith, l))
    by grow true (suc a) zero g h l = absurd (omega (arith, l))
    by grow true zero (suc c) g h l =
        let above = normal_from-le (k + 1) ts c h in
        let same = ap (λ r. r.0) (some-injective _ _ g) in omega (arith, above, same)
    by grow true (suc a) (suc c) g h l = grow a c g h (omega (arith, l))
    by grow false a c g h l = grow a c g h l
