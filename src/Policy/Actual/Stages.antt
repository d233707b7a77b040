-- ===== src/Policy/Actual/Stages.antt =====
-- validate_actual_policy: which arguments of a command are analysis stages.
use fragma.Prelude.{
  ℕ, zero, suc, ◌≡◌, refl, sym, ap, ◌∙◌, Bool, true, false, List, [], ◌∷◌, String, str_eq, eq_iff,
  str_differs, member, keep, keep_hit, keep_miss, is_empty, map, codes, text_eq, text_eq_sound, All,
  Bool-cases, inl, inr, &&-eq-true, arith,
}
use fragma.Policy.Texts.{Text, count, same_texts}
use fragma.Policy.Command.{is_stage}
use fragma.Policy.Actual.{is_rte_option}

pub same_texts_sound :
    (xs : List String) (ts : List Text) → same_texts xs ts ≡ true → map codes xs ≡ ts
same_texts_sound [] [] h = refl
same_texts_sound [] (t ∷ ts) h = cc
same_texts_sound (x ∷ xs) [] h = cc
same_texts_sound (x ∷ xs) (t ∷ ts) h =
    let (p, q) = &&-eq-true (text_eq (codes x) t) _ h in
    ap (λ u. u ∷ map codes xs) (text_eq_sound (codes x) t p)
    ∙ ap (λ us. t ∷ us) (same_texts_sound xs ts q)

-- `n` times the same argument
abbrev pub repeated : ℕ → String → List String
repeated zero a = []
repeated (suc n) a = a ∷ repeated n a

-- Where a test accepts one argument alone, what passes it is that argument as often as it occurs.
pub keep-repeated :
    (p : String → Bool) (a : String) (argv : List String)
    → p a ≡ true
    → All (λ s. str_eq s a ≡ false → p s ≡ false) argv
    → keep p argv ≡ repeated (count a argv) a
keep-repeated p a [] h alone = refl
keep-repeated p a (x ∷ xs) h alone =
    let later = keep-repeated p a xs h alone.1 in
    elim (Bool-cases (str_eq x a)) [
      | inl e ↦
          let same = (eq_iff x a).0 e in
          rw e (
            keep_hit p x xs (ap p same ∙ h)
            ∙ (ap (λ y. y ∷ keep p xs) same ∙ ap (λ ys. a ∷ ys) later))
      | inr e ↦ rw e (keep_miss p x xs (alone.0 e) ∙ later)
    ]

str_eq-sym : (a b : String) → str_eq a b ≡ false → str_eq b a ≡ false
str_eq-sym a b h = elim (Bool-cases (str_eq b a)) [
  | inl e ↦ absurd (str_differs a b h (sym ((eq_iff b a).0 e)))
  | inr e ↦ e
]

-- An argument that is none of the three is no stage.
is_stage-other :
    (s : String)
    → str_eq s "-wp" ≡ false
    → str_eq s "-rte" ≡ false
    → str_eq s "-eva" ≡ false
    → is_stage s ≡ false
is_stage-other s w r v =
    let w' = str_eq-sym s "-wp" w in
    let r' = str_eq-sym s "-rte" r in let v' = str_eq-sym s "-eva" v in ground (arith, w', r', v')

pub wp_alone :
    (argv : List String)
    → member "-eva" argv ≡ false
    → is_empty (keep is_rte_option argv) ≡ true
    → All (λ s. str_eq s "-wp" ≡ false → is_stage s ≡ false) argv
wp_alone [] v r = tt
wp_alone (x ∷ xs) v r = elim (Bool-cases (is_rte_option x)) [
  | inl e ↦ let filled : false ≡ true = sym (ap is_empty (keep_hit is_rte_option x xs e)) ∙ r in cc
  | inr e ↦ (
    (λ w. is_stage-other x w (ground (arith, e)) (ground (arith, v))),
    wp_alone xs (ground (arith, v)) (sym (ap is_empty (keep_miss is_rte_option x xs e)) ∙ r),
  )
]

pub eva_alone :
    (argv : List String)
    → member "-wp" argv ≡ false
    → is_empty (keep is_rte_option argv) ≡ true
    → All (λ s. str_eq s "-eva" ≡ false → is_stage s ≡ false) argv
eva_alone [] w r = tt
eva_alone (x ∷ xs) w r = elim (Bool-cases (is_rte_option x)) [
  | inl e ↦ let filled : false ≡ true = sym (ap is_empty (keep_hit is_rte_option x xs e)) ∙ r in cc
  | inr e ↦ (
    (λ v. is_stage-other x (ground (arith, w)) (ground (arith, e)) v),
    eva_alone xs (ground (arith, w)) (sym (ap is_empty (keep_miss is_rte_option x xs e)) ∙ r),
  )
]
