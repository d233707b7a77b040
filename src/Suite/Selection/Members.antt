-- ===== src/Suite/Selection/Members.antt =====
-- Membership in the lists that `select_targets` builds.
use mathlib.Core.List.{Memᴰ}
use mathlib.Core.Option.{some-injective}
use fragma.Prelude.{
  ◌≡◌, refl, sym, ap, ◌∙◌, subst, Bool, true, List, [], ◌∷◌, ◌++◌, some, String, str_eq, keep,
  arith, Bool-cases, inl, inr, keep_hit, keep_miss, All,
}
use fragma.Suite.Selection.{Target, find_target, reverse}
use fragma.Suite.Selection.Measure.{find_hit, find_miss}

pub Mem-append : (t : Target) (xs ys : List Target) → Memᴰ t xs → Memᴰ t (xs ++ ys)
Mem-append t [] ys m = elim m [ ]
Mem-append t (x ∷ xs) ys (Memᴰ.head e) = Memᴰ.head e
Mem-append t (x ∷ xs) ys (Memᴰ.tail m) = Memᴰ.tail (Mem-append t xs ys m)

pub find_target-Mem :
    (k : String) (ts : List Target) {c : Target} → find_target k ts ≡ some c → Memᴰ c ts
unfolding find_target
find_target-Mem k [] h = absurd (ground arith)
find_target-Mem k (t ∷ ts) {c} h = elim (Bool-cases (str_eq t.id k)) [
  | inl e ↦ Memᴰ.head (sym (some-injective _ _ (sym (find_hit k t ts e) ∙ h)))
  | inr e ↦ Memᴰ.tail (find_target-Mem k ts (sym (find_miss k t ts e) ∙ h))
]

pub All-Mem : (P : Target → Type 0) (xs : List Target) → ((t : Target) → Memᴰ t xs → P t) → All P xs
All-Mem P [] f = tt
All-Mem P (x ∷ xs) f = (f x (Memᴰ.head refl), All-Mem P xs (λ t m. f t (Memᴰ.tail m)))

pub Mem-keep : (p : Target → Bool) (t : Target) (xs : List Target) → Memᴰ t (keep p xs) → Memᴰ t xs
Mem-keep p t (x ∷ xs) m = elim (Bool-cases (p x)) [
  | inl e ↦ elim (subst (Memᴰ t) (keep_hit p x xs e) m) [
    | Memᴰ.head same ↦ Memᴰ.head same
    | Memᴰ.tail n ↦ Memᴰ.tail (Mem-keep p t xs n)
  ]
  | inr e ↦ Memᴰ.tail (Mem-keep p t xs (subst (Memᴰ t) (keep_miss p x xs e) m))
]
Mem-keep p t [] m = m

pub Mem-keep_passes :
    (p : Target → Bool) (t : Target) (xs : List Target)
    → Memᴰ t xs
    → p t ≡ true
    → Memᴰ t (keep p xs)
Mem-keep_passes p t [] m h = elim m [ ]
Mem-keep_passes p t (x ∷ xs) (Memᴰ.head e) h =
    subst (Memᴰ t) (sym (keep_hit p x xs (ap p (sym e) ∙ h))) (Memᴰ.head e)
Mem-keep_passes p t (x ∷ xs) (Memᴰ.tail m) h = elim (Bool-cases (p x)) [
  | inl e ↦ subst (Memᴰ t) (sym (keep_hit p x xs e)) (Memᴰ.tail (Mem-keep_passes p t xs m h))
  | inr e ↦ subst (Memᴰ t) (sym (keep_miss p x xs e)) (Mem-keep_passes p t xs m h)
]

pub Mem-reverse : (t : Target) (xs : List Target) → Memᴰ t xs → Memᴰ t (reverse xs)
Mem-reverse t [] m = elim m [ ]
Mem-reverse t (x ∷ xs) (Memᴰ.tail m) = Mem-append t (reverse xs) (x ∷ []) (Mem-reverse t xs m)
Mem-reverse t (x ∷ xs) (Memᴰ.head e) = last (reverse xs)
  where
    last : (ys : List Target) → Memᴰ t (ys ++ (x ∷ []))
    last [] = Memᴰ.head e
    last (y ∷ ys) = Memᴰ.tail (last ys)
