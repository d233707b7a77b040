-- ===== src/Progress/Aggregate/Totals.antt =====
-- How many cases a domain has, and that none is left out.
use native.Mathlib.Nat.{pow-zero}
use mathlib.Core.List.{Memᴰ}
use fragma.Prelude.{
  ℕ, zero, suc, ◌+◌, ◌*◌, ◌^◌, ◌≤◌, ◌≡◌, ◌∙◌, subst, List, [], ◌∷◌, map, length, length-append,
  length-map, All, All-append, All-imp, arith, inl, inr, ◌⊎◌,
}
use fragma.Progress.Enumeration.{product}
use fragma.Progress.Enumeration.Laws.{
  length-each_of, length-product, mem-append_left, mem-append_right, mem-map, mem-each_of,
  mem-product, All-each_of, All-map, AtMost, product-AtMost,
}
use fragma.Progress.Aggregate.{Domain, schedules, cases}

-- 1 + k + … + k^n
abbrev pub power_sum : ℕ → ℕ → ℕ
power_sum k zero = k ^ zero
power_sum k (suc n) = power_sum k n + k ^ suc n

length-schedules :
    (values : List ℕ) (n : ℕ) → length (schedules values n) ≡ power_sum (length values) n
unfolding schedules
length-schedules values zero = length-product values zero
length-schedules values (suc n) = omega (
  arith,
  length-append (schedules values n) (product values (suc n)),
  length-schedules values n,
  length-product values (suc n),
)

pub length-cases :
    (d : Domain)
    → length (cases d)
      ≡ length d.initial_values
        * power_sum (length d.interference_values) d.max_interference_observations
unfolding cases
length-cases d =
    length-each_of
      (λ initial.
        map (λ s. (initial, s)) (schedules d.interference_values d.max_interference_observations))
      _ d.initial_values
      (λ initial.
        length-map (schedules d.interference_values d.max_interference_observations)
          (λ s. (initial, s))
        ∙ length-schedules d.interference_values d.max_interference_observations)

mem-schedules :
    (values s : List ℕ) (n : ℕ)
    → All (λ v. Memᴰ v values) s
    → length s ≤ n
    → Memᴰ s (schedules values n)
unfolding schedules
mem-schedules values [] zero a h = mem-product values [] a
mem-schedules values (v ∷ s) zero a h = absurd (omega arith)
mem-schedules values s (suc n) a h = elim (split (length s) n h) [
  | inl e ↦ mem-append_left (product values (suc n)) (mem-schedules values s n a e)
  | inr e ↦
      mem-append_right (schedules values n)
        (subst (λ k. Memᴰ s (product values k)) e (mem-product values s a))
]
  where
    split : (a b : ℕ) → a ≤ suc b → (a ≤ b) ⊎ (a ≡ suc b)
    split a b p = grind arith

-- Every initial value of the domain with every schedule over its values, up to the bound, is a
-- case.
pub mem-cases :
    (d : Domain) (initial : ℕ) (s : List ℕ)
    → Memᴰ initial d.initial_values
    → All (λ v. Memᴰ v d.interference_values) s
    → length s ≤ d.max_interference_observations
    → Memᴰ (initial, s) (cases d)
unfolding cases
mem-cases d initial s i a h =
    mem-each_of
      (λ x. map (λ t. (x, t)) (schedules d.interference_values d.max_interference_observations)) i
      (mem-map (λ t. (initial, t)) (mem-schedules d.interference_values s _ a h))

schedules-AtMost : (values : List ℕ) (n : ℕ) → All (AtMost n) (schedules values n)
unfolding schedules
schedules-AtMost values zero = product-AtMost values zero
schedules-AtMost values (suc n) =
    All-append (AtMost (suc n)) (schedules values n) (product values (suc n))
      (All-imp (AtMost n) (AtMost (suc n)) (schedules values n) (λ s h. omega arith)
        (schedules-AtMost values n))
      (product-AtMost values (suc n))

pub cases-within :
    (d : Domain)
    → All (λ (x : ℕ × List ℕ). length x.1 + 1 ≤ d.max_interference_observations + 1) (cases d)
unfolding cases
cases-within d =
    All-each_of (λ (x : ℕ × List ℕ). length x.1 + 1 ≤ d.max_interference_observations + 1) _
      d.initial_values
      (λ initial.
        All-map (AtMost d.max_interference_observations) _ (λ s. (initial, s)) _
          (λ s h. omega arith)
          (schedules-AtMost d.interference_values d.max_interference_observations))

pub power_sum-pos : (k n : ℕ) → 1 ≤ power_sum k n
power_sum-pos k zero = omega (arith, pow-zero k)
power_sum-pos k (suc n) = omega (arith, power_sum-pos k n)
