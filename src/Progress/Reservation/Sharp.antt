-- ===== src/Progress/Reservation/Sharp.antt =====
-- The bounds of the diagnostic hold of every row, and one row reaches them.
use mathlib.Core.List.{Memᴰ}
use native.Mathlib.Nat.{le_trans, mul-le-mul_left}
use fragma.Prelude.{
  ℕ, zero, suc, ◌+◌, ◌*◌, ◌^◌, ◌≤◌, ◌<◌, ◌≡◌, refl, ◌∙◌, subst, ap, List, [], ◌∷◌, map, length,
  length-append, length-map, All, All-append, All-imp, arith, ok, ◌==◌,
}
use fragma.Progress.Enumeration.{each_of, product}
use fragma.Progress.Enumeration.Laws.{
  length-product, product-All, mem-map, mem-each_of, mem-product, All-map, AtMost, product-AtMost,
}
use fragma.Progress.Enumeration.Maximum.{next_of_found, max_of_attained}
use fragma.Progress.Reservation.{
  Attempt, Diagnostic, range_from, sum, tries, attempt_row, attempt_rows, tries_of, failed_of,
  source_of, bounded_diagnostic, diagnostic_of,
}

length-range_from : (i n : ℕ) → length (range_from i n) ≡ n
length-range_from i zero = refl
length-range_from i (suc n) = ap suc (length-range_from (i + 1) n)

-- (max + 1)^a for each number `a` of source attempts
abbrev pub power_total : ℕ → List ℕ → ℕ
power_total k [] = 0
power_total k (n ∷ ns) = k ^ n + power_total k ns

length-attempt_rows :
    (maximum : ℕ) (sources : List ℕ)
    → length (attempt_rows maximum sources) ≡ power_total (maximum + 1) sources
unfolding attempt_rows each_of
length-attempt_rows maximum [] = refl
length-attempt_rows maximum (n ∷ sources) =
    let here : length (map (attempt_row n) (product (range_from 0 (maximum + 1)) n))
        ≡ (maximum + 1) ^ n =
      length-map (product (range_from 0 (maximum + 1)) n) (attempt_row n)
      ∙ length-product (range_from 0 (maximum + 1)) n
      ∙ ap (λ k. k ^ n) (length-range_from 0 (maximum + 1)) in
    omega (
      arith,
      here,
      length-append (map (attempt_row n) (product (range_from 0 (maximum + 1)) n))
          (attempt_rows maximum sources),
      length-attempt_rows maximum sources,
    )

-- The schedule that always fails as often as the bound allows.
abbrev worst : ℕ → ℕ → List ℕ
worst maximum zero = []
worst maximum (suc n) = maximum ∷ worst maximum n

mem-range_from : (i n k : ℕ) → k < n → Memᴰ (i + k) (range_from i n)
mem-range_from i zero k h = absurd (omega arith)
mem-range_from i (suc n) zero h = Memᴰ.head (omega arith)
mem-range_from i (suc n) (suc k) h =
    let e : i + 1 + k ≡ i + suc k = omega arith in
    Memᴰ.tail
      (subst (λ v. Memᴰ v (range_from (i + 1) n)) e (mem-range_from (i + 1) n k (omega arith)))

worst_listed : (maximum n : ℕ) → All (λ v. Memᴰ v (range_from 0 (maximum + 1))) (worst maximum n)
worst_listed maximum zero = tt
worst_listed maximum (suc n) =
    let e : 0 + maximum ≡ maximum = omega arith in
    (
      subst (λ v. Memᴰ v (range_from 0 (maximum + 1))) e
          (mem-range_from 0 (maximum + 1) maximum (omega arith)),
      worst_listed maximum n,
    )

length-worst : (maximum n : ℕ) → length (worst maximum n) ≡ n
length-worst maximum zero = refl
length-worst maximum (suc n) = ap suc (length-worst maximum n)

worst-tries :
    (maximum n : ℕ)
    → (tries (worst maximum n) ≡ (maximum + 1) * n) × (sum (worst maximum n) ≡ maximum * n)
worst-tries maximum zero = (omega arith, omega arith)
worst-tries maximum (suc n) =
    (omega (arith, (worst-tries maximum n).0), omega (arith, (worst-tries maximum n).1))

mem-worst :
    (maximum n : ℕ) (sources : List ℕ)
    → Memᴰ n sources
    → Memᴰ (attempt_row n (worst maximum n)) (attempt_rows maximum sources)
unfolding attempt_rows
mem-worst maximum n sources i =
    mem-each_of (λ k. map (attempt_row k) (product (range_from 0 (maximum + 1)) k)) i
      (mem-map (attempt_row n) (
        subst (λ k. Memᴰ (worst maximum n) (product (range_from 0 (maximum + 1)) k))
          (length-worst maximum n)
          (mem-product (range_from 0 (maximum + 1)) (worst maximum n) (worst_listed maximum n))))

range_from-le : (i n top : ℕ) → i + n ≤ top + 1 → All (λ v. v ≤ top) (range_from i n)
range_from-le i zero top h = tt
range_from-le i (suc n) top h = (omega arith, range_from-le (i + 1) n top (omega arith))

tries-le :
    (maximum : ℕ) (s : List ℕ)
    → All (λ v. v ≤ maximum) s
    → (tries s ≤ (maximum + 1) * length s) × (sum s ≤ maximum * length s)
tries-le maximum [] a = (omega arith, omega arith)
tries-le maximum (v ∷ s) a =
    let (p, q) = tries-le maximum s a.1 in (omega (arith, p, a.0), omega (arith, q, a.0))

-- What the maxima of the diagnostic bound, for every row.
record IsWithin (maximum top : ℕ) (r : Attempt) : Type 0 where
  source : r.source_cas_attempts ≤ top
  tried : r.store_conditional_attempts ≤ (maximum + 1) * top
  failed : r.store_conditional_failures ≤ maximum * top

All-both :
    (P Q : List ℕ → Type 0) (xs : List (List ℕ)) → All P xs → All Q xs → All (λ s. P s × Q s) xs
All-both P Q [] a b = tt
All-both P Q (x ∷ xs) a b = ((a.0, b.0), All-both P Q xs a.1 b.1)

row-IsWithin :
    (maximum top n : ℕ) (s : List ℕ)
    → n ≤ top
    → All (λ v. v ≤ maximum) s
    → length s ≤ n
    → IsWithin maximum top (attempt_row n s)
row-IsWithin maximum top n s h a l =
    let (p, q) = tries-le maximum s a in
    record {
      source = h;
      tried = le_trans p (mul-le-mul_left (maximum + 1) (omega arith));
      failed = le_trans q (mul-le-mul_left maximum (omega arith));
    }

attempt_rows-IsWithin :
    (maximum top : ℕ) (sources : List ℕ)
    → All (λ n. n ≤ top) sources
    → All (IsWithin maximum top) (attempt_rows maximum sources)
unfolding attempt_rows each_of
attempt_rows-IsWithin maximum top [] h = tt
attempt_rows-IsWithin maximum top (n ∷ sources) h =
    let values : List ℕ = range_from 0 (maximum + 1) in
    All-append (IsWithin maximum top) (map (attempt_row n) (product values n)) _
      (All-map (λ s. All (λ v. v ≤ maximum) s × (length s ≤ n)) (IsWithin maximum top)
        (attempt_row n) (product values n) (λ s a. row-IsWithin maximum top n s h.0 a.0 a.1)
        (All-both (All (λ v. v ≤ maximum)) (AtMost n) (product values n)
          (product-All (λ v. v ≤ maximum) values n
            (range_from-le 0 (maximum + 1) maximum (omega arith)))
          (product-AtMost values n)))
      (attempt_rows-IsWithin maximum top sources h.1)

pub record IsSharp (maximum top : ℕ) (sources : List ℕ) (d : Diagnostic) : Type 0 where
  pub schedules : d.finite_schedules ≡ power_total (maximum + 1) sources
  pub source : d.max_source_cas_attempts ≡ top
  pub tried : d.max_store_conditional_attempts ≡ (maximum + 1) * top
  pub failed : d.max_store_conditional_failures ≡ maximum * top

-- If `top` is the largest number of source attempts, the diagnostic counts (maximum + 1)^a schedules
-- for each number a, and its maxima are exactly top attempts of the source, (maximum + 1) * top
-- attempts and maximum * top failures of store-conditional.
pub bounded_diagnostic-IsSharp :
    (maximum top : ℕ) (sources : List ℕ)
    → Memᴰ top sources
    → All (λ n. n ≤ top) sources
    → (d : Diagnostic) × (bounded_diagnostic maximum sources ≡ ok d) × IsSharp maximum top sources d
unfolding bounded_diagnostic
bounded_diagnostic-IsSharp maximum top sources i h =
    let rows : List Attempt = attempt_rows maximum sources in
    let within = attempt_rows-IsWithin maximum top sources h in
    let last : Attempt = attempt_row top (worst maximum top) in
    let there : Memᴰ last rows = mem-worst maximum top sources i in
    let (t, f) = worst-tries maximum top in
    let tried =
      max_of_attained tries_of ((maximum + 1) * top) last rows there t
        (All-imp (IsWithin maximum top) _ rows (λ r w. w.tried) within) in
    let failed =
      max_of_attained failed_of (maximum * top) last rows there f
        (All-imp (IsWithin maximum top) _ rows (λ r w. w.failed) within) in
    let source =
      max_of_attained source_of top last rows there refl
        (All-imp (IsWithin maximum top) _ rows (λ r w. w.source) within) in
    let (w, found) =
      next_of_found (λ (r : Attempt). r.store_conditional_attempts == (maximum + 1) * top) last rows
        there (ground (arith, t)) in
    (
      diagnostic_of rows top ((maximum + 1) * top) (maximum * top) w,
      rw (tried, failed, source, found),
      record {
        schedules = length-attempt_rows maximum sources;
        source = refl;
        tried = refl;
        failed = refl;
      },
    )
