-- ===== src/Suite/Limits.antt =====
-- `analysis_limits` of fragma/suite.py. Its arguments are any values; `None` is null.
use Prim.Native.Nat.{min, max}
use fragma.Prelude.{
  ℕ, ◌*◌, ◌≤◌, ◌≡◌, ◌&&◌, Result, ok, err, ◌>>◌, ◌>>=◌, require, leb, String, arith, >>=-eq-ok,
  ok-injective, refl, inl, inr, ◌⊎◌, ◌↔◌, subst, require-eq-ok, ap, sym, ◌∙◌,
}
use fragma.Prelude.Json.{Json, null, bool, int, str, arr, obj, pos}

pub record Limits : Type 0 where
  pub wall_timeout_seconds : ℕ
  pub solver_timeout_seconds : ℕ
  pub jobs : ℕ

-- `type(value) is int and 1 <= value <= high`
unfoldable pub bounded : ℕ → String → Json → Result ℕ
bounded high message (int (pos n)) = require (leb 1 n && leb n high) message >> ok n
bounded high message _ = err message

-- min(86400, max(180, timeout * 60))
abbrev pub default_wall : ℕ → ℕ
default_wall timeout = min 86400 (max 180 (timeout * 60))

abbrev wall_or_default : ℕ → Json → Json
wall_or_default timeout null = int (pos (default_wall timeout))
wall_or_default timeout wall = wall

unfoldable pub analysis_limits : Json → Json → Json → Result Limits
unfolding bounded
analysis_limits timeout jobs wall_timeout = do
  t ← bounded 3600 "invalid solver timeout or job count" timeout
  j ← bounded 256 "invalid solver timeout or job count" jobs
  w ←
      bounded 86400 "wall timeout must be between 1 and 86400 seconds"
        (wall_or_default t wall_timeout)
  ok (record { wall_timeout_seconds = w; solver_timeout_seconds = t; jobs = j })

-- `value` is the integer `n`, and is in the bounds.
pub record IsBoundedBy (high n : ℕ) (value : Json) : Type 0 where
  pub is_int : value ≡ int (pos n)
  pub positive : 1 ≤ n
  pub at_most : n ≤ high

bounded-IsBoundedBy :
    (high : ℕ) (message : String) (value : Json) (n : ℕ)
    → bounded high message value ≡ ok n
    → IsBoundedBy high n value
unfolding bounded
bounded-IsBoundedBy high message (int (pos m)) n h =
    let (p, q) = require-eq-ok (leb 1 m && leb m high) message (ok m) h in
    let same : m ≡ n = ok-injective q in
    record { is_int = ap (λ k. int (pos k)) same; positive = ground arith; at_most = ground arith }
bounded-IsBoundedBy high message _ n h = absurd (ground arith)

bounded_within :
    (high : ℕ) (message : String) (n : ℕ) {value : Json}
    → IsBoundedBy high n value
    → bounded high message value ≡ ok n
unfolding bounded
bounded_within high message n {value} b =
    let inside : bounded high message (int (pos n)) ≡ ok n =
      ground (arith, b.positive, b.at_most) in
    ap (bounded high message) b.is_int ∙ inside

-- Limits that come of `timeout`, `jobs` and `wall_timeout`.
pub record IsLimitsOf (timeout jobs wall_timeout : Json) (l : Limits) : Type 0 where
  pub solver : IsBoundedBy 3600 l.solver_timeout_seconds timeout
  pub workers : IsBoundedBy 256 l.jobs jobs
  pub wall :
      ((wall_timeout ≡ null) × (l.wall_timeout_seconds ≡ default_wall l.solver_timeout_seconds))
      ⊎ IsBoundedBy 86400 l.wall_timeout_seconds wall_timeout
  pub default_wall_covers : wall_timeout ≡ null → l.solver_timeout_seconds ≤ l.wall_timeout_seconds

default_wall-IsBoundedBy :
    (t : ℕ) → t ≤ 3600 → IsBoundedBy 86400 (default_wall t) (int (pos (default_wall t)))
default_wall-IsBoundedBy t h = record {
  is_int = refl;
  positive = omega arith;
  at_most = omega arith;
}

wall_given :
    (t w : ℕ) (wall_timeout : Json)
    → t ≤ 3600
    → IsBoundedBy 86400 w (wall_or_default t wall_timeout)
    → (((wall_timeout ≡ null) × (w ≡ default_wall t)) ⊎ IsBoundedBy 86400 w wall_timeout)
      × (wall_timeout ≡ null → t ≤ w)
wall_given t w null h b =
    let same : default_wall t ≡ w = cc (b.is_int) in (inl (refl, sym same), (λ e. omega (arith, h)))
wall_given t w (bool x) h b = (inr b, (λ e. absurd (ground arith)))
wall_given t w (int x) h b = (inr b, (λ e. absurd (ground arith)))
wall_given t w (str x) h b = (inr b, (λ e. absurd (ground arith)))
wall_given t w (arr x) h b = (inr b, (λ e. absurd (ground arith)))
wall_given t w (obj x) h b = (inr b, (λ e. absurd (ground arith)))

wall_made :
    (t w : ℕ) (wall_timeout : Json)
    → t ≤ 3600
    → ((wall_timeout ≡ null) × (w ≡ default_wall t)) ⊎ IsBoundedBy 86400 w wall_timeout
    → IsBoundedBy 86400 w (wall_or_default t wall_timeout)
wall_made t w wall_timeout h (inl (e, same)) =
    let made = default_wall-IsBoundedBy t h in
    let from : wall_or_default t wall_timeout ≡ int (pos (default_wall t)) =
      ap (wall_or_default t) e in
    subst (λ v. IsBoundedBy 86400 w v) (sym from)
      (subst (λ n. IsBoundedBy 86400 n (int (pos (default_wall t)))) (sym same) made)
wall_made t w null h (inr b) = absurd (ground (arith, b.is_int))
wall_made t w (bool x) h (inr b) = b
wall_made t w (int x) h (inr b) = b
wall_made t w (str x) h (inr b) = b
wall_made t w (arr x) h (inr b) = b
wall_made t w (obj x) h (inr b) = b

-- The limits are those of the arguments exactly if each argument is an integer within its bounds, the
-- wall timeout excepted, which may be missing: then it is 60 times the solver's, at least 180 and at
-- most 86400 seconds, and never below the solver's.
pub analysis_limits_iff :
    (timeout jobs wall_timeout : Json) (l : Limits)
    → (analysis_limits timeout jobs wall_timeout ≡ ok l) ↔ IsLimitsOf timeout jobs wall_timeout l
unfolding analysis_limits
analysis_limits_iff timeout jobs wall_timeout l = (read, found)
  where
    read : analysis_limits timeout jobs wall_timeout ≡ ok l → IsLimitsOf timeout jobs wall_timeout l
    read h =
        let (t, p, h1) = >>=-eq-ok (bounded 3600 _ timeout) _ h in
        let (j, q, h2) = >>=-eq-ok (bounded 256 _ jobs) _ h1 in
        let (w, r, h3) = >>=-eq-ok (bounded 86400 _ (wall_or_default t wall_timeout)) _ h2 in
        let bt = bounded-IsBoundedBy 3600 _ timeout t p in
        let (given, covers) =
          wall_given t w wall_timeout bt.at_most (bounded-IsBoundedBy 86400 _ _ w r) in
        subst (IsLimitsOf timeout jobs wall_timeout) (ok-injective h3) (record {
          solver = bt;
          workers = bounded-IsBoundedBy 256 _ jobs j q;
          wall = given;
          default_wall_covers = covers;
        })

    found :
        IsLimitsOf timeout jobs wall_timeout l → analysis_limits timeout jobs wall_timeout ≡ ok l
    found i =
        let t =
          bounded_within 3600 "invalid solver timeout or job count" l.solver_timeout_seconds
            i.solver in
        let j = bounded_within 256 "invalid solver timeout or job count" l.jobs i.workers in
        let w =
          bounded_within 86400 "wall timeout must be between 1 and 86400 seconds"
            l.wall_timeout_seconds
            (wall_made l.solver_timeout_seconds l.wall_timeout_seconds wall_timeout i.solver.at_most
              i.wall) in
        rw (t, j, w) refl
