-- ===== src/Suite/Strategy/Bounded.antt =====
-- strategy_options: what a search may be.
use fragma.Prelude.{
  ℕ, ◌≡◌, refl, sym, ◌∙◌, subst, ◌≤◌, true, false, not, ◌&&◌, Option, none, some, String, ok, err,
  require, ◌>>◌, >>=-eq-ok, require-eq-ok, ok-injective, leb, leb→le, member, any, Bool-cases, inl,
  inr, &&-eq-true, arith, if_true, if_false,
}
use fragma.Prelude.Json.{Json, Fields, int, obj, pos, find, get}
use fragma.Policy.Texts.{texts_of, keys}
use fragma.Policy.Model.{given}
use fragma.Suite.Strategy.{
  Search, plain, strategy, is_truthy, strategy_settings, is_named, strategy_name, is_portfolio,
  bounded_setting, named_strategy, strategy_options,
}

-- The provers as given, for a target without any strategy setting, or a strategy within its bounds.
pub IsBounded : Fields → String → Search → Type 0
IsBounded fs provers (plain given_provers) =
    (given_provers ≡ provers) × (any (λ key. member key (keys fs)) strategy_settings ≡ false)
IsBounded fs provers (strategy name depth smoke_timeout portfolio) =
    (1 ≤ depth)
    × (depth ≤ 256)
    × (1 ≤ smoke_timeout)
    × (smoke_timeout ≤ 60)
    × (is_portfolio portfolio ≡ true)

bounded_setting-le :
    (key : String) (default limit : ℕ) (fs : Fields) {n : ℕ}
    → 1 ≤ default
    → default ≤ limit
    → bounded_setting key default limit fs ≡ ok n
    → (1 ≤ n) × (n ≤ limit)
unfolding bounded_setting
bounded_setting-le key default limit fs {n} low high = by (find key fs)
  where
    by :
        (o : Option Json)
        → (elim o [
          | none ↦ ok default
          | some (int (pos m)) ↦
              require (leb 1 m && leb m limit) "invalid bounded WP strategy depth/smoke timeout"
              >> ok m
          | _ ↦ err "invalid bounded WP strategy depth/smoke timeout"
        ])
          ≡ ok n
        → (1 ≤ n) × (n ≤ limit)
    by none h = let same = ok-injective h in (omega (arith, same, low), omega (arith, same, high))
    by (some (int (pos m))) h =
        let (checked, h1) = require-eq-ok (leb 1 m && leb m limit) _ (ok m) h in
        let (p, q) = &&-eq-true (leb 1 m) _ checked in
        let same = ok-injective h1 in
        (omega (arith, same, leb→le 1 m p), omega (arith, same, leb→le m limit q))
    by (some _) h = cc

named_strategy-IsBounded :
    (fs : Fields) (value : Json) (provers : String) {s : Search}
    → named_strategy fs value ≡ ok s
    → IsBounded fs provers s
unfolding named_strategy IsBounded
named_strategy-IsBounded fs value provers h =
    let (name, e1, h1) = >>=-eq-ok (strategy_name fs value) _ h in
    let (file, h2) = require-eq-ok (is_named (get (obj fs) "wp_strategy_file")) _ _ h1 in
    let (portfolio, e3, h3) =
      >>=-eq-ok
        (given "WP strategy must declare a distinct supported external prover portfolio"
          (texts_of (get (obj fs) "wp_strategy_provers")))
        _ h2 in
    let (distinct, h4) = require-eq-ok (is_portfolio portfolio) _ _ h3 in
    let (depth, e5, h5) = >>=-eq-ok (bounded_setting "wp_auto_depth" 64 256 fs) _ h4 in
    let (smoke_timeout, e6, h6) = >>=-eq-ok (bounded_setting "wp_smoke_timeout" 2 60 fs) _ h5 in
    let (d1, d2) = bounded_setting-le "wp_auto_depth" 64 256 fs (omega arith) (omega arith) e5 in
    let (s1, s2) = bounded_setting-le "wp_smoke_timeout" 2 60 fs (omega arith) (omega arith) e6 in
    subst (IsBounded fs provers) (ok-injective h6) (d1, d2, s1, s2, distinct)

-- Search options are either the provers as given, for a target that sets no file, provers or depth of a
-- strategy, or a strategy of depth 1 to 256, with a smoke timeout of 1 to 60 and a portfolio of distinct
-- supported provers, of which there is one at least.
pub strategy_options-IsBounded :
    (fs : Fields) (provers : String) {s : Search}
    → strategy_options fs provers ≡ ok s
    → IsBounded fs provers s
unfolding strategy_options IsBounded
strategy_options-IsBounded fs provers h =
    elim (Bool-cases (is_truthy (get (obj fs) "wp_strategy"))) [
      | inl t ↦ named_strategy-IsBounded fs (get (obj fs) "wp_strategy") provers (
          sym (
            if_true (is_truthy (get (obj fs) "wp_strategy"))
              (named_strategy fs (get (obj fs) "wp_strategy")) _ t)
          ∙ h)
      | inr f ↦
          let unnamed =
            sym (
              if_false (is_truthy (get (obj fs) "wp_strategy"))
                (named_strategy fs (get (obj fs) "wp_strategy")) _ f)
            ∙ h in
          let (none_set, h1) =
            require-eq-ok (not (any (λ key. member key (keys fs)) strategy_settings)) _
              (ok (plain provers)) unnamed in
          subst (IsBounded fs provers) (ok-injective h1) (refl, ground (arith, none_set))
    ]
