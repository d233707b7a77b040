-- ===== src/Suite/Strategy.antt =====
-- strategy_options of fragma/suite.py. The options are kept by their values: the source prints the numbers
-- and joins the names with commas.
pub mod Bounded
use fragma.Prelude.{
  ℕ, Bool, true, false, not, ◌&&◌, ◌||◌, List, [], ◌∷◌, Option, none, some, String, str_eq, Result,
  ok, err, require, ◌>>=◌, ◌>>◌, ◌==◌, leb, member, subset, any, all, all_distinct, is_empty, codes,
  if◌then◌else◌,
}
use fragma.Prelude.Json.{
  Json, Items, Fields, ℤ, null, bool, int, str, arr, obj, nil, cons, end, field, pos, negsuc, find,
  get,
}
use fragma.Policy.Texts.{is_identifier, texts_of, keys, is_str}
use fragma.Policy.Model.{given}

-- What is returned: the provers alone, or a strategy with its bounds and the portfolio, which TIP joins
-- for the ordinary goals.
pub data Search : Type 0 where
  plain : String → Search
  strategy : String → ℕ → ℕ → List String → Search

-- bool(value)
abbrev pub is_truthy : Json → Bool
is_truthy null = false
is_truthy (bool b) = b
is_truthy (int (pos n)) = not (n == 0)
is_truthy (int (negsuc n)) = true
is_truthy (str s) = not (str_eq s "")
is_truthy (arr nil) = false
is_truthy (arr (cons v vs)) = true
is_truthy (obj end) = false
is_truthy (obj (field k v fs)) = true

abbrev pub strategy_settings : List String
strategy_settings = "wp_strategy_file" ∷ "wp_strategy_provers" ∷ "wp_auto_depth" ∷ []

abbrev pub supported_provers : List String
supported_provers = "alt-ergo" ∷ "z3" ∷ "cvc5" ∷ []

-- A text that is an identifier.
unfoldable pub strategy_name : Fields → Json → Result String
strategy_name fs (str name) = do
  require (is_str (get (obj fs) "analysis") "wp" && is_identifier (codes name))
      "invalid or non-WP proof strategy"
  ok name
strategy_name fs _ = err "invalid or non-WP proof strategy"

abbrev pub is_named : Json → Bool
is_named (str s) = not (str_eq s "")
is_named _ = false

abbrev pub is_portfolio : List String → Bool
is_portfolio names = not (is_empty names) && all_distinct names && subset names supported_provers

-- target.get(key, default), an integer within 1..limit
unfoldable pub bounded_setting : String → ℕ → ℕ → Fields → Result ℕ
bounded_setting key default limit fs = elim (find key fs) [
  | none ↦ ok default
  | some (int (pos n)) ↦
      require (leb 1 n && leb n limit) "invalid bounded WP strategy depth/smoke timeout" >> ok n
  | _ ↦ err "invalid bounded WP strategy depth/smoke timeout"
]

unfoldable pub named_strategy : Fields → Json → Result Search
unfolding strategy_name bounded_setting
named_strategy fs value = do
  name ← strategy_name fs value
  require (is_named (get (obj fs) "wp_strategy_file")) "WP strategy must declare its source file"
  portfolio ←
      given "WP strategy must declare a distinct supported external prover portfolio"
        (texts_of (get (obj fs) "wp_strategy_provers"))
  require (is_portfolio portfolio)
      "WP strategy must declare a distinct supported external prover portfolio"
  depth ← bounded_setting "wp_auto_depth" 64 256 fs
  smoke_timeout ← bounded_setting "wp_smoke_timeout" 2 60 fs
  ok (strategy name depth smoke_timeout portfolio)

unfoldable pub strategy_options : Fields → String → Result Search
unfolding named_strategy
strategy_options fs provers =
    if is_truthy (get (obj fs) "wp_strategy")
    then named_strategy fs (get (obj fs) "wp_strategy")
    else require (not (any (λ key. member key (keys fs)) strategy_settings))
        "strategy settings require a named WP strategy"
      >> ok (plain provers)
