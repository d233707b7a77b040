-- ===== src/Provenance/Extract.antt =====
-- extract_function of fragma/provenance.py. A message is less the name and the line in it. A delimiter
-- that `matching` has no partner for would be a KeyError; none is met, since the delimiters balance.
pub mod Body
pub mod Finds
pub mod Pairs
pub mod Part
use fragma.Prelude.{
  ℕ, zero, suc, ◌+◌, ◌-◌, Bool, true, false, not, ◌&&◌, ◌||◌, List, [], ◌∷◌, ◌++◌, Option, none,
  some, String, Result, ok, err, require, ◌>>=◌, ◌>>◌, ◌==◌, any, codes, text_eq, length, take,
  drop, is_empty, get_elem?, map, if◌then◌else◌,
}
use fragma.Provenance.Scan.{Text, identifier}
use fragma.Provenance.Lex.{Token, Kind, c, pp, boundary, lex}

pub record Function : Type 0 where
  pub name : Text
  pub tokens : List Text
  pub declaration_prefix : List Text
  pub line : ℕ

abbrev pub is_c : Kind → Bool
is_c c = true
is_c _ = false

-- The tokens of the kind "c", each with its place among all tokens.
abbrev pub normal_from : ℕ → List Token → List (ℕ × Token)
normal_from i [] = []
normal_from i (t ∷ ts) =
    let rest = normal_from (i + 1) ts in if is_c t.kind then (i, t) ∷ rest else rest

abbrev pub value_in : Text → List String → Bool
value_in value names = any (λ name. text_eq (codes name) value) names

-- `opening[a] == b`
abbrev pub closes : Text → Text → Bool
closes a b =
    (text_eq a (codes "(") && text_eq b (codes ")"))
    || (text_eq a (codes "[") && text_eq b (codes "]"))
    || (text_eq a (codes "{") && text_eq b (codes "}"))

-- `depths`, and `matching` from the opening delimiter on.
pub record Balance : Type 0 where
  pub depths : List ℕ
  pub matching : List (ℕ × ℕ)

abbrev pub with_depth : ℕ → Result Balance → Result Balance
with_depth d (err message) = err message
with_depth d (ok b) = ok (record b { depths = d ∷ b.depths })

abbrev pub with_pair : ℕ → ℕ → ℕ → Result Balance → Result Balance
with_pair d start close (err message) = err message
with_pair d start close (ok b) =
    ok (record { depths = d ∷ b.depths; matching = (start, close) ∷ b.matching })

-- The loop over the tokens, with the start delimiters.
unfoldable pub balance : ℕ → List (ℕ × Text) → List (ℕ × Token) → Result Balance
balance i [] [] = ok (record { depths = []; matching = [] })
balance i (start ∷ stack) [] = err "unclosed delimiter"
balance i stack ((raw, t) ∷ rest) = elim (value_in t.value ("(" ∷ "[" ∷ "{" ∷ [])) [
  | true ↦ with_depth (length stack) (balance (i + 1) ((i, t.value) ∷ stack) rest)
  | false ↦ elim (value_in t.value (")" ∷ "]" ∷ "}" ∷ [])) [
    | false ↦ with_depth (length stack) (balance (i + 1) stack rest)
    | true ↦ elim stack [
      | [] ↦ err "unbalanced delimiter"
      | (start, value) ∷ outer ↦ elim (closes value t.value) [
        | true ↦ with_pair (length outer + 1) start i (balance (i + 1) outer rest)
        | false ↦ err "unbalanced delimiter"
      ]
    ]
  ]
]

abbrev pub partner : ℕ → List (ℕ × ℕ) → Option ℕ
partner i [] = none
partner i ((start, close) ∷ rest) = elim (start == i) [ true ↦ some close | false ↦ partner i rest ]

-- The value of the token at a place: none behind the last.
abbrev pub value_at : List (ℕ × Token) → ℕ → Option Text
value_at normal i = elim (get_elem? normal i) [ none ↦ none | some (raw, t) ↦ some t.value ]

abbrev pub is_value : Option Text → List String → Bool
is_value none names = false
is_value (some value) names = value_in value names

-- The values back to the declaration before, the nearest first.
abbrev back : List Token → List Text
back [] = []
back (t ∷ ts) =
    let rest = back ts in
    if value_in t.value (";" ∷ "}" ∷ "<pp-end>" ∷ []) then [] else t.value ∷ rest

abbrev reversed {ℓ} : {A : Type ℓ} → List A → List A → List A
reversed [] done = done
reversed (x ∷ xs) done = reversed xs (x ∷ done)

abbrev pub declaration : List Token → ℕ → List Text
declaration tokens raw = reversed (back (reversed (take raw tokens) [])) []

abbrev pub body : List Token → ℕ → ℕ → List Text
body tokens raw stop = map (λ t. t.value) (take (stop - raw) (drop raw tokens))

abbrev pub plain_prefix : List Text → Bool
plain_prefix values =
    not (is_empty values)
    && not (any (λ value. value_in value ("=" ∷ "{" ∷ "<pp-start>" ∷ [])) values)

-- No semicolon or brace among the parameters.
abbrev pub plain_parameters : List (ℕ × Token) → ℕ → ℕ → Bool
plain_parameters normal i close = not (
    any (λ p. value_in p.1.value (";" ∷ "{" ∷ "}" ∷ []))
      (take (close - (i + 2)) (drop (i + 2) normal)))

-- The function whose body's last brace stands at `stop` among all tokens.
unfoldable pub built :
    Text → List Token → List (ℕ × Token) → ℕ → ℕ → Token → ℕ → ℕ → Result (Option Function)
built name tokens normal i raw t close stop = do
  require (plain_prefix (declaration tokens raw)) "unsupported declaration prefix"
  require (plain_parameters normal i close) "unsupported parameter declaration"
  ok (
      some (record {
        name = name;
        tokens = body tokens raw (stop + 1);
        declaration_prefix = declaration tokens raw;
        line = t.line;
      }))

-- A definition whose parameters end at `close`, where a brace follows.
unfoldable pub definition :
    Text → List Token → List (ℕ × Token) → Balance → ℕ → ℕ → Token → ℕ → Result (Option Function)
unfolding built
definition name tokens normal b i raw t close = elim (partner (close + 1) b.matching) [
  | none ↦ err "KeyError"
  | some last ↦ elim (get_elem? normal last) [
    | none ↦ err "IndexError"
    | some (stop, brace) ↦ built name tokens normal i raw t close stop
  ]
]

-- What follows the closing parenthesis decides.
unfoldable pub declarator :
    Text → List Token → List (ℕ × Token) → Balance → ℕ → ℕ → Token → ℕ → Result (Option Function)
unfolding definition
declarator name tokens normal b i raw t close = elim (value_at normal (close + 1)) [
  | none ↦ err "incomplete declarator"
  | some following ↦ elim (value_in following (";" ∷ "," ∷ "=" ∷ ")" ∷ "]" ∷ [])) [
    | true ↦ ok none
    | false ↦ elim (text_eq following (codes "{")) [
      | true ↦ definition name tokens normal b i raw t close
      | false ↦ err "unsupported post-declarator syntax"
    ]
  ]
]

-- One round of the last loop.
unfoldable pub candidate :
    Text → List Token → List (ℕ × Token) → Balance → ℕ → ℕ → Token → Result (Option Function)
unfolding declarator
candidate name tokens normal b i raw t =
    elim (text_eq t.value name
      && elim (get_elem? b.depths i) [ none ↦ false | some depth ↦ depth == 0 ]
      && is_value (value_at normal (i + 1)) ("(" ∷ [])) [
        | false ↦ ok none
        | true ↦ elim (partner (i + 1) b.matching) [
          | none ↦ err "KeyError"
          | some close ↦ declarator name tokens normal b i raw t close
        ]
      ]

unfoldable pub candidates :
    Text → List Token → List (ℕ × Token) → Balance → ℕ → List (ℕ × Token) → Result (List Function)
unfolding candidate
candidates name tokens normal b i [] = ok []
candidates name tokens normal b i ((raw, t) ∷ rest) = do
  found ← candidate name tokens normal b i raw t
  later ← candidates name tokens normal b (i + 1) rest
  ok (elim found [ none ↦ later | some f ↦ f ∷ later ])

unfoldable pub sole_definition : List Function → Result Function
sole_definition (f ∷ []) = ok f
sole_definition _ = err "expected exactly one definition"

unfoldable pub extract_function : Text → Text → Result Function
unfolding balance candidates sole_definition
extract_function source name = do
  require (not (is_empty name) && identifier name == length name) "invalid C function name"
  tokens ← lex source
  let normal : List (ℕ × Token) = normal_from 0 tokens
  b ← balance 0 [] normal
  found ← candidates name tokens normal b 0 normal
  sole_definition found
