-- ===== src/Provenance/Scan.antt =====
-- The token patterns of fragma/provenance.py, on lists of code points: how long a match at the start
-- of the text is.
pub mod Bounds
use fragma.Prelude.{
  ℕ, zero, suc, ◌+◌, Bool, true, false, not, ◌&&◌, ◌||◌, List, [], ◌∷◌, ◌++◌, Option, none, some,
  String, Result, ok, err, ◌==◌, leb, any, all, codes, text_eq, starts_with, length, drop,
  if◌then◌else◌,
}

-- A text as its code points.
abbrev pub Text : Type 0
Text = List ℕ

abbrev pub is_one_of : ℕ → Text → Bool
is_one_of c cs = any (λ d. d == c) cs

abbrev is_head : ℕ → Bool
is_head c = (leb 65 c && leb c 90) || (leb 97 c && leb c 122) || c == 95

abbrev is_digit : ℕ → Bool
is_digit c = leb 48 c && leb c 57

abbrev pub is_blank : ℕ → Bool
is_blank c = is_one_of c (32 ∷ 9 ∷ 11 ∷ 12 ∷ [])

-- source.replace("\r\n", "\n").replace("\r", "\n")
unfoldable pub unix_lines : Text → Text
unix_lines [] = []
unix_lines (c ∷ []) = (if c == 13 then 10 else c) ∷ []
unix_lines (c ∷ d ∷ cs) = elim (c == 13) [
  | true ↦ elim (d == 10) [ true ↦ 10 ∷ unix_lines cs | false ↦ 10 ∷ unix_lines (d ∷ cs) ]
  | false ↦ c ∷ unix_lines (d ∷ cs)
]

-- re.sub(r"\\\n", "", source)
unfoldable pub splice : Text → Text
splice [] = []
splice (c ∷ []) = c ∷ []
splice (c ∷ d ∷ cs) = elim (c == 92 && d == 10) [ true ↦ splice cs | false ↦ c ∷ splice (d ∷ cs) ]

-- re.search(r"\?\?[=/\'()!<>-]", source)
unfoldable pub has_trigraph : Text → Bool
has_trigraph [] = false
has_trigraph (c ∷ cs) =
    let rest = has_trigraph cs in
    (c == 63
      && starts_with (codes "?") cs
      && any (λ mark. starts_with (63 ∷ mark ∷ []) cs) (codes "=/'()!<>-"))
    || rest

-- source.find(part, ...): how many characters stand before the first occurrence.
unfoldable pub find_part : Text → Text → Option ℕ
find_part part [] = none
find_part part (c ∷ cs) =
    let rest = find_part part cs in
    if starts_with part (c ∷ cs) then some 0 else elim rest [ none ↦ none | some n ↦ some (suc n) ]

-- text.count("\n")
abbrev pub newlines : Text → ℕ
newlines [] = 0
newlines (c ∷ cs) = let rest = newlines cs in if c == 10 then suc rest else rest

-- _IDENTIFIER: zero where it does not match
abbrev identifier_tail : Text → ℕ
identifier_tail [] = 0
identifier_tail (c ∷ cs) =
    let rest = identifier_tail cs in if is_head c || is_digit c then suc rest else 0

abbrev pub identifier : Text → ℕ
identifier [] = 0
identifier (c ∷ cs) = if is_head c then suc (identifier_tail cs) else 0

-- (?:[eEpP][+-]|[A-Za-z_0-9.])*
unfoldable pub number_tail : Text → ℕ
number_tail [] = 0
number_tail (c ∷ []) = if is_head c || is_digit c || c == 46 then 1 else 0
number_tail (c ∷ d ∷ cs) = elim (is_one_of c (codes "eEpP") && is_one_of d (codes "+-")) [
  | true ↦ suc (suc (number_tail cs))
  | false ↦ elim (is_head c || is_digit c || c == 46) [
    | true ↦ suc (number_tail (d ∷ cs))
    | false ↦ 0
  ]
]

-- _NUMBER: zero where it does not match
unfoldable pub number : Text → ℕ
unfolding number_tail
number [] = 0
number (c ∷ []) = if is_digit c then 1 else 0
number (c ∷ d ∷ cs) =
    if is_digit c
    then suc (number_tail (d ∷ cs))
    else if c == 46 && is_digit d
    then suc (suc (number_tail cs))
    else 0

-- _LITERAL_START: the length of the prefix, and the quote.
abbrev quote_behind : ℕ → Text → Option (ℕ × ℕ)
quote_behind n [] = none
quote_behind n (c ∷ cs) = if c == 34 || c == 39 then some (n, c) else none

abbrev pub literal_start : Text → Option (ℕ × ℕ)
literal_start text =
    if starts_with (codes "u8") text
    then quote_behind 2 (drop 2 text)
    else if any (λ c. starts_with (c ∷ []) text) (codes "uUL")
    then quote_behind 1 (drop 1 text)
    else quote_behind 0 text

-- How many characters stand before the quote that ends a literal: the inner `while`.
unfoldable pub literal_body : ℕ → Text → Result ℕ
literal_body quote [] = err "unterminated C literal"
literal_body quote (c ∷ []) =
    if c == quote
    then ok 0
    else if c == 10
    then err "newline in C literal"
    else err "unterminated C literal"
literal_body quote (c ∷ d ∷ cs) = elim (c == quote) [
  | true ↦ ok 0
  | false ↦ elim (c == 10) [
    | true ↦ err "newline in C literal"
    | false ↦ elim (c == 92) [
      | true ↦ elim (literal_body quote cs) [ err message ↦ err message | ok n ↦ ok (2 + n) ]
      | false ↦ elim (literal_body quote (d ∷ cs)) [ err message ↦ err message | ok n ↦ ok (1 + n) ]
    ]
  ]
]

-- _PUNCTUATORS, the longest first.
abbrev pub punctuators : List String
punctuators =
    "%:%:" ∷ ">>=" ∷ "<<=" ∷ "..." ∷ "->" ∷ "++" ∷ "--" ∷ "<<" ∷ ">>" ∷ "<=" ∷ ">=" ∷ "==" ∷ "!="
    ∷ "&&" ∷ "||" ∷ "*=" ∷ "/=" ∷ "%=" ∷ "+=" ∷ "-=" ∷ "&=" ∷ "^=" ∷ "|=" ∷ "##" ∷ "<:" ∷ ":>"
    ∷ "<%" ∷ "%>" ∷ "%:" ∷ "[" ∷ "]" ∷ "(" ∷ ")" ∷ "{" ∷ "}" ∷ "." ∷ "&" ∷ "*" ∷ "+" ∷ "-" ∷ "~"
    ∷ "!" ∷ "/" ∷ "%" ∷ "<" ∷ ">" ∷ "^" ∷ "|" ∷ "?" ∷ ":" ∷ ";" ∷ "=" ∷ "," ∷ "#" ∷ []

abbrev pub digraphs : List String
digraphs = "<:" ∷ ":>" ∷ "<%" ∷ "%>" ∷ "%:" ∷ "%:%:" ∷ []

-- next((p for p in punctuators if source.startswith(p, i)), None)
unfoldable pub first_start : List String → Text → Option String
first_start [] text = none
first_start (p ∷ ps) text =
    let rest = first_start ps text in if starts_with (codes p) text then some p else rest
