-- ===== src/Lkmm/Values.antt =====
-- How fragma/concurrency_c3_lkmm.py reads the values of its declaration: _nonempty, _strings,
-- _digest, _version and the tests on texts that its loader writes out.
use fragma.Prelude.{
  ℕ, ◌+◌, ◌-◌, ◌*◌, Bool, true, false, not, ◌&&◌, ◌||◌, List, [], ◌∷◌, ◌++◌, String, Result, ok,
  err, ◌>>=◌, ◌>>◌, require, ◌==◌, leb, all, codes, text_eq, text_le, is_empty, length, has_text,
  same_set, subset, all_distinct, if◌then◌else◌,
}
use fragma.Prelude.Json.{Json, Items, bool, int, str, arr, obj, nil, cons, pos}
use fragma.Policy.Texts.{keys, texts_of}
use fragma.Policy.Model.{given}

-- A text as its code points.
abbrev pub Text : Type 0
Text = List ℕ

abbrev pub decimal_digit : ℕ → Bool
decimal_digit c = leb 48 c && leb c 57

abbrev pub is_hex : ℕ → Bool
is_hex c = decimal_digit c || (leb 97 c && leb c 102)

-- int(text) of decimal digits
abbrev pub int_of : ℕ → Text → ℕ
int_of value [] = value
int_of value (c ∷ cs) = int_of (value * 10 + (c - 48)) cs

abbrev pub digits : Text → Bool
digits text = not (is_empty text) && all decimal_digit text

-- text.endswith(part)
abbrev pub ends_with : Text → Text → Bool
ends_with part [] = is_empty part
ends_with part (c ∷ cs) = text_eq part (c ∷ cs) || ends_with part cs

-- isinstance(value, dict) and set(value) == {...}
abbrev pub has_keys : List String → Json → Bool
has_keys names (obj fs) = same_set (keys fs) names
has_keys names _ = false

-- value == 1, which True is too
abbrev pub is_one : Json → Bool
is_one (int (pos n)) = n == 1
is_one (bool b) = b
is_one _ = false

abbrev items : Items → List Json
items nil = []
items (cons value rest) = value ∷ items rest

-- not isinstance(value, list) or len(value) != n
abbrev pub listed : ℕ → String → Json → Result (List Json)
listed n message (arr values) = do require (length (items values) == n) message; ok (items values)
listed n message _ = err message

abbrev pub text : Json → Result String
text (str s) = ok s
text _ = err "must be a string"

-- _nonempty
unfoldable pub nonempty : Json → Result String
nonempty value = do s ← text value; require (has_text s) "must be a nonempty string"; ok s

abbrev pub some_letter : String → Bool
some_letter s = not (is_empty (codes s))

-- _strings without `allowed`
unfoldable pub strings : Json → Result (List String)
strings value = do
  names ← given "must be a nonempty unique string list" (texts_of value)
  require (not (is_empty names) && all some_letter names && all_distinct names)
      "must be a nonempty unique string list"
  ok names

-- _strings with `allowed`
unfoldable pub allowed_strings : List String → Json → Result (List String)
unfolding strings
allowed_strings allowed value = do
  names ← strings value
  require (subset names allowed) "contains an unsupported value"
  ok names

-- type(value) is int and value >= 0
unfoldable pub natural : Json → Result ℕ
natural (int (pos n)) = ok n
natural _ = err "is invalid"

-- _digest
unfoldable pub digest : ℕ → Json → Result String
digest n value = do
  s ← text value
  require (length (codes s) == n && all is_hex (codes s)) "is not a hex digest"
  ok s

-- The components of a version, behind a first digit of the one that is being read.
abbrev components : ℕ → Text → List ℕ
components value [] = value ∷ []
components value (c ∷ []) = if decimal_digit c then (value * 10 + (c - 48)) ∷ [] else value ∷ []
components value (c ∷ (d ∷ cs)) = elim (decimal_digit c) [
  | true ↦ components (value * 10 + (c - 48)) (d ∷ cs)
  | false ↦ elim (c == 46 && decimal_digit d) [
    | true ↦ value ∷ components 0 (d ∷ cs)
    | false ↦ value ∷ []
  ]
]

abbrev starts_digit : Text → Bool
starts_digit [] = false
starts_digit (c ∷ cs) = decimal_digit c

-- _version: re.match(r"([0-9]+(?:\.[0-9]+)+)", value)
unfoldable pub version : Text → Result (List ℕ)
version value = do
  require (starts_digit value && leb 2 (length (components 0 value)))
      "cannot parse herdtools version"
  ok (components 0 value)

-- a < b of two tuples
abbrev pub older : List ℕ → List ℕ → Bool
older a b = not (text_le b a)

-- text.lower() as far as its ASCII letters can tell: the Kelvin sign is the one other character with
-- an ASCII letter alone for its lower case, and the capital I with a dot has one first.
abbrev pub lower : Text → Text
lower [] = []
lower (c ∷ cs) =
    let rest = lower cs in
    if leb 65 c && leb c 90
    then (c + 32) ∷ rest
    else if c == 0x212a
    then 107 ∷ rest
    else if c == 0x130
    then 105 ∷ (0x307 ∷ rest)
    else c ∷ rest

-- " ".join(names)
abbrev pub spaced : List String → Text
spaced [] = []
spaced (name ∷ []) = codes name
spaced (name ∷ (next ∷ names)) = codes name ++ (32 ∷ spaced (next ∷ names))
