-- ===== src/Policy/Texts.antt =====
-- What fragma/analysis_policy.py uses of texts, lists and decoded objects.
use fragma.Prelude.{
  ℕ, suc, Bool, true, false, not, ◌&&◌, ◌||◌, List, [], ◌∷◌, ◌++◌, Option, none, some, String,
  str_eq, ◌==◌, leb, any, all, codes, text_eq, starts_with, if◌then◌else◌,
}
use fragma.Prelude.Json.{Json, Items, Fields, str, arr, nil, cons, end, field}

-- A text as its code points.
abbrev pub Text : Type 0
Text = List ℕ

abbrev is_head : ℕ → Bool
is_head c = (leb 65 c && leb c 90) || (leb 97 c && leb c 122) || c == 95

abbrev is_tail : ℕ → Bool
is_tail c = is_head c || (leb 48 c && leb c 57)

-- re.fullmatch(r"[A-Za-z_][A-Za-z0-9_]*", text)
abbrev pub is_identifier : Text → Bool
is_identifier [] = false
is_identifier (c ∷ cs) = is_head c && all is_tail cs

-- The text before the first of the given character, and what follows it: none where it does not occur.
abbrev pub before : ℕ → Text → Text
before mark [] = []
before mark (c ∷ cs) = let rest = before mark cs in if c == mark then [] else c ∷ rest

abbrev pub after : ℕ → Text → Option Text
after mark [] = none
after mark (c ∷ cs) = let rest = after mark cs in if c == mark then some cs else rest

-- text.lstrip("-")
abbrev pub without_dashes : Text → Text
without_dashes [] = []
without_dashes (c ∷ cs) = let rest = without_dashes cs in if c == 45 then rest else c ∷ cs

-- text.removeprefix(part)
abbrev rest_of : Text → Text → Text
rest_of [] text = text
rest_of (c ∷ part) [] = []
rest_of (c ∷ part) (d ∷ text) = rest_of part text

abbrev pub removeprefix : Text → Text → Text
removeprefix part text = if starts_with part text then rest_of part text else text

abbrev pub text_in : Text → List String → Bool
text_in text names = any (λ name. text_eq (codes name) text) names

-- ",".join(names)
abbrev pub commas : List String → Text
commas [] = []
commas (name ∷ []) = codes name
commas (name ∷ next ∷ names) = codes name ++ (44 ∷ commas (next ∷ names))

-- A list of texts and one of their code points that agree.
abbrev pub same_texts : List String → List Text → Bool
same_texts [] [] = true
same_texts (x ∷ xs) (t ∷ ts) = text_eq (codes x) t && same_texts xs ts
same_texts _ _ = false

-- len(set(texts)) == len(texts)
unfoldable pub distinct_texts : List Text → Bool
distinct_texts [] = true
distinct_texts (t ∷ ts) = not (any (λ u. text_eq u t) ts) && distinct_texts ts

-- The texts of an array: none for what is no array of texts.
abbrev item_texts : Items → Option (List String)
item_texts nil = some []
item_texts (cons (str s) rest) = elim (item_texts rest) [ none ↦ none | some ss ↦ some (s ∷ ss) ]
item_texts (cons _ rest) = none

abbrev pub texts_of : Json → Option (List String)
texts_of (arr items) = item_texts items
texts_of _ = none

abbrev pub keys : Fields → List String
keys end = []
keys (field k v rest) = k ∷ keys rest

-- value == "..."
abbrev pub is_str : Json → String → Bool
is_str (str s) t = str_eq s t
is_str _ t = false

-- argv.count(option), and argv.index(option): the length where it does not occur
abbrev pub count : String → List String → ℕ
count option [] = 0
count option (arg ∷ argv) =
    let rest = count option argv in if str_eq arg option then suc rest else rest

abbrev pub first_index : (String → Bool) → List String → ℕ
first_index p [] = 0
first_index p (arg ∷ argv) = let rest = first_index p argv in if p arg then 0 else suc rest

abbrev pub index : String → List String → ℕ
index option argv = first_index (λ arg. str_eq arg option) argv
