-- ===== src/Lkmm/Source.antt =====
-- The operations that a litmus test uses: _code_without_comments and _operation_present of
-- fragma/concurrency_c3_lkmm.py. Which characters beyond ASCII are letters or digits is a parameter.
use fragma.Prelude.{
  ℕ, zero, suc, ◌+◌, Bool, false, not, ◌&&◌, ◌||◌, [], ◌∷◌, none, some, String, ◌==◌, leb, codes,
  starts_with, length, drop, is_space, if◌then◌else◌,
}
use fragma.Provenance.Scan.{find_part}
use fragma.Lkmm.Values.{Text, decimal_digit}

-- How many characters of the text stand before its next line end.
abbrev line_length : Text → ℕ
line_length [] = 0
line_length (c ∷ cs) = let rest = line_length cs in if c == 10 then 0 else suc rest

-- The length of the comment that the text begins with: zero where it begins with none.
unfoldable pub comment_length : Text → ℕ
unfolding find_part
comment_length text =
    if starts_with (codes "/*") text
    then elim (find_part (codes "*/") (drop 2 text)) [ none ↦ 0 | some n ↦ n + 4 ]
    else if starts_with (codes "//") text
    then line_length text
    else 0

-- re.sub(r"/\*.*?\*/|//[^\n]*", "", source, flags=re.DOTALL), with so many characters still to be
-- left out.
unfoldable pub without_comments : ℕ → Text → Text
unfolding comment_length
without_comments n [] = []
without_comments (suc n) (c ∷ cs) = without_comments n cs
without_comments zero (c ∷ cs) = elim (comment_length (c ∷ cs)) [
  | zero ↦ c ∷ without_comments zero cs
  | suc n ↦ without_comments n cs
]

unfoldable pub code_without_comments : Text → Text
unfolding without_comments
code_without_comments source = without_comments 0 source

abbrev without_spaces : Text → Text
without_spaces [] = []
without_spaces (c ∷ cs) = let rest = without_spaces cs in if is_space c then rest else c ∷ cs

-- `\s*\(` matches at the start of the text.
abbrev called : Text → Bool
called text = starts_with (codes "(") (without_spaces text)

module _ (letter : ℕ → Bool) where
  -- `\w`
  abbrev pub is_word : ℕ → Bool
  is_word c =
      if leb 128 c
      then letter c
      else decimal_digit c || (leb 65 c && leb c 90) || (leb 97 c && leb c 122) || c == 95

  -- The pattern matches somewhere in the text; the flag says that a word's character stands before it.
  unfoldable pub present : String → Bool → Text → Bool
  present operation within [] = false
  present operation within (c ∷ cs) =
      let rest = present operation (is_word c) cs in
      (not within
        && starts_with (codes operation) (c ∷ cs)
        && called (drop (length (codes operation)) (c ∷ cs)))
      || rest

  -- re.search(rf"\b{re.escape(operation)}\s*\(", source): an operation begins with a letter.
  unfoldable pub operation_present : Text → String → Bool
  unfolding present
  operation_present source operation = present operation false source
