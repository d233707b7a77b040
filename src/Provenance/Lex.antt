-- ===== src/Provenance/Lex.antt =====
-- _lex and tokenize of fragma/provenance.py. The loop goes through the text character by character; the
-- characters that one round of the source's `while` takes are passed over by a count. A message is less
-- the line number and the character that it names.
pub mod Moves
pub mod Slices
use fragma.Prelude.{
  ℕ, zero, suc, ◌+◌, ◌-◌, Bool, true, false, not, ◌&&◌, ◌||◌, List, [], ◌∷◌, ◌++◌, Option, none,
  some, String, str_eq, Result, ok, err, require, ◌>>=◌, ◌>>◌, ◌==◌, any, codes, text_eq,
  starts_with, length, take, drop, is_empty, member, get_elem?, map, if◌then◌else◌,
}
use fragma.Provenance.Scan.{
  Text, is_blank, unix_lines, splice, has_trigraph, find_part, newlines, identifier, number,
  literal_start, literal_body, punctuators, digraphs, first_start,
}

pub data Kind : Type 0 where
  c : Kind
  pp : Kind
  boundary : Kind

pub record Token : Type 0 where
  pub value : Text
  pub kind : Kind
  pub line : ℕ
  pub start : ℕ
  pub end : ℕ

-- What the loop keeps; the tokens are its result.
pub record Lexer : Type 0 where
  pub at : ℕ
  pub line : ℕ
  pub beginning : Bool
  pub directive : Bool
  pub directive_tokens : List Token

-- What one round finds at the start of the text.
pub data Move : Type 0 where
  -- characters that are no token, and the line ends among them
  skip : ℕ → ℕ → Move
  line_end : Move
  directive_start : Move
  -- a token of this length
  token : ℕ → Move
  -- the parenthesis behind the name of a macro
  macro_call : Move

abbrev second_is : List String → List Token → Bool
second_is words (a ∷ b ∷ rest) = any (λ word. text_eq (codes word) b.value) words
second_is words _ = false

-- A header name is one token: `<...>` behind `#include`.
abbrev pub expects_header : Lexer → ℕ → Bool
expects_header s ch =
    s.directive
    && length s.directive_tokens == 2
    && second_is ("include" ∷ "include_next" ∷ []) s.directive_tokens
    && ch == 60

abbrev ends_at : ℕ → List Token → Bool
ends_at at (a ∷ b ∷ name ∷ []) = name.end == at
ends_at at _ = false

-- A parenthesis directly behind the name in `#define`.
abbrev pub is_macro_call : Lexer → String → Bool
is_macro_call s punctuator =
    s.directive
    && second_is ("define" ∷ []) s.directive_tokens
    && str_eq punctuator "("
    && ends_at s.at s.directive_tokens

unfoldable pub comment_move : Text → Result Move
comment_move rest = elim (find_part (codes "*/") rest) [
  | none ↦ err "unterminated block comment"
  | some n ↦ ok (skip (n + 4) (newlines (take n rest)))
]

unfoldable pub header_move : Text → Result Move
header_move rest = elim (find_part (codes ">") rest) [
  | none ↦ err "unterminated include header"
  | some n ↦
      if newlines (take n rest) == 0 then ok (token (n + 2)) else err "unterminated include header"
]

-- A literal behind its prefix of `n` characters.
unfoldable pub literal_move : ℕ → ℕ → Text → Result Move
literal_move n quote rest = do
  body ← literal_body quote rest
  require (not (quote == 39 && body == 0)) "empty character constant"
  ok (token (n + body + 2))

unfoldable pub punctuator_move : Lexer → Text → Result Move
punctuator_move s text = elim (first_start punctuators text) [
  | none ↦ err "unsupported C character"
  | some p ↦
      if member p digraphs
      then err "C digraph unsupported"
      else if is_macro_call s p
      then ok macro_call
      else ok (token (length (codes p)))
]

-- Identifiers, numbers and punctuators.
unfoldable pub word_move : Lexer → Text → Result Move
unfolding punctuator_move
word_move s text = elim (identifier text) [
  | suc n ↦ ok (token (suc n))
  | zero ↦ elim (number text) [ suc n ↦ ok (token (suc n)) | zero ↦ punctuator_move s text ]
]

-- From the literals on.
unfoldable pub token_move : Lexer → Text → Result Move
unfolding literal_move word_move
token_move s text = elim (literal_start text) [
  | some (n, quote) ↦ literal_move n quote (drop (n + 1) text)
  | none ↦ word_move s text
]

-- One round, on a text that is not empty: its first character and the others.
unfoldable pub move : Lexer → ℕ → Text → Result Move
unfolding comment_move header_move token_move
move s ch rest =
    if is_blank ch
    then ok (skip 1 0)
    else if ch == 10
    then ok line_end
    else if starts_with (codes "//") (ch ∷ rest)
    then ok (
        skip
          (elim (find_part (codes "\n") (drop 1 rest)) [
            | none ↦ length (ch ∷ rest)
            | some n ↦ n + 2
          ])
          0)
    else if starts_with (codes "/*") (ch ∷ rest)
    then comment_move (drop 1 rest)
    else if s.beginning && ch == 35
    then ok directive_start
    else if s.beginning && starts_with (codes "%:") (ch ∷ rest)
    then err "preprocessor digraph unsupported"
    else if ch == 35 && not s.directive
    then err "preprocessor marker away from line start"
    else if expects_header s ch
    then header_move rest
    else token_move s (ch ∷ rest)

abbrev pub width : Move → ℕ
width (skip n lines) = n
width line_end = 1
width directive_start = 1
width (token n) = n
width macro_call = 1

-- add(value, start, end) and what stands for a boundary
abbrev pub token_of : Lexer → Text → ℕ → Token
token_of s text n = record {
  value = take n text;
  kind = if s.directive then pp else c;
  line = s.line;
  start = s.at;
  end = s.at + n;
}

abbrev pub mark_of : Lexer → String → ℕ → Token
mark_of s name n = record {
  value = codes name;
  kind = boundary;
  line = s.line;
  start = s.at;
  end = s.at + n;
}

-- The tokens that a round adds.
abbrev pub added : Lexer → Text → Move → List Token
added s text (skip n lines) = []
added s text line_end = if s.directive then mark_of s "<pp-end>" 1 ∷ [] else []
added s text directive_start = mark_of s "<pp-start>" 1 ∷ []
added s text (token n) = token_of s text n ∷ []
added s text macro_call = mark_of s "<macro-function>" 0 ∷ token_of s text 1 ∷ []

abbrev with_added : Lexer → List Token → Lexer
with_added s tokens = record s {
  beginning = false;
  directive_tokens = if s.directive then s.directive_tokens ++ tokens else s.directive_tokens;
}

-- The state behind the round, but for the position.
abbrev pub moved : Lexer → Text → Move → Lexer
moved s text (skip n lines) = record s { line = s.line + lines }
moved s text line_end = record s {
  line = s.line + 1;
  directive = false;
  beginning = true;
  directive_tokens = [];
}
moved s text directive_start =
    with_added (record s { directive = true }) (mark_of s "<pp-start>" 1 ∷ [])
moved s text (token n) = with_added s (added s text (token n))
moved s text macro_call = with_added s (added s text macro_call)

abbrev pub advanced : Lexer → Lexer
advanced s = record s { at = s.at + 1 }

-- What is added behind the last character.
abbrev pub closing : Lexer → List Token
closing s = if s.directive then mark_of s "<pp-end>" 0 ∷ [] else []

-- The loop, where `pending` characters belong to the round before.
unfoldable pub lex_from : ℕ → Lexer → Text → Result (List Token)
unfolding move
lex_from pending s [] = ok (closing s)
lex_from (suc pending) s (ch ∷ rest) = lex_from pending (advanced s) rest
lex_from zero s (ch ∷ rest) = do
  m ← move s ch rest
  later ← lex_from (width m - 1) (advanced (moved s (ch ∷ rest) m)) rest
  ok (added s (ch ∷ rest) m ++ later)

-- The state before the first character.
abbrev pub start_state : Lexer
start_state = record {
  at = 0;
  line = 1;
  beginning = true;
  directive = false;
  directive_tokens = [];
}

abbrev pub some_tokens : List Token → Result (List Token)
some_tokens [] = err "C source is empty after removing comments"
some_tokens (t ∷ ts) = ok (t ∷ ts)

-- The text that the positions are in.
abbrev pub prepared : Text → Text
prepared source = splice (unix_lines source)

unfoldable pub lex : Text → Result (List Token)
unfolding lex_from has_trigraph unix_lines splice
lex source = do
  require (not (any (λ ch. ch == 0) source)) "NUL byte in C source"
  require (not (has_trigraph source)) "trigraph syntax is unsupported"
  tokens ← lex_from 0 start_state (prepared source)
  some_tokens tokens

unfoldable pub tokenize : Text → Result (List Text)
unfolding lex
tokenize source = do tokens ← lex source; ok (map (λ t. t.value) tokens)
