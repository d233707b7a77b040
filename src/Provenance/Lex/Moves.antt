-- ===== src/Provenance/Lex/Moves.antt =====
-- _lex: how far a round goes.
use fragma.Prelude.{
  ℕ, zero, suc, ◌+◌, ◌≤◌, ◌≡◌, refl, sym, ap, ◌∙◌, subst, Bool, true, false, not, ◌&&◌, List, [],
  ◌∷◌, Option, none, some, String, Result, ok, err, require, ◌>>=◌, ◌>>◌, ◌==◌, all, codes,
  starts_with, length, length-drop, take, drop, member, Bool-cases, inl, inr, &&-eq-true, arith,
  if◌then◌else◌, leb, leb→le,
}
use fragma.Provenance.Scan.{
  Text, is_blank, find_part, newlines, identifier, number, literal_start, literal_body, punctuators,
  digraphs, first_start,
}
use fragma.Provenance.Scan.Bounds.{
  starts_with-length, find_part-length, identifier-length, number-length, literal_start-length,
  literal_body-length, first_start-length,
}
use fragma.Provenance.Lex.{
  Lexer, Move, skip, line_end, directive_start, token, macro_call, expects_header, is_macro_call,
  comment_move, header_move, literal_move, punctuator_move, word_move, token_move, move, width,
}

-- A round takes one character at least, and no more than there are.
abbrev pub Goes : ℕ → Result Move → Type 0
Goes limit (ok m) = (1 ≤ width m) × (width m ≤ limit)
Goes limit (err message) = Unit

if-Goes :
    (limit : ℕ) (b : Bool) (x y : Result Move)
    → Goes limit x
    → Goes limit y
    → Goes limit (if b then x else y)
if-Goes limit true x y p q = p
if-Goes limit false x y p q = q

comment_move-Goes : (rest : Text) → Goes (length rest + 2) (comment_move rest)
unfolding comment_move
comment_move-Goes rest = by (find_part (codes "*/") rest) (λ n. find_part-length (codes "*/") rest)
  where
    by :
        (o : Option ℕ)
        → ((n : ℕ) → o ≡ some n → n + 2 ≤ length rest)
        → Goes (length rest + 2) (elim o [
          | none ↦ err "unterminated block comment"
          | some n ↦ ok (skip (n + 4) (newlines (take n rest)))
        ])
    by none within = tt
    by (some n) within = (omega arith, omega (arith, within n refl))

header_move-Goes : (rest : Text) → Goes (length rest + 1) (header_move rest)
unfolding header_move
header_move-Goes rest = by (find_part (codes ">") rest) (λ n. find_part-length (codes ">") rest)
  where
    by :
        (o : Option ℕ)
        → ((n : ℕ) → o ≡ some n → n + 1 ≤ length rest)
        → Goes (length rest + 1) (elim o [
          | none ↦ err "unterminated include header"
          | some n ↦
              if newlines (take n rest) == 0
              then ok (token (n + 2))
              else err "unterminated include header"
        ])
    by none within = tt
    by (some n) within =
        if-Goes (length rest + 1) (newlines (take n rest) == 0) (ok (token (n + 2)))
          (err "unterminated include header") (omega arith, omega (arith, within n refl)) tt

require-Goes :
    (limit : ℕ) (b : Bool) (message : String) (r : Result Move)
    → Goes limit r
    → Goes limit (require b message >> r)
require-Goes limit true message r g = g
require-Goes limit false message r g = tt

literal_move-Goes :
    (n quote : ℕ) (rest : Text) → Goes (length rest + n + 1) (literal_move n quote rest)
unfolding literal_move
literal_move-Goes n quote rest =
    by (literal_body quote rest) (λ body. literal_body-length quote rest)
  where
    by :
        (r : Result ℕ)
        → ((body : ℕ) → r ≡ ok body → body + 1 ≤ length rest)
        → Goes (length rest + n + 1) (
            r >>= λ body.
            require (not (quote == 39 && body == 0)) "empty character constant"
            >> ok (token (n + body + 2)))
    by (err message) within = tt
    by (ok body) within =
        require-Goes (length rest + n + 1) (not (quote == 39 && body == 0))
          "empty character constant" (ok (token (n + body + 2)))
          (omega arith, omega (arith, within body refl))

abbrev is_filled : String → Bool
is_filled p = leb 1 (length (codes p))

first_start-filled :
    (ps : List String) (text : Text) {p : String}
    → all is_filled ps ≡ true
    → first_start ps text ≡ some p
    → 1 ≤ length (codes p)
unfolding first_start
first_start-filled [] text h e = cc
first_start-filled (q ∷ ps) text {p} h e =
    let (here, later) = &&-eq-true (is_filled q) (all is_filled ps) h in
    elim (Bool-cases (starts_with (codes q) text)) [
      | inl t ↦
          let same : some q ≡ some p = (rw (first_start, t) at e) in
          let same_text : q ≡ p = cc in
          leb→le 1 (length (codes p)) (ap is_filled (sym same_text) ∙ here)
      | inr f ↦ first_start-filled ps text later (rw (first_start, f) at e)
    ]

punctuator_move-Goes :
    (s : Lexer) (text : Text) → 1 ≤ length text → Goes (length text) (punctuator_move s text)
unfolding punctuator_move
punctuator_move-Goes s text h =
    by (first_start punctuators text)
      (λ p e. (first_start-filled punctuators text refl e, first_start-length punctuators text e))
  where
    by :
        (o : Option String)
        → ((p : String) → o ≡ some p → (1 ≤ length (codes p)) × (length (codes p) ≤ length text))
        → Goes (length text) (elim o [
          | none ↦ err "unsupported C character"
          | some p ↦
              if member p digraphs
              then err "C digraph unsupported"
              else if is_macro_call s p
              then ok macro_call
              else ok (token (length (codes p)))
        ])
    by none within = tt
    by (some p) within =
        if-Goes (length text) (member p digraphs) (err "C digraph unsupported") _ tt (
          if-Goes (length text) (is_macro_call s p) (ok macro_call) (ok (token (length (codes p))))
            (omega arith, h) (within p refl))

word_move-Goes : (s : Lexer) (text : Text) → 1 ≤ length text → Goes (length text) (word_move s text)
unfolding word_move
word_move-Goes s text h =
    by (identifier text) (number text) (identifier-length text) (number-length text)
  where
    by :
        (a b : ℕ)
        → a ≤ length text
        → b ≤ length text
        → Goes (length text) (elim a [
          | suc n ↦ ok (token (suc n))
          | zero ↦ elim b [ suc n ↦ ok (token (suc n)) | zero ↦ punctuator_move s text ]
        ])
    by (suc n) b p q = (omega arith, p)
    by zero (suc n) p q = (omega arith, q)
    by zero zero p q = punctuator_move-Goes s text h

token_move-Goes :
    (s : Lexer) (text : Text) → 1 ≤ length text → Goes (length text) (token_move s text)
unfolding token_move
token_move-Goes s text h = by (literal_start text) (λ n q. literal_start-length text)
  where
    by :
        (o : Option (ℕ × ℕ))
        → ((n q : ℕ) → o ≡ some (n, q) → n + 1 ≤ length text)
        → Goes (length text) (elim o [
          | some (n, quote) ↦ literal_move n quote (drop (n + 1) text)
          | none ↦ word_move s text
        ])
    by none within = word_move-Goes s text h
    by (some (n, quote)) within =
        let long = length-drop (n + 1) text in
        let inside = within n quote refl in
        let same : length (drop (n + 1) text) + n + 1 ≡ length text = omega (arith, long, inside) in
        subst (λ limit. Goes limit (literal_move n quote (drop (n + 1) text))) same
          (literal_move-Goes n quote (drop (n + 1) text))

skip-Goes :
    (ch : ℕ) (rest : Text)
    → starts_with (codes "//") (ch ∷ rest) ≡ true
    → Goes (length (ch ∷ rest)) (
        ok (
          skip
            (elim (find_part (codes "\n") (drop 1 rest)) [
              | none ↦ length (ch ∷ rest)
              | some n ↦ n + 2
            ])
            0))
skip-Goes ch rest t =
    by (find_part (codes "\n") (drop 1 rest)) (λ n. find_part-length (codes "\n") (drop 1 rest))
  where
    by :
        (o : Option ℕ)
        → ((n : ℕ) → o ≡ some n → n + 1 ≤ length (drop 1 rest))
        → (1 ≤ elim o [ none ↦ length (ch ∷ rest) | some n ↦ n + 2 ])
          × ((elim o [ none ↦ length (ch ∷ rest) | some n ↦ n + 2 ]) ≤ length (ch ∷ rest))
    by none within = (omega arith, omega arith)
    by (some n) within = (omega arith, omega (arith, within n refl, length-drop 1 rest))

if_true-Goes :
    (limit : ℕ) (b : Bool) (x y : Result Move)
    → (b ≡ true → Goes limit x)
    → Goes limit y
    → Goes limit (if b then x else y)
if_true-Goes limit true x y p q = p refl
if_true-Goes limit false x y p q = q

comment_within :
    (ch : ℕ) (rest : Text)
    → starts_with (codes "/*") (ch ∷ rest) ≡ true
    → Goes (length (ch ∷ rest)) (comment_move (drop 1 rest))
comment_within ch rest t =
    let long = starts_with-length (codes "/*") (ch ∷ rest) t in
    let same : length (drop 1 rest) + 2 ≡ length (ch ∷ rest) =
      omega (arith, length-drop 1 rest, long) in
    subst (λ limit. Goes limit (comment_move (drop 1 rest))) same (comment_move-Goes (drop 1 rest))

header_within : (ch : ℕ) (rest : Text) → Goes (length (ch ∷ rest)) (header_move rest)
header_within ch rest =
    let same : length rest + 1 ≡ length (ch ∷ rest) = omega arith in
    subst (λ limit. Goes limit (header_move rest)) same (header_move-Goes rest)

pub move-Goes : (s : Lexer) (ch : ℕ) (rest : Text) → Goes (length (ch ∷ rest)) (move s ch rest)
unfolding move
move-Goes s ch rest =
    let text : Text = ch ∷ rest in
    let limit = length text in
    if-Goes limit (is_blank ch) (ok (skip 1 0)) _ (omega arith, omega arith)
      (if-Goes limit (ch == 10) (ok line_end) _ (omega arith, omega arith)
        (if_true-Goes limit (starts_with (codes "//") text) _ _ (skip-Goes ch rest) (
          if_true-Goes limit (starts_with (codes "/*") text) _ _ (comment_within ch rest) (
            if-Goes limit (s.beginning && ch == 35) (ok directive_start) _
              (omega arith, omega arith)
              (if-Goes limit (s.beginning && starts_with (codes "%:") text)
                (err "preprocessor digraph unsupported") _ tt
                (if-Goes limit (ch == 35 && not s.directive)
                  (err "preprocessor marker away from line start") _ tt
                  (if-Goes limit (expects_header s ch) _ _ (header_within ch rest)
                    (token_move-Goes s text (omega arith)))))))))
