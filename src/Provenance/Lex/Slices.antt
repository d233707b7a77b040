-- ===== src/Provenance/Lex/Slices.antt =====
-- _lex: where the tokens stand in the text.
use fragma.Prelude.{
  ℕ, zero, suc, ◌+◌, ◌-◌, ◌≤◌, ◌<◌, ◌≡◌, ◌≢◌, refl, sym, ap, ◌∙◌, subst, Bool, true, false, not,
  List, [], ◌∷◌, ◌++◌, String, ok, >>=-eq-ok, require-eq-ok, ok-injective, ◌==◌, any, length,
  length-drop, is_empty, take, drop, All, All-append, arith, if◌then◌else◌,
}
use fragma.Provenance.Scan.{Text, has_trigraph}
use fragma.Provenance.Lex.Moves.{Goes, move-Goes}
use fragma.Provenance.Lex.{
  boundary, Token, Lexer, Move, skip, line_end, directive_start, token, macro_call, move, width,
  token_of, mark_of, added, moved, advanced, closing, lex_from, start_state, some_tokens, prepared,
  lex,
}

-- A token of the text has the characters between its ends, and there are some; a boundary mark has none
-- to answer for.
pub record IsSlice (source : Text) (t : Token) : Type 0 where
  pub value : t.kind ≢ boundary → t.value ≡ take (t.end - t.start) (drop t.start source)
  pub filled : t.kind ≢ boundary → t.start < t.end
  pub within : t.kind ≢ boundary → t.end ≤ length source

-- Each token begins where the one before it has ended, or later.
abbrev pub Ascending : ℕ → List Token → Type 0
Ascending low [] = Unit
Ascending low (t ∷ ts) = (low ≤ t.start) × (t.start ≤ t.end) × Ascending t.end ts

Ascending-le : (m n : ℕ) (ts : List Token) → m ≤ n → Ascending n ts → Ascending m ts
Ascending-le m n [] h a = tt
Ascending-le m n (t ∷ ts) h (low, ends, rest) = (omega arith, ends, rest)

drop_next :
    (n : ℕ) (source : Text) {ch : ℕ} {rest : Text}
    → drop n source ≡ ch ∷ rest
    → drop (n + 1) source ≡ rest
drop_next zero [] h = cc
drop_next zero (d ∷ source) h = cc
drop_next (suc n) [] h = cc
drop_next (suc n) (d ∷ source) h =
    let same : suc n + 1 ≡ suc (n + 1) = omega arith in
    ap (λ k. drop k (d ∷ source)) same ∙ drop_next n source h

token_of-IsSlice :
    (source : Text) (s : Lexer) (text : Text) (n : ℕ)
    → drop s.at source ≡ text
    → 1 ≤ n
    → n ≤ length text
    → IsSlice source (token_of s text n)
token_of-IsSlice source s text n e h fits = record {
  value = λ k.
      let taken : s.at + n - s.at ≡ n = omega arith in
      ap (take n) (sym e) ∙ ap (λ m. take m (drop s.at source)) (sym taken);
  filled = λ k. omega arith;
  within = λ k. omega (arith, ap length e, length-drop s.at source, fits);
}

mark_of-IsSlice :
    (source : Text) (s : Lexer) (name : String) (n : ℕ) → IsSlice source (mark_of s name n)
mark_of-IsSlice source s name n = record {
  value = λ k. absurd (k refl);
  filled = λ k. absurd (k refl);
  within = λ k. absurd (k refl);
}

moved_at : (s : Lexer) (text : Text) (m : Move) → (moved s text m).at ≡ s.at
moved_at s text (skip n lines) = refl
moved_at s text line_end = refl
moved_at s text directive_start = refl
moved_at s text (token n) = refl
moved_at s text macro_call = refl

-- The tokens of a round, and where they end.
added-IsSlice :
    (source : Text) (s : Lexer) (text : Text) (m : Move)
    → drop s.at source ≡ text
    → 1 ≤ width m
    → width m ≤ length text
    → All (IsSlice source) (added s text m)
added-IsSlice source s text (skip n lines) e h fits = tt
added-IsSlice source s text line_end e h fits = by s.directive
  where
    by : (b : Bool) → All (IsSlice source) (if b then mark_of s "<pp-end>" 1 ∷ [] else [])
    by true = (mark_of-IsSlice source s "<pp-end>" 1, tt)
    by false = tt
added-IsSlice source s text directive_start e h fits = (mark_of-IsSlice source s "<pp-start>" 1, tt)
added-IsSlice source s text (token n) e h fits = (token_of-IsSlice source s text n e h fits, tt)
added-IsSlice source s text macro_call e h fits = (
  mark_of-IsSlice source s "<macro-function>" 0,
  (token_of-IsSlice source s text 1 e (omega arith) fits, tt),
)

added-Ascending :
    (s : Lexer) (text : Text) (m : Move) (later : List Token)
    → Ascending (s.at + width m) later
    → Ascending s.at (added s text m ++ later)
added-Ascending s text (skip n lines) later a = Ascending-le s.at (s.at + n) later (omega arith) a
added-Ascending s text line_end later a = by s.directive
  where
    by : (b : Bool) → Ascending s.at ((if b then mark_of s "<pp-end>" 1 ∷ [] else []) ++ later)
    by true = (omega arith, omega arith, a)
    by false = Ascending-le s.at (s.at + 1) later (omega arith) a
added-Ascending s text directive_start later a = (omega arith, omega arith, a)
added-Ascending s text (token n) later a = (omega arith, omega arith, a)
added-Ascending s text macro_call later a =
    (omega arith, omega arith, (omega arith, omega arith, a))

closing-IsLexed :
    (source : Text) (s : Lexer) (low : ℕ)
    → low ≤ s.at
    → All (IsSlice source) (closing s) × Ascending low (closing s)
closing-IsLexed source s low h = by s.directive
  where
    by :
        (b : Bool)
        → All (IsSlice source) (if b then mark_of s "<pp-end>" 0 ∷ [] else [])
          × Ascending low (if b then mark_of s "<pp-end>" 0 ∷ [] else [])
    by true = ((mark_of-IsSlice source s "<pp-end>" 0, tt), (omega arith, omega arith, tt))
    by false = (tt, tt)

-- The tokens of a text that begins at this position, the first `pending` characters passed over.
lex_from-IsLexed :
    (source : Text) (pending : ℕ) (s : Lexer) (text : Text) {tokens : List Token}
    → drop s.at source ≡ text
    → pending ≤ length text
    → lex_from pending s text ≡ ok tokens
    → All (IsSlice source) tokens × Ascending (s.at + pending) tokens
unfolding lex_from
lex_from-IsLexed source pending s [] {tokens} e p h =
    let (slices, order) = closing-IsLexed source s (s.at + pending) (omega (arith, p)) in
    (
      subst (All (IsSlice source)) (ok-injective h) slices,
      subst (Ascending (s.at + pending)) (ok-injective h) order,
    )
lex_from-IsLexed source (suc pending) s (ch ∷ rest) {tokens} e p h =
    let (slices, order) =
      lex_from-IsLexed source pending (advanced s) rest (drop_next s.at source e) (omega (arith, p))
        h in
    let same : s.at + 1 + pending ≡ s.at + suc pending = omega arith in
    (slices, subst (λ low. Ascending low tokens) same order)
lex_from-IsLexed source zero s (ch ∷ rest) {tokens} e p h =
    let (m, e1, h1) = >>=-eq-ok (move s ch rest) _ h in
    let (goes, fits) = subst (Goes (length (ch ∷ rest))) e1 (move-Goes s ch rest) in
    let next = advanced (moved s (ch ∷ rest) m) in
    let (later, e2, h2) = >>=-eq-ok (lex_from (width m - 1) next rest) _ h1 in
    let stays = moved_at s (ch ∷ rest) m in
    let behind : drop (next.at) source ≡ rest =
      ap (λ n. drop (n + 1) source) stays ∙ drop_next s.at source e in
    let (slices, order) =
      lex_from-IsLexed source (width m - 1) next rest behind (omega (arith, fits)) e2 in
    let low : next.at + (width m - 1) ≡ s.at + width m = omega (arith, stays, goes) in
    let ordered =
      added-Ascending s (ch ∷ rest) m later (subst (λ n. Ascending n later) low order) in
    (
      subst (All (IsSlice source)) (ok-injective h2) (
          All-append (IsSlice source) (added s (ch ∷ rest) m) later
            (added-IsSlice source s (ch ∷ rest) m e goes fits) slices),
      subst (λ ts. Ascending (s.at + 0) ts) (ok-injective h2)
          (Ascending-le (s.at + 0) s.at _ (omega arith) ordered),
    )

-- The tokens of a source, for the text that their positions are in.
pub record IsTokenized (source : Text) (tokens : List Token) : Type 0 where
  pub some_token : is_empty tokens ≡ false
  pub slices : All (IsSlice (prepared source)) tokens
  pub ascending : Ascending 0 tokens

some_tokens-eq-ok :
    (tokens : List Token) {result : List Token}
    → some_tokens tokens ≡ ok result
    → (tokens ≡ result) × (is_empty result ≡ false)
some_tokens-eq-ok [] h = cc
some_tokens-eq-ok (t ∷ ts) h = (ok-injective h, ap is_empty (sym (ok-injective h)))

-- A source that is read gives one token at least; the tokens ascend without overlap, and each that is no
-- boundary mark has exactly the characters between its ends in the text with spliced lines.
pub lex-IsTokenized :
    (source : Text) {tokens : List Token} → lex source ≡ ok tokens → IsTokenized source tokens
unfolding lex
lex-IsTokenized source {tokens} h =
    let (no_nul, h1) = require-eq-ok (not (any (λ ch. ch == 0) source)) _ _ h in
    let (no_trigraph, h2) = require-eq-ok (not (has_trigraph source)) _ _ h1 in
    let (found, e, h3) = >>=-eq-ok (lex_from 0 start_state (prepared source)) _ h2 in
    let (same, filled) = some_tokens-eq-ok found h3 in
    let (slices, order) =
      lex_from-IsLexed (prepared source) 0 start_state (prepared source) refl (omega arith) e in
    record {
      some_token = filled;
      slices = subst (All (IsSlice (prepared source))) same slices;
      ascending = subst (Ascending 0) same order;
    }
