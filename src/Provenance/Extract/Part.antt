-- ===== src/Provenance/Extract/Part.antt =====
-- extract_function: which tokens of the source a function has.
use fragma.Prelude.{
  ℕ, ◌+◌, ◌≡◌, refl, ap, ◌∙◌, subst, Bool, true, false, not, ◌&&◌, List, [], ◌∷◌, Option, none,
  some, ok, >>=-eq-ok, require-eq-ok, ok-injective, ◌==◌, length, drop, is_empty, get_elem?, All,
  arith, if◌then◌else◌, sym, ◌<◌, ◌-◌, All-get, codes,
}
use fragma.Provenance.Scan.{Text, identifier}
use fragma.Provenance.Lex.{Token, lex}
use fragma.Provenance.Extract.{
  Function, body, is_c, normal_from, Balance, balance, closes, candidate, candidates,
  sole_definition, extract_function,
}
use fragma.Provenance.Extract.Finds.{IsPart, IsFound, Finds, candidate-Finds}
use fragma.Provenance.Extract.Pairs.{
  get_drop, IsPair, balance-IsPair, partner-IsPair, closes-brace, normal_from-lt,
}
use fragma.Provenance.Extract.Body.{get-body, length-body}
use mathlib.Core.Option.{some-injective}

-- A function of the source: the normal token that it begins with, outside all delimiters, and the
-- closing brace that it ends with.
pub record IsExtracted (source name : Text) (f : Function) : Type 0 where
  pub tokens : List Token
  pub read : lex source ≡ ok tokens
  pub delimiters : Balance
  pub balanced : balance 0 [] (normal_from 0 tokens) ≡ ok delimiters
  pub i : ℕ
  pub raw : ℕ
  pub token : Token
  pub indexed : get_elem? (normal_from 0 tokens) i ≡ some (raw, token)
  pub stands : get_elem? tokens raw ≡ some token
  pub value : token.value ≡ name
  pub outermost : get_elem? delimiters.depths i ≡ some 0
  pub part : IsPart name tokens (normal_from 0 tokens) delimiters i raw f
  pub forward : raw < part.stop
  pub closing_stands : get_elem? tokens part.stop ≡ some part.brace
  pub closing : part.brace.value ≡ codes "}"
  pub first : get_elem? f.tokens 0 ≡ some name
  pub final : get_elem? f.tokens (part.stop - raw) ≡ some (codes "}")
  pub count : length f.tokens ≡ part.stop - raw + 1

-- The places of normal tokens.
abbrev IsPlaced : List Token → ℕ × Token → Type 0
IsPlaced tokens p = get_elem? tokens p.0 ≡ some p.1

normal_from-IsPlaced :
    (tokens : List Token) (i : ℕ) (ts : List Token)
    → drop i tokens ≡ ts
    → All (IsPlaced tokens) (normal_from i ts)
normal_from-IsPlaced tokens i [] h = tt
normal_from-IsPlaced tokens i (t ∷ ts) h =
    let (stands, later) = get_drop i tokens h in
    let rest = normal_from-IsPlaced tokens (i + 1) ts later in by (is_c t.kind) stands rest
  where
    by :
        (x : Bool)
        → get_elem? tokens i ≡ some t
        → All (IsPlaced tokens) (normal_from (i + 1) ts)
        → All
            (IsPlaced tokens)
            (if x then (i, t) ∷ normal_from (i + 1) ts else normal_from (i + 1) ts)
    by true stands rest = (stands, rest)
    by false stands rest = rest

-- The part that a candidate has, with what the balanced delimiters add.
part-IsExtracted :
    (source name : Text) (tokens : List Token) (b : Balance) (i raw : ℕ) (t : Token) (f : Function)
    → lex source ≡ ok tokens
    → balance 0 [] (normal_from 0 tokens) ≡ ok b
    → get_elem? (normal_from 0 tokens) i ≡ some (raw, t)
    → IsFound name tokens (normal_from 0 tokens) b i raw t f
    → IsExtracted source name f
part-IsExtracted source name tokens b i raw t f read balanced indexed found =
    let normal = normal_from 0 tokens in
    let part = found.2 in
    let pairs = balance-IsPair normal balanced in
    let outer = partner-IsPair normal (i + 1) b.matching pairs part.parameters.closed in
    let inner = partner-IsPair normal (part.close + 1) b.matching pairs part.partnered in
    let placed = normal_from-IsPlaced tokens 0 tokens refl in
    let stands = All-get (IsPlaced tokens) normal i placed indexed in
    let closing_stands = All-get (IsPlaced tokens) normal part.last placed part.ends in
    let along : i < part.last = omega (arith, outer.forward, inner.forward) in
    let forward : raw < part.stop = normal_from-lt 0 tokens i part.last indexed part.ends along in
    let closing = braces part inner in
    record {
      tokens = tokens;
      read = read;
      delimiters = b;
      balanced = balanced;
      i = i;
      raw = raw;
      token = t;
      indexed = indexed;
      stands = stands;
      value = found.0;
      outermost = found.1;
      part = part;
      forward = forward;
      closing_stands = closing_stands;
      closing = closing;
      first =
          ap (λ ts. get_elem? ts 0) part.whole
          ∙ ap (get_elem? (body tokens raw (part.stop + 1))) (omega arith)
          ∙ get-body tokens raw (part.stop + 1) raw stands (omega (arith, forward)) (omega arith)
          ∙ ap some found.0;
      final =
          ap (λ ts. get_elem? ts (part.stop - raw)) part.whole
          ∙ get-body tokens raw (part.stop + 1) part.stop closing_stands (omega arith)
              (omega (arith, forward))
          ∙ ap some closing;
      count = ap length part.whole ∙ length-body tokens raw part.stop closing_stands forward;
    }
  where
    braces :
        (part : IsPart name tokens (normal_from 0 tokens) b i raw f)
        → IsPair (normal_from 0 tokens) (part.close + 1, part.last)
        → part.brace.value ≡ codes "}"
    braces part inner =
        let opens = some-injective _ _ (sym inner.open_at ∙ part.braced) in
        let last = some-injective _ _ (
          sym inner.close_at
          ∙ ap (λ o. elim o [ none ↦ none | some (r, u) ↦ some (u.value) ]) part.ends) in
        sym last
        ∙ closes-brace inner.close_value
            (sym (ap (λ v. closes v inner.close_value) opens) ∙ inner.kinds)

candidates-IsExtracted :
    (source name : Text) (tokens : List Token) (b : Balance) (i : ℕ) (rest : List (ℕ × Token))
    {found : List Function}
    → lex source ≡ ok tokens
    → balance 0 [] (normal_from 0 tokens) ≡ ok b
    → drop i (normal_from 0 tokens) ≡ rest
    → candidates name tokens (normal_from 0 tokens) b i rest ≡ ok found
    → All (IsExtracted source name) found
unfolding candidates
candidates-IsExtracted source name tokens b i [] read balanced at h =
    subst (All (IsExtracted source name)) (ok-injective h) tt
candidates-IsExtracted source name tokens b i ((raw, t) ∷ rest) {found} read balanced at h =
    let normal = normal_from 0 tokens in
    let (o, e1, h1) = >>=-eq-ok (candidate name tokens normal b i raw t) _ h in
    let (later, e2, h2) = >>=-eq-ok (candidates name tokens normal b (i + 1) rest) _ h1 in
    let (indexed, next) = get_drop i normal at in
    let finds =
      subst (Finds (IsFound name tokens normal b i raw t)) e1
        (candidate-Finds name tokens normal b i raw t) in
    let all_later =
      candidates-IsExtracted source name tokens b (i + 1) rest read balanced next e2 in
    subst (All (IsExtracted source name)) (ok-injective h2) (joined o later indexed finds all_later)
  where
    joined :
        (o : Option Function) (later : List Function)
        → get_elem? (normal_from 0 tokens) i ≡ some (raw, t)
        → Finds (IsFound name tokens (normal_from 0 tokens) b i raw t) (ok o)
        → All (IsExtracted source name) later
        → All (IsExtracted source name) (elim o [ none ↦ later | some f ↦ f ∷ later ])
    joined none later indexed finds all_later = all_later
    joined (some f) later indexed finds all_later =
        (part-IsExtracted source name tokens b i raw t f read balanced indexed finds, all_later)

sole_definition-All :
    (P : Function → Type 0) (found : List Function) {f : Function}
    → All P found
    → sole_definition found ≡ ok f
    → P f
unfolding sole_definition
sole_definition-All P [] a h = cc
sole_definition-All P (g ∷ []) a h = subst P (ok-injective h) a.0
sole_definition-All P (g ∷ k ∷ rest) a h = cc

-- A function that is extracted has the name asked for. It begins at a normal token of the source with
-- that value, outside all delimiters; an opening parenthesis follows, and an opening brace follows the
-- parenthesis's partner. Its tokens are those of the source from the name up to the brace's partner,
-- without a gap: the first is the name, the last a closing brace, further on than the name. What stands
-- before it back to the declaration before is its prefix, which is not empty.
pub extract_function-IsExtracted :
    (source name : Text) {f : Function}
    → extract_function source name ≡ ok f
    → IsExtracted source name f
unfolding extract_function
extract_function-IsExtracted source name {f} h =
    let (valid, h1) = require-eq-ok (not (is_empty name) && identifier name == length name) _ _ h in
    let (tokens, e1, h2) = >>=-eq-ok (lex source) _ h1 in
    let (b, e2, h3) = >>=-eq-ok (balance 0 [] (normal_from 0 tokens)) _ h2 in
    let (found, e3, h4) =
      >>=-eq-ok (candidates name tokens (normal_from 0 tokens) b 0 (normal_from 0 tokens)) _ h3 in
    sole_definition-All (IsExtracted source name) found
      (candidates-IsExtracted source name tokens b 0 (normal_from 0 tokens) e1 e2 refl e3) h4
