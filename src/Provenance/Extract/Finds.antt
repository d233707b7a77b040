-- ===== src/Provenance/Extract/Finds.antt =====
-- Which tokens of the source a candidate of extract_function has.
use fragma.Prelude.{
  ℕ, ◌+◌, ◌≡◌, refl, Bool, true, false, not, ◌&&◌, List, [], ◌∷◌, Option, none, some, String,
  Result, ok, err, require, ◌>>◌, ◌==◌, codes, text_eq, text_eq_sound, is_empty, get_elem?,
  &&-eq-true, arith, ap, sym, ◌∙◌, ==_iff,
}
use fragma.Provenance.Scan.{Text}
use fragma.Provenance.Lex.{Token}
use fragma.Provenance.Extract.{
  Function, value_in, is_value, Balance, partner, value_at, declaration, body, plain_prefix,
  plain_parameters, built, definition, declarator, candidate,
}

-- An opening parenthesis follows the name, and `close` is its partner.
pub record HasParameters (normal : List (ℕ × Token)) (b : Balance) (i close : ℕ) : Type 0 where
  pub opened : value_at normal (i + 1) ≡ some (codes "(")
  pub closed : partner (i + 1) b.matching ≡ some close

-- The function whose name is the i-th normal token, which stands at `raw` among all tokens: an opening
-- brace follows its parameters, and its tokens go on to the partner of that brace, at `stop`.
pub record IsPart (name : Text) (tokens : List Token) (normal : List (ℕ × Token)) (b : Balance)
    (i raw : ℕ) (f : Function) : Type 0 where
  pub same_name : f.name ≡ name
  pub close : ℕ
  pub parameters : HasParameters normal b i close
  pub braced : value_at normal (close + 1) ≡ some (codes "{")
  pub last : ℕ
  pub partnered : partner (close + 1) b.matching ≡ some last
  pub stop : ℕ
  pub brace : Token
  pub ends : get_elem? normal last ≡ some (stop, brace)
  pub whole : f.tokens ≡ body tokens raw (stop + 1)
  pub before : f.declaration_prefix ≡ declaration tokens raw
  pub some_prefix : is_empty f.declaration_prefix ≡ false

-- What is found, if anything is, satisfies the predicate.
abbrev pub Finds : (Function → Type 0) → Result (Option Function) → Type 0
Finds P (ok (some f)) = P f
Finds P (ok none) = Unit
Finds P (err message) = Unit

require-Finds :
    (P : Function → Type 0) (b : Bool) (message : String) (r : Result (Option Function))
    → (b ≡ true → Finds P r)
    → Finds P (require b message >> r)
require-Finds P true message r g = g refl
require-Finds P false message r g = tt

module _ (name : Text) (tokens : List Token) (normal : List (ℕ × Token)) (b : Balance) (i raw : ℕ)
    (t : Token) where
  built-Finds :
      (close last stop : ℕ) (brace : Token)
      → HasParameters normal b i close
      → value_at normal (close + 1) ≡ some (codes "{")
      → partner (close + 1) b.matching ≡ some last
      → get_elem? normal last ≡ some (stop, brace)
      → Finds (IsPart name tokens normal b i raw) (built name tokens normal i raw t close stop)
  unfolding built
  built-Finds close last stop brace p q g e =
      let f : Function = record {
        name = name;
        tokens = body tokens raw (stop + 1);
        declaration_prefix = declaration tokens raw;
        line = t.line;
      } in
      require-Finds (IsPart name tokens normal b i raw) (plain_prefix (declaration tokens raw))
        "unsupported declaration prefix"
        (require (plain_parameters normal i close) "unsupported parameter declaration"
          >> ok (some f))
        (λ plain.
          let (filled, names) = &&-eq-true (not (is_empty (declaration tokens raw))) _ plain in
          require-Finds (IsPart name tokens normal b i raw) (plain_parameters normal i close)
            "unsupported parameter declaration" (ok (some f))
            (λ parameters. record {
              same_name = refl;
              close = close;
              parameters = p;
              braced = q;
              last = last;
              partnered = g;
              stop = stop;
              brace = brace;
              ends = e;
              whole = refl;
              before = refl;
              some_prefix = ground (arith, filled);
            }))

  definition-Finds :
      (close : ℕ)
      → HasParameters normal b i close
      → value_at normal (close + 1) ≡ some (codes "{")
      → Finds (IsPart name tokens normal b i raw) (definition name tokens normal b i raw t close)
  unfolding definition
  definition-Finds close p q = paired (partner (close + 1) b.matching) refl
    where
      placed :
          (last : ℕ) (o : Option (ℕ × Token))
          → partner (close + 1) b.matching ≡ some last
          → get_elem? normal last ≡ o
          → Finds (IsPart name tokens normal b i raw) (elim o [
            | none ↦ err "IndexError"
            | some (stop, brace) ↦ built name tokens normal i raw t close stop
          ])
      placed last none g e = tt
      placed last (some (stop, brace)) g e = built-Finds close last stop brace p q g e

      paired :
          (o : Option ℕ)
          → partner (close + 1) b.matching ≡ o
          → Finds (IsPart name tokens normal b i raw) (elim o [
            | none ↦ err "KeyError"
            | some last ↦ elim (get_elem? normal last) [
              | none ↦ err "IndexError"
              | some (stop, brace) ↦ built name tokens normal i raw t close stop
            ]
          ])
      paired none g = tt
      paired (some last) g = placed last (get_elem? normal last) g refl

  declarator-Finds :
      (close : ℕ)
      → HasParameters normal b i close
      → Finds (IsPart name tokens normal b i raw) (declarator name tokens normal b i raw t close)
  unfolding declarator
  declarator-Finds close p = by (value_at normal (close + 1)) refl
    where
      braced :
          (following : Text) (x : Bool)
          → value_at normal (close + 1) ≡ some following
          → text_eq following (codes "{") ≡ x
          → Finds (IsPart name tokens normal b i raw) (elim x [
            | true ↦ definition name tokens normal b i raw t close
            | false ↦ err "unsupported post-declarator syntax"
          ])
      braced following true v e =
          definition-Finds close p (v ∙ ap some (text_eq_sound following (codes "{") e))
      braced following false v e = tt

      follows :
          (following : Text) (x : Bool)
          → value_at normal (close + 1) ≡ some following
          → Finds (IsPart name tokens normal b i raw) (elim x [
            | true ↦ ok none
            | false ↦ elim (text_eq following (codes "{")) [
              | true ↦ definition name tokens normal b i raw t close
              | false ↦ err "unsupported post-declarator syntax"
            ]
          ])
      follows following true v = tt
      follows following false v = braced following (text_eq following (codes "{")) v refl

      by :
          (o : Option Text)
          → value_at normal (close + 1) ≡ o
          → Finds (IsPart name tokens normal b i raw) (elim o [
            | none ↦ err "incomplete declarator"
            | some following ↦ elim (value_in following (";" ∷ "," ∷ "=" ∷ ")" ∷ "]" ∷ [])) [
              | true ↦ ok none
              | false ↦ elim (text_eq following (codes "{")) [
                | true ↦ definition name tokens normal b i raw t close
                | false ↦ err "unsupported post-declarator syntax"
              ]
            ]
          ])
      by none v = tt
      by (some following) v =
          follows following (value_in following (";" ∷ "," ∷ "=" ∷ ")" ∷ "]" ∷ [])) v

  -- A candidate: the name, outside all delimiters, and the part that begins with it.
  abbrev pub IsFound : Function → Type 0
  IsFound f =
      (t.value ≡ name) × (get_elem? b.depths i ≡ some 0) × IsPart name tokens normal b i raw f

  abbrev IsCandidate : Type 0
  IsCandidate =
      (t.value ≡ name)
      × (get_elem? b.depths i ≡ some 0)
      × (value_at normal (i + 1) ≡ some (codes "("))

  pub candidate-Finds : Finds IsFound (candidate name tokens normal b i raw t)
  unfolding candidate
  candidate-Finds =
      tested
        (text_eq t.value name
          && elim (get_elem? b.depths i) [ none ↦ false | some depth ↦ depth == 0 ]
          && is_value (value_at normal (i + 1)) ("(" ∷ []))
        (λ all.
          let (both, opens) = &&-eq-true _ _ all in
          let (named, outermost) = &&-eq-true _ _ both in
          (
            text_eq_sound t.value name named,
            zero_depth (get_elem? b.depths i) outermost,
            parenthesis (value_at normal (i + 1)) opens,
          ))
    where
      zero_depth :
          (o : Option ℕ) → elim o [ none ↦ false | some depth ↦ depth == 0 ] ≡ true → o ≡ some 0
      zero_depth none e = cc
      zero_depth (some depth) e = ap some ((==_iff depth 0).0 e)

      parenthesis : (o : Option Text) → is_value o ("(" ∷ []) ≡ true → o ≡ some (codes "(")
      parenthesis none e = cc
      parenthesis (some v) e =
          let same : text_eq (codes "(") v ≡ true = ground arith in
          ap some (sym (text_eq_sound (codes "(") v same))

      named :
          (r : Result (Option Function))
          → IsCandidate
          → Finds (IsPart name tokens normal b i raw) r
          → Finds IsFound r
      named (ok (some f)) v g = (v.0, v.1, g)
      named (ok none) v g = tt
      named (err message) v g = tt

      closed :
          (o : Option ℕ)
          → IsCandidate
          → partner (i + 1) b.matching ≡ o
          → Finds IsFound (elim o [
            | none ↦ err "KeyError"
            | some close ↦ declarator name tokens normal b i raw t close
          ])
      closed none v g = tt
      closed (some close) v g =
          named (declarator name tokens normal b i raw t close) v
            (declarator-Finds close (record { opened = v.2; closed = g }))

      tested :
          (x : Bool)
          → (x ≡ true → IsCandidate)
          → Finds IsFound (elim x [
            | false ↦ ok none
            | true ↦ elim (partner (i + 1) b.matching) [
              | none ↦ err "KeyError"
              | some close ↦ declarator name tokens normal b i raw t close
            ]
          ])
      tested false v = tt
      tested true v = closed (partner (i + 1) b.matching) (v refl) refl
