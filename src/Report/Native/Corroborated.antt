-- ===== src/Report/Native/Corroborated.antt =====
-- What `_validated_native` of fragma/report.py accepts.
use fragma.Prelude.{
  ℕ, ◌≡◌, refl, sym, ap, ◌∙◌, subst, Bool, true, false, not, ◌&&◌, ◌||◌, ◌⊎◌, inl, inr, List, [],
  ◌∷◌, ◌++◌, map, Option, none, some, String, str_eq, eq_iff, ok, ◌>>◌, require, member, keep,
  keep_hit, keep_miss, keep-get, is_empty, get_elem?, All, >>=-eq-ok, require-eq-ok, ok-injective,
  &&-eq-true, Bool-cases, arith,
}
use fragma.Prelude.Json.{Json, get}
use fragma.Policy.Texts.{is_str}
use fragma.Policy.Model.{given}
use fragma.Verdict.Evaluation.{is}
use fragma.Report.Rows.{Property}
use fragma.Report.Target.{Target}
use fragma.Report.Native.{
  Surroundings, review_path, is_object, is_digest, is_shown, same_target, assertion_source,
  absolute_root, rows, names_are, as_declared, source_line, is_at, sole_row, unreviewed, compared,
  observation, observations, validated_native,
}

-- A row of the report is the assertion of that name in the entry function.
pub record IsAssertion (properties : List Property) (entry name : String) (row : Property)
    : Type 0 where
  pub index : ℕ
  pub stands : get_elem? properties index ≡ some row
  pub in_entry : row.function ≡ entry
  pub user : row.kind ≡ "user assertion"
  pub named : member name row.names ≡ true

is_at-IsAssertion :
    (properties : List Property) (path : String) (line : ℕ) (entry name : String) {row : Property}
    → keep (is_at path line entry name) properties ≡ row ∷ []
    → IsAssertion properties entry name row
is_at-IsAssertion properties path line entry name {row} h =
    let (i, stands, at) = keep-get (is_at path line entry name) properties h in
    let (a, named) = &&-eq-true _ (member name row.names) at in
    let (b, kind) = &&-eq-true _ (str_eq row.kind "user assertion") a in
    let (c, function) = &&-eq-true _ (str_eq row.function entry) b in
    record {
      index = i;
      stands = stands;
      in_entry = (eq_iff _ _).0 function;
      user = (eq_iff _ _).0 kind;
      named = named;
    }

-- The row is invalid, or unreachable where it is invalid.
abbrev IsInvalid : Property → Type 0
IsInvalid row = (row.status ≡ "Invalid") ⊎ (row.status ≡ "Invalid or unreachable")

either : (a b c : String) → (str_eq a b || str_eq a c) ≡ true → (a ≡ b) ⊎ (a ≡ c)
either a b c h = elim (Bool-cases (str_eq a b)) [
  | inl e ↦ inl ((eq_iff a b).0 e)
  | inr e ↦ let other : str_eq a c ≡ true = ground (arith, e, h) in inr ((eq_iff a c).0 other)
]

-- What the two cases of a comparison leave.
abbrev Compared : List String → String → Property → List (String × Property) → Type 0
Compared negative name row found =
    ((member name negative ≡ true) × (found ≡ (name, row) ∷ []) × IsInvalid row)
    ⊎ ((member name negative ≡ false) × (found ≡ []) × (row.outcome ≡ "valid"))

compared-Compared :
    (negative : List String) (name : String) (row : Property) {found : List (String × Property)}
    → compared negative name row ≡ ok found
    → Compared negative name row found
unfolding compared
compared-Compared negative name row {found} h = by (member name negative) refl h
  where
    by :
        (b : Bool)
        → member name negative ≡ b
        → (elim b [
          | true ↦
              require
                (str_eq row.status "Invalid" || str_eq row.status "Invalid or unreachable")
                "Native false observation does not match an EVA invalid/ambiguous assertion"
              >> ok ((name, row) ∷ [])
          | false ↦
              require
                (str_eq row.outcome "valid")
                "Native execution cannot replace a failed positive EVA property"
              >> ok []
        ])
          ≡ ok found
        → Compared negative name row found
    by true e k =
        let (a, b) =
          require-eq-ok (str_eq row.status "Invalid" || str_eq row.status "Invalid or unreachable")
            _ _ k in
        inl (e, sym (ok-injective b), either row.status _ _ a)
    by false e k =
        let (a, b) = require-eq-ok (str_eq row.outcome "valid") _ _ k in
        inr (e, sym (ok-injective b), (eq_iff _ _).0 a)

sole_row_lem : (xs : List Property) {row : Property} → sole_row xs ≡ ok row → xs ≡ row ∷ []
unfolding sole_row
sole_row_lem [] h = cc
sole_row_lem (x ∷ []) h = ap (λ y. y ∷ []) (ok-injective h)
sole_row_lem (x ∷ (y ∷ xs)) h = cc

-- What is corroborated, and what a required property needs that is not expected to be invalid.
abbrev Confirmed : List Property → String → String × Property → Type 0
Confirmed properties entry e = IsAssertion properties entry e.0 e.1 × IsInvalid e.1

abbrev Supported : List Property → List String → String → String → Type 0
Supported properties negative entry name =
    member name negative ≡ false
    → (row : Property) × IsAssertion properties entry name row × (row.outcome ≡ "valid")

pub record NativeSound (properties : List Property) (negative : List String) (entry : String)
    (required : List String) (found : List (String × Property)) : Type 0 where
  pub names : map (λ e. e.0) found ≡ keep (λ name. member name negative) required
  pub confirmed : All (Confirmed properties entry) found
  pub supported : All (Supported properties negative entry) required

module _ (w : Surroundings) (root path entry : String) (negative : List String)
    (properties : List Property) where
  observation-Compared :
      (name : String) (o : Json) {found : List (String × Property)}
      → observation w root path entry negative properties name o ≡ ok found
      → (row : Property) × IsAssertion properties entry name row × Compared negative name row found
  unfolding observation
  observation-Compared name o h =
      let (e1, k1) = require-eq-ok (as_declared negative name o) _ _ h in
      let (e2, k2) = require-eq-ok (is_str (get o "function") entry) _ _ k1 in
      let (line, e3, k3) = >>=-eq-ok (given unreviewed (source_line (get o "line"))) _ k2 in
      let (file, e4, k4) = >>=-eq-ok (review_path w root (get o "file")) _ k3 in
      let (e5, k5) =
        require-eq-ok
          (str_eq file path && is_shown (get o "acsl") && is_shown (get o "native_expression")) _ _
          k4 in
      let (row, e6, k6) =
        >>=-eq-ok (sole_row (keep (is_at path line entry name) properties)) _ k5 in
      (
        row,
        is_at-IsAssertion properties path line entry name (sole_row_lem _ e6),
        compared-Compared negative name row k6,
      )

  onto :
      (name : String) (names : List String) (first rest : List (String × Property)) (row : Property)
      → IsAssertion properties entry name row
      → Compared negative name row first
      → NativeSound properties negative entry names rest
      → NativeSound properties negative entry (name ∷ names) (first ++ rest)
  onto name names first rest row at (inl c) s =
      let (hit, same, invalid) = c in
      subst (λ xs. NativeSound properties negative entry (name ∷ names) (xs ++ rest)) (sym same)
        (record {
          names = ap (λ ns. name ∷ ns) s.names ∙ sym (keep_hit _ name names hit);
          confirmed = ((at, invalid), s.confirmed);
          supported = (λ miss. absurd (ground (arith, hit, miss)), s.supported);
        })
  onto name names first rest row at (inr c) s =
      let (miss, same, valid) = c in
      subst (λ xs. NativeSound properties negative entry (name ∷ names) (xs ++ rest)) (sym same)
        (record {
          names = s.names ∙ sym (keep_miss _ name names miss);
          confirmed = s.confirmed;
          supported = (λ m. (row, at, valid), s.supported);
        })

  observations-NativeSound :
      (names : List String) (observed : List Json) (found : List (String × Property))
      → names_are observed names ≡ true
      → observations w root path entry negative properties names observed ≡ ok found
      → NativeSound properties negative entry names found
  unfolding observations
  observations-NativeSound [] [] found e h =
      subst (NativeSound properties negative entry []) (ok-injective h)
        (record { names = refl; confirmed = tt; supported = tt })
  observations-NativeSound [] (o ∷ observed) found e h = cc
  observations-NativeSound (name ∷ names) [] found e h = cc
  observations-NativeSound (name ∷ names) (o ∷ observed) found e h =
      let (first, e1, k1) =
        >>=-eq-ok (observation w root path entry negative properties name o) _ h in
      let (rest, e2, k2) =
        >>=-eq-ok (observations w root path entry negative properties names observed) _ k1 in
      let (a, b) = &&-eq-true (is_str (get o "name") name) _ e in
      let (row, at, c) = observation-Compared name o e1 in
      subst (NativeSound properties negative entry (name ∷ names)) (ok-injective k2)
        (onto name names first rest row at c (observations-NativeSound names observed rest b e2))

given_same :
    (message : String) (o : Option String) {name entry : String}
    → o ≡ some entry
    → given message o ≡ ok name
    → name ≡ entry
given_same message none at h = cc
given_same message (some s) at h = cc

-- What a native run corroborates is exactly the required properties that are expected to be invalid,
-- in their order: each is an assertion of the entry function which EVA reports as invalid, or as
-- invalid or unreachable. Every other required property is such an assertion that EVA has as valid.
pub validated_native-NativeSound :
    (w : Surroundings) (declaration : Json) (t : Target) (required : List String) (envelope : Json)
    (properties : List Property) (found : List (String × Property)) (entry : String)
    → validated_native w declaration t required (some envelope) properties ≡ ok found
    → t.entry ≡ some entry
    → NativeSound properties t.expected_invalid entry required found
unfolding validated_native
validated_native-NativeSound w declaration t required envelope properties found entry h at =
    let (e1, k1) =
      require-eq-ok
        (is_object envelope
          && is_str (get envelope "status") "passed"
          && is_str (get envelope "kind") "native-specification-calibration"
          && is t.role "calibration"
          && is t.analysis "eva")
        _ _ h in
    let (e2, k2) = require-eq-ok (same_target envelope t) _ _ k1 in
    let (name, e3, k3) = >>=-eq-ok (given _ t.entry) _ k2 in
    let (e4, k4) =
      require-eq-ok (is_str (get envelope "target_sha256") (w.target_sha256 declaration)) _ _ k3 in
    let (e5, k5) = require-eq-ok (is_digest 40 (get envelope "kernel_revision")) _ _ k4 in
    let (base, e6, k6) = >>=-eq-ok (given _ (absolute_root (get envelope "source_root"))) _ k5 in
    let (path, e7, k7) =
      >>=-eq-ok (review_path w (w.resolve base) (assertion_source declaration)) _ k6 in
    let (e8, k8) = require-eq-ok (is_digest 64 (get (get envelope "receipt") "sha256")) _ _ k7 in
    let (receipt, e9, k9) =
      >>=-eq-ok (review_path w (w.resolve base) (get (get envelope "receipt") "path")) _ k8 in
    let (observed, f1, l1) = >>=-eq-ok (given _ (rows (get envelope "properties"))) _ k9 in
    let (f2, l2) =
      require-eq-ok (not (is_empty t.expected_invalid) && names_are observed required) _ _ l1 in
    let (f3, f4) = &&-eq-true (not (is_empty t.expected_invalid)) _ f2 in
    let same : name ≡ entry = given_same _ t.entry at e3 in
    subst (λ n. NativeSound properties t.expected_invalid n required found) same
      (observations-NativeSound w (w.resolve base) path name t.expected_invalid properties required
        observed found f4 l2)
