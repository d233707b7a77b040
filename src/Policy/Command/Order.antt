-- ===== src/Policy/Command/Order.antt =====
-- _check_model_command: where the semantic flags stand in a command that passes.
use fragma.Prelude.{
  ℕ, zero, suc, ◌≡◌, refl, sym, ap, ◌∙◌, subst, ◌<◌, ◌≤◌, Bool, true, false, not, ◌&&◌, List, [],
  ◌∷◌, ◌++◌, some, String, str_eq, eq_iff, ok, >>=-eq-ok, require-eq-ok, require-true, ok-injective,
  member, all_distinct, same_names, same_names_sound, all, keep, keep_hit, keep_miss, length, ltb,
  ltb→lt, get_elem?, All, All-all, All-imp, Bool-cases, Option-cases, inl, inr, &&-eq-true, arith,
  ◌==◌,
}
use mathlib.Core.Option.{some-injective}
use fragma.Prelude.Json.{Json, Fields, str, find, get}
use fragma.Policy.Texts.{index, first_index, is_str, texts_of}
use fragma.Policy.Model.{
  ModelIdentity, arithmetic_flags, pointer_flag, has_known_keys, is_runtime_checks, given,
  model_identity, analyzer_flags,
}
use fragma.Policy.Command.{
  Argv, argv_texts, is_semantic, is_stage, required_settings, has_setting, check_spelling,
  check_flags, check_settings, correctness_of, CheckedCommand, check_model_command,
}

first_index_le :
    (p : String → Bool) (argv : List String) (j : ℕ) {s : String}
    → get_elem? argv j ≡ some s
    → p s ≡ true
    → first_index p argv ≤ j
first_index_le p [] j e h = cc
first_index_le p (x ∷ xs) zero e h =
    let holds : p x ≡ true = ap p (some-injective _ _ e) ∙ h in ground (arith, holds)
first_index_le p (x ∷ xs) (suc j) e h =
    let later = first_index_le p xs j e h in
    elim (Bool-cases (p x)) [ inl t ↦ ground (arith, t) | inr f ↦ ground (arith, f, later) ]

member-keep :
    (p : String → Bool) (xs : List String) (i : ℕ) {a : String}
    → get_elem? xs i ≡ some a
    → p a ≡ true
    → member a (keep p xs) ≡ true
member-keep p [] i e h = cc
member-keep p (x ∷ xs) zero {a} e h =
    let same = some-injective _ _ e in
    let equal : str_eq x a ≡ true = (eq_iff x a).1 same in
    rw (keep_hit p x xs (ap p same ∙ h), equal) refl
member-keep p (x ∷ xs) (suc i) {a} e h =
    let later = member-keep p xs i e h in
    elim (Bool-cases (p x)) [
      | inl t ↦ let first = keep_hit p x xs t in rw first (ground (arith, later))
      | inr f ↦ ap (member a) (keep_miss p x xs f) ∙ later
    ]

all-member :
    (q : String → Bool) (xs : List String) (a : String)
    → all q xs ≡ true
    → member a xs ≡ true
    → q a ≡ true
all-member q [] a h m = cc
all-member q (x ∷ xs) a h m =
    let (here, later) = &&-eq-true (q x) (all q xs) h in
    elim (Bool-cases (str_eq x a)) [
      | inl t ↦ sym (ap q ((eq_iff x a).0 t)) ∙ here
      | inr f ↦ all-member q xs a later (ground (arith, m, f))
    ]

-- What passes a test once is found where it stands.
index-keep :
    (p : String → Bool) (xs : List String) (i : ℕ) {a : String}
    → all_distinct (keep p xs) ≡ true
    → get_elem? xs i ≡ some a
    → p a ≡ true
    → index a xs ≡ i
unfolding all_distinct
index-keep p [] i d e h = cc
index-keep p (x ∷ xs) zero {a} d e h =
    let equal : str_eq x a ≡ true = (eq_iff x a).1 (some-injective _ _ e) in rw equal refl
index-keep p (x ∷ xs) (suc i) {a} d e h = elim (Bool-cases (p x)) [
  | inl t ↦
      let here : all_distinct (x ∷ keep p xs) ≡ true =
        sym (ap all_distinct (keep_hit p x xs t)) ∙ d in
      let (new, rest) = &&-eq-true (not (member x (keep p xs))) _ here in
      elim (Bool-cases (str_eq x a)) [
        | inl s ↦
            let twice : member x (keep p xs) ≡ true =
              ap (λ b. member b (keep p xs)) ((eq_iff x a).0 s) ∙ member-keep p xs i e h in
            absurd (ground (arith, twice, new))
        | inr s ↦ let found = index-keep p xs i rest e h in rw (s, found) refl
      ]
  | inr f ↦
      let rest : all_distinct (keep p xs) ≡ true = sym (ap all_distinct (keep_miss p x xs f)) ∙ d in
      let found = index-keep p xs i rest e h in
      let other : str_eq x a ≡ false = elim (Bool-cases (str_eq x a)) [
        | inl s ↦
            let passes : p x ≡ true = ap p ((eq_iff x a).0 s) ∙ h in
            absurd (ground (arith, passes, f))
        | inr s ↦ s
      ] in
      rw (other, found) refl
]

setting-find :
    (fs : Fields) (key value : String)
    → has_setting fs key value ≡ true
    → find key fs ≡ some (str value)
setting-find fs key value h = elim (Option-cases (find key fs)) [
  | inl e ↦
      let missing : false ≡ true = (rw (has_setting, e) at h) in absurd (ground (arith, missing))
  | inr (v, e) ↦ e ∙ ap some (is_str_eq v (rw (has_setting, e) at h))
]
  where
    is_str_eq : (v : Json) → is_str v value ≡ true → v ≡ str value
    is_str_eq (str s) t = ap str ((eq_iff s value).0 t)
    is_str_eq _ t = cc

-- The command that passes.
pub record IsOrdered (c : CheckedCommand) : Type 0 where
  pub flags : keep is_semantic c.arguments ≡ arithmetic_flags ++ (pointer_flag ∷ [])
  pub staged : (first_index is_stage c.arguments == length c.arguments) ≡ false
  pub ordered :
      (i j : ℕ) {a s : String}
      → get_elem? c.arguments i ≡ some a
      → is_semantic a ≡ true
      → get_elem? c.arguments j ≡ some s
      → is_stage s ≡ true
      → i < j
  pub settled :
      All (λ setting. find setting.0 c.correctness ≡ some (str setting.1)) required_settings

model_identity-flags :
    (analysis : Json) {m : ModelIdentity}
    → model_identity analysis ≡ ok m
    → m.flags ≡ arithmetic_flags
unfolding model_identity
model_identity-flags analysis {m} h =
    let (known, h1) = require-eq-ok (has_known_keys analysis) _ _ h in
    let (typed, h2) = require-eq-ok (is_str (get analysis "wp_model") "Typed") _ _ h1 in
    let (flags, e, h3) =
      >>=-eq-ok
        (given "unsupported or incomplete arithmetic policy"
          (texts_of (get analysis "arithmetic_flags")))
        _ h2 in
    let (same, h4) = require-eq-ok (same_names flags arithmetic_flags) _ _ h3 in
    let (checks, h5) = require-eq-ok (is_runtime_checks (get analysis "runtime_checks")) _ _ h4 in
    sym (ap (λ (x : ModelIdentity). x.flags) (ok-injective h5))
    ∙ same_names_sound flags arithmetic_flags same

analyzer_flags-eq-ok :
    (analysis : Json) {flags : List String}
    → analyzer_flags analysis ≡ ok flags
    → flags ≡ arithmetic_flags ++ (pointer_flag ∷ [])
unfolding analyzer_flags
analyzer_flags-eq-ok analysis {flags} h =
    let (m, e, h1) = >>=-eq-ok (model_identity analysis) _ h in
    sym (ok-injective h1) ∙ ap (λ fs. fs ++ (pointer_flag ∷ [])) (model_identity-flags analysis e)

-- The expected flags are distinct.
flags_distinct : all_distinct (arithmetic_flags ++ (pointer_flag ∷ [])) ≡ true
unfolding all_distinct
flags_distinct = refl

-- A command that passes has exactly the semantic flags of the recorded model, in its order; it runs an
-- analysis, each semantic flag stands before every analysis stage, and the settings that the analyzer
-- reports are those that the flags ask for.
pub check_model_command-IsOrdered :
    (analysis : Json) (argv : Argv) (audit : Json) {c : CheckedCommand}
    → check_model_command analysis argv audit ≡ ok c
    → IsOrdered c
unfolding check_model_command check_flags check_settings
check_model_command-IsOrdered analysis argv audit {c} h =
    let (m, e1, h1) = >>=-eq-ok (model_identity analysis) _ h in
    let (args, e2, h2) = >>=-eq-ok (given _ (argv_texts argv)) _ h1 in
    let (u3, e3, h3) = >>=-eq-ok (check_spelling args) _ h2 in
    let (expected, e4, h4) = >>=-eq-ok (analyzer_flags analysis) _ h3 in
    let (u5, e5, h5) = >>=-eq-ok (check_flags expected args) _ h4 in
    let (fs, e6, h6) = >>=-eq-ok (check_settings audit) _ h5 in
    let (same, f1) = require-eq-ok (same_names (keep is_semantic args) expected) _ _ e5 in
    let placed =
      require-true
        (not (first_index is_stage args == length args)
          && all (λ flag. ltb (index flag args) (first_index is_stage args)) expected)
        _ f1 in
    let (correctness, g, k1) = >>=-eq-ok (correctness_of audit) _ e6 in
    let (settings, k2) =
      require-eq-ok (all (λ setting. has_setting correctness setting.0 setting.1) required_settings)
        _ _ k1 in
    let (staged, first) = &&-eq-true (not (first_index is_stage args == length args)) _ placed in
    let kept : keep is_semantic args ≡ expected = same_names_sound _ _ same in
    let exact : expected ≡ arithmetic_flags ++ (pointer_flag ∷ []) =
      analyzer_flags-eq-ok analysis e4 in
    let distinct : all_distinct (keep is_semantic args) ≡ true =
      ap all_distinct (kept ∙ exact) ∙ flags_distinct in
    subst IsOrdered (ok-injective h6) (record {
      flags = kept ∙ exact;
      staged = ground (arith, staged);
      ordered = λ i j {a} {s} ga pa gs ps.
          let at = index-keep is_semantic args i distinct ga pa in
          let listed : member a expected ≡ true =
            ap (member a) (sym kept) ∙ member-keep is_semantic args i ga pa in
          let early = ltb→lt (index a args) _ (
            all-member (λ flag. ltb (index flag args) (first_index is_stage args)) expected a first
              listed) in
          let late = first_index_le is_stage args j gs ps in omega (arith, at, early, late);
      settled =
          subst (λ fs. All (λ setting. find setting.0 fs ≡ some (str setting.1)) required_settings)
            (ok-injective k2)
            (All-imp _ _ required_settings (λ setting. setting-find correctness setting.0 setting.1)
              (All-all (λ setting. has_setting correctness setting.0 setting.1) required_settings
                settings));
    })
