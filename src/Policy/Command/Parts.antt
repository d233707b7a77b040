-- ===== src/Policy/Command/Parts.antt =====
-- _check_model_command: where the parts of a checked command come from.
use fragma.Prelude.{
  ◌≡◌, refl, ap, ◌∙◌, List, [], ◌∷◌, Option, none, some, String, ok, >>=-eq-ok, require-eq-ok,
  ok-injective, map, arith, Option-cases, inl, inr,
}
use mathlib.Core.Option.{some-injective}
use fragma.Prelude.Json.{Json}
use fragma.Policy.Model.{given, model_identity, analyzer_flags}
use fragma.Policy.Command.{
  Argv, all_texts, argv_texts, CheckedCommand, check_model_command, correctness_of, check_settings,
  check_spelling, check_flags,
}

all_texts_lem :
    (args : List (Option String)) {texts : List String}
    → all_texts args ≡ some texts
    → args ≡ map some texts
all_texts_lem [] h = ap (map some) (some-injective _ _ h)
all_texts_lem (none ∷ rest) h = cc
all_texts_lem (some arg ∷ rest) {texts} h = elim (Option-cases (all_texts rest)) [
  | inl e ↦ cc
  | inr (later, e) ↦
      let same : arg ∷ later ≡ texts = ground arith in
      ap (λ tail. some arg ∷ tail) (all_texts_lem rest e) ∙ ap (map some) same
]

argv_texts_lem :
    (message : String) (argv : Argv) {texts : List String}
    → given message (argv_texts argv) ≡ ok texts
    → argv ≡ some (map some texts)
argv_texts_lem message none h = cc
argv_texts_lem message (some args) {texts} h = taken (all_texts args) refl h
  where
    taken :
        (o : Option (List String))
        → all_texts args ≡ o
        → given message o ≡ ok texts
        → some args ≡ some (map some texts)
    taken none e g = cc
    taken (some found) e g = ap some (all_texts_lem args (e ∙ ap some (ok-injective g)))

-- What a checked command has of the recorded analysis, the arguments and the audit.
pub check_model_command-parts :
    (analysis : Json) (argv : Argv) (audit : Json) {command : CheckedCommand}
    → check_model_command analysis argv audit ≡ ok command
    → (argv ≡ some (map some command.arguments))
      × (model_identity analysis ≡ ok command.model)
      × (correctness_of audit ≡ ok command.correctness)
unfolding check_model_command check_settings
check_model_command-parts analysis argv audit {command} h =
    let (identity, e1, h1) = >>=-eq-ok (model_identity analysis) _ h in
    let (args, e2, h2) =
      >>=-eq-ok (given "analysis command is not an argv array" (argv_texts argv)) _ h1 in
    let (spelled, e3, h3) = >>=-eq-ok (check_spelling args) _ h2 in
    let (expected, e4, h4) = >>=-eq-ok (analyzer_flags analysis) _ h3 in
    let (flagged, e5, h5) = >>=-eq-ok (check_flags expected args) _ h4 in
    let (settings, e6, h6) = >>=-eq-ok (check_settings audit) _ h5 in
    let (found, e7, h7) = >>=-eq-ok (correctness_of audit) _ e6 in
    let (differ, h8) = require-eq-ok _ _ _ h7 in
    let made = ok-injective h6 in
    (
      argv_texts_lem _ argv e2 ∙ ap (λ c. some (map some c.arguments)) made,
      e1 ∙ ap (λ c. ok (c.model)) made,
      e7 ∙ h8 ∙ ap (λ c. ok (c.correctness)) made,
    )
