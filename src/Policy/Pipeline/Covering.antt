-- ===== src/Policy/Pipeline/Covering.antt =====
-- pipeline_identity: which functions a plan covers.
use fragma.Prelude.{
  ◌≡◌, refl, sym, ap, ◌∙◌, Bool, true, false, not, ◌&&◌, ◌||◌, List, Option, none, some, String,
  str_eq, ok, >>=-eq-ok, require-eq-ok, ok-injective, member, subset, all, all_distinct, is_empty,
  codes, Bool-cases, inl, inr, &&-eq-true, arith, if◌then◌else◌, if_true, if_false, eq_iff, subst,
}
use fragma.Prelude.Json.{Json, Fields, obj, get, find}
use fragma.Policy.Texts.{texts_of, is_identifier, is_str}
use fragma.Policy.Model.{given}
use fragma.Policy.Pipeline.Kinds.{subset-with_entry, member-with_entry, declared_kind-allowed}
use fragma.Policy.Pipeline.{
  Pipeline, EvaPlan, wp_rte, eva, rte_eva, function_names, declared_kind, allowed_kinds,
  builtin_names, auto_setting, entry_name, with_entry, eva_pipeline, wp_pipeline, selected_names,
  pipeline_identity,
}

-- What the kind of a plan settles. EVA's plain plan generates no guards, and is made for the kind "eva"
-- only.
pub IsPlan : Fields → Bool → String → List String → List String → Pipeline → Type 0
IsPlan fs wp kind kernel selected (wp_rte functions) =
    (wp ≡ true) × (kind ≡ "wp-rte") × (functions ≡ selected) × (subset kernel functions ≡ true)
IsPlan fs wp kind kernel selected (eva plan) =
    (wp ≡ false) × (kind ≡ "eva") × (entry_name (get (obj fs) "entry") ≡ ok plan.entry)
IsPlan fs wp kind kernel selected (rte_eva plan functions) =
    (wp ≡ false)
    × (kind ≡ "rte-eva")
    × (functions ≡ with_entry plan.entry selected)
    × (subset kernel functions ≡ true)
    × (entry_name (get (obj fs) "entry") ≡ ok plan.entry)
    × (member plan.entry functions ≡ true)

-- The kernel functions of the target are declared, its selected functions include them, and the plan is
-- what its analysis and its declared kind ask for.
pub record IsCovering (target : Json) (pipeline : Pipeline) : Type 0 where
  pub fields : Fields
  pub is_object : target ≡ obj fields
  pub kernel : List String
  pub declared : texts_of (get target "functions") ≡ some kernel
  pub some_function : is_empty kernel ≡ false
  pub distinct : all_distinct kernel ≡ true
  pub selected : List String
  pub chosen : selected_names fields ≡ ok selected
  pub chosen_from :
      texts_of (elim (find "analysis_functions" fields) [
        | none ↦ get target "functions"
        | some value ↦ value
      ])
      ≡ some selected
  pub within : subset kernel selected ≡ true
  pub kind : String
  pub kind_is : declared_kind (is_str (get target "analysis") "wp") fields ≡ ok kind
  pub planned : IsPlan fields (is_str (get target "analysis") "wp") kind kernel selected pipeline

given-eq-ok :
    (message : String) (o : Option (List String)) {a : List String}
    → given message o ≡ ok a
    → o ≡ some a
given-eq-ok message none h = cc
given-eq-ok message (some b) h = ap some (ok-injective h)

function_names-eq-ok :
    (message : String) (value : Json) {names : List String}
    → function_names message value ≡ ok names
    → (texts_of value ≡ some names) × (is_empty names ≡ false) × (all_distinct names ≡ true)
unfolding function_names
function_names-eq-ok message value h =
    let (names, e, h1) = >>=-eq-ok (given message (texts_of value)) _ h in
    let (checks, h2) =
      require-eq-ok
        (not (is_empty names)
          && all (λ name. is_identifier (codes name)) names
          && all_distinct names)
        _ _ h1 in
    let (filled, distinct) =
      &&-eq-true (not (is_empty names) && all (λ name. is_identifier (codes name)) names) _
        checks in
    let (filled', identifiers) = &&-eq-true (not (is_empty names)) _ filled in
    let same = ok-injective h2 in
    (
      given-eq-ok message (texts_of value) e ∙ ap some same,
      sym (ap is_empty same) ∙ ground (arith, filled'),
      sym (ap all_distinct same) ∙ distinct,
    )

wp_pipeline-IsPlan :
    (kind : String) (kernel selected : List String) (fs : Fields) {p : Pipeline}
    → wp_pipeline selected fs ≡ ok p
    → member kind (allowed_kinds true) ≡ true
    → subset kernel selected ≡ true
    → IsPlan fs true kind kernel selected p
unfolding wp_pipeline IsPlan
wp_pipeline-IsPlan kind kernel selected fs {p} h m s =
    let (settings, h1) = require-eq-ok _ _ (ok (wp_rte selected)) h in
    let one : str_eq "wp-rte" kind ≡ true = ground arith in
    subst (IsPlan fs true kind kernel selected) (ok-injective h1)
      (refl, sym ((eq_iff "wp-rte" kind).0 one), refl, s)

eva_plan-IsPlan :
    (fs : Fields) (kind : String) (kernel selected : List String) (plan : EvaPlan)
    → entry_name (get (obj fs) "entry") ≡ ok plan.entry
    → member kind (allowed_kinds false) ≡ true
    → subset kernel selected ≡ true
    → IsPlan fs false kind kernel selected
        (if str_eq kind "rte-eva" then rte_eva plan (with_entry plan.entry selected) else eva plan)
unfolding IsPlan
eva_plan-IsPlan fs kind kernel selected plan named m s = elim (Bool-cases (str_eq kind "rte-eva")) [
  | inl e ↦
      subst (IsPlan fs false kind kernel selected) (sym (if_true (str_eq kind "rte-eva") _ _ e)) (
        refl,
        (eq_iff kind "rte-eva").0 e,
        refl,
        subset-with_entry kernel selected plan.entry s,
        named,
        member-with_entry selected plan.entry,
      )
  | inr e ↦
      subst (IsPlan fs false kind kernel selected) (sym (if_false (str_eq kind "rte-eva") _ _ e))
        (refl, plain e, named)
]
  where
    plain : str_eq kind "rte-eva" ≡ false → kind ≡ "eva"
    plain e = elim (Bool-cases (str_eq "eva" kind)) [
      | inl t ↦ sym ((eq_iff "eva" kind).0 t)
      | inr t ↦ elim (Bool-cases (str_eq "rte-eva" kind)) [
        | inl u ↦ let other = (eq_iff kind "rte-eva").1 (sym ((eq_iff "rte-eva" kind).0 u)) in cc
        | inr u ↦ absurd (ground arith)
      ]
    ]

eva_pipeline-IsPlan :
    (kind : String) (kernel selected : List String) (fs : Fields) {p : Pipeline}
    → eva_pipeline kind selected fs ≡ ok p
    → member kind (allowed_kinds false) ≡ true
    → subset kernel selected ≡ true
    → IsPlan fs false kind kernel selected p
unfolding eva_pipeline
eva_pipeline-IsPlan kind kernel selected fs {p} h m s =
    let (entry, e1, h1) = >>=-eq-ok (entry_name (get (obj fs) "entry")) _ h in
    let (builtins, e2, h2) = >>=-eq-ok (builtin_names fs) _ h1 in
    let (auto, e3, h3) = >>=-eq-ok (auto_setting fs) _ h2 in
    let plan : EvaPlan = record { entry = entry; builtins = builtins; auto_builtins = auto } in
    subst (IsPlan fs false kind kernel selected) (ok-injective h3)
      (eva_plan-IsPlan fs kind kernel selected plan e1 m s)

planned-IsPlan :
    (wp : Bool) (kind : String) (kernel selected : List String) (fs : Fields) {p : Pipeline}
    → (if wp then wp_pipeline selected fs else eva_pipeline kind selected fs) ≡ ok p
    → member kind (allowed_kinds wp) ≡ true
    → subset kernel selected ≡ true
    → IsPlan fs wp kind kernel selected p
planned-IsPlan true kind kernel selected fs h m s = wp_pipeline-IsPlan kind kernel selected fs h m s
planned-IsPlan false kind kernel selected fs h m s =
    eva_pipeline-IsPlan kind kernel selected fs h m s

-- A target that has a plan declares one kernel function at least, each once, and the functions that it
-- selects for its analysis include them all. With WP the plan has exactly the selected functions, and its
-- kind is the one WP has. With EVA and the kind "rte-eva" the plan generates guards for exactly the
-- selected functions and the declared entry, so for each kernel function; with EVA otherwise the kind is "eva",
-- and that plan has no guards.
pub pipeline_identity-IsCovering :
    (target : Json) {pipeline : Pipeline}
    → pipeline_identity target ≡ ok pipeline
    → IsCovering target pipeline
unfolding pipeline_identity selected_names
pipeline_identity-IsCovering (obj fs) {pipeline} h =
    let wp : Bool = is_str (get (obj fs) "analysis") "wp" in
    let (known, h1) = require-eq-ok (wp || is_str (get (obj fs) "analysis") "eva") _ _ h in
    let (kind, e2, h2) = >>=-eq-ok (declared_kind wp fs) _ h1 in
    let (selected, e3, h3) = >>=-eq-ok (selected_names fs) _ h2 in
    let (kernel, k1, m1) =
      >>=-eq-ok
        (function_names "invalid or empty kernel function inventory" (get (obj fs) "functions")) _
        e3 in
    let (chosen, k2, m2) =
      >>=-eq-ok
        (function_names "invalid or empty analysis function inventory"
          (elim (find "analysis_functions" fs) [
            | none ↦ get (obj fs) "functions"
            | some value ↦ value
          ]))
        _ m1 in
    let (inside, m3) = require-eq-ok (subset kernel chosen) _ _ m2 in
    let within : subset kernel selected ≡ true =
      sym (ap (subset kernel) (ok-injective m3)) ∙ inside in
    let (declared, filled, distinct) = function_names-eq-ok _ (get (obj fs) "functions") k1 in
    record {
      fields = fs;
      is_object = refl;
      kernel = kernel;
      declared = declared;
      some_function = filled;
      distinct = distinct;
      selected = selected;
      chosen = e3;
      chosen_from =
          (function_names-eq-ok "invalid or empty analysis function inventory"
            (elim (find "analysis_functions" fs) [
              | none ↦ get (obj fs) "functions"
              | some value ↦ value
            ])
            k2).0
          ∙ ap some (ok-injective m3);
      within = within;
      kind = kind;
      kind_is = e2;
      planned =
          planned-IsPlan wp kind kernel selected fs h3 (declared_kind-allowed wp fs e2) within;
    }
pipeline_identity-IsCovering _ h = cc
