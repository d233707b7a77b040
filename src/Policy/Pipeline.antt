-- ===== src/Policy/Pipeline.antt =====
-- pipeline_identity and before_eva_options of fragma/analysis_policy.py.
pub mod Kinds
pub mod Covering
use fragma.Prelude.{
  ℕ, Bool, true, false, not, ◌&&◌, ◌||◌, List, [], ◌∷◌, ◌++◌, Option, none, some, String, str_eq,
  Result, ok, err, require, ◌>>=◌, ◌>>◌, member, subset, same_set, is_empty, all, map, all_distinct,
  codes, if◌then◌else◌,
}
use fragma.Prelude.Json.{Json, Fields, str, bool, obj, arr, find, get}
use fragma.Policy.Texts.{
  Text, is_identifier, before, after, commas, distinct_texts, texts_of, keys, is_str,
}
use fragma.Policy.Model.{given}

pub record EvaPlan : Type 0 where
  pub entry : String
  pub builtins : List String
  pub auto_builtins : Bool

-- The plans by their `kind`.
pub data Pipeline : Type 0 where
  wp_rte : List String → Pipeline
  eva : EvaPlan → Pipeline
  rte_eva : EvaPlan → List String → Pipeline

-- _functions
unfoldable pub function_names : String → Json → Result (List String)
function_names message value = do
  names ← given message (texts_of value)
  require
      (not (is_empty names) && all (λ name. is_identifier (codes name)) names && all_distinct names)
      message
  ok names

abbrev pub default_kind : Bool → String
default_kind wp = if wp then "wp-rte" else "eva"

abbrev pub allowed_kinds : Bool → List String
allowed_kinds wp = if wp then "wp-rte" ∷ [] else "eva" ∷ "rte-eva" ∷ []

abbrev pub kind_of : Bool → Json → Option String
kind_of wp (obj fs) = elim (find "kind" fs) [
  | some (str kind) ↦
      if same_set (keys fs) ("kind" ∷ []) && member kind (allowed_kinds wp) then some kind else none
  | _ ↦ none
]
kind_of wp _ = none

-- The kind of `target.get("analysis_pipeline", {"kind": default})`.
unfoldable pub declared_kind : Bool → Fields → Result String
declared_kind wp fs = elim (find "analysis_pipeline" fs) [
  | none ↦ ok (default_kind wp)
  | some declaration ↦ given "unsupported analysis pipeline" (kind_of wp declaration)
]

-- re.fullmatch of two identifiers with a colon between them
abbrev is_builtin : String → Bool
is_builtin name =
    is_identifier (before 58 (codes name))
    && elim (after 58 (codes name)) [ none ↦ false | some rest ↦ is_identifier rest ]

unfoldable pub builtin_names : Fields → Result (List String)
builtin_names fs = do
  names ←
      given "invalid explicit EVA builtin inventory"
        (elim (find "eva_builtins" fs) [ none ↦ some [] | some value ↦ texts_of value ])
  require (all is_builtin names && distinct_texts (map (λ name. before 58 (codes name)) names))
      "invalid explicit EVA builtin inventory"
  ok names

unfoldable pub auto_setting : Fields → Result Bool
auto_setting fs = elim (find "eva_auto_builtins" fs) [
  | none ↦ ok true
  | some (bool b) ↦ ok b
  | _ ↦ err "EVA auto-builtins setting must be Boolean"
]

unfoldable pub entry_name : Json → Result String
entry_name (str entry) = do require (is_identifier (codes entry)) "invalid EVA entry"; ok entry
entry_name _ = err "invalid EVA entry"

abbrev pub with_entry : String → List String → List String
with_entry entry selected = if member entry selected then selected else selected ++ (entry ∷ [])

unfoldable pub eva_pipeline : String → List String → Fields → Result Pipeline
unfolding builtin_names auto_setting entry_name
eva_pipeline kind selected fs = do
  entry ← entry_name (get (obj fs) "entry")
  builtins ← builtin_names fs
  auto ← auto_setting fs
  let plan : EvaPlan = record { entry = entry; builtins = builtins; auto_builtins = auto }
  ok (if str_eq kind "rte-eva" then rte_eva plan (with_entry entry selected) else eva plan)

abbrev has_key : String → Fields → Bool
has_key k fs = member k (keys fs)

unfoldable pub wp_pipeline : List String → Fields → Result Pipeline
wp_pipeline selected fs = do
  require (not (has_key "eva_builtins" fs || has_key "eva_auto_builtins" fs))
      "EVA-specific settings on a WP target"
  ok (wp_rte selected)

-- The functions that a target selects.
unfoldable pub selected_names : Fields → Result (List String)
unfolding function_names
selected_names fs = do
  kernel ← function_names "invalid or empty kernel function inventory" (get (obj fs) "functions")
  selected ←
      function_names "invalid or empty analysis function inventory"
        (elim (find "analysis_functions" fs) [
          | none ↦ get (obj fs) "functions"
          | some value ↦ value
        ])
  require (subset kernel selected) "analysis inventory omits a selected kernel function"
  ok selected

unfoldable pub pipeline_identity : Json → Result Pipeline
unfolding declared_kind selected_names eva_pipeline wp_pipeline
pipeline_identity (obj fs) = do
  let wp : Bool = is_str (get (obj fs) "analysis") "wp"
  require (wp || is_str (get (obj fs) "analysis") "eva") "unsupported target analysis"
  kind ← declared_kind wp fs
  selected ← selected_names fs
  if wp then wp_pipeline selected fs else eva_pipeline kind selected fs
pipeline_identity _ = err "target must be an object"

-- The options in front of -eva, as texts.
abbrev pub rte_options : List String → List Text
rte_options functions =
    codes "-rte"
    ∷ codes "-rte-select"
    ∷ commas functions
    ∷ codes "-rte-no-use-eva-results"
    ∷ codes "-then"
    ∷ []

unfoldable pub before_eva_options : Json → Result (List Text)
unfolding pipeline_identity
before_eva_options target = do
  pipeline ← pipeline_identity target
  ok (elim pipeline [
    | wp_rte functions ↦ []
    | eva plan ↦ []
    | rte_eva plan functions ↦ rte_options functions
  ])
