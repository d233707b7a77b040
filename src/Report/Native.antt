-- ===== src/Report/Native.antt =====
-- `_validated_native` of fragma/report.py: when observations of a native run corroborate that EVA calls an
-- assertion invalid. Paths and the digest of the target's declaration are parameters; a message is
-- less the name in it. The lists of the target were read before (Report/Target.antt).
pub mod Corroborated
mod Tests
use fragma.Prelude.{
  ℕ, Bool, true, false, not, ◌&&◌, ◌||◌, List, [], ◌∷◌, ◌++◌, Option, none, some, String, str_eq,
  Result, ok, err, ◌>>=◌, ◌>>◌, require, ◌==◌, leb, all, member, keep, is_empty, length, codes,
  has_text, starts_with, if◌then◌else◌,
}
use fragma.Prelude.Json.{Json, Items, bool, int, str, arr, obj, nil, cons, pos, get, find}
use fragma.Policy.Texts.{is_str}
use fragma.Policy.Model.{given}
use fragma.Verdict.Evaluation.{is}
use fragma.Report.Rows.{Property}
use fragma.Report.Target.{Target}

-- Path(name).resolve(), (root / name).resolve() and path.is_relative_to(root), and the digest of the
-- target's declaration.
pub record Surroundings : Type 0 where
  pub resolve : String → String
  pub join : String → String → String
  pub is_under : String → String → Bool
  pub target_sha256 : Json → String

-- A text that is not blank.
abbrev pub shown : Json → Option String
shown (str s) = if has_text s then some s else none
shown _ = none

abbrev is_shown : Json → Bool
is_shown value = elim (shown value) [ none ↦ false | some s ↦ true ]

-- _review_path
unfoldable pub review_path : Surroundings → String → Json → Result String
review_path w root value = do
  name ← given "Review has no exact file path" (shown value)
  require (w.is_under (w.join root name) root) "Review file is outside its validated source root"
  ok (w.join root name)

abbrev is_object : Json → Bool
is_object (obj fields) = true
is_object _ = false

abbrev is_hex : ℕ → String → Bool
is_hex n s =
    length (codes s) == n && all (λ c. (leb 48 c && leb c 57) || (leb 97 c && leb c 102)) (codes s)

abbrev is_digest : ℕ → Json → Bool
is_digest n (str s) = is_hex n s
is_digest n _ = false

abbrev same_text : Json → Option String → Bool
same_text value none = false
same_text value (some s) = is_str value s

-- The fields that have to agree with the target.
abbrev pub same_target : Json → Target → Bool
same_target envelope t =
    is_str (get envelope "target_id") t.id
    && same_text (get envelope "profile") t.profile
    && same_text (get envelope "source") t.source
    && same_text (get envelope "entry") t.entry

-- target["driver"] if "driver" in target else target.get("harness")
abbrev pub assertion_source : Json → Json
assertion_source (obj fields) = elim (find "driver" fields) [
  | some driver ↦ driver
  | none ↦ get (obj fields) "harness"
]
assertion_source _ = Json.null

abbrev absolute_root : Json → Option String
absolute_root (str s) = if starts_with (codes "/") (codes s) then some s else none
absolute_root _ = none

abbrev objects : Items → Option (List Json)
objects nil = some []
objects (cons value rest) =
    let more = objects rest in
    if is_object value then elim more [ none ↦ none | some vs ↦ some (value ∷ vs) ] else none

abbrev rows : Json → Option (List Json)
rows (arr values) = objects values
rows _ = none

-- [row.get("name") for row in observed] == required
abbrev pub names_are : List Json → List String → Bool
names_are [] [] = true
names_are (row ∷ observed) (name ∷ required) =
    is_str (get row "name") name && names_are observed required
names_are _ _ = false

abbrev is_bool : Json → Bool → Bool
is_bool (bool true) b = b
is_bool (bool false) b = not b
is_bool _ b = false

-- The check of the Booleans of an observation.
abbrev pub as_declared : List String → String → Json → Bool
as_declared negative name row =
    is_bool (get row "expected") (not (member name negative))
    && is_bool (get row "observed") (not (member name negative))
    && is_bool (get row "reached") true

abbrev source_line : Json → Option ℕ
source_line (int (pos n)) = if leb 1 n then some n else none
source_line _ = none

-- The assertion at that place which has the name.
abbrev pub is_at : String → ℕ → String → String → Property → Bool
is_at path line entry name row =
    str_eq row.path path
    && row.line == line
    && str_eq row.function entry
    && str_eq row.kind "user assertion"
    && member name row.names

unfoldable pub sole_row : List Property → Result Property
sole_row (row ∷ []) = ok row
sole_row _ = err "Native observation is missing or ambiguous in the analyzer report"

abbrev unreviewed : String
unreviewed = "Native observation lacks exact reviewed assertion identity"

-- What the row of an observation has to say; the result has the name when it corroborates the row.
unfoldable pub compared : List String → String → Property → Result (List (String × Property))
compared negative name row = elim (member name negative) [
  | true ↦
      require (str_eq row.status "Invalid" || str_eq row.status "Invalid or unreachable")
        "Native false observation does not match an EVA invalid/ambiguous assertion"
      >> ok ((name, row) ∷ [])
  | false ↦
      require (str_eq row.outcome "valid")
        "Native execution cannot replace a failed positive EVA property"
      >> ok []
]

module _ (w : Surroundings) (root path entry : String) (negative : List String)
    (properties : List Property) where
  -- One round of the loop over the observations.
  unfoldable pub observation : String → Json → Result (List (String × Property))
  unfolding review_path sole_row compared
  observation name row = do
    require (as_declared negative name row)
        "Native observation is not the expected reached Boolean check"
    require (is_str (get row "function") entry) unreviewed
    line ← given unreviewed (source_line (get row "line"))
    file ← review_path w root (get row "file")
    require
        (str_eq file path && is_shown (get row "acsl") && is_shown (get row "native_expression"))
        unreviewed
    matched ← sole_row (keep (is_at path line entry name) properties)
    compared negative name matched

  -- The source keys a dict by the names; they are distinct where it is called, so a list has the same
  -- entries, in the order of the names.
  unfoldable pub observations : List String → List Json → Result (List (String × Property))
  unfolding observation
  observations (name ∷ names) (row ∷ observed) = do
    first ← observation name row
    rest ← observations names observed
    ok (first ++ rest)
  observations _ _ = ok []

-- The second and third argument are the target's declaration, as it is and as it was read.
unfoldable pub validated_native :
    Surroundings
    → Json
    → Target
    → List String
    → Option Json
    → List Property
    → Result (List (String × Property))
unfolding review_path observations
validated_native w declaration t required none properties = ok []
validated_native w declaration t required (some envelope) properties = do
  require
      (is_object envelope
        && is_str (get envelope "status") "passed"
        && is_str (get envelope "kind") "native-specification-calibration"
        && is t.role "calibration"
        && is t.analysis "eva")
      "Native observations require a passed external gate for an EVA calibration"
  require (same_target envelope t) "Native observation has a different field"
  entry ← given "Native observation has a different field" t.entry
  require (is_str (get envelope "target_sha256") (w.target_sha256 declaration))
      "Native observation target declaration changed"
  require (is_digest 40 (get envelope "kernel_revision"))
      "Native observation lacks exact revision/source-root identity"
  source_root ←
      given "Native observation lacks exact revision/source-root identity"
        (absolute_root (get envelope "source_root"))
  path ← review_path w (w.resolve source_root) (assertion_source declaration)
  require (is_digest 64 (get (get envelope "receipt") "sha256"))
      "Native observation lacks a hashed runtime receipt"
  receipt ← review_path w (w.resolve source_root) (get (get envelope "receipt") "path")
  observed ←
      given "Native observations must exactly cover the ordered required properties"
        (rows (get envelope "properties"))
  require (not (is_empty t.expected_invalid) && names_are observed required)
      "Native observations must exactly cover the ordered required properties"
  observations w (w.resolve source_root) path entry t.expected_invalid properties required observed
