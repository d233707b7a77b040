-- ===== src/Verdict/Evaluation.antt =====
-- The evaluation records of fragma/report.py, with the fields that the companion policy reads and
-- writes. A key that some records lack is an Option; a missing list or map reads as empty, as in
-- the source. The registry's validation has established the types (fragma/suite.py, load_registry).
use fragma.Prelude.{Bool, true, false, List, Option, none, some, String, str_eq}
use fragma.Verdict.Integrity.{Change}

-- An entry of `issues`; the keys that only some kinds have are `details`, those with a text, and `files`.
pub record Issue : Type 0 where
  pub kind : String
  pub message : String
  pub details : List (String × String)
  pub files : List Change

-- `companion_evidence`, less its constant fields
pub record CompanionEvidence : Type 0 where
  pub target_id : String
  pub property_map : List (String × String)
  pub confirmed_invalid_properties : List String
  pub mapping_reason : Option String

pub record Evaluation : Type 0 where
  pub target_id : String
  pub status : String
  pub accepted : Bool
  pub verified : Bool
  pub local_policy_passed : Option Bool
  pub role : Option String
  pub profile : Option String
  pub source : Option String
  pub analysis : Option String
  pub functions : List String
  pub required_companion : Option String
  pub companion_property_map : List (String × String)
  pub companion_mapping_reason : Option String
  pub expected_unresolved : List String
  pub expected_invalid : List String
  pub confirmed_invalid_properties : List String
  pub issues : List Issue
  pub companion_evidence : Option CompanionEvidence

-- Equality of two values of `get`, where `None == None`.
abbrev pub same : Option String → Option String → Bool
same none none = true
same (some s) (some t) = str_eq s t
same _ _ = false

-- `value == "..."` and `value is True` of a value of `get`
abbrev pub is : Option String → String → Bool
is none t = false
is (some s) t = str_eq s t

abbrev pub is_true : Option Bool → Bool
is_true (some true) = true
is_true _ = false
