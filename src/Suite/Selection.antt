-- ===== src/Suite/Selection.antt =====
-- `select_targets` of fragma/suite.py. The dict `targets` has the ids as keys, so it is the list of
-- the targets in the order of the registry; `selected` is a list too. The worklist `pending` is a
-- stack, and its head is what `pop` takes. The loop has fuel; none is returned where it runs out.
pub mod Measure
mod Members
pub mod Closed
use fragma.Prelude.{
  ℕ, zero, suc, ◌+◌, Bool, true, false, not, ◌&&◌, ◌||◌, List, [], ◌∷◌, ◌++◌, Option, none, some,
  Result, ok, err, String, str_eq, member, subset, map, keep, is_empty, length, if◌then◌else◌,
}

-- The fields of a registered target that the selection and the routes of native evidence read.
pub record Target : Type 0 where
  pub id : String
  pub suite : String
  pub profile : String
  pub role : String
  pub analysis : String
  pub required_companion : Option String

abbrev pub ids_of : List Target → List String
ids_of = map (λ t. t.id)

-- `targets.get(key)`, and `targets[key]` where the key is there
unfoldable pub find_target : String → List Target → Option Target
find_target k [] = none
find_target k (t ∷ ts) = let rest = find_target k ts in if str_eq t.id k then some t else rest

-- `target.get("required_companion")`, where it is not empty
abbrev pub companion_of : Target → Option String
companion_of t = elim t.required_companion [
  | none ↦ none
  | some k ↦ if str_eq k "" then none else some k
]

-- The companion that the loop has to add for a target.
unfoldable pub missing_companion : List Target → Target → Option String
missing_companion selected t = elim (companion_of t) [
  | none ↦ none
  | some k ↦ if member k (ids_of selected) then none else some k
]

-- `while pending:`
unfoldable pub close : List Target → ℕ → List Target → List Target → Option (Result (List Target))
unfolding missing_companion find_target
close targets fuel selected [] = some (ok selected)
close targets zero selected (t ∷ pending) = none
close targets (suc fuel) selected (t ∷ pending) = elim (missing_companion selected t) [
  | none ↦ close targets fuel selected pending
  | some k ↦ elim (find_target k targets) [
    | none ↦ some (err "missing registered companion")
    | some c ↦ close targets fuel (selected ++ (c ∷ [])) (c ∷ pending)
  ]
]

abbrev pub reverse : List Target → List Target
reverse [] = []
reverse (t ∷ ts) = reverse ts ++ (t ∷ [])

-- What the options ask for; an empty option asks for everything.
unfoldable pub is_requested : List String → List String → List String → Target → Bool
is_requested ids suites profile_ids t =
    (is_empty ids || member t.id ids)
    && (is_empty suites || member t.suite suites)
    && (is_empty profile_ids || member t.profile profile_ids)

unfoldable pub select_targets :
    List Target → List String → List String → List String → Option (Result (List Target))
unfolding is_requested close
select_targets targets ids suites profile_ids =
    let selected : List Target = keep (is_requested ids suites profile_ids) targets in
    if not (subset ids (ids_of targets))
    then some (err "unknown targets")
    else if not (subset suites (map (λ t. t.suite) targets))
    then some (err "unknown suites")
    else if is_empty selected
    then some (err "selection contains no registered targets")
    else close targets (length selected + length targets) selected (reverse selected)
