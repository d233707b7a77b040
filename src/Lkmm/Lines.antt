-- ===== src/Lkmm/Lines.antt =====
-- The lines of the pattern _OUTPUT of fragma/concurrency_c3_lkmm.py.
use fragma.Prelude.{
  ℕ, Bool, true, false, not, ◌&&◌, [], ◌∷◌, ◌++◌, Option, none, some, String, ◌==◌, all, codes,
  text_eq, starts_with, is_empty, length, is_space, if◌then◌else◌,
}
use fragma.Policy.Texts.{removeprefix}
use fragma.Lkmm.Values.{Text, is_hex, int_of, digits}
use fragma.Lkmm.Paths.{split}

-- \S+, [^\n]+ behind a prefix, and [0-9]+(?:\.[0-9]+)?
abbrev word : Text → Bool
word t = not (is_empty t) && all (λ c. not (is_space c)) t

abbrev pub behind : String → Text → Option Text
behind part line = elim (starts_with (codes part) line) [
  | false ↦ none
  | true ↦ elim (removeprefix (codes part) line) [ [] ↦ none | c ∷ cs ↦ some (c ∷ cs) ]
]

-- The int_of of digits behind the point, of a decimal.
abbrev pub decimal : Text → Option (ℕ × ℕ)
decimal t = elim (split 46 t) [
  | whole ∷ [] ↦ if digits whole then some (int_of 0 whole, 0) else none
  | whole ∷ (part ∷ []) ↦
      if digits whole && digits part then some (int_of 0 (whole ++ part), length part) else none
  | _ ↦ none
]

-- "Test (\S+) (\S+)"
unfoldable pub test_line : Text → Option (Text × Text)
test_line line = elim (split 32 line) [
  | head ∷ (test ∷ (disposition ∷ [])) ↦
      if text_eq head (codes "Test") && word test && word disposition
      then some (test, disposition)
      else none
  | _ ↦ none
]

-- "States ([0-9]+)"
unfoldable pub states_line : Text → Option ℕ
states_line line = elim (split 32 line) [
  | head ∷ (n ∷ []) ↦ if text_eq head (codes "States") && digits n then some (int_of 0 n) else none
  | _ ↦ none
]

-- "Positive: ([0-9]+) Negative: ([0-9]+)"
unfoldable pub witness_line : Text → Option (ℕ × ℕ)
witness_line line = elim (split 32 line) [
  | head ∷ (p ∷ (middle ∷ (n ∷ []))) ↦
      if text_eq head (codes "Positive:")
        && text_eq middle (codes "Negative:")
        && digits p
        && digits n
      then some (int_of 0 p, int_of 0 n)
      else none
  | _ ↦ none
]

pub record ObservationLine : Type 0 where
  pub test : Text
  pub observation : Text
  pub positive : ℕ
  pub negative : ℕ

-- "Observation (\S+) (\S+) ([0-9]+) ([0-9]+)"
unfoldable pub observation_line : Text → Option ObservationLine
observation_line line = elim (split 32 line) [
  | head ∷ (test ∷ (observation ∷ (p ∷ (n ∷ [])))) ↦
      if text_eq head (codes "Observation") && word test && word observation && digits p && digits n
      then some (record {
        test = test;
        observation = observation;
        positive = int_of 0 p;
        negative = int_of 0 n;
      })
      else none
  | _ ↦ none
]

-- "Time (\S+) ([0-9]+(?:\.[0-9]+)?)"
unfoldable pub time_line : Text → Option (Text × Text)
time_line line = elim (split 32 line) [
  | head ∷ (test ∷ (seconds ∷ [])) ↦ elim (decimal seconds) [
    | none ↦ none
    | some d ↦ if text_eq head (codes "Time") && word test then some (test, seconds) else none
  ]
  | _ ↦ none
]

-- "Hash=([0-9a-f]{32})"
unfoldable pub hash_line : Text → Option Text
hash_line line = elim (behind "Hash=" line) [
  | none ↦ none
  | some h ↦ if length h == 32 && all is_hex h then some h else none
]
