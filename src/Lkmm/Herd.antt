-- ===== src/Lkmm/Herd.antt =====
-- parse_herd_output of fragma/concurrency_c3_lkmm.py. The pattern _OUTPUT is read line by line: it
-- has no choice but where the lines of the states end, and takes the first place that fits.
-- The interpreter's limit on the digits of an int is not modelled.
use fragma.Prelude.{
  ℕ, ◌-◌, ◌*◌, ◌^◌, Bool, true, false, ◌&&◌, ◌||◌, List, [], ◌∷◌, ◌++◌, none, some, String, Result,
  ok, err, ◌>>=◌, ◌>>◌, require, ◌==◌, ltb, leb, codes, text_eq, starts_with, is_empty, length, map,
  if◌then◌else◌,
}
use fragma.Policy.Texts.{removeprefix, distinct_texts}
use fragma.Policy.Model.{given}
use fragma.Lkmm.Values.{Text}
use fragma.Lkmm.Paths.{split}
use fragma.Lkmm.Lines.{
  behind, decimal, test_line, states_line, witness_line, ObservationLine, observation_line,
  time_line, hash_line,
}

-- What is compared with the declaration: the keys of _core_result.
pub record Core : Type 0 where
  pub test : Text
  pub disposition : Text
  pub states : ℕ
  pub marker : Text
  pub positive : ℕ
  pub negative : ℕ
  pub flags : List Text
  pub condition : Text
  pub observation : Text
  pub hash : Text

-- The seconds are the decimal as it was printed.
pub record Herd : Type 0 where
  pub core : Core
  pub state_values : List Text
  pub seconds : Text

abbrev is_marker : Text → Bool
is_marker line = text_eq line (codes "Ok") || text_eq line (codes "No")

-- The lines behind the states, as their groups.
pub record Ending : Type 0 where
  pub marker : Text
  pub witnesses : ℕ × ℕ
  pub flags : List Text
  pub condition : Text
  pub observed : ObservationLine
  pub time : Text × Text
  pub hash : Text

-- Behind the hash there are one or two line ends.
abbrev at_end : List Text → Bool
at_end ([] ∷ []) = true
at_end ([] ∷ ([] ∷ [])) = true
at_end _ = false

abbrev not_pinned : String
not_pinned = "herd7 output does not match the pinned format"

-- The lines from "Condition" on.
unfoldable pub closing_lines : Text → ℕ × ℕ → List Text → List Text → Result Ending
unfolding observation_line time_line hash_line
closing_lines marker witnesses flags (c ∷ (o ∷ (t ∷ (h ∷ rest)))) = do
  condition ← given not_pinned (behind "Condition " c)
  observed ← given not_pinned (observation_line o)
  time ← given not_pinned (time_line t)
  hash ← given not_pinned (hash_line h)
  require (at_end rest) not_pinned
  ok (record {
    marker = marker;
    witnesses = witnesses;
    flags = flags;
    condition = condition;
    observed = observed;
    time = time;
    hash = hash;
  })
closing_lines marker witnesses flags _ = err not_pinned

-- The lines from the flags on; the list has the flags before.
unfoldable pub flagged : Text → ℕ × ℕ → List Text → List Text → Result Ending
unfolding closing_lines
flagged marker witnesses flags [] = err not_pinned
flagged marker witnesses flags (line ∷ lines) =
    let more = flagged marker witnesses (flags ++ (line ∷ [])) lines in
    elim (behind "Flag " line) [
      | none ↦ closing_lines marker witnesses flags (line ∷ lines)
      | some flag ↦ more
    ]

-- The lines from the marker on.
unfoldable pub ending : List Text → Result Ending
unfolding flagged witness_line
ending (m ∷ (title ∷ (w ∷ lines))) = do
  require (is_marker m && text_eq title (codes "Witnesses")) not_pinned
  witnesses ← given not_pinned (witness_line w)
  flagged m witnesses [] lines
ending _ = err not_pinned

-- One or more lines of states, up to the first that the rest fits behind.
unfoldable pub state_lines : List Text → Result (List Text × Ending)
unfolding ending
state_lines [] = err not_pinned
state_lines (line ∷ lines) =
    let more = state_lines lines in
    elim (is_empty line) [
      | true ↦ err not_pinned
      | false ↦ elim (ending lines) [
        | ok e ↦ ok (line ∷ [], e)
        | err message ↦ more >>= λ found. ok (line ∷ found.0, found.1)
      ]
    ]

-- text.splitlines()
abbrev ends_line : ℕ → Bool
ends_line c =
    (leb 10 c && leb c 13) || (leb 28 c && leb c 30) || c == 0x85 || c == 0x2028 || c == 0x2029

unfoldable pub splitlines : Text → List Text
splitlines [] = []
splitlines (c ∷ cs) =
    let rest = splitlines cs in
    if c == 13 && starts_with (10 ∷ []) cs
    then rest
    else if ends_line c
    then [] ∷ rest
    else elim rest [ [] ↦ (c ∷ []) ∷ [] | line ∷ lines ↦ (c ∷ line) ∷ lines ]

-- "\n".join(lines)
abbrev joined : List Text → Text
joined [] = []
joined (line ∷ []) = line
joined (line ∷ (next ∷ lines)) = line ++ (10 ∷ joined (next ∷ lines))

-- The same with a line end behind each line.
abbrev ended : List Text → Text
ended [] = []
ended (line ∷ lines) = line ++ (10 ∷ ended lines)

-- math.isfinite(float(text)): a double rounds to infinity from halfway behind its largest value on.
abbrev is_finite : Text → Bool
is_finite t = elim (decimal t) [
  | none ↦ false
  | some (n, places) ↦ ltb n ((2 ^ 1024 - 2 ^ 970) * 10 ^ places)
]

-- The groups of a match, as the record that is returned.
abbrev pub herd_of : Text × Text → ℕ → List Text → Ending → Herd
herd_of test states values e = record {
  core = record {
    test = test.0;
    disposition = test.1;
    states = states;
    marker = e.marker;
    positive = e.witnesses.0;
    negative = e.witnesses.1;
    flags = map (removeprefix (codes "Flag ")) (splitlines (ended e.flags));
    condition = e.condition;
    observation = e.observed.observation;
    hash = e.hash;
  };
  state_values = splitlines (joined values);
  seconds = e.time.1;
}

-- The groups that have to agree with one another.
unfoldable pub consistent : Herd → Ending → Bool
consistent h e =
    h.core.states == length h.state_values
    && distinct_texts h.state_values
    && text_eq e.observed.test h.core.test
    && text_eq e.time.0 h.core.test
    && e.observed.positive == h.core.positive
    && e.observed.negative == h.core.negative
    && is_finite h.seconds

unfoldable pub parse_lines : List Text → Result Herd
unfolding state_lines test_line states_line consistent splitlines
parse_lines (first ∷ (second ∷ lines)) = do
  test ← given not_pinned (test_line first)
  states ← given not_pinned (states_line second)
  found ← state_lines lines
  require (consistent (herd_of test states found.0 found.1) found.1)
      "herd7 output is internally inconsistent"
  ok (herd_of test states found.0 found.1)
parse_lines _ = err not_pinned

unfoldable pub parse_herd_output : Text → Result Herd
unfolding parse_lines
parse_herd_output value = parse_lines (split 10 value)
