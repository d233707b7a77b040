-- ===== src/Report/Diagnostics.antt =====
-- How `evaluate_target` of fragma/report.py reads a diagnostic's message. Messages are ASCII, as
-- Frama-C writes them: letters are those that `re.I` and `\w` know among the ASCII characters.
use fragma.Prelude.{
  ℕ, ◌+◌, Bool, true, false, not, ◌&&◌, ◌||◌, List, [], ◌∷◌, Option, none, some, String, ◌==◌, leb,
  codes, starts_with, contains, member, if◌then◌else◌,
}
use fragma.Report.Aliases.{Warning, diagnostic, text, other}

abbrev lower : ℕ → ℕ
lower c = if leb 65 c && leb c 90 then c + 32 else c

abbrev lowered : List ℕ → List ℕ
lowered [] = []
lowered (c ∷ cs) = lower c ∷ lowered cs

-- \w
abbrev is_word : ℕ → Bool
is_word c = (leb 97 c && leb c 122) || (leb 65 c && leb c 90) || (leb 48 c && leb c 57) || c == 95

abbrev word_ends : List ℕ → Bool
word_ends [] = true
word_ends (c ∷ cs) = not (is_word c)

abbrev after : List ℕ → List ℕ → List ℕ
after [] t = t
after (c ∷ part) [] = []
after (c ∷ part) (d ∷ t) = after part t

-- \b...\b: the word stands in the text; the flag is whether a word may begin here.
unfoldable pub has_word : List ℕ → Bool → List ℕ → Bool
has_word word fresh [] = false
has_word word fresh (c ∷ cs) =
    let rest = has_word word (not (is_word c)) cs in
    (fresh && starts_with word (c ∷ cs) && word_ends (after word (c ∷ cs))) || rest

-- \w* and what follows
abbrev skip_word : List ℕ → List ℕ
skip_word [] = []
skip_word (c ∷ cs) = let rest = skip_word cs in if is_word c then rest else c ∷ cs

abbrev names_subject : List ℕ → Bool
names_subject t =
    starts_with (codes "goal") t
    || starts_with (codes "function") t
    || starts_with (codes "property") t
    || starts_with (codes "rte guards") t

-- ` (?:a )?(?:goal|function|property|RTE guards)`
abbrev skipped_subject : List ℕ → Bool
skipped_subject t =
    starts_with (codes " ") t
    && (names_subject (after (codes " ") t)
        || (starts_with (codes " a ") t && names_subject (after (codes " a ") t)))

-- skipp\w* (?:a )?(?:goal|function|property|RTE guards)
unfoldable pub has_skipped : List ℕ → Bool
has_skipped [] = false
has_skipped (c ∷ cs) =
    let rest = has_skipped cs in
    (starts_with (codes "skipp") (c ∷ cs)
      && skipped_subject (skip_word (after (codes "skipp") (c ∷ cs))))
    || rest

-- re.search(r"\bunsupported\b|not supported|skipp\w* ...", message, re.I)
unfoldable pub reports_unsupported : String → Bool
unfolding has_word has_skipped
reports_unsupported message =
    let t : List ℕ = lowered (codes message) in
    has_word (codes "unsupported") true t || contains (codes "not supported") t || has_skipped t

-- `message` and `severity`; none for what is malformed.
unfoldable pub read_warning : Warning → Option (String × Option String)
read_warning (text m) = some (m, none)
read_warning other = none
read_warning (diagnostic d) = elim d.message [
  | none ↦ none
  | some m ↦ elim d.severity [
    | none ↦ none
    | some s ↦
        if member s ("warning" ∷ "error" ∷ "unsupported" ∷ []) then some (m, some s) else none
  ]
]
