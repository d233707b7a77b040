-- ===== src/Verdict/Integrity.antt =====
-- The records of input files of fragma/integrity.py: `merge_records` and `changed_files`. Paths and
-- digests are lists of code points. The digest of a file as it is now, none where no regular file
-- is, is a parameter: it stands for the file system and `sources.sha256`.
pub mod Intact
use fragma.Prelude.{
  ℕ, ◌≡◌, Bool, true, false, not, ◌&&◌, ◌||◌, List, [], ◌∷◌, ◌++◌, Option, none, some, is_empty,
  all, any, Result, ok, err, ◌>>◌, ◌>>=◌, require, map, if◌then◌else◌, text_eq, text_le, leb, ◌==◌,
  length, keep,
}

abbrev pub Text : Type 0
Text = List ℕ

-- `item.get("absolute_path")`, `item.get("sha256")`: none for a missing key and for what is no text.
pub record Observed : Type 0 where
  pub filename : Option Text
  pub expected : Option Text

pub record InputRecord : Type 0 where
  pub absolute_path : Text
  pub sha256 : Text

-- A record whose file is not as recorded.
pub record Change : Type 0 where
  pub input : InputRecord
  pub actual_sha256 : Option Text

-- Path(filename).is_absolute()
abbrev pub is_absolute : Text → Bool
is_absolute [] = false
is_absolute (c ∷ cs) = c == 47

-- The parts between the slashes.
unfoldable pub split : Text → List Text
split [] = [] ∷ []
split (c ∷ cs) =
    let rest = split cs in
    if c == 47
    then [] ∷ rest
    else elim rest [ [] ↦ (c ∷ []) ∷ [] | part ∷ parts ↦ (c ∷ part) ∷ parts ]

unfoldable pub join : List Text → Text
join [] = []
join (part ∷ parts) =
    let rest = join parts in elim parts [ [] ↦ part | p ∷ ps ↦ part ++ (47 ∷ rest) ]

-- pathlib keeps exactly two leading slashes.
abbrev root : Text → Text
root (a ∷ b ∷ []) = if b == 47 then 47 ∷ 47 ∷ [] else 47 ∷ []
root (a ∷ b ∷ c ∷ cs) = if b == 47 && not (c == 47) then 47 ∷ 47 ∷ [] else 47 ∷ []
root _ = 47 ∷ []

-- str(Path(filename).absolute()) of an absolute path: empty parts and `.` are dropped.
unfoldable pub absolute : Text → Text
unfolding split join
absolute p = root p ++ join (keep (λ part. not (is_empty part || text_eq part (46 ∷ []))) (split p))

-- [0-9a-f]{64}
abbrev pub is_digest : Text → Bool
is_digest d = length d == 64 && all (λ c. (leb 48 c && leb c 57) || (leb 97 c && leb c 102)) d

unfoldable pub record_of : Observed → Result InputRecord
unfolding absolute
record_of r = elim r.filename [
  | none ↦ err "malformed input-integrity record"
  | some f ↦ elim r.expected [
    | none ↦ err "malformed input-integrity record"
    | some d ↦
        require (is_absolute f && is_digest d) "malformed input-integrity record"
        >> ok (record { absolute_path = absolute f; sha256 = d })
  ]
]

-- `records[filename] = ...`, in the order of insertion. The message is less the file's name.
unfoldable pub put : List InputRecord → InputRecord → Result (List InputRecord)
put [] m = ok (m ∷ [])
put (o ∷ os) m =
    let rest = put os m >>= λ t. ok (o ∷ t) in
    if text_eq o.absolute_path m.absolute_path
    then (require (text_eq o.sha256 m.sha256) "conflicting observations of input" >> ok (m ∷ os))
    else rest

unfoldable pub put_all : List InputRecord → List Observed → Result (List InputRecord)
unfolding put record_of
put_all table [] = ok table
put_all table (r ∷ rs) = record_of r >>= λ m. put table m >>= λ t. put_all t rs

unfoldable pub insert : InputRecord → List InputRecord → List InputRecord
insert m [] = m ∷ []
insert m (o ∷ os) =
    let rest = insert m os in
    if text_le m.absolute_path o.absolute_path then m ∷ o ∷ os else o ∷ rest

-- `for name in sorted(records)`
unfoldable pub sort : List InputRecord → List InputRecord
unfolding insert
sort [] = []
sort (m ∷ ms) = insert m (sort ms)

unfoldable pub merge_records : List Observed → Result (List InputRecord)
unfolding put_all sort
merge_records records = put_all [] records >>= λ table. ok (sort table)

abbrev pub same_digest : Option Text → Text → Bool
same_digest none d = false
same_digest (some a) d = text_eq a d

module _ (current : Text → Option Text) where
  abbrev pub is_unchanged : InputRecord → Bool
  is_unchanged m = same_digest (current m.absolute_path) m.sha256

  abbrev change_of : InputRecord → Change
  change_of m = record { input = m; actual_sha256 = current m.absolute_path }

  unfoldable pub changed_files : List Observed → Result (List Change)
  unfolding merge_records
  changed_files records = merge_records records >>= λ merged.
      ok (map change_of (keep (λ m. not (is_unchanged m)) merged))
