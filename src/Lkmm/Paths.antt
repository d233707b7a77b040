-- ===== src/Lkmm/Paths.antt =====
-- The paths that fragma/concurrency_c3_lkmm.py takes from its declaration: _relative and _case_path.
-- A path under the project's root is the list of its parts; the file system is a parameter.
use fragma.Prelude.{
  ℕ, Bool, not, ◌&&◌, List, [], ◌∷◌, ◌++◌, Result, ok, err, ◌>>=◌, ◌>>◌, require, ◌==◌, any, codes,
  text_eq, starts_with, is_empty, keep, if◌then◌else◌,
}
use fragma.Prelude.Json.{Json}
use fragma.Lkmm.Values.{Text, text}

abbrev pub Parts : Type 0
Parts = List Text

-- What the loader asks of the file system: `path.resolve().relative_to(other.resolve())`, is_dir, is_file
-- and is_symlink, of paths under the root; and is_file of an absolute path.
pub record Files : Type 0 where
  pub within : Parts → Parts → Bool
  pub is_dir : Parts → Bool
  pub is_file : Parts → Bool
  pub is_symlink : Parts → Bool
  pub is_outer_file : Text → Bool

-- text.split("/"): what stands before the first mark, and the pieces behind it.
abbrev onto : ℕ → List Text → List Text
onto c [] = (c ∷ []) ∷ []
onto c (piece ∷ pieces) = (c ∷ piece) ∷ pieces

abbrev pub split : ℕ → Text → List Text
split mark [] = [] ∷ []
split mark (c ∷ cs) = let rest = split mark cs in if c == mark then [] ∷ rest else onto c rest

abbrev names_part : Text → Bool
names_part piece = not (is_empty piece) && not (text_eq piece (codes "."))

-- PurePosixPath(value).parts of a relative path
abbrev pub parts_of : Text → Parts
parts_of value = keep names_part (split 47 value)

abbrev pub from_root : Text → Bool
from_root value = starts_with (codes "/") value

abbrev pub in_place : Text → Bool
in_place value =
    not (from_root value)
    && not (is_empty (parts_of value))
    && not (any (λ part. text_eq part (codes "..")) (parts_of value))

-- _relative, with `directory` as the flag
unfoldable pub relative : Files → Bool → Json → Result Parts
relative files directory value = do
  s ← text value
  require (in_place (codes s)) "must be a project-relative path"
  require (files.within (parts_of (codes s)) []) "escapes the project root"
  require
      ((if directory then files.is_dir (parts_of (codes s)) else files.is_file (parts_of (codes s)))
        && not (files.is_symlink (parts_of (codes s))))
      "is missing"
  ok (parts_of (codes s))

-- _case_path
unfoldable pub case_path : Files → Parts → Json → Result Parts
case_path files model value = do
  s ← text value
  require (in_place (codes s)) "must be model-relative"
  require (files.within (model ++ parts_of (codes s)) model) "escapes the model directory"
  require
      (files.is_file (model ++ parts_of (codes s))
        && not (files.is_symlink (model ++ parts_of (codes s))))
      "is missing"
  ok (model ++ parts_of (codes s))

-- path.relative_to(directory).as_posix()
abbrev pub below : Parts → Parts → Result Parts
below [] path = ok path
below (part ∷ directory) [] = err "is outside its root"
below (part ∷ directory) (first ∷ path) =
    let rest = below directory path in
    if text_eq part first then rest else err "is outside its root"

abbrev pub posix : Parts → Text
posix [] = codes "."
posix (part ∷ []) = part
posix (part ∷ (next ∷ path)) = part ++ (47 ∷ posix (next ∷ path))

-- path.parent
abbrev pub parent : Parts → Parts
parent [] = []
parent (part ∷ []) = []
parent (part ∷ (next ∷ path)) = part ∷ parent (next ∷ path)
