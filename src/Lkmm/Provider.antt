-- ===== src/Lkmm/Provider.antt =====
-- What load_manifest of fragma/concurrency_c3_lkmm.py asks of the provider.
use fragma.Prelude.{
  ℕ, Bool, true, false, not, ◌&&◌, List, [], ◌∷◌, Option, none, some, String, Result, ok, ◌>>=◌,
  ◌>>◌, require, all, any, collect, codes, text_eq, same_names,
}
use fragma.Prelude.Json.{Json, get}
use fragma.Policy.Texts.{is_str, texts_of}
use fragma.Lkmm.Values.{Text, has_keys, nonempty, digest, version, older}
use fragma.Lkmm.Paths.{Parts, Files, from_root, relative, below, posix, parent}
use fragma.Lkmm.Kernel.{Pinned, identities}

pub record Provider : Type 0 where
  pub binary : String
  pub binary_realpath : String
  pub binary_sha256 : String
  pub expected_version : String
  pub library_directory : Parts
  pub library_identities : List Pinned

abbrev upstream_keys : List String
upstream_keys = "repository" ∷ "tag" ∷ "commit" ∷ "git_tree" ∷ "license" ∷ []

unfoldable pub check_upstream : Json → Result (Unit {0})
unfolding digest
check_upstream upstream = do
  require (has_keys upstream_keys upstream) "herd library provenance is not exact"
  require
      (is_str (get upstream "repository") "https://github.com/herd/herdtools7"
        && is_str (get upstream "tag") "7.58"
        && is_str (get upstream "license") "CeCILL-B")
      "unexpected herd library provenance"
  commit ← digest 40 (get upstream "commit")
  tree ← digest 40 (get upstream "git_tree")
  ok tt

abbrev library_files : List Text
library_files =
    codes "LICENSE.txt"
    ∷ codes "README.md"
    ∷ codes "libdir/stdlib.cat"
    ∷ codes "libdir/cross.cat"
    ∷ codes "libdir/cos-opt.cat"
    ∷ []

abbrev text_among : List Text → Text → Bool
text_among texts t = any (λ u. text_eq u t) texts

-- library_names == required_library_names
unfoldable pub check_library : Parts → List Pinned → Result (Unit {0})
check_library directory entries = do
  names ← collect (λ e. below (parent directory) e.path >>= λ path. ok (posix path)) entries
  require (all (text_among library_files) names && all (text_among names) library_files)
      "herd library files are not the exact subset"

abbrev pub fixed_arguments : List String
fixed_arguments = "-set-libdir" ∷ "{library_directory}" ∷ "-conf" ∷ "linux-kernel.cfg" ∷ []

abbrev is_names : Option (List String) → List String → Bool
is_names none names = false
is_names (some found) names = same_names found names

abbrev provider_keys : List String
provider_keys =
    "binary" ∷ "binary_realpath" ∷ "binary_sha256" ∷ "expected_version" ∷ "library_directory"
    ∷ "library_upstream" ∷ "library_identities" ∷ "fixed_arguments" ∷ []

unfoldable pub load_provider : Files → List ℕ → Json → Result Provider
unfolding nonempty digest version relative check_upstream identities check_library
load_provider files minimum provider = do
  require (has_keys provider_keys provider) "C3 provider record is not exact"
  binary ← nonempty (get provider "binary")
  require (from_root (codes binary) && files.is_outer_file (codes binary))
      "herd7 binary must be an existing absolute file"
  realpath ← nonempty (get provider "binary_realpath")
  require (from_root (codes realpath)) "herd7 realpath must be absolute"
  sha256 ← digest 64 (get provider "binary_sha256")
  expected ← nonempty (get provider "expected_version")
  found ← version (codes expected)
  require (not (older found minimum)) "configured herd7 is older than LKMM requires"
  directory ← relative files true (get provider "library_directory")
  check_upstream (get provider "library_upstream")
  library ←
      identities files 5 "herd library identity set is not exact"
        (get provider "library_identities")
  check_library directory library
  require (is_names (texts_of (get provider "fixed_arguments")) fixed_arguments)
      "herd7 invocation is not explicitly bound"
  ok (record {
    binary = binary;
    binary_realpath = realpath;
    binary_sha256 = sha256;
    expected_version = expected;
    library_directory = directory;
    library_identities = library;
  })
