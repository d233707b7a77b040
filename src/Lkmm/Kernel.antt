-- ===== src/Lkmm/Kernel.antt =====
-- What load_manifest of fragma/concurrency_c3_lkmm.py asks of the kernel, and its tables of identities.
use fragma.Prelude.{
  ℕ, Bool, true, false, ◌&&◌, List, [], ◌∷◌, String, Result, ok, err, ◌>>=◌, ◌>>◌, require, ◌==◌,
  all, any, codes, length,
}
use fragma.Prelude.Json.{Json, Fields, obj, end, field, get}
use fragma.Policy.Texts.{is_str, keys}
use fragma.Lkmm.Values.{has_keys, digest, version, ends_with}
use fragma.Lkmm.Paths.{Parts, Files, relative}

-- A file of the declaration and the digest that it records.
pub record Pinned : Type 0 where
  pub name : String
  pub path : Parts
  pub sha256 : String

pub record Kernel : Type 0 where
  pub revision : String
  pub git_tree : String
  pub source_receipt : Parts
  pub model_directory : Parts
  pub minimum_version : List ℕ
  pub source_identities : List Pinned

-- One entry of the two tables of identities.
unfoldable pub pinned : Files → String → Json → Result Pinned
unfolding relative digest
pinned files name value = do
  path ← relative files false (Json.str name)
  sha256 ← digest 64 value
  ok (record { name = name; path = path; sha256 = sha256 })

unfoldable pub pinned_files : Files → Fields → Result (List Pinned)
unfolding pinned
pinned_files files end = ok []
pinned_files files (field name value rest) = do
  entry ← pinned files name value
  entries ← pinned_files files rest
  ok (entry ∷ entries)

-- A table of so many identities.
unfoldable pub identities : Files → ℕ → String → Json → Result (List Pinned)
unfolding pinned_files
identities files n message (obj fs) = do
  require (length (keys fs) == n) message
  pinned_files files fs
identities files n message _ = err message

abbrev required_suffixes : List String
required_suffixes =
    ".fragma-source.json" ∷ "README" ∷ "Documentation/litmus-tests.txt" ∷ "linux-kernel.cat"
    ∷ "linux-kernel.bell" ∷ "linux-kernel.cfg" ∷ "linux-kernel.def" ∷ "lock.cat" ∷ []

-- observed_suffixes == required_suffixes, of what is made of required suffixes only
unfoldable pub has_suffixes : List Pinned → Bool
has_suffixes entries =
    all (λ suffix. any (λ e. ends_with (codes suffix) (codes e.name)) entries) required_suffixes

abbrev kernel_keys : List String
kernel_keys =
    "revision" ∷ "git_tree" ∷ "source_root" ∷ "source_receipt" ∷ "model_directory"
    ∷ "minimum_herdtools_version" ∷ "source_identities" ∷ []

unfoldable pub load_kernel : Files → Json → Result Kernel
unfolding digest relative version identities has_suffixes
load_kernel files kernel = do
  require (has_keys kernel_keys kernel) "C3 kernel/model record is not exact"
  revision ← digest 40 (get kernel "revision")
  tree ← digest 40 (get kernel "git_tree")
  root ← relative files true (get kernel "source_root")
  receipt ← relative files false (get kernel "source_receipt")
  model ← relative files true (get kernel "model_directory")
  require (files.within model root && files.within receipt root)
      "LKMM directory and receipt must belong to the pinned source"
  require (is_str (get kernel "minimum_herdtools_version") "7.58")
      "this kernel snapshot requires herdtools7 7.58"
  sources ←
      identities files 8 "C3 source identity set is not exact" (get kernel "source_identities")
  require (has_suffixes sources) "C3 source identity roles are incomplete"
  minimum ← version (codes "7.58")
  ok (record {
    revision = revision;
    git_tree = tree;
    source_receipt = receipt;
    model_directory = model;
    minimum_version = minimum;
    source_identities = sources;
  })
