-- ===== src/Lkmm/Manifest.antt =====
-- load_manifest of fragma/concurrency_c3_lkmm.py: what it asks of the scope, and the whole. The value
-- that _strict_json reads is an argument; the declaration that it makes has the values that the
-- run reads.
pub mod Loaded
use fragma.Prelude.{
  ℕ, Bool, true, false, not, ◌&&◌, List, [], ◌∷◌, Option, none, some, String, Result, ok, err,
  ◌>>=◌, ◌>>◌, require, ◌==◌, all, any, each, collect, codes, text_eq, contains, length, same_names,
}
use fragma.Prelude.Json.{Json, Fields, obj, end, field, get}
use fragma.Policy.Texts.{is_str, texts_of, keys}
use fragma.Policy.Model.{given}
use fragma.Lkmm.Values.{
  Text, has_keys, is_one, nonempty, strings, digest, version, older, ends_with, lower, spaced,
}
use fragma.Lkmm.Paths.{Parts, Files, from_root, relative, below, posix, parent}
use fragma.Lkmm.Cases.{Case, load_cases}
use fragma.Lkmm.Pairs.{Pair, load_pairs}
use fragma.Lkmm.Kernel.{Pinned, Kernel, identities, load_kernel}
use fragma.Lkmm.Provider.{Provider, load_provider}

pub record Manifest : Type 0 where
  pub kernel : Kernel
  pub provider : Provider
  pub cases : List Case
  pub pairs : List Pair

abbrev boundaries : List String
boundaries = "production" ∷ "lifetime" ∷ "architecture" ∷ "whole-kernel" ∷ "klitmus7" ∷ []

unfoldable pub check_scope : Json → Result (Unit {0})
unfolding strings
check_scope scope = do
  require
      (has_keys ("evidence_kind" ∷ "accepted_capabilities" ∷ "exclusions" ∷ []) scope
        && is_str (get scope "evidence_kind") "semantic_calibration")
      "C3 scope is not a semantic calibration"
  capabilities ← strings (get scope "accepted_capabilities")
  exclusions ← strings (get scope "exclusions")
  require (all (λ b. contains (codes b) (lower (spaced exclusions))) boundaries)
      "C3 scope omits the boundary"

abbrev manifest_keys : List String
manifest_keys = "schema_version" ∷ "id" ∷ "kernel" ∷ "provider" ∷ "scope" ∷ "pairs" ∷ "cases" ∷ []

unfoldable pub load_manifest : Files → Json → Result Manifest
unfolding load_kernel load_provider check_scope load_cases load_pairs
load_manifest files manifest = do
  require
      (has_keys manifest_keys manifest
        && is_one (get manifest "schema_version")
        && is_str (get manifest "id") "linux-lkmm-herd7-c3-calibration")
      "unsupported concurrency C3 LKMM schema"
  kernel ← load_kernel files (get manifest "kernel")
  provider ← load_provider files kernel.minimum_version (get manifest "provider")
  check_scope (get manifest "scope")
  cases ← load_cases files kernel.model_directory (get manifest "cases")
  pairs ← load_pairs cases (get manifest "pairs")
  ok (record { kernel = kernel; provider = provider; cases = cases; pairs = pairs })
