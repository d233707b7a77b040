-- ===== src/Lkmm/Manifest/Loaded.antt =====
-- What load_manifest of fragma/concurrency_c3_lkmm.py took its cases and its pairs from.
use fragma.Prelude.{◌≡◌, subst, ok, >>=-eq-ok, require-eq-ok, ok-injective}
use fragma.Prelude.Json.{Json, get}
use fragma.Lkmm.Paths.{Files}
use fragma.Lkmm.Cases.{load_cases}
use fragma.Lkmm.Pairs.{load_pairs}
use fragma.Lkmm.Kernel.{load_kernel}
use fragma.Lkmm.Provider.{load_provider}
use fragma.Lkmm.Manifest.{Manifest, load_manifest, check_scope}

pub record Loaded (files : Files) (value : Json) (m : Manifest) : Type 0 where
  pub kernel_loaded : load_kernel files (get value "kernel") ≡ ok m.kernel
  pub cases_loaded : load_cases files m.kernel.model_directory (get value "cases") ≡ ok m.cases
  pub pairs_loaded : load_pairs m.cases (get value "pairs") ≡ ok m.pairs

pub load_manifest-Loaded :
    (files : Files) (value : Json) (m : Manifest)
    → load_manifest files value ≡ ok m
    → Loaded files value m
unfolding load_manifest
load_manifest-Loaded files value m h =
    let (e0, k0) = require-eq-ok _ _ _ h in
    let (kernel, e1, k1) = >>=-eq-ok (load_kernel files (get value "kernel")) _ k0 in
    let (provider, e2, k2) =
      >>=-eq-ok (load_provider files kernel.minimum_version (get value "provider")) _ k1 in
    let (done, e3, k3) = >>=-eq-ok (check_scope (get value "scope")) _ k2 in
    let (cases, e4, k4) =
      >>=-eq-ok (load_cases files kernel.model_directory (get value "cases")) _ k3 in
    let (pairs, e5, k5) = >>=-eq-ok (load_pairs cases (get value "pairs")) _ k4 in
    let made : record { kernel = kernel; provider = provider; cases = cases; pairs = pairs } ≡ m =
      ok-injective k5 in
    subst (Loaded files value) made
      (record { kernel_loaded = e1; cases_loaded = e4; pairs_loaded = e5 })
