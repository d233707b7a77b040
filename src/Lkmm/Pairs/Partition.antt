-- ===== src/Lkmm/Pairs/Partition.antt =====
-- The pairs of an accepted declaration divide its cases, for fragma/concurrency_c3_lkmm.py.
use fragma.Prelude.{
  ℕ, ◌*◌, ◌≤◌, ◌≡◌, refl, ap, sym, ◌∙◌, subst, List, [], ◌∷◌, String, same_set, subset,
  all_distinct, length, All, ok, arith, ==_iff, >>=-eq-ok, require-eq-ok, ok-injective, &&-eq-true,
}
use fragma.Prelude.Json.{Json}
use fragma.Policy.Texts.{count}
use fragma.Lkmm.Values.{listed}
use fragma.Lkmm.Cases.{Case, case_names}
use fragma.Lkmm.Pairs.{Pair, read_pair, read_pairs, referenced, load_pairs}
use fragma.Lkmm.Pairs.Occurrences.{subset-once}
use fragma.Lkmm.Paths.{Files}
use fragma.Lkmm.Manifest.{Manifest, load_manifest}
use fragma.Lkmm.Manifest.Loaded.{load_manifest-Loaded}

length-read_pairs :
    (cases : List Case) (seen : List String) (values : List Json) {pairs : List Pair}
    → read_pairs cases seen values ≡ ok pairs
    → length pairs ≡ length values
unfolding read_pairs
length-read_pairs cases seen [] h = ap length (sym (ok-injective h))
length-read_pairs cases seen (value ∷ values) {pairs} h =
    let (p, e1, k1) = >>=-eq-ok (read_pair cases seen value) _ h in
    let (rest, e2, k2) = >>=-eq-ok (read_pairs cases (p.id ∷ seen) values) _ k1 in
    let made : pairs ≡ p ∷ rest = sym (ok-injective k2) in
    rw (made, length-read_pairs cases (p.id ∷ seen) values e2) refl

length-referenced : (pairs : List Pair) → length (referenced pairs) ≡ 2 * length pairs
unfolding referenced
length-referenced [] = refl
length-referenced (p ∷ pairs) = omega (arith, length-referenced pairs)

length-listed :
    (n : ℕ) (message : String) (value : Json) {values : List Json}
    → listed n message value ≡ ok values
    → length values ≡ n
length-listed n message (Json.arr its) h =
    let (e, k) = require-eq-ok _ _ _ h in ap length (sym (ok-injective k)) ∙ (==_iff _ n).0 e
length-listed n message Json.null h = cc
length-listed n message (Json.bool b) h = cc
length-listed n message (Json.int i) h = cc
length-listed n message (Json.str s) h = cc
length-listed n message (Json.obj fs) h = cc

load_pairs-once :
    (cases : List Case) (value : Json) (pairs : List Pair)
    → load_pairs cases value ≡ ok pairs
    → All (λ name. count name (referenced pairs) ≡ 1) case_names
unfolding load_pairs all_distinct
load_pairs-once cases value pairs h =
    let (values, e1, k1) = >>=-eq-ok (listed 2 _ value) _ h in
    let (made, e2, k2) = >>=-eq-ok (read_pairs cases [] values) _ k1 in
    let (e3, k3) = require-eq-ok (same_set (referenced made) case_names) _ _ k2 in
    let (e4, e5) = &&-eq-true (subset (referenced made) case_names) _ e3 in
    let same : made ≡ pairs = ok-injective k3 in
    let two = length-read_pairs cases [] values e2 in
    let short : length (referenced made) ≤ 4 =
      omega (arith, length-referenced made, two, length-listed 2 _ value e1) in
    subst (λ ps. All (λ name. count name (referenced ps) ≡ 1) case_names) same
      (subset-once case_names (referenced made) refl e5 short)

-- In an accepted declaration each of the four cases is a member of exactly one pair, on one side of it.
pub load_manifest-once :
    (files : Files) (value : Json) (m : Manifest)
    → load_manifest files value ≡ ok m
    → All (λ name. count name (referenced m.pairs) ≡ 1) case_names
load_manifest-once files value m h =
    load_pairs-once m.cases _ m.pairs (load_manifest-Loaded files value m h).pairs_loaded
