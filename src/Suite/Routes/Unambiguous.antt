-- ===== src/Suite/Routes/Unambiguous.antt =====
-- Every route of native evidence comes from one validated receipt, and no target has two.
use fragma.Prelude.{
  all_distinct, ◌≡◌, refl, sym, ap, ◌∙◌, subst, Bool, true, false, not, ◌||◌, List, [], ◌∷◌, ◌++◌,
  String, member, map, any, Result, ok, All, All-imp, All-append, All-all, &&-eq-true, arith,
  >>=-eq-ok, require-eq-ok, ok-injective,
}
use fragma.Prelude.Json.{Json}
use fragma.Suite.Selection.{Target, ids_of}
use fragma.Suite.Routes.{
  is_eva_calibration, select_native_targets, inventory, Routes, routed, matching, add_routes,
  native_evidence_routes,
}
use fragma.Suite.Routes.Distinct.{keep_distinct, append_distinct, routed-append, All-keep, All-map}

module _ (read_json : String → Result Json) (selected : List Target) where
  -- The receipt at the route's path is accepted, lists the target, and the target is selected.
  pub record IsRouted (route : String × String) : Type 0 where
    pub receipt : Json
    pub read : read_json route.1 ≡ ok receipt
    pub ids : List String
    pub accepted : select_native_targets receipt selected ≡ ok ids
    pub covers : member route.0 ids ≡ true
    pub chosen : member route.0 (ids_of selected) ≡ true
    pub calibration : All (λ t. t.id ≡ route.0 → is_eva_calibration t ≡ true) selected

  accepted-All :
      (receipt : Json) (ids : List String)
      → select_native_targets receipt selected ≡ ok ids
      → (all_distinct ids ≡ true)
        × ((i : String)
            → member i ids ≡ true
            → All (λ t. t.id ≡ i → is_eva_calibration t ≡ true) selected)
  unfolding select_native_targets
  accepted-All receipt ids h =
      let (found, p, h1) = >>=-eq-ok (inventory receipt) _ h in
      let (distinct, h2) = require-eq-ok _ _ _ h1 in
      let (calibrations, h3) = require-eq-ok _ _ _ h2 in
      let same : found ≡ ids = ok-injective h3 in
      let (once, some_selected) = &&-eq-true (all_distinct found) _ distinct in
      (
        ap all_distinct (sym same) ∙ once,
        (λ i m.
            All-imp _ (λ t. t.id ≡ i → is_eva_calibration t ≡ true) selected
              (λ t c e.
                listed found (t.id) (is_eva_calibration t) c
                  (ap (λ k. member k found) e ∙ (ap (member i) same ∙ m)))
              (All-all _ selected calibrations)),
      )
    where
      listed :
          (found : List String) (k : String) (c : Bool)
          → (not (member k found) || c) ≡ true
          → member k found ≡ true
          → c ≡ true
      listed found k c h m = ground (arith, h, m)

  matching-All :
      (path : String) (ids : List String)
      → matching read_json selected path ≡ ok ids
      → (all_distinct ids ≡ true) × All IsRouted (map (λ i. (i, path)) ids)
  unfolding matching
  matching-All path ids h =
      let (receipt, p, h1) = >>=-eq-ok (read_json path) _ h in
      let (found, q, h2) = >>=-eq-ok (select_native_targets receipt selected) _ h1 in
      let same = ok-injective h2 in
      let (distinct, calibrations) = accepted-All receipt found q in
      (
        ap all_distinct (sym same) ∙ keep_distinct _ found distinct,
        subst (λ is. All IsRouted (map (λ i. (i, path)) is)) same
            (All-map IsRouted (λ i. (i, path)) _
              (All-imp _ _ _
                (λ i m. record {
                  receipt = receipt;
                  read = p;
                  ids = found;
                  accepted = q;
                  covers = m.0;
                  chosen = m.1;
                  calibration = calibrations i m.0;
                })
                (All-keep (λ i. member i (ids_of selected)) found))),
      )

  add_routes-All :
      (paths : List String) (routes : Routes) {out : Routes}
      → all_distinct (routed routes) ≡ true
      → All IsRouted routes
      → add_routes read_json selected routes paths ≡ ok out
      → (all_distinct (routed out) ≡ true) × All IsRouted out
  unfolding add_routes
  add_routes-All [] routes d a h =
      let same = ok-injective h in
      (ap (λ r. all_distinct (routed r)) (sym same) ∙ d, subst (All IsRouted) same a)
  add_routes-All (path ∷ paths) routes d a h =
      let (ids, p, h1) = >>=-eq-ok (matching read_json selected path) _ h in
      let (free, h2) = require-eq-ok (not (any (λ i. member i (routed routes)) ids)) _ _ h1 in
      let (distinct, made) = matching-All path ids p in
      let apart : any (λ i. member i (routed routes)) ids ≡ false = ground (arith, free) in
      add_routes-All paths (routes ++ map (λ i. (i, path)) ids)
        (ap all_distinct (routed-append routes ids path)
          ∙ append_distinct (routed routes) ids d distinct apart)
        (All-append IsRouted routes (map (λ i. (i, path)) ids) a made) h2

  -- No target has two routes; each route leads to a receipt that is accepted for the selection and
  -- lists the target, and the target is selected, as a calibration by EVA.
  pub native_evidence_routes-IsRouted :
      (resolve : String → String) (paths : List String) (routes : Routes) (resolved : List String)
      → native_evidence_routes read_json selected resolve paths ≡ ok (routes, resolved)
      → (all_distinct (routed routes) ≡ true) × All IsRouted routes
  unfolding native_evidence_routes
  native_evidence_routes-IsRouted resolve paths routes resolved h =
      let (once, h1) = require-eq-ok (all_distinct (map resolve paths)) _ _ h in
      let (found, p, h2) = >>=-eq-ok (add_routes read_json selected [] (map resolve paths)) _ h1 in
      let same : found ≡ routes = ap (λ r. r.0) (ok-injective h2) in
      add_routes-All (map resolve paths) [] refl tt (p ∙ ap ok same)
