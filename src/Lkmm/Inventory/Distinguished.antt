-- ===== src/Lkmm/Inventory/Distinguished.antt =====
-- What an accepted run of fragma/concurrency_c3_lkmm.py shows, from its declaration on.
use fragma.Prelude.{◌≡◌, true, ok, All, >>=-eq-ok}
use fragma.Prelude.Json.{Json}
use fragma.Lkmm.Paths.{Files}
use fragma.Lkmm.Manifest.{Manifest, load_manifest}
use fragma.Lkmm.Run.{World, Run}
use fragma.Lkmm.Run.Distinguished.{IsDistinguished, decide_run-IsDistinguished}
use fragma.Lkmm.Inventory.{Host, inventory_checks, run_c3_lkmm}

-- When a run is accepted, its declaration was, and each pair of it is distinguished by what herd7
-- answered on the pinned files: the weak control has the outcome Sometimes with a witness, the
-- ordered calibration Never with none, under one condition, and of the two only the ordered one
-- calls the pair's primitives.
pub run_c3_lkmm-IsDistinguished :
    (files : Files) (w : World) (h : Host) (value : Json) (r : Run)
    → run_c3_lkmm files w h value ≡ ok r
    → r.accepted ≡ true
    → (m : Manifest) × (load_manifest files value ≡ ok m) × All (IsDistinguished w m) m.pairs
unfolding run_c3_lkmm
run_c3_lkmm-IsDistinguished files w h value r ran accepted =
    let (m, loaded, k) = >>=-eq-ok (load_manifest files value) _ ran in
    let (inventory, checked, decided) = >>=-eq-ok (inventory_checks w h m) _ k in
    (m, loaded, decide_run-IsDistinguished files value w inventory m r loaded decided accepted)
