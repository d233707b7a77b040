-- ===== src/Lkmm/Inventory.antt =====
-- The checks of run_c3_lkmm of fragma/concurrency_c3_lkmm.py before its cases are run, and the whole
-- run. Left out are the two checks at its start, that the output does not exist yet and that the timeout
-- is a positive integer. What the receipt holds, where the binary is and what it prints are parameters.
pub mod Distinguished
use fragma.Prelude.{
  ℕ, Bool, true, false, not, ◌&&◌, List, [], ◌∷◌, ◌++◌, String, str_eq, Result, ok, err, ◌>>=◌, map,
  codes, text_eq, contains, is_space, if◌then◌else◌,
}
use fragma.Prelude.Json.{Json, get}
use fragma.Policy.Texts.{is_str}
use fragma.Lkmm.Values.{Text, is_one, version, older}
use fragma.Lkmm.Paths.{Parts, Files, posix}
use fragma.Lkmm.Kernel.{Pinned, Kernel}
use fragma.Lkmm.Provider.{Provider, fixed_arguments}
use fragma.Lkmm.Manifest.{Manifest, load_manifest}
use fragma.Lkmm.Run.{World, Process, Check, Run, decide_run}

-- What the run finds of the provider and the receipt: the last field says whether a printed directory
-- resolves to that path.
pub record Host : Type 0 where
  pub root : Text
  pub receipt : Json
  pub version : Process
  pub libdir : Process
  pub binary_realpath : Text
  pub binary_sha256 : String
  pub same_place : Text → Parts → Bool

-- text.strip()
abbrev rstrip : Text → Text
rstrip [] = []
rstrip (c ∷ cs) = elim (rstrip cs) [
  | [] ↦ if is_space c then [] else c ∷ []
  | d ∷ ds ↦ c ∷ (d ∷ ds)
]

abbrev lstrip : Text → Text
lstrip [] = []
lstrip (c ∷ cs) = let rest = lstrip cs in if is_space c then rest else c ∷ cs

abbrev strip : Text → Text
strip text = rstrip (lstrip text)

abbrev identity_check : World → String → Pinned → Check
identity_check w name e = record { name = name; passed = str_eq e.sha256 (w.sha256 e.path) }

abbrev receipt_checks : Kernel → Json → List Check
receipt_checks k receipt =
    record { name = "source receipt revision"; passed = is_str (get receipt "revision") k.revision }
    ∷ (record { name = "source receipt tree"; passed = is_str (get receipt "git_tree") k.git_tree }
        ∷ (record {
          name = "source receipt requires content rechecks";
          passed = is_one (get receipt "contents_must_be_rechecked");
        }
            ∷ []))

-- The text of a file of the model's directory has the part.
abbrev has_part : World → Kernel → String → String → String → Check
has_part w k name file part = record {
  name = name;
  passed = contains (codes part) (w.read (k.model_directory ++ (codes file ∷ [])));
}

unfoldable pub document_checks : World → Kernel → List Check
document_checks w k =
    has_part w k "kernel documents compatible herdtools minimum" "README" "Version 7.58 or higher"
    ∷ (has_part w k "kernel documents small-state exhaustive exploration" "README"
          "exhaustively explores\nthe state space of small litmus tests"
        ∷ (has_part w k "config selects exact CAT model" "linux-kernel.cfg" "model linux-kernel.cat"
            ∷ (has_part w k "config selects exact Bell model" "linux-kernel.cfg"
                  "bell linux-kernel.bell"
                ∷ (has_part w k "config selects exact macro definitions" "linux-kernel.cfg"
                      "macros linux-kernel.def"
                    ∷ (has_part w k "CAT model imports lock model" "linux-kernel.cat"
                          "include \"lock.cat\""
                        ∷ (record {
                          name = "CAT model defines release/acquire order";
                          passed =
                              contains (codes "let acq-po")
                                (w.read (k.model_directory ++ (codes "linux-kernel.cat" ∷ [])))
                              && contains (codes "let po-rel")
                                  (w.read (k.model_directory ++ (codes "linux-kernel.cat" ∷ [])));
                        }
                            ∷ (has_part w k "CAT model defines full-barrier order"
                                  "linux-kernel.cat" "let mb ="
                                ∷ [])))))))

abbrev process_checks : Process → List Check
process_checks p =
    record { name = "inventory timed out"; passed = not p.timed_out }
    ∷ (record { name = "inventory exit"; passed = p.exit_ok } ∷ [])

-- The checks on what the two commands printed; a version that cannot be parsed is raised.
unfoldable pub provider_checks : Host → Kernel → Provider → Result (List Check)
unfolding version
provider_checks h k p = version (strip h.version.stdout) >>= λ found. ok (
    record { name = "herd7 realpath"; passed = text_eq (codes p.binary_realpath) h.binary_realpath }
    ∷ (record { name = "herd7 binary identity"; passed = str_eq p.binary_sha256 h.binary_sha256 }
        ∷ (record {
          name = "herd7 exact version";
          passed = text_eq (codes p.expected_version) (strip h.version.stdout);
        }
            ∷ (record {
              name = "herd7 satisfies kernel minimum";
              passed = not (older found k.minimum_version);
            }
                ∷ (record {
                  name = "explicit CAT library differs from compiled default";
                  passed = not (h.same_place (strip h.libdir.stdout) p.library_directory);
                }
                    ∷ [])))))

-- str(library_directory)
abbrev under_root : Host → Parts → Text
under_root h path = h.root ++ (47 ∷ posix path)

abbrev final_arguments : Host → Provider → List Text
final_arguments h p =
    map
      (λ value.
        if str_eq value "{library_directory}"
        then under_root h p.library_directory
        else codes value)
      fixed_arguments

abbrev same_lines : List Text → List Text → Bool
same_lines [] [] = true
same_lines (s ∷ ss) (t ∷ ts) = text_eq s t && same_lines ss ts
same_lines _ _ = false

-- The checks on arguments[0], arguments[1] and arguments[2:]
unfoldable pub argument_checks : Text → List Text → Result (List Check)
argument_checks library (first ∷ (second ∷ rest)) = ok (
    record {
      name = "invocation starts with explicit library option";
      passed = text_eq (codes "-set-libdir") first;
    }
    ∷ (record { name = "invocation uses authenticated library"; passed = text_eq library second }
        ∷ (record {
          name = "invocation uses pinned kernel config";
          passed = same_lines (codes "-conf" ∷ (codes "linux-kernel.cfg" ∷ [])) rest;
        }
            ∷ [])))
argument_checks library _ = err "IndexError"

unfoldable pub inventory_checks : World → Host → Manifest → Result (List Check)
unfolding document_checks provider_checks argument_checks
inventory_checks w h m = do
  provided ← provider_checks h m.kernel m.provider
  argued ←
      argument_checks (under_root h m.provider.library_directory) (final_arguments h m.provider)
  ok (
      map (identity_check w "source identity") m.kernel.source_identities
      ++ (map (identity_check w "library identity") m.provider.library_identities
          ++ (receipt_checks m.kernel h.receipt
              ++ (document_checks w m.kernel
                  ++ (process_checks h.version
                      ++ (process_checks h.libdir ++ (provided ++ argued)))))))

unfoldable pub run_c3_lkmm : Files → World → Host → Json → Result Run
unfolding load_manifest inventory_checks decide_run
run_c3_lkmm files w h value = do
  m ← load_manifest files value
  inventory ← inventory_checks w h m
  decide_run w inventory m
