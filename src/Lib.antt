-- ===== src/Lib.antt =====
-- fragma: verification of the library that runs and audits the kernel proofs.
--
-- The program (package fragma/) prepares sources, runs Frama-C/WP, Eva and compilers on them,
-- and reduces what these tools and the retained object files say to a JSON audit with a verdict
-- per target. The development models the parts of it that decide: readers of untrusted bytes,
-- bounded progress models, and the policies that turn observations into a status.
--
-- Numbers are Python integers that are never negative where they are used; they are the native ℕ.
-- A `raise` is `err` with the exception's message, `require` the guard of the same name. Bytes are
-- lists of numbers, JSON values the type Json of Prelude/Json.antt, a `dict` with optional keys an
-- association list. Json's `get` is null for what is no object, where Python would raise an
-- AttributeError. Loops of the source are recursion over the list or count that they range
-- over, so there is no fuel but where a component below says so.
--
-- Elf: fragma/elf.py, whole.
--   Elf/Types.antt has its dataclasses, Elf/Bytes.antt what it uses of struct and of bytes,
--   Elf/Rows.antt and Elf/Parse.antt parse_relocatable, Elf/Metadata.antt _alpha_function_metadata, _header_flags
--   and _mips_calibration_metadata, Elf/Ranges.antt and Elf/Tables.antt _complete_tables, and Elf/Calibration.antt
--   calibration_object. calibration_object calls the parser, then the complete-table gate, then
--   looks for its one definition. hashlib.sha256 is a parameter, with no hypothesis about it.
-- Progress: the finite CAS models of fragma/concurrency_c3_ipc_refcount.py
--   (_simulate_bounded_schedule in Progress/Schedule.antt, _bounded_progress_aggregate in
--   Progress/Aggregate.antt, the two cycle controls in Progress/Cycles.antt) and the reservation
--   diagnostic of fragma/concurrency_c3_llsc_progress.py (Progress/Reservation.antt).
--   itertools.product is written out in Progress/Enumeration.antt.
-- Verdict: how a run ends. Verdict/Integrity.antt is merge_records and changed_files of
--   fragma/integrity.py; the digest that a file has now is a parameter. Verdict/Companions.antt is
--   finalize_companions of fragma/report.py, as a pass over the list that a later step sees changed,
--   and Verdict/Run.antt is invalidate of fragma/integrity.py with finalize_results and the status
--   of write_terminal_summary of fragma/suite.py, which calls the other two: inputs are invalidated
--   first, and companions are resolved on what is left.
-- Report: how fragma/report.py judges one target. Report/Goals.antt is _wp_rows, Report/Aliases.antt
--   _property_aliases and _eva_reached_invalid_checks, and the rest evaluate_target, in the order of
--   its text: Report/Target.antt the checks on the target, Report/Wp.antt and Report/Eva.antt the two
--   branches, Report/Dependencies.antt the loops over the selected rows and over the diagnostics
--   (whose messages Report/Diagnostics.antt reads), Report/Evaluate.antt the whole and its status.
--   Path.resolve and the results of _validated_reviews and _validated_native are parameters; the second
--   of these two gates is Report/Native.antt, over the rows of a report and an envelope in JSON.
--   The record that it makes is what Verdict takes.
-- Policy: fragma/analysis_policy.py, whole. Policy/Model.antt has its constants, model_identity and
--   analyzer_flags, Policy/Pipeline.antt pipeline_identity and before_eva_options, Policy/Command.antt
--   _check_model_command, and Policy/Actual.antt validate_actual_policy, which a run asks whether the
--   command that it used is the one that the target declares. Texts that the source joins or cuts are
--   lists of code points (Policy/Texts.antt). A message is less the option that it names.
-- Suite: analysis_limits (Suite/Limits.antt) and select_targets (Suite/Selection.antt) of
--   fragma/suite.py. The loop of select_targets has as fuel the number of the targets selected at
--   first plus that of all registered ones: each round takes one off the worklist, and what is put
--   on it was not selected before. Suite/Routes.antt has select_native_targets and
--   native_evidence_routes; read_json and Path.resolve are parameters. Suite/Strategy.antt has
--   strategy_options.
-- Provenance: the C lexer of fragma/provenance.py. Provenance/Scan.antt has its patterns, as the length of
--   a match at the start of a text, Provenance/Lex.antt _lex and tokenize. A round of the `while` of
--   _lex finds a Move; the loop is recursion on the text, so it needs no fuel. Provenance/Extract.antt is
--   extract_function, which works on the tokens; Provenance/Extract/Pairs.antt has what `matching` pairs.
-- Coverage: _verdict of fragma/coverage.py (Coverage/Verdicts.antt), which reads what Report made.
-- Evidence: identity_drift (Evidence/Drift.antt) and acceptance_decision (Evidence/Acceptance.antt)
--   of fragma/concurrency_evidence.py, over records with the keys that they read.
-- Lkmm: the calibration of fragma/concurrency_c3_lkmm.py. Lkmm/Values.antt and Lkmm/Paths.antt read values
--   and paths of the declaration, Lkmm/Cases.antt and Lkmm/Pairs.antt are the two loops of load_manifest,
--   Lkmm/Kernel.antt, Lkmm/Provider.antt and Lkmm/Manifest.antt the rest of it. Lkmm/Lines.antt and
--   Lkmm/Herd.antt are parse_herd_output with the pattern that it matches,
--   Lkmm/Source.antt _code_without_comments and _operation_present, Lkmm/Run.antt the checks on cases and
--   pairs, and Lkmm/Inventory.antt those before them and the whole of run_c3_lkmm but its artifacts,
--   the timeout and whether the output directory exists already.
--   The file system, what files hold, their digests and what herd7 answers are parameters (Files, World,
--   Host), as are the letters beyond ASCII. A declaration is a record of the values that the run reads.
-- Hexagon: validate_object of fragma/hexagon_layout.py (Hexagon.antt), which takes the parser and the
--   order of ranges from Elf; the checks on the values that it finds are in Hexagon/Values.antt.
-- Json values are read by Elf, Lkmm, Suite and Policy; Prelude.antt and its children hold the shared lemmas.
-- Not modelled: what fetches sources, prepares inputs and runs tools (build.py, toolchain.py,
--   sources.py, inputs.py, execute_target and run_suite of suite.py), and what renders audits as
--   Markdown, which are I/O; and reading and validating the JSON
--   registries but that of Lkmm.

pub mod Prelude
pub mod Elf
pub mod Progress
pub mod Verdict
pub mod Suite
pub mod Evidence
pub mod Report
pub mod Policy
pub mod Provenance
pub mod Coverage
pub mod Lkmm
pub mod Hexagon
