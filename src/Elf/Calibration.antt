-- ===== src/Elf/Calibration.antt =====
-- `calibration_object` of fragma/elf.py. The digest of the definition's bytes (`hashlib.sha256`) is
-- a parameter. Constant texts of the returned record are left out.
pub mod Extent
use fragma.Prelude.{
  ℕ, zero, suc, ◌+◌, ◌*◌, ◌/◌, Bool, true, false, not, ◌&&◌, ◌||◌, List, [], ◌∷◌, ◌++◌, map, Option,
  none, some, Result, ok, err, ◌>>=◌, ◌>>◌, require, each, collect, ltb, leb, length, String,
  get_elem?, ◌==◌, if◌then◌else◌, drop, keep, any, all, is_empty, str_eq,
}
use fragma.Prelude.Json.{Json, null, bool, int, str, arr, obj, pos, get}
use fragma.Elf.Bytes.{Bytes, codes, beq, slice}
use fragma.Elf.Types.{Section, Symbol, Relocatable}
use fragma.Elf.Parse.{content, parse_relocatable}
use fragma.Elf.Metadata.{executable, alpha_function_metadata}
use fragma.Elf.Tables.{Relocation, complete_tables, section_of}

abbrev is_text : Json → String → Bool
is_text (str s) t = str_eq s t
is_text _ t = false

-- `type(x) is int and x == n`
abbrev is_number : Json → ℕ → Bool
is_number (int (pos m)) n = m == n
is_number _ n = false

abbrev machine_in_range : Json → Bool
machine_in_range (int (pos m)) = ltb 0 m && leb m 0xffff
machine_in_range _ = false

unfoldable pub same_fixture : Json → Relocatable → Bool
same_fixture seen o =
    machine_in_range (get seen "machine_observed")
    && is_text (get seen "type") "relocatable"
    && is_number (get seen "class") o.bits
    && is_text (get seen "byte_order") (if o.little then "little" else "big")
    && is_number (get seen "machine_observed") o.machine

abbrev pub target_name : Bytes
target_name = codes "fragma_common24_compiler_calibration"

unfoldable pub matching : List Symbol → List Symbol
matching = keep (λ s. beq s.name target_name)

abbrev pub sole_symbol : List Symbol → Result Symbol
sole_symbol (s ∷ []) = ok s
sole_symbol _ = err "missing or duplicate calibration definition"

abbrev pub global_function : Relocatable → Symbol → Bool
global_function o s =
    s.info == 0x12
    && (s.other == 0 || alpha_function_metadata o s)
    && ltb 0 s.size
    && ltb 0 s.section
    && ltb s.section (length o.sections)

-- `[row for row in relocations if row[3] == index]`
abbrev references : List Relocation → ℕ → List Relocation
references rs index = keep (λ (r : Relocation). r.symbol == index) rs

abbrev kind_at : Relocatable → ℕ → ℕ
kind_at o i = elim (get_elem? o.sections i) [ none ↦ 0 | some s ↦ s.kind ]

abbrev link_at : Relocatable → ℕ → ℕ
link_at o i = elim (get_elem? o.sections i) [ none ↦ 0 | some s ↦ s.link ]

abbrev size_at : Relocatable → ℕ → ℕ
size_at o i = elim (get_elem? o.sections i) [ none ↦ 0 | some s ↦ s.size ]

abbrev unwind_entry : Relocatable → Symbol → Relocation → Bool
unwind_entry o definition r =
    kind_at o r.table == 9
    && kind_at o r.target == 0x70000001
    && link_at o r.target == definition.section
    && size_at o r.target == 8
    && r.address == 0
    && r.kind == 0

unfoldable pub unwind_metadata : Relocatable → Symbol → List Relocation → Symbol → Bool
unwind_metadata o definition refs s =
    o.bits == 32
    && o.machine == 40
    && beq s.name (codes "__aeabi_unwind_cpp_pr0")
    && s.info == 0x10
    && s.other == 0
    && length refs == 1
    && all (unwind_entry o definition) refs

-- The loop over `obj.symbols[1:]`, from `index` on; `seen` counts the entries of `undefined`.
unfoldable pub undefined_symbols :
    Relocatable → Symbol → List Relocation → ℕ → ℕ → List Symbol → Result ℕ
unfolding unwind_metadata
undefined_symbols o definition rs index seen [] = ok seen
undefined_symbols o definition rs index seen (s ∷ symbols) =
    let rest = undefined_symbols o definition rs (index + 1) seen symbols in
    let more = undefined_symbols o definition rs (index + 1) (seen + 1) symbols in
    if not (s.section == 0) then rest else (do
      require (unwind_metadata o definition (references rs index) s)
          "unexpected undefined calibration symbol or non-metadata use"
      require (seen == 0) "duplicate ARM unwind metadata symbol"
      more)

pub record Definition : Type 0 where
  pub section : Bytes
  pub section_index : ℕ
  pub section_flags : ℕ
  pub offset : ℕ
  pub size : ℕ
  pub bytes_sha256 : String

pub record Observation : Type 0 where
  pub class_bits : ℕ
  pub little : Bool
  pub machine_observed : ℕ
  pub section_count : ℕ
  pub symbol_count : ℕ
  pub relocation_count : ℕ
  pub definition : Definition
  pub undefined_metadata : ℕ
  pub alpha_symbols : List Symbol
  pub mips_abi_metadata : Bool

module _ (sha256 : Bytes → String) where
  abbrev pub definition_of : Symbol → Section → Bytes → Definition
  definition_of s section table = record {
    section = section.name;
    section_index = s.section;
    section_flags = section.flags;
    offset = s.value;
    size = s.size;
    bytes_sha256 = sha256 (slice table s.value s.size);
  }

  -- The part behind the reading of the object.
  unfoldable pub observe : Relocatable → Json → Result Observation
  observe o seen = do
    require (same_fixture seen o)
        "positive object differs from genuine fixture class/byte-order/machine"
    tables ← complete_tables o
    s ← sole_symbol (matching o.symbols)
    require (global_function o s) "calibration must be a global defined nonempty STT_FUNC"
    section ← section_of o s.section
    require (executable section)
        "calibration definition lacks allocated executable file-backed storage"
    undefined ← undefined_symbols o s tables.0 1 0 (drop 1 o.symbols)
    table ← content o section
    ok (record {
      class_bits = o.bits;
      little = o.little;
      machine_observed = o.machine;
      section_count = length o.sections;
      symbol_count = length o.symbols;
      relocation_count = length tables.0;
      definition = definition_of s section table;
      undefined_metadata = undefined;
      alpha_symbols = keep (alpha_function_metadata o) o.symbols;
      mips_abi_metadata = tables.1;
    })

  unfoldable pub calibration_object : Bytes → Json → Json → Result Observation
  unfolding observe
  calibration_object d model seen = do o ← parse_relocatable d model; observe o seen
