-- ===== src/Elf/Tests.antt =====
-- A small object of the calibration's shape: `.text`, one global function, and its tables.
use fragma.Prelude.{ℕ, ◌≡◌, refl, true, false, [], ◌∷◌, ok, err, String, take, ◌↔◌}
use fragma.Prelude.Json.{Json, bool, int, str, obj, pos, end, field}
use fragma.Elf.Bytes.{Bytes, codes, unpack_from, until_zero}
use fragma.Elf.Types.{Section, Symbol, Relocatable}
use fragma.Elf.Parse.{
  parse_relocatable, string_at, name_section, tables_from, check_table, read_symbols, read_table,
  read_sections, read_symbol_table, content,
}
use fragma.Elf.Rows.{machine_layout, read_header, check_header, read_rows, check_row, row_bytes}
use fragma.Elf.Parse.Names.{IsNameAt, string_at_iff}
use fragma.Elf.Parse.Bounds.{IsBounded, parse-IsBounded}
use fragma.Elf.Parse.Symbols.{SymbolsRead, parse-SymbolsRead}
use fragma.Elf.Metadata.{exact_route, marked, mips_calibration_metadata, alpha_function_metadata}
use fragma.Elf.Tables.{
  complete_tables, check_section, section_kind, string_table, exception_index, check_symbols,
  check_symbol, check_definition, relocations, relocation_table, entries,
}
use fragma.Elf.Ranges.{ranges, sort, insert, adjacent}
use fragma.Elf.Tables.Order.{AllApart, complete_tables-AllApart}
use fragma.Elf.Tables.Symbols.{TablesAccepted, complete_tables-TablesAccepted}
use fragma.Elf.Calibration.{
  Observation, calibration_object, observe, same_fixture, matching, undefined_symbols,
}
use fragma.Elf.Calibration.Extent.{DefinitionFound, calibration_object-DefinitionFound}

abbrev sample : Bytes
sample =
    127 ∷ 69 ∷ 76 ∷ 70 ∷ 1 ∷ 1 ∷ 1 ∷ 0 ∷ 0 ∷ 0 ∷ 0 ∷ 0 ∷ 0 ∷ 0 ∷ 0 ∷ 0 ∷ 1 ∷ 0 ∷ 3 ∷ 0 ∷ 1 ∷ 0 ∷ 0
    ∷ 0 ∷ 0 ∷ 0 ∷ 0 ∷ 0 ∷ 0 ∷ 0 ∷ 0 ∷ 0 ∷ 148 ∷ 0 ∷ 0 ∷ 0 ∷ 0 ∷ 0 ∷ 0 ∷ 0 ∷ 52 ∷ 0 ∷ 0 ∷ 0 ∷ 0 ∷ 0
    ∷ 40 ∷ 0 ∷ 4 ∷ 0 ∷ 3 ∷ 0 ∷ 49 ∷ 192 ∷ 195 ∷ 144 ∷ 0 ∷ 0 ∷ 0 ∷ 0 ∷ 0 ∷ 0 ∷ 0 ∷ 0 ∷ 0 ∷ 0 ∷ 0 ∷ 0
    ∷ 0 ∷ 0 ∷ 0 ∷ 0 ∷ 23 ∷ 0 ∷ 0 ∷ 0 ∷ 0 ∷ 0 ∷ 0 ∷ 0 ∷ 3 ∷ 0 ∷ 0 ∷ 0 ∷ 18 ∷ 0 ∷ 1 ∷ 0 ∷ 0 ∷ 46 ∷ 116
    ∷ 101 ∷ 120 ∷ 116 ∷ 0 ∷ 46 ∷ 115 ∷ 121 ∷ 109 ∷ 116 ∷ 97 ∷ 98 ∷ 0 ∷ 46 ∷ 115 ∷ 116 ∷ 114 ∷ 116
    ∷ 97 ∷ 98 ∷ 0 ∷ 102 ∷ 114 ∷ 97 ∷ 103 ∷ 109 ∷ 97 ∷ 95 ∷ 99 ∷ 111 ∷ 109 ∷ 109 ∷ 111 ∷ 110 ∷ 50
    ∷ 52 ∷ 95 ∷ 99 ∷ 111 ∷ 109 ∷ 112 ∷ 105 ∷ 108 ∷ 101 ∷ 114 ∷ 95 ∷ 99 ∷ 97 ∷ 108 ∷ 105 ∷ 98 ∷ 114
    ∷ 97 ∷ 116 ∷ 105 ∷ 111 ∷ 110 ∷ 0 ∷ 0 ∷ 0 ∷ 0 ∷ 0 ∷ 0 ∷ 0 ∷ 0 ∷ 0 ∷ 0 ∷ 0 ∷ 0 ∷ 0 ∷ 0 ∷ 0 ∷ 0 ∷ 0
    ∷ 0 ∷ 0 ∷ 0 ∷ 0 ∷ 0 ∷ 0 ∷ 0 ∷ 0 ∷ 0 ∷ 0 ∷ 0 ∷ 0 ∷ 0 ∷ 0 ∷ 0 ∷ 0 ∷ 0 ∷ 0 ∷ 0 ∷ 0 ∷ 0 ∷ 0 ∷ 0 ∷ 0
    ∷ 1 ∷ 0 ∷ 0 ∷ 0 ∷ 1 ∷ 0 ∷ 0 ∷ 0 ∷ 6 ∷ 0 ∷ 0 ∷ 0 ∷ 0 ∷ 0 ∷ 0 ∷ 0 ∷ 52 ∷ 0 ∷ 0 ∷ 0 ∷ 4 ∷ 0 ∷ 0 ∷ 0
    ∷ 0 ∷ 0 ∷ 0 ∷ 0 ∷ 0 ∷ 0 ∷ 0 ∷ 0 ∷ 4 ∷ 0 ∷ 0 ∷ 0 ∷ 0 ∷ 0 ∷ 0 ∷ 0 ∷ 7 ∷ 0 ∷ 0 ∷ 0 ∷ 2 ∷ 0 ∷ 0 ∷ 0
    ∷ 0 ∷ 0 ∷ 0 ∷ 0 ∷ 0 ∷ 0 ∷ 0 ∷ 0 ∷ 56 ∷ 0 ∷ 0 ∷ 0 ∷ 32 ∷ 0 ∷ 0 ∷ 0 ∷ 3 ∷ 0 ∷ 0 ∷ 0 ∷ 1 ∷ 0 ∷ 0
    ∷ 0 ∷ 4 ∷ 0 ∷ 0 ∷ 0 ∷ 16 ∷ 0 ∷ 0 ∷ 0 ∷ 15 ∷ 0 ∷ 0 ∷ 0 ∷ 3 ∷ 0 ∷ 0 ∷ 0 ∷ 0 ∷ 0 ∷ 0 ∷ 0 ∷ 0 ∷ 0
    ∷ 0 ∷ 0 ∷ 88 ∷ 0 ∷ 0 ∷ 0 ∷ 60 ∷ 0 ∷ 0 ∷ 0 ∷ 0 ∷ 0 ∷ 0 ∷ 0 ∷ 0 ∷ 0 ∷ 0 ∷ 0 ∷ 1 ∷ 0 ∷ 0 ∷ 0 ∷ 0
    ∷ 0 ∷ 0 ∷ 0 ∷ []

abbrev model : Json
model = obj (
    field "machdep"
      (obj (
        field "checked_fields"
          (obj (field "sizeof_ptr" (int (pos 4)) (field "little_endian" (bool true) end))) end))
      end)

abbrev function_symbol : Symbol
function_symbol = record {
  name = codes "fragma_common24_compiler_calibration";
  value = 0;
  size = 3;
  info = 18;
  other = 0;
  section = 1;
}

abbrev section_row : Bytes → ℕ → ℕ → ℕ → ℕ → ℕ → ℕ → ℕ → ℕ → Section
section_row name kind flags offset size link info alignment entry_size = record {
  name = name;
  kind = kind;
  flags = flags;
  address = 0;
  offset = offset;
  size = size;
  link = link;
  info = info;
  alignment = alignment;
  entry_size = entry_size;
}

abbrev object : Relocatable
object = record {
  bytes = sample;
  bits = 32;
  little = true;
  machine = 3;
  header_size = 52;
  section_offset = 148;
  section_size = 40;
  sections =
      section_row [] 0 0 0 0 0 0 0 0
      ∷ section_row (codes ".text") 1 6 52 4 0 0 4 0
      ∷ section_row (codes ".symtab") 2 0 56 32 3 1 4 16
      ∷ section_row (codes ".strtab") 3 0 88 60 0 0 1 0
      ∷ [];
  symbols =
      record { name = []; value = 0; size = 0; info = 0; other = 0; section = 0 }
      ∷ function_symbol
      ∷ [];
  symbol_table = 2;
}

parse_sample : parse_relocatable sample model ≡ ok object
unfolding parse_relocatable machine_layout read_header check_header read_rows check_row row_bytes
    string_at name_section tables_from check_table read_symbols read_table read_sections
    read_symbol_table unpack_from until_zero
parse_sample = refl

-- Without its last byte the section table is out of bounds.
parse_truncated :
    parse_relocatable (take 307 sample) model ≡ err "invalid relocatable ELF header/section bounds"
unfolding parse_relocatable machine_layout read_header check_header unpack_from
parse_truncated = refl

parse-IsBounded_example : IsBounded sample object
parse-IsBounded_example = parse-IsBounded sample model object parse_sample

parse-SymbolsRead_example : SymbolsRead sample object
parse-SymbolsRead_example = parse-SymbolsRead sample model object parse_sample

tables_of_object : complete_tables object ≡ ok ([], false)
unfolding complete_tables check_section section_kind string_table exception_index ranges sort insert
    adjacent check_symbols check_symbol check_definition relocations relocation_table entries
    mips_calibration_metadata exact_route marked content alpha_function_metadata
tables_of_object = refl

complete_tables-AllApart_example : AllApart (ranges object)
complete_tables-AllApart_example = complete_tables-AllApart object [] false tables_of_object

complete_tables-TablesAccepted_example : TablesAccepted object []
complete_tables-TablesAccepted_example =
    complete_tables-TablesAccepted object [] false tables_of_object

abbrev digest : Bytes → String
digest b = "digest"

abbrev fixture : Json
fixture = obj (
    field "class" (int (pos 32)) (
      field "machine_observed" (int (pos 3))
        (field "type" (str "relocatable") (field "byte_order" (str "little") end))))

abbrev observed : Observation
observed = record {
  class_bits = 32;
  little = true;
  machine_observed = 3;
  section_count = 4;
  symbol_count = 2;
  relocation_count = 0;
  definition = record {
    section = codes ".text";
    section_index = 1;
    section_flags = 6;
    offset = 0;
    size = 3;
    bytes_sha256 = "digest";
  };
  undefined_metadata = 0;
  alpha_symbols = [];
  mips_abi_metadata = false;
}

calibration_of_sample : calibration_object digest sample model fixture ≡ ok observed
unfolding calibration_object observe same_fixture matching undefined_symbols parse_relocatable
    machine_layout read_header check_header read_rows check_row row_bytes string_at name_section
    tables_from check_table read_symbols read_table read_sections read_symbol_table unpack_from
    until_zero complete_tables check_section section_kind string_table exception_index ranges sort
    insert adjacent check_symbols check_symbol check_definition relocations relocation_table entries
    mips_calibration_metadata exact_route marked content alpha_function_metadata
calibration_of_sample = refl

calibration_object-DefinitionFound_example : DefinitionFound digest sample model observed
calibration_object-DefinitionFound_example =
    calibration_object-DefinitionFound digest sample model fixture observed calibration_of_sample

string_at_iff_example :
    (string_at (0 ∷ 46 ∷ 116 ∷ 0 ∷ []) 1 ≡ ok (46 ∷ 116 ∷ []))
    ↔ IsNameAt (0 ∷ 46 ∷ 116 ∷ 0 ∷ []) 1 (46 ∷ 116 ∷ [])
string_at_iff_example = string_at_iff (0 ∷ 46 ∷ 116 ∷ 0 ∷ []) 1 (46 ∷ 116 ∷ [])
