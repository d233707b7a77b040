-- ===== src/Hexagon/Tests.antt =====
-- A small object with the layout array, and what validate_object of fragma/hexagon_layout.py makes of it.
use fragma.Prelude.{◌≡◌, refl, [], ◌∷◌, ◌++◌, ok, err, String, take, drop}
use fragma.Elf.Bytes.{Bytes, unpack, unpack_from, until_zero, field_value, little_value, big_value}
use fragma.Elf.Parse.{
  parse_relocatable, string_at, name_section, tables_from, check_table, read_symbols, read_table,
  read_sections, read_symbol_table, content, section_bytes,
}
use fragma.Elf.Rows.{machine_layout, read_header, check_header, read_rows, check_row, row_bytes}
use fragma.Elf.Ranges.{sort, insert, adjacent}
use fragma.Hexagon.Values.{Measures, check_pairs, measures_of, check_measures}
use fragma.Hexagon.{
  is_hexagon, allowed_section, layout_ranges, check_null, sole_array, check_others, sole_allocated,
  unpack_words, check_tables, measure, read_layout, validate_object, Observations,
}
use fragma.Hexagon.Sound.{LayoutFound, validate_object-LayoutFound}

abbrev sample : Bytes
sample =
    127 ∷ 69 ∷ 76 ∷ 70 ∷ 1 ∷ 1 ∷ 1 ∷ 0 ∷ 0 ∷ 0 ∷ 0 ∷ 0 ∷ 0 ∷ 0 ∷ 0 ∷ 0 ∷ 1 ∷ 0 ∷ 164 ∷ 0 ∷ 1 ∷ 0 ∷ 0
    ∷ 0 ∷ 0 ∷ 0 ∷ 0 ∷ 0 ∷ 0 ∷ 0 ∷ 0 ∷ 0 ∷ 248 ∷ 0 ∷ 0 ∷ 0 ∷ 104 ∷ 0 ∷ 0 ∷ 0 ∷ 52 ∷ 0 ∷ 0 ∷ 0 ∷ 0 ∷ 0
    ∷ 40 ∷ 0 ∷ 4 ∷ 0 ∷ 3 ∷ 0 ∷ 16 ∷ 0 ∷ 0 ∷ 0 ∷ 16 ∷ 0 ∷ 0 ∷ 0 ∷ 8 ∷ 0 ∷ 0 ∷ 0 ∷ 8 ∷ 0 ∷ 0 ∷ 0 ∷ 8
    ∷ 0 ∷ 0 ∷ 0 ∷ 8 ∷ 0 ∷ 0 ∷ 0 ∷ 0 ∷ 0 ∷ 0 ∷ 0 ∷ 0 ∷ 0 ∷ 0 ∷ 0 ∷ 8 ∷ 0 ∷ 0 ∷ 0 ∷ 8 ∷ 0 ∷ 0 ∷ 0 ∷ 8
    ∷ 0 ∷ 0 ∷ 0 ∷ 8 ∷ 0 ∷ 0 ∷ 0 ∷ 8 ∷ 0 ∷ 0 ∷ 0 ∷ 8 ∷ 0 ∷ 0 ∷ 0 ∷ 32 ∷ 0 ∷ 0 ∷ 0 ∷ 32 ∷ 0 ∷ 0 ∷ 0
    ∷ 8 ∷ 0 ∷ 0 ∷ 0 ∷ 8 ∷ 0 ∷ 0 ∷ 0 ∷ 8 ∷ 0 ∷ 0 ∷ 0 ∷ 8 ∷ 0 ∷ 0 ∷ 0 ∷ 24 ∷ 0 ∷ 0 ∷ 0 ∷ 24 ∷ 0 ∷ 0
    ∷ 0 ∷ 32 ∷ 0 ∷ 0 ∷ 0 ∷ 32 ∷ 0 ∷ 0 ∷ 0 ∷ 8 ∷ 0 ∷ 0 ∷ 0 ∷ 8 ∷ 0 ∷ 0 ∷ 0 ∷ 8 ∷ 0 ∷ 0 ∷ 0 ∷ 8 ∷ 0
    ∷ 0 ∷ 0 ∷ 0 ∷ 0 ∷ 0 ∷ 0 ∷ 0 ∷ 0 ∷ 0 ∷ 0 ∷ 0 ∷ 0 ∷ 0 ∷ 0 ∷ 0 ∷ 0 ∷ 0 ∷ 0 ∷ 25 ∷ 0 ∷ 0 ∷ 0 ∷ 0 ∷ 0
    ∷ 0 ∷ 0 ∷ 112 ∷ 0 ∷ 0 ∷ 0 ∷ 17 ∷ 0 ∷ 1 ∷ 0 ∷ 0 ∷ 46 ∷ 114 ∷ 111 ∷ 100 ∷ 97 ∷ 116 ∷ 97 ∷ 0 ∷ 46
    ∷ 115 ∷ 121 ∷ 109 ∷ 116 ∷ 97 ∷ 98 ∷ 0 ∷ 46 ∷ 115 ∷ 116 ∷ 114 ∷ 116 ∷ 97 ∷ 98 ∷ 0 ∷ 102 ∷ 114
    ∷ 97 ∷ 103 ∷ 109 ∷ 97 ∷ 95 ∷ 109 ∷ 97 ∷ 120 ∷ 95 ∷ 97 ∷ 108 ∷ 105 ∷ 103 ∷ 110 ∷ 95 ∷ 108 ∷ 97
    ∷ 121 ∷ 111 ∷ 117 ∷ 116 ∷ 0 ∷ 0 ∷ 0 ∷ 0 ∷ 0 ∷ 0 ∷ 0 ∷ 0 ∷ 0 ∷ 0 ∷ 0 ∷ 0 ∷ 0 ∷ 0 ∷ 0 ∷ 0 ∷ 0 ∷ 0
    ∷ 0 ∷ 0 ∷ 0 ∷ 0 ∷ 0 ∷ 0 ∷ 0 ∷ 0 ∷ 0 ∷ 0 ∷ 0 ∷ 0 ∷ 0 ∷ 0 ∷ 0 ∷ 0 ∷ 0 ∷ 0 ∷ 0 ∷ 0 ∷ 0 ∷ 0 ∷ 0 ∷ 0
    ∷ 0 ∷ 0 ∷ 1 ∷ 0 ∷ 0 ∷ 0 ∷ 1 ∷ 0 ∷ 0 ∷ 0 ∷ 2 ∷ 0 ∷ 0 ∷ 0 ∷ 0 ∷ 0 ∷ 0 ∷ 0 ∷ 52 ∷ 0 ∷ 0 ∷ 0 ∷ 112
    ∷ 0 ∷ 0 ∷ 0 ∷ 0 ∷ 0 ∷ 0 ∷ 0 ∷ 0 ∷ 0 ∷ 0 ∷ 0 ∷ 4 ∷ 0 ∷ 0 ∷ 0 ∷ 0 ∷ 0 ∷ 0 ∷ 0 ∷ 9 ∷ 0 ∷ 0 ∷ 0 ∷ 2
    ∷ 0 ∷ 0 ∷ 0 ∷ 0 ∷ 0 ∷ 0 ∷ 0 ∷ 0 ∷ 0 ∷ 0 ∷ 0 ∷ 164 ∷ 0 ∷ 0 ∷ 0 ∷ 32 ∷ 0 ∷ 0 ∷ 0 ∷ 3 ∷ 0 ∷ 0 ∷ 0
    ∷ 1 ∷ 0 ∷ 0 ∷ 0 ∷ 4 ∷ 0 ∷ 0 ∷ 0 ∷ 16 ∷ 0 ∷ 0 ∷ 0 ∷ 17 ∷ 0 ∷ 0 ∷ 0 ∷ 3 ∷ 0 ∷ 0 ∷ 0 ∷ 0 ∷ 0 ∷ 0
    ∷ 0 ∷ 0 ∷ 0 ∷ 0 ∷ 0 ∷ 196 ∷ 0 ∷ 0 ∷ 0 ∷ 49 ∷ 0 ∷ 0 ∷ 0 ∷ 0 ∷ 0 ∷ 0 ∷ 0 ∷ 0 ∷ 0 ∷ 0 ∷ 0 ∷ 1 ∷ 0
    ∷ 0 ∷ 0 ∷ 0 ∷ 0 ∷ 0 ∷ 0 ∷ []

abbrev digest : Bytes → String
digest d = "digest"

abbrev layout : Measures
layout = record {
  size = 16;
  c_alignment = 8;
  gnu_alignment = 8;
  ll_offset = 0;
  ld_offset = 8;
  ll_size = 8;
  ld_size = 8;
  array_size = 32;
  array_alignment = 8;
  wrapper_value_offset = 8;
  wrapper_tail_offset = 24;
  wrapper_size = 32;
  wrapper_c_alignment = 8;
  wrapper_gnu_alignment = 8;
}

abbrev found : Observations
found = record {
  machine = 164;
  values =
      16 ∷ 16 ∷ 8 ∷ 8 ∷ 8 ∷ 8 ∷ 0 ∷ 0 ∷ 8 ∷ 8 ∷ 8 ∷ 8 ∷ 8 ∷ 8 ∷ 32 ∷ 32 ∷ 8 ∷ 8 ∷ 8 ∷ 8 ∷ 24 ∷ 24
      ∷ 32 ∷ 32 ∷ 8 ∷ 8 ∷ 8 ∷ 8 ∷ [];
  layout = layout;
  sha256 = "digest";
}

validate_sample : validate_object digest sample ≡ ok found
unfolding validate_object read_layout measure check_tables unpack_words sole_allocated check_others
    sole_array check_null layout_ranges allowed_section is_hexagon check_pairs measures_of
    check_measures sort insert adjacent parse_relocatable machine_layout read_header check_header
    read_rows check_row row_bytes string_at name_section tables_from check_table read_symbols
    read_table read_sections read_symbol_table unpack_from until_zero content section_bytes unpack
    field_value little_value big_value
validate_sample = refl

validate_object-LayoutFound_example : LayoutFound sample found
validate_object-LayoutFound_example =
    validate_object-LayoutFound digest sample found validate_sample

-- The candidate's size is one more than the actual one.
validate_changed :
    validate_object digest (take 56 sample ++ (17 ∷ drop 57 sample))
    ≡ err "Actual/candidate layout mismatch"
unfolding validate_object read_layout measure check_tables unpack_words sole_allocated check_others
    sole_array check_null layout_ranges allowed_section is_hexagon check_pairs measures_of
    check_measures sort insert adjacent parse_relocatable machine_layout read_header check_header
    read_rows check_row row_bytes string_at name_section tables_from check_table read_symbols
    read_table read_sections read_symbol_table unpack_from until_zero content section_bytes unpack
    field_value little_value big_value
validate_changed = refl
