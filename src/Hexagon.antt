-- ===== src/Hexagon.antt =====
-- `validate_object` of fragma/hexagon_layout.py: the reader of the paired layout array that a compiler
-- left in an object. hashlib.sha256 is a parameter.
pub mod Values
pub mod Consistent
pub mod Stored
pub mod Sound
mod Tests
use fragma.Prelude.{
  ℕ, ◌+◌, ◌*◌, ◌/◌, ◌%◌, Bool, true, false, not, ◌&&◌, ◌||◌, List, [], ◌∷◌, ◌++◌, map, String,
  Result, ok, err, ◌>>=◌, ◌>>◌, require, each, ltb, leb, length, ◌==◌, drop, keep, codes,
}
use fragma.Prelude.Json.{Json, bool, int, obj, pos, end, field}
use fragma.Elf.Bytes.{Bytes, beq, unpack, unpack_from}
use fragma.Elf.Types.{Section, Symbol, Relocatable}
use fragma.Elf.Parse.{parse_relocatable, section_bytes}
use fragma.Elf.Metadata.{has_bits, has_none}
use fragma.Elf.Tables.{section_of}
use fragma.Elf.Ranges.{Range, sort, adjacent, extent}
use fragma.Hexagon.Values.{Measures, measures_of, check_pairs, check_measures, paired}

-- The model that the object is read with.
abbrev pub machine : Json
machine = obj (
    field "machdep"
      (obj (
        field "checked_fields"
          (obj (field "sizeof_ptr" (int (pos 4)) (field "little_endian" (bool true) end))) end))
      end)

-- SYMBOL.encode(), and 4 * len(LAYOUT_NAMES)
abbrev pub array_name : Bytes
array_name = codes "fragma_max_align_layout"

abbrev pub array_size : ℕ
array_size = 112

-- obj.machine == 164 and struct.unpack_from("<I", data, 36)[0] == 0x68
unfoldable pub is_hexagon : Bytes → Relocatable → Result Bool
is_hexagon d o = elim (unpack_from true (4 ∷ []) d 36) [
  | ok (flags ∷ []) ↦ ok (o.machine == 164 && flags == 0x68)
  | _ ↦ err "struct.error"
]

abbrev allowed_kind : ℕ → Bool
allowed_kind k = k == 1 || k == 2 || k == 3 || k == 0x70000003 || k == 0x6fff4c03

-- One round of the loop over obj.sections[1:]. The mask is 0x200 | 0x400 | 0x800.
unfoldable pub allowed_section : Section → Result (Unit {0})
allowed_section s = do
  require (allowed_kind s.kind && s.address == 0 && has_none s.flags 0xe00)
      "Unsupported layout section or relocation"
  require (s.alignment == 0 || s.offset % s.alignment == 0) "Misaligned layout section"

abbrev pub is_filled : Section → Bool
is_filled s = not (s.size == 0)

unfoldable pub layout_ranges : Relocatable → List Range
layout_ranges o =
    (0, o.header_size)
    ∷ (o.section_offset, o.section_offset + length o.sections * o.section_size)
    ∷ map extent (keep is_filled (drop 1 o.sections))

-- Equality of the dataclass.
abbrev pub same_symbol : Symbol → Symbol → Bool
same_symbol s t =
    beq s.name t.name
    && s.value == t.value
    && s.size == t.size
    && s.info == t.info
    && s.other == t.other
    && s.section == t.section

abbrev null : Symbol
null = record { name = []; value = 0; size = 0; info = 0; other = 0; section = 0 }

-- obj.symbols[0] == elf.Symbol(b"", 0, 0, 0, 0, 0)
unfoldable pub check_null : List Symbol → Result (Unit {0})
check_null [] = err "IndexError"
check_null (s ∷ _) = require (same_symbol s null) "Invalid layout null symbol"

abbrev pub is_array : Symbol → Bool
is_array s = beq s.name array_name

unfoldable pub sole_array : List Symbol → Result Symbol
sole_array (s ∷ []) = ok s
sole_array _ = err "Missing or duplicate layout array"

abbrev pub array_symbol : Relocatable → Symbol → Bool
array_symbol o s =
    s.info == 0x11
    && s.other == 0
    && s.value == 0
    && s.size == array_size
    && ltb 0 s.section
    && ltb s.section (length o.sections)

abbrev pub array_section : Section → Bool
array_section s =
    s.kind == 1 && s.flags == 2 && s.size == array_size && leb 4 s.alignment && s.offset % 4 == 0

-- `a == b` of two tests
abbrev agree : Bool → Bool → Bool
agree true b = b
agree false b = not b

abbrev pub file_or_section : Relocatable → Symbol → Bool
file_or_section o s =
    s.other == 0
    && s.value == 0
    && s.size == 0
    && ((s.info == 4 && s.section == 0xfff1)
        || (s.info == 3 && ltb 0 s.section && ltb s.section (length o.sections)))

-- The loop over enumerate(obj.symbols[1:], 1).
unfoldable pub check_others : Relocatable → Symbol → ℕ → ℕ → List Symbol → Result (Unit {0})
check_others o array global index [] = ok tt
check_others o array global index (s ∷ symbols) = do
  require (agree (s.info / 16 == 0) (ltb index global)) "Invalid layout local/global ordering"
  require (same_symbol s array || file_or_section o s)
      "Unexpected layout symbol or external dependency"
  check_others o array global (index + 1) symbols

-- all(not row.flags & 2 or not row.size or index == symbol.section for index, row in enumerate(...))
unfoldable pub sole_allocated : ℕ → ℕ → List Section → Bool
sole_allocated array index [] = true
sole_allocated array index (s ∷ sections) =
    (has_none s.flags 2 || s.size == 0 || index == array)
    && sole_allocated array (index + 1) sections

-- struct.unpack("<" + "I" * 28, content)
abbrev pub words : List ℕ
words =
    4 ∷ 4 ∷ 4 ∷ 4 ∷ 4 ∷ 4 ∷ 4 ∷ 4 ∷ 4 ∷ 4 ∷ 4 ∷ 4 ∷ 4 ∷ 4 ∷ 4 ∷ 4 ∷ 4 ∷ 4 ∷ 4 ∷ 4 ∷ 4 ∷ 4 ∷ 4 ∷ 4
    ∷ 4 ∷ 4 ∷ 4 ∷ 4 ∷ []

unfoldable pub unpack_words : Bytes → Result (List ℕ)
unfolding unpack
unpack_words content = do
  require (length content == array_size) "struct.error"
  ok (unpack true words content)

-- What is returned, less what is the same for every object.
pub record Observations : Type 0 where
  pub machine : ℕ
  pub values : List ℕ
  pub layout : Measures
  pub sha256 : String

-- The object's tables, up to the array.
unfoldable pub check_tables : Relocatable → Result (Unit {0})
unfolding allowed_section layout_ranges check_null
check_tables o = do
  require (leb (length o.sections) 64 && leb (length o.symbols) 64) "Unbounded layout metadata"
  each allowed_section (drop 1 o.sections)
  require (adjacent (sort (layout_ranges o))) "Overlapping layout ELF sections"
  check_null o.symbols

module _ (sha256 : Bytes → String) where
  -- The values of the array, and what they say.
  unfoldable pub measure : Bytes → Relocatable → ℕ → Result Observations
  unfolding unpack_words section_bytes check_pairs check_measures measures_of
  measure d o index = do
    content ← section_bytes o index
    values ← unpack_words content
    check_pairs (paired values)
    layout ← measures_of (map (λ p. p.0) (paired values))
    check_measures layout
    ok (record { machine = o.machine; values = values; layout = layout; sha256 = sha256 d })

  -- What follows the parser.
  unfoldable pub read_layout : Bytes → Relocatable → Result Observations
  unfolding check_tables is_hexagon sole_array check_others sole_allocated measure
  read_layout d o = do
    hexagon ← is_hexagon d o
    require hexagon "Layout object is not Hexagon v68"
    check_tables o
    table ← section_of o o.symbol_table
    require (ltb 0 table.info && ltb table.info (length o.symbols)) "Invalid layout symbol boundary"
    array ← sole_array (keep is_array o.symbols)
    require (array_symbol o array)
        "Layout array must be a unique global default-visible data definition"
    section ← section_of o array.section
    require (array_section section) "Layout array lacks bounded allocated read-only storage"
    check_others o array table.info 1 (drop 1 o.symbols)
    require (sole_allocated array.section 0 o.sections)
        "Unexpected allocated layout data or instructions"
    measure d o array.section

  unfoldable pub validate_object : Bytes → Result Observations
  unfolding read_layout parse_relocatable
  validate_object d = do
    require (leb (length d) 1048576) "Unbounded layout object"
    o ← parse_relocatable d machine
    read_layout d o
