-- ===== src/Elf/Parse.antt =====
-- `parse_relocatable` of fragma/elf.py. The steps are in the order of the source.
pub mod Inversion
pub mod Bounds
pub mod Symbols
pub mod Names
use Prim.Native.Nat.{bit_and}
use fragma.Prelude.{
  ℕ, zero, suc, ◌+◌, ◌-◌, ◌*◌, ◌/◌, ◌%◌, Bool, true, false, not, ◌&&◌, ◌||◌, List, [], ◌∷◌, none,
  some, Result, ok, err, ◌>>=◌, ◌>>◌, require, each, collect, ltb, leb, length, get_elem?, ◌==◌,
  if◌then◌else◌, drop,
}
use fragma.Prelude.Json.{Json, bool, int, obj, pos, get}
use fragma.Elf.Bytes.{Bytes, slice, beq, starts_zero, unpack_from, until_zero}
use fragma.Elf.Types.{Section, Symbol, Relocatable, Layout, Header, Row}
use fragma.Elf.Rows.{
  machine_layout, header_size, section_entry_size, symbol_size, read_header, check_header,
  read_rows, null_first, check_row, row_bytes,
}

-- `type(width) is int and width in (4, 8) and type(little) is bool`
abbrev row_at : List Row → ℕ → Result Row
row_at rows i = elim (get_elem? rows i) [ none ↦ err "IndexError" | some r ↦ ok r ]

unfoldable pub string_at : Bytes → ℕ → Result Bytes
string_at table offset = do
  require (ltb offset (length table)) "ELF string offset is out of bounds"
  elim (until_zero (drop offset table)) [ none ↦ err "unterminated ELF string" | some s ↦ ok s ]

unfoldable pub name_section : Bytes → Row → Result Section
name_section names r = do
  name ← string_at names r.name
  ok (record {
    name = name;
    kind = r.kind;
    flags = r.flags;
    address = r.address;
    offset = r.offset;
    size = r.size;
    link = r.link;
    info = r.info;
    alignment = r.alignment;
    entry_size = r.entry_size;
  })

-- `[index for index, row in enumerate(rows) if row[1] == 2]`
unfoldable pub tables_from : ℕ → List Row → List ℕ
tables_from i [] = []
tables_from i (r ∷ rows) =
    let rest = tables_from (i + 1) rows in elim (r.kind == 2) [ true ↦ i ∷ rest | false ↦ rest ]

abbrev only : List ℕ → Result ℕ
only (i ∷ []) = ok i
only _ = err "missing or ambiguous ELF symbol table"

abbrev kind_of : List Row → ℕ → ℕ
kind_of rows i = elim (get_elem? rows i) [ none ↦ 0 | some r ↦ r.kind ]

unfoldable pub check_table : Layout → List Row → Row → Bool
check_table l rows t =
    t.entry_size == symbol_size l.bits
    && leb (symbol_size l.bits) t.size
    && t.size % symbol_size l.bits == 0
    && ltb 0 t.link
    && ltb t.link (length rows)
    && kind_of rows t.link == 3

-- "IIIBBH" is name, value, length, info, other, section; "IBBHQQ" moves value and length to the end.
abbrev symbol_fields : ℕ → Bool → Bytes → ℕ → Result (List ℕ)
symbol_fields bits little d offset =
    if bits == 32
    then unpack_from little (4 ∷ 4 ∷ 4 ∷ 1 ∷ 1 ∷ 2 ∷ []) d offset
    else unpack_from little (4 ∷ 1 ∷ 1 ∷ 2 ∷ 8 ∷ 8 ∷ []) d offset

abbrev symbol_of : ℕ → Bytes → List ℕ → Result Symbol
symbol_of bits strings (a ∷ b ∷ c ∷ e ∷ f ∷ g ∷ []) = do
  name ← string_at strings a
  ok (
      if bits == 32
      then record { name = name; value = b; size = c; info = e; other = f; section = g }
      else record { name = name; value = f; size = g; info = b; other = c; section = e })
symbol_of bits strings _ = err "struct.error"

-- `for offset in range(table[4], table[4] + table[5], symbol_size)`, with `n` rounds left
unfoldable pub read_symbols : Layout → Bytes → Bytes → ℕ → ℕ → Result (List Symbol)
read_symbols l d strings zero offset = ok []
read_symbols l d strings (suc n) offset = do
  values ← symbol_fields l.bits l.little d offset
  symbol ← symbol_of l.bits strings values
  rest ← read_symbols l d strings n (offset + symbol_size l.bits)
  ok (symbol ∷ rest)

-- The section table: bounded rows behind a null row.
unfoldable pub read_table : Layout → Bytes → Header → Result (List Row)
read_table l d h = do
  rows ← read_rows l d h.shoff h.shnum 0
  require (null_first rows) "unexpected ELF null section/extended numbering"
  each (λ r. require (check_row d h.shnum r) "ELF section lies outside its bounded container")
      (drop 1 rows)
  ok rows

unfoldable pub read_sections : Bytes → Header → List Row → Result (List Section)
read_sections d h rows = do
  named ← row_at rows h.shstr
  require (named.kind == 3) "missing ELF section-name string table"
  names ← row_bytes d named
  require (starts_zero names) "invalid ELF section-name table"
  collect (name_section names) rows

unfoldable pub read_symbol_table : Layout → Bytes → List Row → ℕ → Result (List Symbol)
read_symbol_table l d rows index = do
  table ← row_at rows index
  require (check_table l rows table) "invalid ELF symbol table/link/bounds"
  linked ← row_at rows table.link
  strings ← row_bytes d linked
  require (starts_zero strings) "invalid ELF symbol-name table"
  read_symbols l d strings (table.size / symbol_size l.bits) table.offset

unfoldable pub parse_relocatable : Bytes → Json → Result Relocatable
parse_relocatable d model = do
  l ← machine_layout model
  h ← read_header l d
  require (check_header l d h) "invalid relocatable ELF header/section bounds"
  rows ← read_table l d h
  sections ← read_sections d h rows
  index ← only (tables_from 0 rows)
  symbols ← read_symbol_table l d rows index
  ok (record {
    bytes = d;
    bits = l.bits;
    little = l.little;
    machine = h.machine;
    header_size = header_size l.bits;
    section_offset = h.shoff;
    section_size = section_entry_size l.bits;
    sections = sections;
    symbols = symbols;
    symbol_table = index;
  })

-- `section_bytes` of `Relocatable`, on a section of the object.
unfoldable pub content : Relocatable → Section → Result Bytes
content o s = do
  require (not (s.kind == 8)) "metadata points into a non-file-backed section"
  ok (slice o.bytes s.offset s.size)

unfoldable pub section_bytes : Relocatable → ℕ → Result Bytes
unfolding content
section_bytes o index = elim (get_elem? o.sections index) [
  | none ↦ err "IndexError"
  | some s ↦ content o s
]
