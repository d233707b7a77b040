-- ===== src/Elf/Tables.antt =====
-- `_complete_tables` of fragma/elf.py: the gate over every section, symbol and relocation entry.
pub mod Order
pub mod Symbols
use Prim.Native.Nat.{bit_and}
use fragma.Prelude.{
  ℕ, zero, suc, ◌+◌, ◌-◌, ◌*◌, ◌/◌, ◌%◌, ◌^◌, Bool, true, false, not, ◌&&◌, ◌||◌, List, [], ◌∷◌,
  ◌++◌, map, Option, none, some, Result, ok, err, ◌>>=◌, ◌>>◌, require, each, collect, ltb, leb,
  length, get_elem?, ◌==◌, if◌then◌else◌, drop, keep, any, is_empty,
}
use fragma.Elf.Bytes.{Bytes, codes, beq, starts_zero, unpack_from}
use fragma.Elf.Types.{Section, Symbol, Relocatable}
use fragma.Elf.Parse.{content}
use fragma.Elf.Metadata.{has_bits, has_none, alpha_function_metadata, mips_calibration_metadata}
use fragma.Elf.Ranges.{extent, ranges, sort, adjacent}

abbrev pub generic_kind : ℕ → Bool
generic_kind k = k == 1 || k == 2 || k == 3 || k == 4 || k == 7 || k == 8 || k == 9

unfoldable pub section_kind : Relocatable → Bool → Section → Bool
section_kind o mips s =
    generic_kind s.kind
    || (o.machine == 40 && (s.kind == 0x70000001 || s.kind == 0x70000003))
    || (mips && (s.kind == 0x6fff4c03 || s.kind == 0x70000006 || s.kind == 0x7000002a))

-- `content.endswith(b"\0")`
unfoldable pub ends_zero : Bytes → Bool
ends_zero [] = false
ends_zero (b ∷ []) = b == 0
ends_zero (b ∷ (c ∷ bs)) = ends_zero (c ∷ bs)

unfoldable pub string_table : Relocatable → Section → Result (Unit {0})
unfolding content ends_zero
string_table o s =
    if s.kind == 3
    then (do
      table ← content o s
      require (starts_zero table && ends_zero table) "invalid complete ELF string table")
    else ok tt

abbrev text_section : Relocatable → ℕ → Bool
text_section o i = elim (get_elem? o.sections i) [
  | none ↦ false
  | some s ↦ s.kind == 1 && has_bits s.flags 6
]

unfoldable pub exception_index : Relocatable → Section → Bool
exception_index o s =
    beq s.name (codes ".ARM.exidx")
    && s.flags == 0x82
    && s.info == 0
    && ltb 0 s.link
    && ltb s.link (length o.sections)
    && text_section o s.link

-- One round of the loop over `sections[1:]`. The mask is 0x200 | 0x400 | 0x800.
unfoldable pub check_section : Relocatable → Bool → Section → Result (Unit {0})
unfolding section_kind string_table exception_index
check_section o mips s = do
  require (section_kind o mips s) "unsupported calibration ELF section kind"
  require (s.address == 0 && has_none s.flags 0xe00)
      "unsupported calibration ELF section address/group/TLS/compression"
  require (s.alignment == 0 || s.offset % s.alignment == 0) "misaligned calibration ELF section"
  string_table o s
  require
      (not (s.kind == 1 || s.kind == 3 || s.kind == 7 || s.kind == 8 || s.kind == 0x70000003)
        || (s.link == 0 && s.info == 0))
      "unexpected calibration ELF section link/info"
  require (not (s.kind == 0x70000001) || exception_index o s)
      "unexpected ARM exception-index metadata"

-- `info >> 4` and `info & 15`
abbrev pub binding : Symbol → ℕ
binding s = s.info / 16

abbrev pub type_of : Symbol → ℕ
type_of s = s.info % 16

-- `a is b` on Booleans
abbrev iff : Bool → Bool → Bool
iff true b = b
iff false b = not b

abbrev null_symbol : List Symbol → Bool
null_symbol [] = false
null_symbol (s ∷ _) =
    is_empty s.name && s.value == 0 && s.size == 0 && s.info == 0 && s.other == 0 && s.section == 0

abbrev pub section_size_at : Relocatable → ℕ → ℕ
section_size_at o i = elim (get_elem? o.sections i) [ none ↦ 0 | some s ↦ s.size ]

-- The branches on the symbol's section index.
unfoldable pub check_definition : Relocatable → Symbol → Result (Unit {0})
check_definition o s =
    if s.section == 0
    then require (s.value == 0 && s.size == 0) "undefined ELF symbol has a value/extent"
    else if s.section == 0xfff1
    then require (type_of s == 4 && binding s == 0 && s.value == 0 && s.size == 0)
        "unsupported absolute ELF symbol"
    else (do
      require (ltb 0 s.section && ltb s.section (length o.sections))
          "unsupported/out-of-range ELF symbol section"
      require (leb (s.value + s.size) (section_size_at o s.section))
          "ELF symbol extent exceeds its section")

abbrev pub symbol_order : Relocatable → ℕ → ℕ → Symbol → Bool
symbol_order o first_global index s =
    leb (binding s) 2
    && ltb (type_of s) 7
    && (ltb s.other 4 || alpha_function_metadata o s)
    && iff (binding s == 0) (ltb index first_global)

abbrev pub section_symbol : Relocatable → Symbol → Bool
section_symbol o s =
    not (type_of s == 3)
    || (binding s == 0
        && ltb 0 s.section
        && ltb s.section (length o.sections)
        && s.value == 0
        && s.size == 0)

abbrev pub file_symbol : Symbol → Bool
file_symbol s = not (type_of s == 4) || s.section == 0xfff1

unfoldable pub check_symbol : Relocatable → ℕ → ℕ → Symbol → Result (Unit {0})
unfolding check_definition
check_symbol o first_global index s = do
  require (symbol_order o first_global index s) "invalid ELF symbol type/binding/order"
  check_definition o s
  require (section_symbol o s) "invalid ELF section symbol"
  require (file_symbol s) "invalid ELF file symbol"

-- `for index, symbol in enumerate(symbols)`
unfoldable pub check_symbols : Relocatable → ℕ → ℕ → List Symbol → Result (Unit {0})
check_symbols o first_global index [] = ok tt
check_symbols o first_global index (s ∷ symbols) = do
  check_symbol o first_global index s
  check_symbols o first_global (index + 1) symbols

-- (index, section.info, address, symbol, kind)
pub record Relocation : Type 0 where
  pub table : ℕ
  pub target : ℕ
  pub address : ℕ
  pub symbol : ℕ
  pub kind : ℕ

abbrev relocation_of : Relocatable → ℕ → Section → Section → List ℕ → Result Relocation
relocation_of o index s target (address ∷ info ∷ []) = do
  let symbol : ℕ = if o.bits == 32 then info / 2 ^ 8 else info / 2 ^ 32
  let kind : ℕ = if o.bits == 32 then info % 2 ^ 8 else info % 2 ^ 32
  require (ltb symbol (length o.symbols) && ltb address target.size)
      "ELF relocation symbol/offset is out of bounds"
  ok (record { table = index; target = s.info; address = address; symbol = symbol; kind = kind })
relocation_of o index s target _ = err "struct.error"

-- The loop over the entries of one table, with `n` rounds left.
unfoldable pub entries : Relocatable → ℕ → Section → Section → ℕ → ℕ → ℕ → Result (List Relocation)
entries o index s target size zero offset = ok []
entries o index s target size (suc n) offset = do
  values ← unpack_from o.little (if o.bits == 32 then 4 ∷ 4 ∷ [] else 8 ∷ 8 ∷ []) o.bytes offset
  relocation ← relocation_of o index s target values
  rest ← entries o index s target size n (offset + size)
  ok (relocation ∷ rest)

-- `sections[index]`
abbrev pub section_of : Relocatable → ℕ → Result Section
section_of o i = elim (get_elem? o.sections i) [ none ↦ err "IndexError" | some t ↦ ok t ]

abbrev pub relocation_size : Relocatable → Section → ℕ
relocation_size o s =
    if o.bits == 32 then (if s.kind == 4 then 12 else 8) else (if s.kind == 4 then 24 else 16)

abbrev pub table_bounds : Relocatable → Section → Bool
table_bounds o s =
    s.link == o.symbol_table
    && ltb 0 s.info
    && ltb s.info (length o.sections)
    && s.entry_size == relocation_size o s
    && s.size % relocation_size o s == 0

unfoldable pub relocation_table : Relocatable → ℕ → Section → Result (List Relocation)
relocation_table o index s = do
  require (table_bounds o s) "invalid ELF relocation table/link/entry bounds"
  target ← section_of o s.info
  require (has_none target.flags 4) "calibration executable section has relocations"
  entries o index s target (relocation_size o s) (s.size / relocation_size o s) s.offset

-- `for index, section in enumerate(sections)`
unfoldable pub relocations : Relocatable → ℕ → List Section → Result (List Relocation)
relocations o index [] = ok []
relocations o index (s ∷ sections) = do
  found ← (if s.kind == 4 || s.kind == 9 then relocation_table o index s else ok [])
  rest ← relocations o (index + 1) sections
  ok (found ++ rest)

abbrev first_global : Relocatable → ℕ
first_global o = elim (get_elem? o.sections o.symbol_table) [ none ↦ 0 | some s ↦ s.info ]

unfoldable pub complete_tables : Relocatable → Result (List Relocation × Bool)
complete_tables o = do
  mips ← mips_calibration_metadata o
  each (check_section o mips) (drop 1 o.sections)
  require (adjacent (sort (ranges o))) "overlapping ELF headers/sections"
  require (null_symbol o.symbols) "invalid ELF null symbol"
  require (ltb 0 (first_global o) && leb (first_global o) (length o.symbols))
      "invalid ELF local/global symbol boundary"
  check_symbols o (first_global o) 0 o.symbols
  found ← relocations o 0 o.sections
  ok (found, mips)
