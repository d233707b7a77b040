-- ===== src/Elf/Rows.antt =====
-- The header and the section headers that `parse_relocatable` of fragma/elf.py reads.
use Prim.Native.Nat.{bit_and}
use fragma.Prelude.{
  ℕ, zero, suc, ◌+◌, ◌-◌, ◌*◌, Bool, false, not, ◌&&◌, ◌||◌, List, [], ◌∷◌, Result, ok, err, ◌>>=◌,
  ◌>>◌, require, ltb, leb, length, ◌==◌, if◌then◌else◌,
}
use fragma.Prelude.Json.{Json, bool, int, obj, pos, get}
use fragma.Elf.Bytes.{Bytes, slice, beq, unpack_from}
use fragma.Elf.Types.{Layout, Header, Row}

abbrev layout_of : Json → Json → Result Layout
layout_of (int (pos width)) (bool little) = do
  require (width == 4 || width == 8) "fixture object requires checked pointer width and byte order"
  ok (record { bits = width * 8; little = little })
layout_of _ _ = err "fixture object requires checked pointer width and byte order"

abbrev checked_fields : Json → Result Layout
checked_fields (obj fields) =
    layout_of (get (obj fields) "sizeof_ptr") (get (obj fields) "little_endian")
checked_fields _ = err "fixture object requires checked machine fields"

unfoldable pub machine_layout : Json → Result Layout
machine_layout model = checked_fields (get (get model "machdep") "checked_fields")

abbrev pub header_size : ℕ → ℕ
header_size bits = if bits == 32 then 52 else 64

abbrev pub section_entry_size : ℕ → ℕ
section_entry_size bits = if bits == 32 then 40 else 64

abbrev pub symbol_size : ℕ → ℕ
symbol_size bits = if bits == 32 then 16 else 24

-- `bytes([127, 69, 76, 70, 1 if bits == 32 else 2, 1 if little else 2, 1])`
abbrev pub magic : Layout → Bytes
magic l =
    127 ∷ 69 ∷ 76 ∷ 70 ∷ (if l.bits == 32 then 1 else 2) ∷ (if l.little then 1 else 2) ∷ 1 ∷ []

-- "HHIIIIIHHHHHH" or "HHIQQQIHHHHHH"
abbrev header_format : ℕ → List ℕ
header_format bits =
    let word : ℕ = if bits == 32 then 4 else 8 in
    2 ∷ 2 ∷ 4 ∷ word ∷ word ∷ word ∷ 4 ∷ 2 ∷ 2 ∷ 2 ∷ 2 ∷ 2 ∷ 2 ∷ []

-- "IIIIIIIIII" or "IIQQQQIIQQ"
abbrev pub section_format : ℕ → List ℕ
section_format bits =
    let word : ℕ = if bits == 32 then 4 else 8 in
    4 ∷ 4 ∷ word ∷ word ∷ word ∷ word ∷ 4 ∷ 4 ∷ word ∷ word ∷ []

-- The tuple assignments of the source: another number of fields does not occur with these formats.
abbrev header_of : List ℕ → Result Header
header_of (k ∷ m ∷ v ∷ e ∷ po ∷ so ∷ f ∷ es ∷ pes ∷ pn ∷ ses ∷ sn ∷ st ∷ []) = ok (record {
  kind = k;
  machine = m;
  version = v;
  entry = e;
  phoff = po;
  shoff = so;
  flags = f;
  ehsize = es;
  phentsize = pes;
  phnum = pn;
  shentsize = ses;
  shnum = sn;
  shstr = st;
})
header_of _ = err "struct.error"

abbrev pub row_of : List ℕ → Result Row
row_of (n ∷ k ∷ f ∷ a ∷ o ∷ s ∷ l ∷ i ∷ al ∷ es ∷ []) = ok (record {
  name = n;
  kind = k;
  flags = f;
  address = a;
  offset = o;
  size = s;
  link = l;
  info = i;
  alignment = al;
  entry_size = es;
})
row_of _ = err "struct.error"

unfoldable pub read_header : Layout → Bytes → Result Header
read_header l d = do
  require (leb (header_size l.bits) (length d) && beq (slice d 0 7) (magic l))
      "truncated or wrong-class/byte-order ELF fixture"
  values ← unpack_from l.little (header_format l.bits) d 16
  header_of values

-- `2 <= shnum < 0xff00`, `0 < shstr < shnum` and the bounds of the section table
unfoldable pub check_header : Layout → Bytes → Header → Bool
check_header l d h =
    h.kind == 1
    && h.version == 1
    && h.entry == 0
    && h.ehsize == header_size l.bits
    && h.phoff == 0
    && h.phentsize == 0
    && h.phnum == 0
    && h.shentsize == section_entry_size l.bits
    && leb 2 h.shnum
    && ltb h.shnum 0xff00
    && ltb 0 h.shstr
    && ltb h.shstr h.shnum
    && leb (header_size l.bits) h.shoff
    && leb (h.shoff + h.shnum * section_entry_size l.bits) (length d)

-- `for i in range(shnum)`: the rows from entry `i` on, `n` of them
unfoldable pub read_rows : Layout → Bytes → ℕ → ℕ → ℕ → Result (List Row)
read_rows l d shoff zero i = ok []
read_rows l d shoff (suc n) i = do
  values ← unpack_from l.little (section_format l.bits) d (shoff + i * section_entry_size l.bits)
  row ← row_of values
  rest ← read_rows l d shoff n (i + 1)
  ok (row ∷ rest)

-- `rows[0] == (0,) * 10`
abbrev pub null_row : Row → Bool
null_row r =
    r.name == 0
    && r.kind == 0
    && r.flags == 0
    && r.address == 0
    && r.offset == 0
    && r.size == 0
    && r.link == 0
    && r.info == 0
    && r.alignment == 0
    && r.entry_size == 0

abbrev pub null_first : List Row → Bool
null_first [] = false
null_first (r ∷ rows) = null_row r

unfoldable pub check_row : Bytes → ℕ → Row → Bool
check_row d shnum r =
    leb r.offset (length d)
    && (r.kind == 8 || leb (r.offset + r.size) (length d))
    && ltb r.link shnum
    && (r.alignment == 0 || bit_and r.alignment (r.alignment - 1) == 0)

-- The nested `section_bytes` of the source, on a row.
unfoldable pub row_bytes : Bytes → Row → Result Bytes
row_bytes d r = do
  require (not (r.kind == 8)) "metadata points into a non-file-backed section"
  ok (slice d r.offset r.size)

-- `rows[index]`
