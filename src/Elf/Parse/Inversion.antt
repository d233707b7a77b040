-- ===== src/Elf/Parse/Inversion.antt =====
-- What a successful `parse_relocatable` went through: the values and the checks of each step.
use fragma.Prelude.{
  ok-injective, subst, sym, ◌∙◌, ℕ, zero, suc, ◌+◌, ◌≡◌, refl, ap, true, List, ok, each, length,
  drop, >>=-eq-ok, require-eq-ok, require-true, All, All-each, All-imp,
}
use fragma.Prelude.Json.{Json}
use fragma.Elf.Bytes.{Bytes, unpack_from}
use fragma.Elf.Types.{Relocatable, Layout, Header, Row}
use fragma.Elf.Parse.{
  read_table, read_sections, tables_from, only, read_symbol_table, parse_relocatable,
}
use fragma.Elf.Rows.{
  machine_layout, read_header, check_header, header_size, section_entry_size, read_rows, check_row,
  null_first, row_of, section_format,
}

pub record Parsed (d : Bytes) (model : Json) (o : Relocatable) : Type 0 where
  pub layout : Layout
  pub header : Header
  pub rows : List Row
  pub layout_read : machine_layout model ≡ ok layout
  pub header_read : read_header layout d ≡ ok header
  pub header_checked : check_header layout d header ≡ true
  pub rows_read : read_table layout d header ≡ ok rows
  pub sections_read : read_sections d header rows ≡ ok o.sections
  pub table_found : only (tables_from 0 rows) ≡ ok o.symbol_table
  pub symbols_read : read_symbol_table layout d rows o.symbol_table ≡ ok o.symbols
  pub bytes_kept : o.bytes ≡ d
  pub header_size_is : o.header_size ≡ header_size layout.bits
  pub offset_is : o.section_offset ≡ header.shoff
  pub section_size_is : o.section_size ≡ section_entry_size layout.bits
  pub bits_is : o.bits ≡ layout.bits

pub parse-Parsed :
    (d : Bytes) (model : Json) {o : Relocatable}
    → parse_relocatable d model ≡ ok o
    → Parsed d model o
unfolding parse_relocatable
parse-Parsed d model {o} e =
    let (l, e1, k1) = >>=-eq-ok (machine_layout model) _ e in
    let (h, e2, k2) = >>=-eq-ok (read_header l d) _ k1 in
    let (e3, k3) = require-eq-ok (check_header l d h) _ _ k2 in
    let (rows, e4, k4) = >>=-eq-ok (read_table l d h) _ k3 in
    let (sections, e5, k5) = >>=-eq-ok (read_sections d h rows) _ k4 in
    let (index, e6, k6) = >>=-eq-ok (only (tables_from 0 rows)) _ k5 in
    let (symbols, e7, k7) = >>=-eq-ok (read_symbol_table l d rows index) _ k6 in
    subst (Parsed d model) (ok-injective k7) (record {
      layout = l;
      header = h;
      rows = rows;
      layout_read = e1;
      header_read = e2;
      header_checked = e3;
      rows_read = e4;
      sections_read = e5;
      table_found = e6;
      symbols_read = e7;
      bytes_kept = refl;
      header_size_is = refl;
      offset_is = refl;
      section_size_is = refl;
      bits_is = refl;
    })

pub length-read_rows :
    (l : Layout) (d : Bytes) (shoff n i : ℕ) {rows : List Row}
    → read_rows l d shoff n i ≡ ok rows
    → length rows ≡ n
unfolding read_rows
length-read_rows l d shoff zero i h = ap length (ok-injective (sym h))
length-read_rows l d shoff (suc n) i {rows} h =
    let (values, p, q) = >>=-eq-ok (unpack_from l.little (section_format l.bits) d _) _ h in
    let (row, r, s) = >>=-eq-ok (row_of values) _ q in
    let (rest, t, u) = >>=-eq-ok (read_rows l d shoff n (i + 1)) _ s in
    ap length (ok-injective (sym u)) ∙ ap suc (length-read_rows l d shoff n (i + 1) t)

-- The section table that was read: as many rows as the header says, each within the file.
pub record TableRead (l : Layout) (d : Bytes) (h : Header) (rows : List Row) : Type 0 where
  pub count : length rows ≡ h.shnum
  pub null_is_first : null_first rows ≡ true
  pub rest_checked : All (λ r. check_row d h.shnum r ≡ true) (drop 1 rows)

pub read_table-TableRead :
    (l : Layout) (d : Bytes) (h : Header) {rows : List Row}
    → read_table l d h ≡ ok rows
    → TableRead l d h rows
unfolding read_table
read_table-TableRead l d h {rows} e =
    let (found, e1, k1) = >>=-eq-ok (read_rows l d h.shoff h.shnum 0) _ e in
    let (e2, k2) = require-eq-ok (null_first found) _ _ k1 in
    let (u, e3, k3) = >>=-eq-ok (each _ (drop 1 found)) _ k2 in
    subst (TableRead l d h) (ok-injective k3) (record {
      count = length-read_rows l d h.shoff h.shnum 0 e1;
      null_is_first = e2;
      rest_checked = All-imp _ _ (drop 1 found) (λ r p. require-true _ _ p) (All-each _ _ e3);
    })
