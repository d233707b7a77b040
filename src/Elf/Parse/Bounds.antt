-- ===== src/Elf/Parse/Bounds.antt =====
-- Every table and section that `parse_relocatable` accepts lies within the file.
use Prim.Native.Nat.{bit_and}
use fragma.Prelude.{
  ℕ, ◌+◌, ◌-◌, ◌*◌, ◌≤◌, ◌<◌, ◌≡◌, refl, sym, ◌∙◌, subst, true, List, [], ◌∷◌, ok, length, ◌==◌,
  drop, >>=-eq-ok, require-eq-ok, All, arith, All-imp, ◌⊎◌, Both, Both-collect, length-Both,
  All-Both, ok-injective,
}
use fragma.Prelude.Json.{Json}
use fragma.Elf.Bytes.{Bytes, starts_zero}
use fragma.Elf.Types.{Section, Relocatable, Layout, Header, Row}
use fragma.Elf.Parse.{read_sections, parse_relocatable, row_at, name_section, string_at}
use fragma.Elf.Rows.{
  check_header, header_size, section_entry_size, check_row, null_first, null_row, row_bytes,
}
use fragma.Elf.Parse.Inversion.{parse-Parsed, read_table-TableRead}

-- The fields of a section header, apart from the name.
pub record SameFields (r : Row) (s : Section) : Type 0 where
  pub kind : s.kind ≡ r.kind
  pub flags : s.flags ≡ r.flags
  pub address : s.address ≡ r.address
  pub offset : s.offset ≡ r.offset
  pub size : s.size ≡ r.size
  pub link : s.link ≡ r.link
  pub info : s.info ≡ r.info
  pub alignment : s.alignment ≡ r.alignment
  pub entry_size : s.entry_size ≡ r.entry_size

abbrev IsPowerOfTwoOrZero : ℕ → Type 0
IsPowerOfTwoOrZero a = (a ≡ 0) ⊎ (bit_and a (a - 1) ≡ 0)

pub record RowInFile (d : Bytes) (n : ℕ) (r : Row) : Type 0 where
  pub starts_within : r.offset ≤ length d
  pub ends_within : (r.kind ≡ 8) ⊎ (r.offset + r.size ≤ length d)
  pub link_within : r.link < n
  pub aligned : IsPowerOfTwoOrZero r.alignment

pub record SectionInFile (d : Bytes) (n : ℕ) (s : Section) : Type 0 where
  pub starts_within : s.offset ≤ length d
  pub ends_within : (s.kind ≡ 8) ⊎ (s.offset + s.size ≤ length d)
  pub link_within : s.link < n
  pub aligned : IsPowerOfTwoOrZero s.alignment

check_row-RowInFile : (d : Bytes) (n : ℕ) (r : Row) → check_row d n r ≡ true → RowInFile d n r
unfolding check_row
check_row-RowInFile d n r h = ground arith

null_row-RowInFile : (d : Bytes) (n : ℕ) (r : Row) → 0 < n → null_row r ≡ true → RowInFile d n r
null_row-RowInFile d n r p h = ground arith

rows-RowInFile :
    (d : Bytes) (n : ℕ) (rows : List Row)
    → 0 < n
    → null_first rows ≡ true
    → All (λ r. check_row d n r ≡ true) (drop 1 rows)
    → All (RowInFile d n) rows
rows-RowInFile d n [] p h a = tt
rows-RowInFile d n (r ∷ rows) p h a =
    (null_row-RowInFile d n r p h, All-imp _ _ rows (check_row-RowInFile d n) a)

name_section-SameFields :
    (names : Bytes) (r : Row) (s : Section) → name_section names r ≡ ok s → SameFields r s
unfolding name_section
name_section-SameFields names r s h =
    let (name, p, q) = >>=-eq-ok (string_at names r.name) _ h in
    subst (SameFields r) (ok-injective q) (record {
      kind = refl;
      flags = refl;
      address = refl;
      offset = refl;
      size = refl;
      link = refl;
      info = refl;
      alignment = refl;
      entry_size = refl;
    })

pub read_sections-Both :
    (d : Bytes) (h : Header) (rows : List Row) {sections : List Section}
    → read_sections d h rows ≡ ok sections
    → Both SameFields rows sections
unfolding read_sections
read_sections-Both d h rows e =
    let (named, e1, k1) = >>=-eq-ok (row_at rows h.shstr) _ e in
    let (e2, k2) = require-eq-ok (named.kind == 3) _ _ k1 in
    let (names, e3, k3) = >>=-eq-ok (row_bytes d named) _ k2 in
    let (e4, k4) = require-eq-ok (starts_zero names) _ _ k3 in
    Both-collect (name_section names) SameFields rows (name_section-SameFields names) k4

RowInFile-SectionInFile :
    (d : Bytes) (n : ℕ) (r : Row) (s : Section)
    → SameFields r s
    → RowInFile d n r
    → SectionInFile d n s
RowInFile-SectionInFile d n r s f i = record {
  starts_within = ground (arith, f.offset, i.starts_within);
  ends_within = ground (arith, f.kind, f.offset, f.size, i.ends_within);
  link_within = ground (arith, f.link, i.link_within);
  aligned = subst IsPowerOfTwoOrZero (sym f.alignment) i.aligned;
}

-- The header, the section table and the sections of `o` lie within `d`.
pub record IsBounded (d : Bytes) (o : Relocatable) : Type 0 where
  pub bytes_kept : o.bytes ≡ d
  pub table_after_header : o.header_size ≤ o.section_offset
  pub table_within : o.section_offset + length o.sections * o.section_size ≤ length d
  pub at_least_two : 2 ≤ length o.sections
  pub not_extended : length o.sections < 0xff00
  pub sections_within : All (SectionInFile d (length o.sections)) o.sections

header_bounds :
    (l : Layout) (d : Bytes) (h : Header)
    → check_header l d h ≡ true
    → (header_size l.bits ≤ h.shoff)
      × (h.shoff + h.shnum * section_entry_size l.bits ≤ length d)
      × (2 ≤ h.shnum)
      × (h.shnum < 0xff00)
unfolding check_header
header_bounds l d h e = ground arith

-- Whatever the bytes and the model are, an accepted object is bounded by its file.
pub parse-IsBounded :
    (d : Bytes) (model : Json) (o : Relocatable) → parse_relocatable d model ≡ ok o → IsBounded d o
parse-IsBounded d model o e =
    let p = parse-Parsed d model e in
    let t = read_table-TableRead p.layout d p.header p.rows_read in
    let both = read_sections-Both d p.header p.rows p.sections_read in
    let count : length o.sections ≡ p.header.shnum =
      length-Both SameFields p.rows o.sections both ∙ t.count in
    let (b1, b2, b3, b4) = header_bounds p.layout d p.header p.header_checked in
    record {
      bytes_kept = p.bytes_kept;
      table_after_header = rw (p.header_size_is, p.offset_is) b1;
      table_within = rw (p.offset_is, p.section_size_is, count) b2;
      at_least_two = rw count b3;
      not_extended = rw count b4;
      sections_within = rw count (
          All-Both SameFields (RowInFile d p.header.shnum) (SectionInFile d p.header.shnum) p.rows
            o.sections (RowInFile-SectionInFile d p.header.shnum) both
            (rows-RowInFile d p.header.shnum p.rows (omega arith) t.null_is_first t.rest_checked));
    }
