-- ===== src/Elf/Types.antt =====
-- The records of fragma/elf.py, and the rows that its tables are read into.
use fragma.Prelude.{ℕ, Bool, List}
use fragma.Elf.Bytes.{Bytes}

pub record Section : Type 0 where
  pub name : Bytes
  pub kind : ℕ
  pub flags : ℕ
  pub address : ℕ
  pub offset : ℕ
  pub size : ℕ
  pub link : ℕ
  pub info : ℕ
  pub alignment : ℕ
  pub entry_size : ℕ

pub record Symbol : Type 0 where
  pub name : Bytes
  pub value : ℕ
  pub size : ℕ
  pub info : ℕ
  pub other : ℕ
  pub section : ℕ

pub record Relocatable : Type 0 where
  pub bytes : Bytes
  pub bits : ℕ
  pub little : Bool
  pub machine : ℕ
  pub header_size : ℕ
  pub section_offset : ℕ
  pub section_size : ℕ
  pub sections : List Section
  pub symbols : List Symbol
  pub symbol_table : ℕ

-- What `parse_relocatable` takes from the machine model: `bits` and the byte order.
pub record Layout : Type 0 where
  pub bits : ℕ
  pub little : Bool

-- The fields of the ELF header, in the order of its format.
pub record Header : Type 0 where
  pub kind : ℕ
  pub machine : ℕ
  pub version : ℕ
  pub entry : ℕ
  pub phoff : ℕ
  pub shoff : ℕ
  pub flags : ℕ
  pub ehsize : ℕ
  pub phentsize : ℕ
  pub phnum : ℕ
  pub shentsize : ℕ
  pub shnum : ℕ
  pub shstr : ℕ

-- A section header before its name is looked up; the first field is the name's offset.
pub record Row : Type 0 where
  pub name : ℕ
  pub kind : ℕ
  pub flags : ℕ
  pub address : ℕ
  pub offset : ℕ
  pub size : ℕ
  pub link : ℕ
  pub info : ℕ
  pub alignment : ℕ
  pub entry_size : ℕ
