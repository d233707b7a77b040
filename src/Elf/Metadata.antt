-- ===== src/Elf/Metadata.antt =====
-- `_alpha_function_metadata`, `_header_flags` and `_mips_calibration_metadata` of fragma/elf.py: the
-- machine-specific metadata that the calibration gate admits.
use Prim.Native.Nat.{bit_and}
use fragma.Prelude.{
  ℕ, ◌+◌, Bool, true, false, not, ◌&&◌, ◌||◌, List, [], ◌∷◌, none, some, Result, ok, err, ◌>>=◌,
  ◌>>◌, require, ltb, leb, length, get_elem?, ◌==◌, if◌then◌else◌, keep, any, is_empty,
}
use fragma.Elf.Bytes.{Bytes, codes, beq, unpack, unpack_from, calcsize}
use fragma.Elf.Types.{Section, Symbol, Relocatable}
use fragma.Elf.Parse.{content}

-- `x & mask == mask`, `not x & mask`
abbrev pub has_bits : ℕ → ℕ → Bool
has_bits x mask = bit_and x mask == mask

abbrev pub has_none : ℕ → ℕ → Bool
has_none x mask = bit_and x mask == 0

-- `struct.unpack_from(endian + "I", obj.data, 36 if obj.bits == 32 else 48)[0]`
unfoldable pub header_flags : Relocatable → Result (List ℕ)
header_flags o = unpack_from o.little (4 ∷ []) o.bytes (if o.bits == 32 then 36 else 48)

abbrev pub executable : Section → Bool
executable s = s.kind == 1 && has_bits s.flags 6 && has_none s.flags 1

-- The tests on the object and the symbol, behind the header's flags.
abbrev alpha_symbol : Relocatable → Symbol → Bool
alpha_symbol o s =
    (s.other == 0x80 || s.other == 0x88)
    && (s.info == 0x02 || s.info == 0x12)
    && not (is_empty s.name)
    && ltb 0 s.size
    && ltb 0 s.section
    && ltb s.section (length o.sections)

abbrev alpha_section : Relocatable → Symbol → Bool
alpha_section o s = elim (get_elem? o.sections s.section) [
  | none ↦ false
  | some t ↦ executable t && leb (s.value + s.size) t.size
]

abbrev zero_word : Result (List ℕ) → Bool
zero_word (ok (w ∷ [])) = w == 0
zero_word _ = false

-- The header is as long as its format, so its flags are there to be read.
unfoldable pub alpha_function_metadata : Relocatable → Symbol → Bool
unfolding header_flags unpack_from
alpha_function_metadata o s =
    o.bits == 64
    && o.little
    && o.machine == 0x9026
    && zero_word (unpack_from true (4 ∷ []) o.bytes 48)
    && alpha_symbol o s
    && alpha_section o s

-- `kinds`, a dict from names to section kinds
abbrev kinds : List (Bytes × ℕ)
kinds =
    (codes ".reginfo", 0x70000006)
    ∷ (codes ".MIPS.abiflags", 0x7000002a)
    ∷ (codes ".llvm_addrsig", 0x6fff4c03)
    ∷ []

abbrev bears : Section → Bytes × ℕ → Bool
bears s (name, kind) = beq s.name name || s.kind == kind

unfoldable pub marked : Relocatable → List Section
marked o = keep (λ s. any (λ k. beq s.name k.0) kinds || any (λ k. s.kind == k.1) kinds) o.sections

abbrev same_word : Result (List ℕ) → ℕ → Bool
same_word (ok (w ∷ [])) flags = w == flags
same_word _ flags = false

unfoldable pub exact_route : Relocatable → Bool
unfolding header_flags unpack_from
exact_route o = o.bits == 32 && o.little && o.machine == 8 && same_word (header_flags o) 0x70001001

-- The single section of one name or kind, which must have both.
abbrev sole : Bytes × ℕ → List Section → Result Section
sole (name, kind) (s ∷ []) = do
  require (beq s.name name && s.kind == kind)
      "missing, duplicate or mismatched MIPS calibration metadata"
  ok s
sole k _ = err "missing, duplicate or mismatched MIPS calibration metadata"

unfoldable pub selected : Relocatable → Bytes × ℕ → Result Section
selected o k = sole k (keep (λ s. bears s k) o.sections)

abbrev equal : List ℕ → List ℕ → Bool
equal [] [] = true
equal (x ∷ xs) (y ∷ ys) = x == y && equal xs ys
equal _ _ = false

-- (flags, address, size, link, info, alignment, entry_size)
abbrev shape : Section → List ℕ
shape s = s.flags ∷ s.address ∷ s.size ∷ s.link ∷ s.info ∷ s.alignment ∷ s.entry_size ∷ []

-- `struct.unpack`: the bytes are as many as the format's.
unfoldable pub unpack_exact : Bool → List ℕ → Bytes → Result (List ℕ)
unfolding unpack
unpack_exact little format d = do
  require (length d == calcsize format) "struct.error"
  ok (unpack little format d)

unfoldable pub check_reginfo : Relocatable → Section → Result (Unit {0})
unfolding unpack_exact content
check_reginfo o s = do
  require (equal (shape s) (2 ∷ 0 ∷ 24 ∷ 0 ∷ 0 ∷ 4 ∷ 24 ∷ []))
      "unexpected MIPS reginfo section shape"
  d ← content o s
  registers ← unpack_exact true (4 ∷ 4 ∷ 4 ∷ 4 ∷ 4 ∷ 4 ∷ []) d
  require (equal registers (0x80000001 ∷ 0 ∷ 0 ∷ 0 ∷ 0 ∷ 0 ∷ [])) "unexpected MIPS reginfo contents"

unfoldable pub check_abiflags : Relocatable → Section → Result (Unit {0})
unfolding unpack_exact content
check_abiflags o s = do
  require (equal (shape s) (2 ∷ 0 ∷ 24 ∷ 0 ∷ 0 ∷ 8 ∷ 24 ∷ []))
      "unexpected MIPS ABI-flags section shape"
  d ← content o s
  values ← unpack_exact true (2 ∷ 1 ∷ 1 ∷ 1 ∷ 1 ∷ 1 ∷ 1 ∷ 4 ∷ 4 ∷ 4 ∷ 4 ∷ []) d
  require (equal values (0 ∷ 32 ∷ 2 ∷ 1 ∷ 0 ∷ 0 ∷ 3 ∷ 0 ∷ 0 ∷ 1 ∷ 0 ∷ []))
      "unexpected MIPS ABI-flags contents"

unfoldable pub check_addrsig : Relocatable → Section → Result (Unit {0})
check_addrsig o s =
    require (equal (shape s) (0x80000000 ∷ 0 ∷ 0 ∷ o.symbol_table ∷ 0 ∷ 1 ∷ 0 ∷ []))
      "unexpected LLVM address-significance section shape"

-- What the exact route requires of its three sections.
unfoldable pub mips_sections : Relocatable → Result Bool
unfolding selected check_reginfo check_abiflags check_addrsig
mips_sections o = do
  reginfo ← selected o (codes ".reginfo", 0x70000006)
  abi ← selected o (codes ".MIPS.abiflags", 0x7000002a)
  addrsig ← selected o (codes ".llvm_addrsig", 0x6fff4c03)
  require (length (marked o) == 3) "unexpected extra MIPS calibration metadata"
  check_reginfo o reginfo
  check_abiflags o abi
  check_addrsig o addrsig
  ok true

-- `true` stands for the constant record that the source returns, `false` for its `None`.
unfoldable pub mips_calibration_metadata : Relocatable → Result Bool
unfolding exact_route marked mips_sections
mips_calibration_metadata o =
    if exact_route o
    then mips_sections o
    else require (is_empty (marked o)) "MIPS calibration metadata outside exact MIPS32el/O32 route"
      >> ok false
