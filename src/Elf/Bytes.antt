-- ===== src/Elf/Bytes.antt =====
-- Byte strings and `struct.unpack_from`, as fragma/elf.py uses them. A format with the prefix `<`
-- or `>` has no padding, so it is the list of the widths of its fields.
use fragma.Prelude.{
  ℕ, ◌+◌, ◌*◌, Bool, true, false, List, [], ◌∷◌, Result, ok, ◌>>◌, require, leb, length, take, drop,
  ◌==◌, ◌&&◌, Option, none, some,
}
pub use fragma.Prelude.{codes}

abbrev pub Bytes : Type 0
Bytes = List ℕ

-- data[offset:offset + size]
abbrev pub slice : Bytes → ℕ → ℕ → Bytes
slice d offset size = take size (drop offset d)

abbrev pub beq : Bytes → Bytes → Bool
beq [] [] = true
beq (x ∷ xs) (y ∷ ys) = x == y && beq xs ys
beq _ _ = false

-- table.startswith(b"\0")
abbrev pub starts_zero : Bytes → Bool
starts_zero [] = false
starts_zero (b ∷ bs) = b == 0

unfoldable pub little_value : Bytes → ℕ
little_value [] = 0
little_value (b ∷ bs) = b + 256 * little_value bs

unfoldable pub big_value : ℕ → Bytes → ℕ
big_value acc [] = acc
big_value acc (b ∷ bs) = big_value (acc * 256 + b) bs

-- One integer field; the flag is the byte order `<`.
unfoldable pub field_value : Bool → Bytes → ℕ
unfolding little_value big_value
field_value true bs = little_value bs
field_value false bs = big_value 0 bs

abbrev pub calcsize : List ℕ → ℕ
calcsize [] = 0
calcsize (w ∷ ws) = w + calcsize ws

unfoldable pub unpack : Bool → List ℕ → Bytes → List ℕ
unfolding field_value
unpack little [] d = []
unpack little (w ∷ ws) d = field_value little (take w d) ∷ unpack little ws (drop w d)

unfoldable pub unpack_from : Bool → List ℕ → Bytes → ℕ → Result (List ℕ)
unfolding unpack
unpack_from little format d offset = do
  require (leb (offset + calcsize format) (length d)) "struct.error"
  ok (unpack little format (drop offset d))

-- table.find(b"\0", offset), as the bytes in front of the zero byte
unfoldable pub until_zero : Bytes → Option Bytes
until_zero [] = none
until_zero (b ∷ bs) = elim (b == 0) [
  | true ↦ some []
  | false ↦ elim (until_zero bs) [ none ↦ none | some s ↦ some (b ∷ s) ]
]
