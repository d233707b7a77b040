-- ===== src/Elf/Parse/Names.antt =====
-- `string`: a name is the bytes of the table from its offset up to the next zero byte.
use fragma.Prelude.{
  ℕ, ◌<◌, ◌≡◌, ◌≢◌, refl, ap, subst, [], ◌∷◌, ◌++◌, some, ok, ltb, length, ◌==◌, drop,
  require-eq-ok, All, arith, Bool-cases, Option-cases, inl, inr, ltb→lt, ◌↔◌,
}
use fragma.Elf.Bytes.{Bytes, until_zero}
use fragma.Elf.Parse.{string_at}

-- `name` stands in `table` at `offset`, a zero byte behind it and none in it.
pub record IsNameAt (table : Bytes) (offset : ℕ) (name : Bytes) : Type 0 where
  pub within : offset < length table
  pub no_zero : All (λ b. b ≢ 0) name
  pub terminated : (rest : Bytes) × (drop offset table ≡ name ++ (0 ∷ rest))

until_zero-split :
    (t : Bytes) {s : Bytes}
    → until_zero t ≡ some s
    → All (λ b. b ≢ 0) s × ((rest : Bytes) × (t ≡ s ++ (0 ∷ rest)))
unfolding until_zero
until_zero-split [] h = cc
until_zero-split (b ∷ bs) {s} h = elim (Bool-cases (b == 0)) [
  | inl z ↦
      let e : [] ≡ s = ground arith in
      subst (λ s'. All (λ x. x ≢ 0) s' × ((rest : Bytes) × (b ∷ bs ≡ s' ++ (0 ∷ rest)))) e
        (tt, (bs, ground arith))
  | inr nz ↦ elim (Option-cases (until_zero bs)) [
    | inl e ↦ ground arith
    | inr (s', e) ↦
        let (a, (rest, split)) = until_zero-split bs e in
        let made : b ∷ s' ≡ s = ground arith in
        subst (λ s''. All (λ x. x ≢ 0) s'' × ((rest : Bytes) × (b ∷ bs ≡ s'' ++ (0 ∷ rest)))) made
          ((λ z. ground arith, a), (rest, ap (λ t. b ∷ t) split))
  ]
]

until_zero-append : (s rest : Bytes) → All (λ b. b ≢ 0) s → until_zero (s ++ (0 ∷ rest)) ≡ some s
unfolding until_zero
until_zero-append [] rest a = refl
until_zero-append (b ∷ s) rest a = ground (arith, until_zero-append s rest a.1, a.0)

-- The lookup succeeds with `name` exactly when `name` stands at the offset, terminated, within the
-- table.
pub string_at_iff :
    (table : Bytes) (offset : ℕ) (name : Bytes)
    → (string_at table offset ≡ ok name) ↔ IsNameAt table offset name
unfolding string_at
string_at_iff table offset name = (read, found)
  where
    read : string_at table offset ≡ ok name → IsNameAt table offset name
    read h =
        let (p, q) = require-eq-ok (ltb offset (length table)) _ _ h in
        elim (Option-cases (until_zero (drop offset table))) [
          | inl e ↦ ground arith
          | inr (s, e) ↦
              let (a, split) = until_zero-split (drop offset table) e in
              let made : s ≡ name = ground arith in
              subst (IsNameAt table offset) made
                (record { within = ltb→lt _ _ p; no_zero = a; terminated = split })
        ]

    found : IsNameAt table offset name → string_at table offset ≡ ok name
    found n =
        let (rest, split) = n.terminated in
        rw (split, until_zero-append name rest n.no_zero) (ground (arith, n.within))
