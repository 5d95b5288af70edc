-- ===== src/Util/Hex/Bytes.antt =====
-- What `hexread` reads are bytes.
use clboss.Base.{
  ℕ, ◌%◌, ◌<◌, ◌≡◌, inl, inr, subst, List, [], ◌∷◌, some, arith, length, All, Option-cases,
  Bool-cases, ◌==◌,
}
use clboss.Base.Bits.{bit_or_high_low}
use clboss.Util.Hex.{parse_hex, parse_hex_byte, read_pairs, hexread}

parse_hex-lt : (c d : ℕ) → parse_hex c ≡ some d → d < 16
unfolding parse_hex
parse_hex-lt c d h = ground (arith, h)

parse_hex_byte-lt : (c0 c1 v : ℕ) → parse_hex_byte c0 c1 ≡ some v → v < 256
unfolding parse_hex_byte
parse_hex_byte-lt c0 c1 v h = elim (Option-cases (parse_hex c0)) [
  | inl e ↦ absurd (ground (arith, h, e))
  | inr (high, e) ↦ elim (Option-cases (parse_hex c1)) [
    | inl f ↦ absurd (ground (arith, h, e, f))
    | inr (low, f) ↦ ground (
      arith,
      h,
      e,
      f,
      parse_hex-lt c0 high e,
      parse_hex-lt c1 low f,
      bit_or_high_low 4 high low (parse_hex-lt c1 low f),
    )
  ]
]

read_pairs-All : (s vs : List ℕ) → read_pairs s ≡ some vs → All (λ v. v < 256) vs
unfolding read_pairs
read_pairs-All [] vs h =
    let same : [] ≡ vs = ground (arith, h) in subst (All (λ v. v < 256)) same tt
read_pairs-All (c0 ∷ []) vs h = absurd (ground (arith, h))
read_pairs-All (c0 ∷ c1 ∷ cs) vs h = elim (Option-cases (parse_hex_byte c0 c1)) [
  | inl e ↦ absurd (ground (arith, h, e))
  | inr (v, e) ↦ elim (Option-cases (read_pairs cs)) [
    | inl f ↦ absurd (ground (arith, h, e, f))
    | inr (rest, f) ↦
        let same : v ∷ rest ≡ vs = ground (arith, h, e, f) in
        subst (All (λ v. v < 256)) same (parse_hex_byte-lt c0 c1 v e, read_pairs-All cs rest f)
  ]
]

pub hexread-All : (s vs : List ℕ) → hexread s ≡ some vs → All (λ v. v < 256) vs
unfolding hexread
hexread-All s vs h = elim (Bool-cases (length s % 2 == 0)) [
  | inl e ↦ read_pairs-All s vs (ground (arith, h, e))
  | inr e ↦ absurd (ground (arith, h, e))
]
