-- ===== src/Util/Hex/RoundTrip.antt =====
-- What `hexdump` writes, `hexread` reads; and `ishex` tells what `hexread` accepts.
use clboss.Base.{
  ℕ, ◌+◌, ◌*◌, ◌/◌, ◌%◌, ◌^◌, ◌≡◌, ◌<◌, ◌⊎◌, refl, ap, ◌∙◌, Bool, true, false, ◌&&◌, ◌||◌, List, [],
  ◌∷◌, none, some, leb, ◌==◌, bit_or, length, arith, All, Bool-cases, inl, inr,
}
use clboss.Base.Bits.{bit_or_high_low}
use clboss.Util.Hex.{
  hex_digit, hexbyte, hexdump, parse_hex, parse_hex_byte, read_pairs, hexread, all_hex, ishex,
}

parse_hex-hex_digit : (d : ℕ) → d < 16 → parse_hex (hex_digit d) ≡ some d
unfolding parse_hex hex_digit
parse_hex-hex_digit d h = ground arith

parse_hex_byte-hexbyte :
    (v : ℕ) → v < 256 → parse_hex_byte (hex_digit (v / 16)) (hex_digit (v % 16)) ≡ some v
unfolding parse_hex_byte
parse_hex_byte-hexbyte v h =
    rw
      (
        parse_hex-hex_digit (v / 16) (omega arith),
        parse_hex-hex_digit (v % 16) (omega arith),
        parse_hex_byte,
      )
      (ap (λ n. some n) (bit_or_high_low 4 (v / 16) (v % 16) (omega arith) ∙ omega arith))

read_pairs-hexdump : (vs : List ℕ) → All (λ v. v < 256) vs → read_pairs (hexdump vs) ≡ some vs
unfolding read_pairs hexdump hexbyte
read_pairs-hexdump [] h = refl
read_pairs-hexdump (v ∷ vs) h = rw (parse_hex_byte-hexbyte v h.0, read_pairs-hexdump vs h.1) refl

length-hexdump : (vs : List ℕ) → length (hexdump vs) ≡ length vs * 2
unfolding hexdump hexbyte
length-hexdump [] = refl
length-hexdump (v ∷ vs) = omega (arith, length-hexdump vs)

-- Bytes that are dumped are read back.
pub hexread-hexdump : (vs : List ℕ) → All (λ v. v < 256) vs → hexread (hexdump vs) ≡ some vs
unfolding hexread
hexread-hexdump vs h = ground (arith, length-hexdump vs, read_pairs-hexdump vs h)

abbrev is_hex : ℕ → Bool
is_hex c = (leb 48 c && leb c 57) || (leb 97 c && leb c 102) || (leb 65 c && leb c 70)

-- Whether a character is read.
parse_hex-some : (c : ℕ) → is_hex c ≡ true → (d : ℕ) × (parse_hex c ≡ some d)
unfolding parse_hex
parse_hex-some c h = elim (Bool-cases (leb 48 c && leb c 57)) [
  | inl e ↦ (c % 16, ground (arith, e))
  | inr e ↦ ((c + 9) % 16, ground (arith, e, h))
]

parse_hex-none : (c : ℕ) → is_hex c ≡ false → parse_hex c ≡ none
unfolding parse_hex
parse_hex-none c h = ground (arith, h)

read_pairs-IsSome :
    (s : List ℕ)
    → length s % 2 ≡ 0
    → ((all_hex s ≡ true) × ((vs : List ℕ) × (read_pairs s ≡ some vs)))
      ⊎ ((all_hex s ≡ false) × (read_pairs s ≡ none))
unfolding all_hex read_pairs parse_hex_byte
read_pairs-IsSome [] h = inl (refl, ([], refl))
read_pairs-IsSome (c0 ∷ []) h = absurd (omega (arith, h))
read_pairs-IsSome (c0 ∷ c1 ∷ cs) h = elim (Bool-cases (is_hex c0)) [
  | inr e0 ↦ inr (rw e0 refl, rw (parse_hex-none c0 e0) refl)
  | inl e0 ↦
      let (d0, q0) = parse_hex-some c0 e0 in
      elim (Bool-cases (is_hex c1)) [
        | inr e1 ↦ inr (rw (e0, e1) refl, rw (q0, parse_hex-none c1 e1) refl)
        | inl e1 ↦
            let (d1, q1) = parse_hex-some c1 e1 in
            elim (read_pairs-IsSome cs (omega (arith, h))) [
              | inl (a, (vs, q)) ↦
                  inl (rw (e0, e1) a, (bit_or (d0 * 2 ^ 4) d1 ∷ vs, rw (q0, q1, q) refl))
              | inr (a, q) ↦ inr (rw (e0, e1) a, rw (q0, q1, q) refl)
            ]
      ]
]

-- `ishex` accepts exactly the text that `hexread` reads, and `hexread` throws on the rest.
pub ishex-hexread :
    (s : List ℕ)
    → ((ishex s ≡ true) × ((vs : List ℕ) × (hexread s ≡ some vs)))
      ⊎ ((ishex s ≡ false) × (hexread s ≡ none))
unfolding ishex hexread
ishex-hexread s = elim (Bool-cases (length s % 2 == 0)) [
  | inl e ↦ elim (read_pairs-IsSome s (ground (arith, e))) [
    | inl (a, (vs, q)) ↦ inl (rw (e, a) refl, (vs, rw e q))
    | inr (a, q) ↦ inr (rw (e, a) refl, rw e q)
  ]
  | inr e ↦ inr (rw e refl, rw e refl)
]
