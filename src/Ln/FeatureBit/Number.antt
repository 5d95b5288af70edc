-- ===== src/Ln/FeatureBit/Number.antt =====
-- The bytes of a feature field are one number, the first byte the highest.
use clboss.Base.{
  ℕ, zero, suc, ◌+◌, ◌-◌, ◌*◌, ◌/◌, ◌%◌, ◌^◌, ◌≤◌, ◌<◌, ◌≡◌, inl, inr, refl, sym, ap, ◌∙◌, Bool,
  true, false, not, List, [], ◌∷◌, Option, none, some, arith, leb, ◌==◌, length, All, lt_cases,
  Option-cases,
}
use clboss.Util.Hex.{hexread}
use clboss.Util.Hex.Bytes.{hexread-All}
use clboss.Ln.FeatureBit.{bit_of_bytes, feature_bit}
use native.Mathlib.Numerals.{unary_clauses}
use native.Mathlib.Nat.{
  pow-suc, div-div-eq-div-mul, mul-le-mul_right, mul-add-div_right, div-eq_of_lt, pow-le-pow_right,
}

abbrev pub number : List ℕ → ℕ
number [] = 0
number (b ∷ bs) = b * 2 ^ (8 * length bs) + number bs

-- The bit of that number; text that is no hexadecimal has none.
abbrev pub bit_of_number : Option (List ℕ) → ℕ → Bool
bit_of_number none bit = false
bit_of_number (some bytes) bit = (number bytes / 2 ^ bit) % 2 == 1

pow_pos : (n : ℕ) → 0 < 2 ^ n
pow_pos zero = omega arith
pow_pos (suc n) = omega (arith, pow-suc 2 n, pow_pos n)

byte_up : (n : ℕ) → 2 ^ (8 * suc n) ≡ 2 ^ (8 * n) * 256
byte_up n =
    let same : 8 * suc n ≡ suc (suc (suc (suc (suc (suc (suc (suc (8 * n)))))))) = omega arith in
    rw same (simp unary_clauses (omega arith))

number-lt : (bs : List ℕ) → All (λ b. b < 256) bs → number bs < 2 ^ (8 * length bs)
number-lt [] h = omega arith
number-lt (b ∷ bs) h =
    let (h0, hs) = h in
    omega (
      arith,
      byte_up (length bs),
      number-lt bs hs,
      mul-le-mul_right {m = b} {n = 255} (2 ^ (8 * length bs)) (omega (arith, h0)),
    )

pow_split : (m n : ℕ) → 2 ^ (m + n) ≡ 2 ^ m * 2 ^ n
pow_split m zero = simp unary_clauses (omega arith)
pow_split m (suc n) = simp unary_clauses (omega (arith, ap (λ (t : ℕ). t * 2) (pow_split m n)))

-- A field above the bit does not change it.
skip_high : (b low bit j : ℕ) → (b * 2 ^ (bit + suc j) + low) / 2 ^ bit % 2 ≡ low / 2 ^ bit % 2
skip_high b low bit j =
    let t : ℕ = b * 2 ^ j in
    let split : b * 2 ^ (bit + suc j) ≡ (t * 2) * 2 ^ bit =
      rw (pow_split bit (suc j), pow-suc 2 j) (grind arith) in
    rw (split, mul-add-div_right (pow_pos bit) (t * 2) low) (omega arith)

-- The field that starts at or below the bit.
skip_low : (b low n r : ℕ) → low < 2 ^ n → (b * 2 ^ n + low) / 2 ^ (n + r) ≡ b / 2 ^ r
skip_low b low n r h =
    rw
      (
        pow_split n r,
        sym (div-div-eq-div-mul (b * 2 ^ n + low) (2 ^ n) (2 ^ r)),
        mul-add-div_right (pow_pos n) b low,
        div-eq_of_lt h,
      )
      (ap (λ (t : ℕ). t / 2 ^ r) (omega arith))

is_odd : (x : ℕ) → not (x % 2 == 0) ≡ (x % 2 == 1)
is_odd x = ground arith

bit_of_bytes-tail :
    (b : ℕ) (bs : List ℕ) (bit : ℕ)
    → bit / 8 < length bs
    → bit_of_bytes (b ∷ bs) bit ≡ bit_of_bytes bs bit
unfolding bit_of_bytes
bit_of_bytes-tail b bs bit h =
    let next : suc (length bs) - 1 - bit / 8 ≡ suc (length bs - 1 - bit / 8) = omega (arith, h) in
    let more : leb (length bs) (bit / 8) ≡ false = ground (arith, h) in
    let more' : leb (suc (length bs)) (bit / 8) ≡ false = ground (arith, h) in
    rw (more, more', next) refl

bit_of_bytes-head :
    (b : ℕ) (bs : List ℕ) (bit : ℕ)
    → bit / 8 ≡ length bs
    → bit_of_bytes (b ∷ bs) bit ≡ (b / 2 ^ (bit % 8) % 2 == 1)
unfolding bit_of_bytes
bit_of_bytes-head b bs bit h =
    let first : suc (length bs) - 1 - bit / 8 ≡ 0 = omega (arith, h) in
    let more : leb (suc (length bs)) (bit / 8) ≡ false = ground (arith, h) in
    rw (more, first) (is_odd (b / 2 ^ (bit % 8)))

bit_of_bytes-over : (bs : List ℕ) (bit : ℕ) → length bs ≤ bit / 8 → bit_of_bytes bs bit ≡ false
unfolding bit_of_bytes
bit_of_bytes-over bs bit h =
    let over : leb (length bs) (bit / 8) ≡ true = ground (arith, h) in rw over refl

over-number :
    (bs : List ℕ) (bit : ℕ)
    → All (λ b. b < 256) bs
    → length bs ≤ bit / 8
    → (number bs / 2 ^ bit % 2 == 1) ≡ false
over-number bs bit bytes h =
    let small : number bs < 2 ^ bit = omega (
      arith,
      number-lt bs bytes,
      pow-le-pow_right {n = 2} (omega arith) {i = 8 * length bs} {j = bit} (omega (arith, h)),
    ) in
    rw (div-eq_of_lt small) refl

bit_of_bytes-number :
    (bs : List ℕ) (bit : ℕ)
    → All (λ b. b < 256) bs
    → bit_of_bytes bs bit ≡ (number bs / 2 ^ bit % 2 == 1)
bit_of_bytes-number [] bit h =
    bit_of_bytes-over [] bit (omega arith) ∙ sym (over-number [] bit tt (omega arith))
bit_of_bytes-number (b ∷ bs) bit (h0, hs) = elim (lt_cases (bit / 8) (length bs)) [
  | inl below ↦
      let up : 8 * length bs ≡ bit + suc (8 * length bs - bit - 1) = omega (arith, below) in
      bit_of_bytes-tail b bs bit below
      ∙ bit_of_bytes-number bs bit hs
      ∙ ap (λ t. t == 1) (rw up (sym (skip_high b (number bs) bit (8 * length bs - bit - 1))))
  | inr (inl same) ↦
      let down : bit ≡ 8 * length bs + bit % 8 = omega (arith, same) in
      bit_of_bytes-head b bs bit same
      ∙ ap (λ t. t % 2 == 1)
          (sym (skip_low b (number bs) (8 * length bs) (bit % 8) (number-lt bs hs))
            ∙ ap (λ t. number (b ∷ bs) / 2 ^ t) (sym down))
  | inr (inr above) ↦
      bit_of_bytes-over (b ∷ bs) bit (omega (arith, above))
      ∙ sym (over-number (b ∷ bs) bit (h0, hs) (omega (arith, above)))
]

-- `feature_bit` finds the bit of the number that the hexadecimal text spells, its first byte the
-- highest; text that is not hexadecimal has no bit.
pub feature_bit-number :
    (features_hex : List ℕ) (bit : ℕ)
    → feature_bit features_hex bit ≡ bit_of_number (hexread features_hex) bit
unfolding feature_bit
feature_bit-number s bit = elim (Option-cases (hexread s)) [
  | inl e ↦ rw (e, feature_bit) refl
  | inr (bs, e) ↦ rw (e, feature_bit) (bit_of_bytes-number bs bit (hexread-All s bs e))
]
