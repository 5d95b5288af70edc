-- ===== src/Base/Decimal.antt =====
-- Unsigned numbers as decimal text, the way the standard streams print and read them. Text is a
-- list of character codes.
use clboss.Base.{
  All-append, ℕ, zero, suc, ◌+◌, ◌-◌, ◌*◌, ◌/◌, ◌%◌, ◌^◌, ◌≤◌, ◌<◌, ◌≡◌, refl, Bool, ◌&&◌, List, [],
  ◌∷◌, ◌++◌, arith, ltb, leb, if◌then◌else◌, length, length-append, All, Bool-cases, inl, inr,
}
use native.Mathlib.Nat.{pow-suc, one-le-pow}

abbrev pub IsDigit : ℕ → Type 0
IsDigit c = (48 ≤ c) × (c ≤ 57)

-- The character test `'0' <= c && c <= '9'`.
abbrev pub is_digit : ℕ → Bool
is_digit c = leb 48 c && leb c 57

-- The digits of `n`, at most `fuel + 1` of them.
unfoldable pub digits_within : ℕ → ℕ → List ℕ
digits_within zero n = (n % 10 + 48) ∷ []
digits_within (suc fuel) n =
    let front = digits_within fuel (n / 10) in
    if ltb n 10 then (n + 48) ∷ [] else front ++ (n % 10 + 48) ∷ []

-- A uint64_t has at most twenty digits.
abbrev pub print_dec : ℕ → List ℕ
print_dec n = digits_within 19 n

-- The number that a run of digits stands for, after the digits that gave `acc`.
unfoldable pub value_from : ℕ → List ℕ → ℕ
value_from acc [] = acc
value_from acc (c ∷ cs) = value_from (acc * 10 + (c - 48)) cs

pub value_from-append :
    (acc : ℕ) (xs ys : List ℕ) → value_from acc (xs ++ ys) ≡ value_from (value_from acc xs) ys
unfolding value_from
value_from-append acc [] ys = refl
value_from-append acc (x ∷ xs) ys = value_from-append (acc * 10 + (x - 48)) xs ys

pub value_from-digits_within :
    (fuel n : ℕ) → n < 10 ^ suc fuel → value_from 0 (digits_within fuel n) ≡ n
unfolding value_from digits_within
value_from-digits_within zero n h = omega arith
value_from-digits_within (suc fuel) n h = ground (
  arith,
  pow-suc 10 (suc fuel),
  value_from-append 0 (digits_within fuel (n / 10)) ((n % 10 + 48) ∷ []),
  value_from-digits_within fuel (n / 10),
)

pub digits_within-IsDigit : (fuel n : ℕ) → All IsDigit (digits_within fuel n)
unfolding digits_within
digits_within-IsDigit zero n = omega arith
digits_within-IsDigit (suc fuel) n = elim (Bool-cases (ltb n 10)) [
  | inl small ↦ rw small (ground arith)
  | inr big ↦ rw big (
      All-append IsDigit (digits_within fuel (n / 10)) ((n % 10 + 48) ∷ [])
        (digits_within-IsDigit fuel (n / 10)) (omega arith))
]

pub length-digits_within_pos : (fuel n : ℕ) → 1 ≤ length (digits_within fuel n)
unfolding digits_within
length-digits_within_pos zero n = omega arith
length-digits_within_pos (suc fuel) n =
    ground (arith, length-append (digits_within fuel (n / 10)) ((n % 10 + 48) ∷ []))

-- A number below 10 ^ k prints in at most k digits, and one from 10 ^ k on in more than k.
pub length-digits_within-le :
    (fuel k n : ℕ) → 1 ≤ k → n < 10 ^ k → length (digits_within fuel n) ≤ k
unfolding digits_within
length-digits_within-le zero k n h lt = omega arith
length-digits_within-le (suc fuel) zero n h lt = absurd (omega arith)
length-digits_within-le (suc fuel) (suc zero) n h lt = ground arith
length-digits_within-le (suc fuel) (suc (suc k)) n h lt = ground (
  arith,
  pow-suc 10 (suc k),
  length-append (digits_within fuel (n / 10)) ((n % 10 + 48) ∷ []),
  length-digits_within-le fuel (suc k) (n / 10),
)

pub length-digits_within-lt :
    (fuel k n : ℕ) → k ≤ fuel → 10 ^ k ≤ n → k < length (digits_within fuel n)
unfolding digits_within
length-digits_within-lt fuel zero n h le = length-digits_within_pos fuel n
length-digits_within-lt zero (suc k) n h le = absurd (omega arith)
length-digits_within-lt (suc fuel) (suc k) n h le = ground (
  arith,
  one-le-pow k 10,
  pow-suc 10 k,
  length-append (digits_within fuel (n / 10)) ((n % 10 + 48) ∷ []),
  length-digits_within-lt fuel k (n / 10),
)
