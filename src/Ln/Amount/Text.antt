-- ===== src/Ln/Amount/Text.antt =====
-- Ln/Amount.cpp: amounts as text, with the suffix `msat`.
use clboss.Base.{
  ℕ, ◌+◌, ◌-◌, ◌^◌, ◌≤◌, ◌<◌, ◌≡◌, refl, ◌↔◌, Bool, true, false, not, List, [], ◌∷◌, ◌++◌, Option,
  none, some, arith, ltb, ◌==◌, if◌then◌else◌, length, length-append, take, drop, take-length,
  drop-length, all_of, All,
}
use clboss.Base.Decimal.{
  IsDigit, is_digit, print_dec, value_from, value_from-digits_within, digits_within-IsDigit,
  length-digits_within_pos, length-digits_within-le, length-digits_within-lt,
}
use clboss.Ln.Amount.{Amount}

abbrev pub same_text : List ℕ → List ℕ → Bool
same_text [] [] = true
same_text (c ∷ cs) (d ∷ ds) = if c == d then same_text cs ds else false
same_text _ _ = false

abbrev pub msat_suffix : List ℕ
msat_suffix = b'm' ∷ b's' ∷ b'a' ∷ b't' ∷ []

-- `Amount::valid_string`.
pub valid_string : List ℕ → Bool
valid_string s =
    let digits = length s - 4 in
    if ltb (length s) 5
    then false
    else if not (same_text (drop digits s) msat_suffix)
    then false
    else if not (all_of is_digit (take digits s))
    then false
    else if ltb (13 + 4) (length s)
    then false
    else true

-- The constructor from text; `none` is its exception. A valid text has at most 13 digits, so the
-- stream's read cannot overflow.
pub of_string : List ℕ → Option Amount
of_string s = if not (valid_string s) then none else some (value_from 0 (take (length s - 4) s))

pub to_string : Amount → List ℕ
to_string v = print_dec v ++ msat_suffix

all_of-IsDigit : (cs : List ℕ) → All IsDigit cs → all_of is_digit cs ≡ true
all_of-IsDigit [] h = refl
all_of-IsDigit (c ∷ cs) h = ground (arith, all_of-IsDigit cs h.1)

-- What the validity test says of digits with the suffix behind them.
valid_digits :
    (cs : List ℕ)
    → 1 ≤ length cs
    → All IsDigit cs
    → valid_string (cs ++ msat_suffix) ≡ (if ltb 13 (length cs) then false else true)
unfolding valid_string
valid_digits cs h d =
    let e : length (cs ++ msat_suffix) - 4 ≡ length cs =
      omega (arith, length-append cs msat_suffix) in
    rw (e, take-length cs msat_suffix, drop-length cs msat_suffix, all_of-IsDigit cs d)
      (ground (arith, length-append cs msat_suffix))

of_digits :
    (cs : List ℕ)
    → 1 ≤ length cs
    → All IsDigit cs
    → of_string (cs ++ msat_suffix) ≡ (if ltb 13 (length cs) then none else some (value_from 0 cs))
unfolding of_string
of_digits cs h d =
    let e : length (cs ++ msat_suffix) - 4 ≡ length cs =
      omega (arith, length-append cs msat_suffix) in
    rw (e, take-length cs msat_suffix, valid_digits cs h d) (ground arith)

-- An amount of 64 bits printed as text is read back exactly when it is below 10^13 millisatoshis.
pub of_string-to_string :
    (v : Amount) → v < 2 ^ 64 → (of_string (to_string v) ≡ some v) ↔ (v < 10 ^ 13)
unfolding to_string
of_string-to_string v h =
    let read =
      of_digits (print_dec v) (length-digits_within_pos 19 v) (digits_within-IsDigit 19 v) in
    let value = value_from-digits_within 19 v (omega arith) in
    (
      λ e. ground (arith, read, value, length-digits_within-lt 19 13 v),
      λ small. ground (arith, read, value, length-digits_within-le 19 13 v),
    )
