-- ===== src/Ln/Scid/Text.antt =====
-- The text form of short channel ids, printed and read.
use native.Mathlib.Nat.{mod-eq_of_lt}
use clboss.Base.{
  ℕ, ◌+◌, ◌-◌, ◌*◌, ◌/◌, ◌%◌, ◌^◌, ◌≤◌, ◌<◌, ◌≡◌, refl, ap, ◌∙◌, List, [], ◌∷◌, ◌++◌, some, arith,
  bit_or, All, length,
}
use clboss.Base.Bits.{bit_or_high_low}
use clboss.Base.Decimal.{
  IsDigit, print_dec, value_from, value_from-digits_within, digits_within-IsDigit,
  length-digits_within_pos,
}
use clboss.Ln.Scid.{
  x_char, parse_digits, parse_number, split_at_x, parse_field, validate_and_parse, to_string,
  of_string,
}

value_from-le : (acc : ℕ) (cs : List ℕ) → acc ≤ value_from acc cs
unfolding value_from
value_from-le acc [] = omega arith
value_from-le acc (c ∷ cs) = omega (arith, value_from-le (acc * 10 + (c - 48)) cs)

-- Digits whose number fits the field are read as that number.
parse_digits-value_from :
    (width acc : ℕ) (cs : List ℕ)
    → 2 ^ width ≤ 2 ^ 64
    → All IsDigit cs
    → value_from acc cs < 2 ^ width
    → parse_digits width acc cs ≡ some (value_from acc cs)
unfolding parse_digits value_from
parse_digits-value_from width acc [] w d h = refl
parse_digits-value_from width acc (c ∷ cs) w d h =
    let next = acc * 10 + (c - 48) in
    let bound = value_from-le next cs in
    let small : next % 2 ^ 64 ≡ next = omega (arith, bound, h, w) in
    let same : next % 2 ^ width ≡ next = mod-eq_of_lt (omega (arith, bound, h)) in
    rw (small, same) (ground (arith, d.0, parse_digits-value_from width next cs w d.1 h))

-- The front part is digits, so the first `x` is the one behind it.
split_at_x-digits :
    (ds rest : List ℕ) → All IsDigit ds → split_at_x (ds ++ x_char ∷ rest) ≡ some (ds, rest)
unfolding split_at_x
split_at_x-digits [] rest h = refl
split_at_x-digits (d ∷ ds) rest h = ground (arith, h.0, split_at_x-digits ds rest h.1)

parse_field-IsDigit :
    (width n : ℕ) (ds : List ℕ)
    → 2 ^ width ≤ 2 ^ 64
    → 1 ≤ length ds
    → All IsDigit ds
    → value_from 0 ds ≡ n
    → n < 2 ^ width
    → parse_field width ds ≡ some n
unfolding parse_field parse_number
parse_field-IsDigit width n [] w l d e h = absurd (omega (arith, l))
parse_field-IsDigit width n (c ∷ cs) w l d e h =
    parse_digits-value_from width 0 (c ∷ cs) w d (omega (arith, e, h)) ∙ ap (λ m. some m) e

parse_field-print_dec :
    (width n : ℕ) → 2 ^ width ≤ 2 ^ 64 → n < 2 ^ width → parse_field width (print_dec n) ≡ some n
parse_field-print_dec width n w h =
    parse_field-IsDigit width n (print_dec n) w (length-digits_within_pos 19 n)
      (digits_within-IsDigit 19 n) (value_from-digits_within 19 n (omega (arith, h, w))) h

field_sum : (b t : ℕ) → b * 2 ^ 40 + t * 2 ^ 16 ≡ (b * 2 ^ 24 + t) * 2 ^ 16
field_sum b t = omega arith

fields_join :
    (val : ℕ)
    → val < 2 ^ 64
    → bit_or
        (bit_or (val / 2 ^ 40 % 2 ^ 24 * 2 ^ 40) (val / 2 ^ 16 % 2 ^ 24 * 2 ^ 16))
        (val % 2 ^ 16)
      ≡ val
fields_join val h =
    let b = val / 2 ^ 40 % 2 ^ 24 in
    let t = val / 2 ^ 16 % 2 ^ 24 in
    rw
      (
        bit_or_high_low 40 b (t * 2 ^ 16) (omega arith),
        field_sum b t,
        bit_or_high_low 16 (b * 2 ^ 24 + t) (val % 2 ^ 16) (omega arith),
      )
      (omega arith)

-- A short channel id of 64 bits that is printed is read back.
pub scid_of_string-to_string : (val : ℕ) → val < 2 ^ 64 → of_string (to_string val) ≡ some val
unfolding of_string to_string validate_and_parse
scid_of_string-to_string val h =
    let b = print_dec (val / 2 ^ 40 % 2 ^ 24) in
    let t = print_dec (val / 2 ^ 16 % 2 ^ 24) in
    let o = print_dec (val % 2 ^ 16) in
    rw
      (
        split_at_x-digits b (t ++ x_char ∷ o) (digits_within-IsDigit 19 (val / 2 ^ 40 % 2 ^ 24)),
        split_at_x-digits t o (digits_within-IsDigit 19 (val / 2 ^ 16 % 2 ^ 24)),
        parse_field-print_dec 24 (val / 2 ^ 40 % 2 ^ 24) (omega arith) (omega arith),
        parse_field-print_dec 24 (val / 2 ^ 16 % 2 ^ 24) (omega arith) (omega arith),
        parse_field-print_dec 16 (val % 2 ^ 16) (omega arith) (omega arith),
      )
      (ap (λ n. some n) (fields_join val h))
