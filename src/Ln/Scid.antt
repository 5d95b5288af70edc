-- ===== src/Ln/Scid.antt =====
-- Ln/Scid.cpp: short channel ids, a number of 64 bits with the text form `BLOCKxTRANSACTIONxOUTPUT`.
-- Text is a list of character codes.
pub mod Text
use clboss.Base.{
  ℕ, ◌+◌, ◌-◌, ◌*◌, ◌/◌, ◌%◌, ◌^◌, List, [], ◌∷◌, ◌++◌, Option, none, some, ltb, ◌==◌,
  if◌then◌else◌, bit_or, ◌>>=◌,
}
use clboss.Base.Decimal.{is_digit, print_dec}

abbrev pub x_char : ℕ
x_char = 120

-- The loop of `parse_number`; the mask keeps the low `width` bits.
unfoldable pub parse_digits : ℕ → ℕ → List ℕ → Option ℕ
parse_digits width val [] = some val
parse_digits width val (c ∷ cs) =
    let new_val = (val * 10 + (c - 48)) % 2 ^ 64 % 2 ^ width in
    let rest = parse_digits width new_val cs in
    if is_digit c then if ltb new_val val then none else rest else none

unfoldable pub parse_number : ℕ → List ℕ → Option ℕ
parse_number width s = parse_digits width 0 s

-- `std::find(b, e, 'x')`: what is before the character and what is behind it.
pub split_at_x : List ℕ → Option (List ℕ × List ℕ)
split_at_x [] = none
split_at_x (c ∷ cs) =
    let rest = split_at_x cs in
    if c == x_char
    then some ([], cs)
    else elim rest [ none ↦ none | some (front, back) ↦ some (c ∷ front, back) ]

-- One field, which is not empty.
parse_field : ℕ → List ℕ → Option ℕ
parse_field width [] = none
parse_field width (c ∷ cs) = parse_number width (c ∷ cs)

pub validate_and_parse : List ℕ → Option (ℕ × ℕ × ℕ)
validate_and_parse s = do
  (first, s2) ← split_at_x s
  (second, third) ← split_at_x s2
  b ← parse_field 24 first
  t ← parse_field 24 second
  o ← parse_field 16 third
  some (b, t, o)

pub to_string : ℕ → List ℕ
to_string val =
    print_dec (val / 2 ^ 40 % 2 ^ 24)
    ++ (x_char ∷ (print_dec (val / 2 ^ 16 % 2 ^ 24) ++ (x_char ∷ print_dec (val % 2 ^ 16))))

pub of_string : List ℕ → Option ℕ
of_string s = do
  (b, t, o) ← validate_and_parse s
  some (bit_or (bit_or (b * 2 ^ 40) (t * 2 ^ 16)) o)
