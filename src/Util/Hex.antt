-- ===== src/Util/Hex.antt =====
-- Util/Str.cpp: bytes as hexadecimal text. Text is a list of character codes.
pub mod RoundTrip
pub mod Bytes
use clboss.Base.{
  ℕ, ◌+◌, ◌*◌, ◌/◌, ◌%◌, ◌^◌, Bool, true, false, ◌&&◌, ◌||◌, List, [], ◌∷◌, ◌++◌, Option, none,
  some, ltb, leb, ◌==◌, if◌then◌else◌, bit_or, ◌>>=◌, length,
}

hex_digit : ℕ → ℕ
hex_digit d = if ltb d 10 then 48 + d else 87 + d

pub hexbyte : ℕ → List ℕ
hexbyte v = hex_digit (v / 16) ∷ hex_digit (v % 16) ∷ []

pub hexdump : List ℕ → List ℕ
hexdump [] = []
hexdump (v ∷ vs) = hexbyte v ++ hexdump vs

pub parse_hex : ℕ → Option ℕ
parse_hex c =
    if leb 48 c && leb c 57
    then some (c % 16)
    else if (leb 97 c && leb c 102) || (leb 65 c && leb c 70)
    then some ((c + 9) % 16)
    else none

pub parse_hex_byte : ℕ → ℕ → Option ℕ
parse_hex_byte c0 c1 = do high ← parse_hex c0; low ← parse_hex c1; some (bit_or (high * 2 ^ 4) low)

-- The loop over the pairs of characters; a single one is left only if the length is odd.
pub read_pairs : List ℕ → Option (List ℕ)
read_pairs [] = some []
read_pairs (c0 ∷ []) = none
read_pairs (c0 ∷ c1 ∷ cs) = do v ← parse_hex_byte c0 c1; vs ← read_pairs cs; some (v ∷ vs)

pub hexread : List ℕ → Option (List ℕ)
hexread s = if length s % 2 == 0 then read_pairs s else none

pub all_hex : List ℕ → Bool
all_hex [] = true
all_hex (c ∷ cs) =
    ((leb 48 c && leb c 57) || (leb 97 c && leb c 102) || (leb 65 c && leb c 70)) && all_hex cs

pub ishex : List ℕ → Bool
ishex s = length s % 2 == 0 && all_hex s
