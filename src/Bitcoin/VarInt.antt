-- ===== src/Bitcoin/VarInt.antt =====
-- Bitcoin/varint.cpp: numbers in one, three, five or nine bytes.
use clboss.Base.{
  ℕ, ◌^◌, ◌≡◌, ◌<◌, refl, List, [], ◌∷◌, ◌++◌, Option, none, some, arith, ltb, leb, ◌==◌,
  if◌then◌else◌,
}
use clboss.Bitcoin.Le.{IsBytes, write_le16, read_le16, write_le32, read_le32, write_le64, read_le64}
use clboss.Bitcoin.Le.RoundTrip.{
  read_le16-write_le16, read_le32-write_le32, read_le64-write_le64, write_le16-IsBytes,
  write_le32-IsBytes, write_le64-IsBytes,
}

pub write_varint : ℕ → List ℕ
write_varint v =
    if ltb v 0xFD
    then v ∷ []
    else if leb v 0xFFFF
    then 0xFD ∷ write_le16 v
    else if leb v 0xFFFFFFFF
    then 0xFE ∷ write_le32 v
    else 0xFF ∷ write_le64 v

pub read_varint : List ℕ → Option (ℕ × List ℕ)
read_varint [] = none
read_varint (t ∷ is) =
    if ltb t 0xFD
    then some (t, is)
    else if t == 0xFD
    then read_le16 is
    else if t == 0xFE
    then read_le32 is
    else read_le64 is

-- A number of 64 bits that is written is read back, and what follows is left.
pub read_varint-write_varint :
    (v : ℕ) (rest : List ℕ) → v < 2 ^ 64 → read_varint (write_varint v ++ rest) ≡ some (v, rest)
unfolding read_varint write_varint
read_varint-write_varint v rest h =
    ground
      (arith, read_le16-write_le16 v rest, read_le32-write_le32 v rest, read_le64-write_le64 v rest)

-- The byte zero stands for itself.
pub read_varint_zero : (rest : List ℕ) → read_varint (0 ∷ rest) ≡ some (0, rest)
unfolding read_varint
read_varint_zero rest = refl

pub write_varint-IsBytes : (v : ℕ) → IsBytes (write_varint v)
unfolding write_varint
write_varint-IsBytes v =
    ground (arith, write_le16-IsBytes v, write_le32-IsBytes v, write_le64-IsBytes v)
