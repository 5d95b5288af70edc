-- ===== src/Bitcoin/Le.antt =====
-- Bitcoin/le.cpp: little-endian numbers. A stream is the list of the bytes that are left in it; to
-- read past its end gives `none`, where the code sets the fail bit.
pub mod RoundTrip
use clboss.Base.{◌<◌, All, ℕ, ◌+◌, ◌*◌, ◌/◌, ◌%◌, ◌^◌, List, [], ◌∷◌, Option, none, some, bit_or}
use clboss.Ln.Amount.{Amount, sat, to_sat}

abbrev pub IsBytes : List ℕ → Type 0
IsBytes = All (λ b. b < 256)

-- `(v >> k) & 0xFF`.
abbrev pub byte_at : ℕ → ℕ → ℕ
byte_at k v = v / 2 ^ k % 256

pub write_le16 : ℕ → List ℕ
write_le16 v = byte_at 0 v ∷ byte_at 8 v ∷ []

pub read_le16 : List ℕ → Option (ℕ × List ℕ)
read_le16 (c0 ∷ c1 ∷ is) = some (bit_or c0 (c1 * 2 ^ 8), is)
read_le16 is = none

pub write_le32 : ℕ → List ℕ
write_le32 v = byte_at 0 v ∷ byte_at 8 v ∷ byte_at 16 v ∷ byte_at 24 v ∷ []

abbrev pub join4 : ℕ → ℕ → ℕ → ℕ → ℕ
join4 c0 c1 c2 c3 = bit_or (bit_or (bit_or c0 (c1 * 2 ^ 8)) (c2 * 2 ^ 16)) (c3 * 2 ^ 24)

pub read_le32 : List ℕ → Option (ℕ × List ℕ)
read_le32 (c0 ∷ c1 ∷ c2 ∷ c3 ∷ is) = some (join4 c0 c1 c2 c3, is)
read_le32 is = none

pub write_le64 : ℕ → List ℕ
write_le64 v =
    byte_at 0 v
    ∷ byte_at 8 v
    ∷ byte_at 16 v
    ∷ byte_at 24 v
    ∷ byte_at 32 v
    ∷ byte_at 40 v
    ∷ byte_at 48 v
    ∷ byte_at 56 v
    ∷ []

abbrev pub join8 : ℕ → ℕ → ℕ → ℕ → ℕ → ℕ → ℕ → ℕ → ℕ
join8 c0 c1 c2 c3 c4 c5 c6 c7 =
    bit_or (bit_or (bit_or (bit_or (join4 c0 c1 c2 c3) (c4 * 2 ^ 32)) (c5 * 2 ^ 40)) (c6 * 2 ^ 48))
      (c7 * 2 ^ 56)

pub read_le64 : List ℕ → Option (ℕ × List ℕ)
read_le64 (c0 ∷ c1 ∷ c2 ∷ c3 ∷ c4 ∷ c5 ∷ c6 ∷ c7 ∷ is) = some (join8 c0 c1 c2 c3 c4 c5 c6 c7, is)
read_le64 is = none

pub write_le_amount : Amount → List ℕ
write_le_amount v = write_le64 (to_sat v)

pub read_le_amount : List ℕ → Option (Amount × List ℕ)
read_le_amount is = elim (read_le64 is) [ none ↦ none | some (sats, rest) ↦ some (sat sats, rest) ]
