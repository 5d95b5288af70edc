-- ===== src/Tests/Text.antt =====
-- Text and byte streams (Ln/, Bitcoin/, Util/), and the semaphore (Ev/), at concrete inputs.
use clboss.Base.{
  ℕ, ◌+◌, ◌%◌, ◌^◌, ◌≡◌, ◌≤◌, ◌<◌, ◌↔◌, ◌⊎◌, refl, true, false, List, [], ◌∷◌, ◌++◌, none, some,
  arith, length,
}
use clboss.Ln.Amount.{Amount}
use clboss.Ln.Amount.Text
use clboss.Ln.Amount.Text.{of_string-to_string}
use clboss.Ln.Scid
use clboss.Ln.Scid.Text.{scid_of_string-to_string}
use clboss.Bitcoin.Le.{read_le_amount, write_le_amount}
use clboss.Bitcoin.Le.RoundTrip.{read_le_amount-write_le_amount}
use clboss.Bitcoin.VarInt.{read_varint, write_varint, read_varint-write_varint}
use clboss.Util.Hex.{hexread, hexdump, ishex}
use clboss.Util.Hex.RoundTrip.{hexread-hexdump, ishex-hexread}
use clboss.Ev.Semaphore.{Semaphore, create, steps, Event, arrives, ends, arrivals}
use clboss.Ln.FeatureBit.{feature_bit}
use clboss.Ln.FeatureBit.Number.{bit_of_number, feature_bit-number}
use clboss.Ev.Semaphore.Fair.{steps-IsFair}

-- A hundred bitcoin, in millisatoshis, is the first amount that is not read back.
of_string-to_string_example :
    (Text.of_string (Text.to_string (10 ^ 13)) ≡ some (10 ^ 13)) ↔ (10 ^ 13 < 10 ^ 13)
of_string-to_string_example = of_string-to_string (10 ^ 13) (omega arith)

scid_of_string-to_string_example :
    Scid.of_string (Scid.to_string 769292810256285697) ≡ some 769292810256285697
scid_of_string-to_string_example = scid_of_string-to_string 769292810256285697 (omega arith)

-- The block number 20000000 does not fit 24 bits, and is read as 3222784.
block_wraps : Scid.parse_number 24 (50 ∷ 48 ∷ 48 ∷ 48 ∷ 48 ∷ 48 ∷ 48 ∷ 48 ∷ []) ≡ some 3222784
unfolding Scid.parse_number Scid.parse_digits
block_wraps = refl

read_le_amount-write_le_amount_example :
    (w : Amount) × (read_le_amount (write_le_amount 1500 ++ []) ≡ some (w, []))
    × (1500 ≤ w)
    × (w < 1500 + 1000)
    × (w % 1000 ≡ 0)
read_le_amount-write_le_amount_example = read_le_amount-write_le_amount 1500 [] (omega arith)

read_varint-write_varint_example : read_varint (write_varint 70000 ++ 9 ∷ []) ≡ some (70000, 9 ∷ [])
read_varint-write_varint_example = read_varint-write_varint 70000 (9 ∷ []) (omega arith)

hexread-hexdump_example : hexread (hexdump (0 ∷ 171 ∷ 255 ∷ [])) ≡ some (0 ∷ 171 ∷ 255 ∷ [])
hexread-hexdump_example = hexread-hexdump (0 ∷ 171 ∷ 255 ∷ []) (omega arith)

ishex-hexread_example :
    ((ishex (48 ∷ 103 ∷ []) ≡ true) × ((vs : List ℕ) × (hexread (48 ∷ 103 ∷ []) ≡ some vs)))
    ⊎ ((ishex (48 ∷ 103 ∷ []) ≡ false) × (hexread (48 ∷ 103 ∷ []) ≡ none))
ishex-hexread_example = ishex-hexread (48 ∷ 103 ∷ [])

abbrev crowd : List Event
crowd = arrives 1 ∷ arrives 2 ∷ arrives 3 ∷ ends 0 ∷ arrives 4 ∷ ends 1 ∷ []

steps-IsFair_example :
    (t : Semaphore) × (steps crowd (create 2) ≡ some t)
    × (length t.running ≤ 2)
    × ((t.blocked ≡ []) ⊎ (length t.running ≡ 2))
    × (t.started ++ t.blocked ≡ arrivals crowd)
steps-IsFair_example = steps-IsFair 2 crowd

-- "0a00": the bits 9 and 11 of a field of two bytes.
feature_bit-number_example :
    feature_bit (48 ∷ 97 ∷ 48 ∷ 48 ∷ []) 11 ≡ bit_of_number (hexread (48 ∷ 97 ∷ 48 ∷ 48 ∷ [])) 11
feature_bit-number_example = feature_bit-number (48 ∷ 97 ∷ 48 ∷ 48 ∷ []) 11
