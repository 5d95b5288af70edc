-- ===== src/Ln/FeatureBit.antt =====
-- Ln/FeatureBit.cpp: the feature bits of a node, a bit field in hexadecimal text.
pub mod Number
use clboss.Base.{
  ℕ, ◌-◌, ◌/◌, ◌%◌, ◌^◌, Bool, false, not, List, none, some, leb, ◌==◌, if◌then◌else◌, length,
  get_elem?,
}
use clboss.Util.Hex.{hexread}

-- The bit of the bytes, counted from the lowest bit of the last byte.
pub bit_of_bytes : List ℕ → ℕ → Bool
bit_of_bytes bytes bit =
    let byte_from_end = bit / 8 in
    if leb (length bytes) byte_from_end
    then false
    else elim (get_elem? bytes (length bytes - 1 - byte_from_end)) [
      | none ↦ false
      | some b ↦ not ((b / 2 ^ (bit % 8)) % 2 == 0)
    ]

pub feature_bit : List ℕ → ℕ → Bool
feature_bit features_hex bit = elim (hexread features_hex) [
  | none ↦ false
  | some bytes ↦ bit_of_bytes bytes bit
]
