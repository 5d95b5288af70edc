-- ===== src/Bitcoin/Le/RoundTrip.antt =====
-- What is written in little-endian order is read back.
use clboss.Base.{ℕ, ◌+◌, ◌*◌, ◌%◌, ◌^◌, ◌≡◌, ◌<◌, ◌≤◌, refl, ap, List, ◌++◌, some, arith, bit_or}
use clboss.Base.Bits.{bit_or_low_high}
use clboss.Ln.Amount.{Amount, sat, to_sat}
use clboss.Bitcoin.Le.{
  IsBytes, byte_at, write_le16, read_le16, write_le32, join4, read_le32, write_le64, join8,
  read_le64, write_le_amount, read_le_amount,
}

pub join2-sum : (c0 c1 : ℕ) → c0 < 256 → bit_or c0 (c1 * 2 ^ 8) ≡ c0 + c1 * 2 ^ 8
join2-sum c0 c1 h = bit_or_low_high 8 c0 c1 (omega arith)

pub join4-sum :
    (c0 c1 c2 c3 : ℕ)
    → c0 < 256
    → c1 < 256
    → c2 < 256
    → join4 c0 c1 c2 c3 ≡ c0 + c1 * 2 ^ 8 + c2 * 2 ^ 16 + c3 * 2 ^ 24
join4-sum c0 c1 c2 c3 h0 h1 h2 =
    rw
      (
        join2-sum c0 c1 h0,
        bit_or_low_high 16 (c0 + c1 * 2 ^ 8) c2 (omega arith),
        bit_or_low_high 24 (c0 + c1 * 2 ^ 8 + c2 * 2 ^ 16) c3 (omega arith),
      )
      refl

pub join8-sum :
    (c0 c1 c2 c3 c4 c5 c6 c7 : ℕ)
    → c0 < 256
    → c1 < 256
    → c2 < 256
    → c3 < 256
    → c4 < 256
    → c5 < 256
    → c6 < 256
    → join8 c0 c1 c2 c3 c4 c5 c6 c7
      ≡ c0
        + c1 * 2 ^ 8
        + c2 * 2 ^ 16
        + c3 * 2 ^ 24
        + c4 * 2 ^ 32
        + c5 * 2 ^ 40
        + c6 * 2 ^ 48
        + c7 * 2 ^ 56
join8-sum c0 c1 c2 c3 c4 c5 c6 c7 h0 h1 h2 h3 h4 h5 h6 =
    let s4 = c0 + c1 * 2 ^ 8 + c2 * 2 ^ 16 + c3 * 2 ^ 24 in
    let s5 = s4 + c4 * 2 ^ 32 in
    let s6 = s5 + c5 * 2 ^ 40 in
    rw
      (
        join4-sum c0 c1 c2 c3 h0 h1 h2,
        bit_or_low_high 32 s4 c4 (omega arith),
        bit_or_low_high 40 s5 c5 (omega arith),
        bit_or_low_high 48 s6 c6 (omega arith),
        bit_or_low_high 56 (s6 + c6 * 2 ^ 48) c7 (omega arith),
      )
      refl

join2_bytes : (v : ℕ) → v < 2 ^ 16 → bit_or (byte_at 0 v) (byte_at 8 v * 2 ^ 8) ≡ v
join2_bytes v h = omega (arith, join2-sum (byte_at 0 v) (byte_at 8 v) (omega arith))

join4_bytes :
    (v : ℕ) → v < 2 ^ 32 → join4 (byte_at 0 v) (byte_at 8 v) (byte_at 16 v) (byte_at 24 v) ≡ v
join4_bytes v h = omega (
  arith,
  join4-sum (byte_at 0 v) (byte_at 8 v) (byte_at 16 v) (byte_at 24 v) (omega arith) (omega arith)
      (omega arith),
)

join8_bytes :
    (v : ℕ)
    → v < 2 ^ 64
    → join8
        (byte_at 0 v)
        (byte_at 8 v)
        (byte_at 16 v)
        (byte_at 24 v)
        (byte_at 32 v)
        (byte_at 40 v)
        (byte_at 48 v)
        (byte_at 56 v)
      ≡ v
join8_bytes v h = omega (
  arith,
  join8-sum (byte_at 0 v) (byte_at 8 v) (byte_at 16 v) (byte_at 24 v) (byte_at 32 v) (byte_at 40 v)
      (byte_at 48 v) (byte_at 56 v) (omega arith) (omega arith) (omega arith) (omega arith)
      (omega arith) (omega arith) (omega arith),
)

pub read_le16-write_le16 :
    (v : ℕ) (rest : List ℕ) → v < 2 ^ 16 → read_le16 (write_le16 v ++ rest) ≡ some (v, rest)
unfolding read_le16 write_le16
read_le16-write_le16 v rest h = ap (λ n. some (n, rest)) (join2_bytes v h)

pub read_le32-write_le32 :
    (v : ℕ) (rest : List ℕ) → v < 2 ^ 32 → read_le32 (write_le32 v ++ rest) ≡ some (v, rest)
unfolding read_le32 write_le32
read_le32-write_le32 v rest h = ap (λ n. some (n, rest)) (join4_bytes v h)

-- A number of 64 bits that is written in eight bytes is read back, and what follows is left.
pub read_le64-write_le64 :
    (v : ℕ) (rest : List ℕ) → v < 2 ^ 64 → read_le64 (write_le64 v ++ rest) ≡ some (v, rest)
unfolding read_le64 write_le64
read_le64-write_le64 v rest h = ap (λ n. some (n, rest)) (join8_bytes v h)

-- An amount at least 1000 below 2^64 that is written is read back as whole satoshis, rounded up,
-- and what follows is left.
pub read_le_amount-write_le_amount :
    (v : Amount) (rest : List ℕ)
    → v + 999 < 2 ^ 64
    → (w : Amount) × (read_le_amount (write_le_amount v ++ rest) ≡ some (w, rest))
      × (v ≤ w)
      × (w < v + 1000)
      × (w % 1000 ≡ 0)
unfolding read_le_amount write_le_amount to_sat
read_le_amount-write_le_amount v rest h = (
  sat (to_sat v),
  rw (read_le64-write_le64 (to_sat v) rest (omega arith), read_le_amount) refl,
  omega arith,
  omega arith,
  omega arith,
)

-- What is written is bytes.
pub write_le16-IsBytes : (v : ℕ) → IsBytes (write_le16 v)
unfolding write_le16
write_le16-IsBytes v = omega arith

pub write_le32-IsBytes : (v : ℕ) → IsBytes (write_le32 v)
unfolding write_le32
write_le32-IsBytes v = omega arith

pub write_le64-IsBytes : (v : ℕ) → IsBytes (write_le64 v)
unfolding write_le64
write_le64-IsBytes v = omega arith

pub write_le_amount-IsBytes : (v : Amount) → IsBytes (write_le_amount v)
unfolding write_le_amount
write_le_amount-IsBytes v = write_le64-IsBytes (to_sat v)
