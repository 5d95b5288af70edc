-- ===== src/Ln/Amount.antt =====
-- Ln/Amount.hpp and Ln/Amount.cpp: `class Ln::Amount`, a number of millisatoshis in a uint64_t.
-- An amount is its field `v`. Doubles occur with integral values only, and such a double is the
-- number that it stands for: `to_double` rounds to the nearest one, ties to even.
pub mod Laws
pub mod Text
use clboss.Base.{ℕ, zero, suc, ◌+◌, ◌-◌, ◌*◌, ◌/◌, ◌%◌, ◌^◌, Bool, not, ltb, ◌==◌, if◌then◌else◌}

abbrev pub Amount : Type 0
Amount = ℕ

abbrev pub u64_max : ℕ
u64_max = 2 ^ 64 - 1

-- The nearest multiple of 2 ^ k, ties to the even multiple.
unfoldable pub round_at : ℕ → ℕ → ℕ
round_at k v =
    let q = v / 2 ^ k in
    let r = v % 2 ^ k * 2 in
    if ltb r (2 ^ k)
    then q * 2 ^ k
    else if ltb (2 ^ k) r
    then (q + 1) * 2 ^ k
    else (q + q % 2) * 2 ^ k

unfoldable pub widen : ℕ → ℕ → ℕ → ℕ
widen zero k v = round_at k v
widen (suc fuel) k v =
    let wider = widen fuel (k + 1) v in if ltb v (2 ^ (53 + k)) then round_at k v else wider

-- `double(v)`: a double has 53 bits of significand.
unfoldable pub to_double : ℕ → ℕ
to_double v = if ltb v (2 ^ 53) then v else widen 75 1 v

abbrev pub sat : ℕ → Amount
sat v = v * 1000 % 2 ^ 64

unfoldable pub to_sat : Amount → ℕ
to_sat v = (v + 999) % 2 ^ 64 / 1000

-- `operator+=`.
unfoldable pub add : Amount → Amount → Amount
add a i = let v = (a + i) % 2 ^ 64 in if ltb v i then u64_max else v

-- `operator-=`.
unfoldable pub sub : Amount → Amount → Amount
sub a i = if ltb a i then 0 else a - i

-- `operator*=(double i)` at an integral `i` that is not negative.
unfoldable pub times : Amount → ℕ → Amount
times a i = let dv = to_double (to_double a * i) in if ltb (2 ^ 64) dv then u64_max else dv

-- `operator/=(double i)` at `i = 2`, which divides a double exactly; the result is truncated.
unfoldable pub half : Amount → Amount
half a = to_double a / 2

-- The comparisons, each by the one above it.
abbrev pub lt : Amount → Amount → Bool
lt a o = ltb a o

abbrev pub gt : Amount → Amount → Bool
gt a o = lt o a

abbrev pub le : Amount → Amount → Bool
le a o = not (gt a o)

abbrev pub ge : Amount → Amount → Bool
ge a o = le o a

abbrev pub eq : Amount → Amount → Bool
eq a o = a == o
