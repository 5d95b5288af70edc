-- ===== src/Ln/Amount/Laws.antt =====
-- The arithmetic of Ln/Amount.hpp where nothing saturates and where it does.
use clboss.Base.{ℕ, ◌+◌, ◌-◌, ◌*◌, ◌/◌, ◌≤◌, ◌<◌, ◌^◌, ◌≡◌, min, arith}
use clboss.Ln.Amount.{Amount, u64_max, to_double, sat, to_sat, add, sub, times, half}

-- `+=` on two 64-bit amounts is the sum, capped at the largest uint64_t.
pub add_saturates : (a b : Amount) → a < 2 ^ 64 → b < 2 ^ 64 → add a b ≡ min (a + b) u64_max
unfolding add
add_saturates a b ha hb = ground arith

pub add_exact : (a b : Amount) → a + b < 2 ^ 64 → add a b ≡ a + b
unfolding add
add_exact a b h = ground arith

pub sub-eq : (a b : Amount) → sub a b ≡ a - b
unfolding sub
sub-eq a b = ground arith

-- Adding and then subtracting gives the amount back, if the sum is below 2^64.
sub-add : (a b : Amount) → a + b < 2 ^ 64 → sub (add a b) b ≡ a
unfolding add sub
sub-add a b h = ground arith

pub times_exact : (a i : Amount) → a < 2 ^ 53 → a * i < 2 ^ 53 → times a i ≡ a * i
unfolding times to_double
times_exact a i h k = ground arith

pub half_exact : (a : Amount) → a < 2 ^ 53 → half a ≡ a / 2
unfolding half to_double
half_exact a h = ground arith

-- Satoshis come back from an amount that was made of them; any other amount is rounded up.
pub to_sat-sat : (s : ℕ) → s * 1000 + 999 < 2 ^ 64 → to_sat (sat s) ≡ s
unfolding to_sat
to_sat-sat s h = omega arith

-- Sums never fall below a summand, not even where they are capped.
pub add_grows : (a b : Amount) → a < 2 ^ 64 → b ≤ 2 ^ 64 → a ≤ add a b
unfolding add
add_grows a b ha hb = ground arith

pub times-le : (a i : ℕ) → times a i ≤ 2 ^ 64
unfolding times
times-le a i = ground arith

pub add-le : (a b : Amount) → b ≤ 2 ^ 64 → add a b ≤ 2 ^ 64
unfolding add
add-le a b h = ground arith
