-- ===== src/Base/Integers.antt =====
-- Signed integers over the native numbers, for prices and lifetimes.
use clboss.Base.{ℕ, ◌+◌, ◌-◌, ◌≤◌, ◌≡◌, Bool, true, arith, ltb, ◌==◌, if◌then◌else◌}

pub data ℤ : Type 0 where
  pos : ℕ → ℤ
  negsuc : ℕ → ℤ

-- `z + n`, for a number that is not negative.
abbrev pub add_nat : ℤ → ℕ → ℤ
add_nat (pos a) n = pos (a + n)
add_nat (negsuc a) n = if ltb a n then pos (n - a - 1) else negsuc (a - n)

-- `z - n`, for a number that is not negative.
abbrev pub sub_nat : ℤ → ℕ → ℤ
sub_nat (pos a) n = if ltb a n then negsuc (n - a - 1) else pos (a - n)
sub_nat (negsuc a) n = negsuc (a + n)

-- `z <= 0`.
abbrev pub is_spent : ℤ → Bool
is_spent (pos a) = a == 0
is_spent (negsuc a) = true

-- How far two integers are apart.
abbrev pub distance : ℤ → ℤ → ℕ
distance (pos a) (pos b) = (a - b) + (b - a)
distance (pos a) (negsuc b) = a + b + 1
distance (negsuc a) (pos b) = a + b + 1
distance (negsuc a) (negsuc b) = (a - b) + (b - a)

pub distance-add_nat : (z : ℤ) (n : ℕ) → distance (add_nat z n) z ≡ n
distance-add_nat (pos a) n = ground arith
distance-add_nat (negsuc a) n = ground arith

pub distance-sub_nat : (z : ℤ) (n : ℕ) → distance (sub_nat z n) z ≡ n
distance-sub_nat (pos a) n = ground arith
distance-sub_nat (negsuc a) n = ground arith

pub distance_self : (z : ℤ) → distance z z ≡ 0
distance_self (pos a) = ground arith
distance_self (negsuc a) = ground arith

-- What runs down to zero or below has run out.
pub is_spent-sub_nat : (n k : ℕ) → is_spent (sub_nat (pos n) k) ≡ true → n ≤ k
is_spent-sub_nat n k h = ground arith
