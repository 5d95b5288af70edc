-- ===== src/OnchainFee/Percentile.antt =====
-- What a percentile of the samples means, and that the three are in order.
use clboss.Base.{
  ℕ, zero, suc, ◌*◌, ◌/◌, ◌≤◌, ◌<◌, ◌≡◌, refl, subst, ap, inl, inr, true, false, List, [], ◌∷◌, map,
  arith, ltb, leb, ◌==◌, length, count_if, le_cases,
}
use native.Mathlib.Nat.{mul-lt-mul_of_pos_left, mul-le-mul_left}
use clboss.Base.Sorting.{AscendingFrom, insert_all, insert_all-ascending, insert_all-count}
use clboss.OnchainFee.{row_at, get_feerate_at_percentile}

row_at-from : (b : ℕ) (xs : List ℕ) (i : ℕ) → AscendingFrom b xs → i < length xs → b ≤ row_at xs i
unfolding row_at
row_at-from b [] i a h = absurd (omega (arith, h))
row_at-from b (x ∷ xs) zero a h = a.0
row_at-from b (x ∷ xs) (suc i) a h = omega (arith, a.0, row_at-from x xs i a.1 (omega (arith, h)))

row_at-rises :
    (b : ℕ) (xs : List ℕ) (i j : ℕ)
    → AscendingFrom b xs
    → i ≤ j
    → j < length xs
    → row_at xs i ≤ row_at xs j
unfolding row_at
row_at-rises b [] i j a h fits = absurd (omega (arith, fits))
row_at-rises b (x ∷ xs) zero zero a h fits = omega arith
row_at-rises b (x ∷ xs) zero (suc j) a h fits = row_at-from x xs j a.1 (omega (arith, fits))
row_at-rises b (x ∷ xs) (suc i) zero a h fits = absurd (omega (arith, h))
row_at-rises b (x ∷ xs) (suc i) (suc j) a h fits =
    row_at-rises x xs i j a.1 (omega (arith, h)) (omega (arith, fits))

none_less : (v b : ℕ) (xs : List ℕ) → v ≤ b → AscendingFrom b xs → count_if (λ x. ltb x v) xs ≡ 0
none_less v b [] h a = refl
none_less v b (x ∷ xs) h (a0, rises) =
    ground (arith, h, a0, none_less v x xs (omega (arith, h, a0)) rises)

row_at-counts :
    (b : ℕ) (xs : List ℕ) (i : ℕ)
    → AscendingFrom b xs
    → i < length xs
    → (count_if (λ x. ltb x (row_at xs i)) xs ≤ i) × (i < count_if (λ x. leb x (row_at xs i)) xs)
unfolding row_at
row_at-counts b [] i a h = absurd (omega (arith, h))
row_at-counts b (x ∷ xs) zero (a0, rises) h =
    (ground (arith, none_less x x xs (omega arith) rises), ground arith)
row_at-counts b (x ∷ xs) (suc i) (a0, rises) h =
    let (few, many) = row_at-counts x xs i rises (omega (arith, h)) in
    let low = row_at-from x xs i rises (omega (arith, h)) in
    (ground (arith, few), ground (arith, many, low))

map_same : (xs : List ℕ) → map (λ x. x) xs ≡ xs
map_same [] = refl
map_same (x ∷ xs) = ap (λ ys. x ∷ ys) (map_same xs)

abbrev sorted : List ℕ → List ℕ
sorted xs = insert_all (λ x. x) xs []

sorted-ascending : (xs : List ℕ) → AscendingFrom 0 (sorted xs)
sorted-ascending xs =
    subst (AscendingFrom 0) (map_same (sorted xs)) (insert_all-ascending (λ x. x) xs [] tt)

count_true : (xs : List ℕ) → count_if (λ x. true) xs ≡ length xs
count_true [] = refl
count_true (x ∷ xs) = omega (arith, count_true xs)

length-sorted : (xs : List ℕ) → length (sorted xs) ≡ length xs
length-sorted xs =
    omega
      (arith, insert_all-count (λ x. x) (λ x. true) xs [], count_true xs, count_true (sorted xs))

-- The row that is taken, when the percentile is below a hundred.
feerate_row :
    (p : ℕ) (xs : List ℕ)
    → p < 100
    → 0 < length xs
    → (length xs * p / 100 < length xs)
      × (get_feerate_at_percentile p xs ≡ row_at (sorted xs) (length xs * p / 100))
unfolding get_feerate_at_percentile
feerate_row p xs h some_rows =
    let fits : length xs * p / 100 < length xs =
      omega (arith, mul-lt-mul_of_pos_left {m = p} {n = 100} {k = length xs} h some_rows) in
    let filled : (length xs == 0) ≡ false = ground (arith, some_rows) in
    let inside : leb (length xs) (length xs * p / 100) ≡ false = ground (arith, fits) in
    (fits, rw (filled, inside) refl)

-- For a percentile `p` below 100 and a table that is not empty, the feerate at the percentile has
-- at most `p` hundredths of the samples below it, and more than `p` hundredths at or below it.
pub feerate-counts :
    (p : ℕ) (xs : List ℕ)
    → p < 100
    → 0 < length xs
    → (count_if (λ x. ltb x (get_feerate_at_percentile p xs)) xs * 100 ≤ length xs * p)
      × (length xs * p < count_if (λ x. leb x (get_feerate_at_percentile p xs)) xs * 100)
feerate-counts p xs h some_rows =
    let (fits, e) = feerate_row p xs h some_rows in
    let (few, many) =
      row_at-counts 0 (sorted xs) (length xs * p / 100) (sorted-ascending xs)
        (omega (arith, fits, length-sorted xs)) in
    let v : ℕ = row_at (sorted xs) (length xs * p / 100) in
    rw e (
      omega (arith, few, insert_all-count (λ x. x) (λ x. ltb x v) xs []),
      omega (arith, many, insert_all-count (λ x. x) (λ x. leb x v) xs []),
    )

pub feerate-rises :
    (p q : ℕ) (xs : List ℕ)
    → p ≤ q
    → q < 100
    → get_feerate_at_percentile p xs ≤ get_feerate_at_percentile q xs
unfolding get_feerate_at_percentile
feerate-rises p q xs h below = elim (le_cases (length xs) 0) [
  | inl e ↦ let empty : (length xs == 0) ≡ true = ground (arith, e) in rw empty (omega arith)
  | inr some_rows ↦
      let (fits, e) = feerate_row q xs below some_rows in
      let (fits', e') = feerate_row p xs (omega (arith, h, below)) some_rows in
      let earlier = mul-le-mul_left {m = p} {n = q} (length xs) h in
      let rises =
        row_at-rises 0 (sorted xs) (length xs * p / 100) (length xs * q / 100) (sorted-ascending xs)
          (omega (arith, earlier)) (omega (arith, fits, length-sorted xs)) in
      omega (arith, e, e', rises)
]
