-- ===== src/Swap/Reduction.antt =====
-- A swap that keeps failing is given up.
use native.Mathlib.Nat.{mod-lt, mul-le-mul_right, pow-suc}
use clboss.Base.{
  ℕ, zero, suc, ◌+◌, ◌-◌, ◌*◌, ◌/◌, ◌%◌, ◌^◌, ◌≤◌, ◌<◌, ◌≡◌, refl, ap, inl, inr, false, List, [],
  ◌∷◌, none, some, arith, ◌==◌, length, keep_if, not, ==_refl, Bool-cases, Option-cases,
}
use clboss.Swap.{Swap, SwapManager, Message, swap_response, has_uuid, last_where, update_where}
use clboss.Swap.Settle.{draw_amount, reduced, retry_with, fail_swap, reduce_or_fail}

-- One reduction after the other, until a message is raised.
pub attempts : List ℕ → ℕ → SwapManager → SwapManager × List Message
attempts [] u m = (m, [])
attempts (roll ∷ rolls) u m =
    let r = reduce_or_fail roll u m in
    let rest = attempts rolls u r.0 in elim r.1 [ [] ↦ rest | msg ∷ msgs ↦ r ]

drawn_bounds : (roll amount : ℕ) → amount * 3 < 2 ^ 64 → 4 * draw_amount roll amount ≤ 3 * amount
unfolding draw_amount
drawn_bounds roll amount fits =
    let k : ℕ = amount * 3 % 2 ^ 64 / 4 - amount / 4 in
    let below : roll % (k + 1) < k + 1 = mod-lt roll {m = k + 1} (omega arith) in
    omega (arith, fits, below)

-- A reduction takes at least a quarter off what is above the smallest amount.
reduced_shrinks :
    (roll amount min_amount : ℕ)
    → min_amount ≤ amount
    → amount * 3 < 2 ^ 64
    → (min_amount ≤ reduced roll amount min_amount)
      × (reduced roll amount min_amount ≤ amount)
      × (4 * (reduced roll amount min_amount - min_amount) ≤ 3 * (amount - min_amount))
unfolding reduced
reduced_shrinks roll amount min_amount h fits =
    let drawn = drawn_bounds roll amount fits in ground (arith, drawn, h)

module _ (u amount : ℕ) where
  retried_none :
      (xs : List Swap)
      → last_where (has_uuid u) xs ≡ none
      → last_where (has_uuid u) (update_where (has_uuid u) (retry_with amount) xs) ≡ none
  retried_none [] h = refl
  retried_none (x ∷ xs) h = elim (Option-cases (last_where (has_uuid u) xs)) [
    | inl e ↦ ground (arith, h, e, retried_none xs e)
    | inr (y, e) ↦ absurd (ground (arith, h, e))
  ]

  retried_row :
      (xs : List Swap) (s : Swap)
      → last_where (has_uuid u) xs ≡ some s
      → last_where (has_uuid u) (update_where (has_uuid u) (retry_with amount) xs)
        ≡ some (retry_with amount s)
  retried_row [] s h = cc
  retried_row (x ∷ xs) s h = elim (Option-cases (last_where (has_uuid u) xs)) [
    | inl e ↦ ground (arith, h, e, retried_none xs e)
    | inr (y, e) ↦ ground (arith, h, e, retried_row xs y e)
  ]

  deleted_row :
      (xs : List Swap) → last_where (has_uuid u) (keep_if (λ s. not (has_uuid u s)) xs) ≡ none
  deleted_row [] = refl
  deleted_row (x ∷ xs) = ground (arith, deleted_row xs)

module _ (roll u : ℕ) (s : Swap) (m : SwapManager)
    (e : last_where (has_uuid u) m.swaps ≡ some s) where
  -- At the smallest amount the swap fails.
  reduce_fails :
      s.amount ≡ s.min_amount
      → ((reduce_or_fail roll u m).1 ≡ swap_response u false 0 ∷ [])
        × (last_where (has_uuid u) (reduce_or_fail roll u m).0.swaps ≡ none)
  unfolding reduce_or_fail fail_swap
  reduce_fails h = rw (e, h, ==_refl s.min_amount, reduce_or_fail) (refl, deleted_row u 0 m.swaps)

  -- Above it the swap gets another row.
  reduce_retries :
      (s.amount == s.min_amount) ≡ false
      → ((reduce_or_fail roll u m).1 ≡ [])
        × (last_where (has_uuid u) (reduce_or_fail roll u m).0.swaps
            ≡ some (retry_with (reduced roll s.amount s.min_amount) s))
  unfolding reduce_or_fail
  reduce_retries h =
      rw (e, h, reduce_or_fail)
        (refl, retried_row u (reduced roll s.amount s.min_amount) m.swaps s e)

power_step : (n d d' : ℕ) → 4 * d' ≤ 3 * d → d * 3 ^ suc n < 4 ^ suc n → d' * 3 ^ n < 4 ^ n
power_step n d d' h small =
    let p : ℕ = 3 ^ n in
    let bound : 4 * d' * p ≤ 3 * d * p = mul-le-mul_right p h in
    let power : d * 3 ^ suc n ≡ d * (p * 3) = ap (λ (t : ℕ). d * t) (pow-suc 3 n) in
    grind (arith, bound, power, small, pow-suc 4 n)

-- A swap whose minimum is at most its amount, three times which fits 64 bits, and whose distance
-- `d` to the minimum satisfies `d * 3 ^ n < 4 ^ n`, is gone after `n + 1` reductions at most,
-- whatever the random numbers are, with one message that it failed.
pub attempts-fail :
    (n : ℕ) (rolls : List ℕ) (u : ℕ) (s : Swap) (m : SwapManager)
    → last_where (has_uuid u) m.swaps ≡ some s
    → s.min_amount ≤ s.amount
    → s.amount * 3 < 2 ^ 64
    → (s.amount - s.min_amount) * 3 ^ n < 4 ^ n
    → n < length rolls
    → ((attempts rolls u m).1 ≡ swap_response u false 0 ∷ [])
      × (last_where (has_uuid u) (attempts rolls u m).0.swaps ≡ none)
unfolding attempts
attempts-fail n [] u s m e floor fits small long = absurd (omega (arith, long))
attempts-fail zero (roll ∷ rolls) u s m e floor fits small long =
    let (failed, gone) = reduce_fails roll u s m e (omega (arith, floor, small)) in
    rw (failed, attempts) (failed, gone)
attempts-fail (suc n) (roll ∷ rolls) u s m e floor fits small long =
    elim (Bool-cases (s.amount == s.min_amount)) [
      | inl same ↦
          let (failed, gone) = reduce_fails roll u s m e (ground (arith, same)) in
          rw (failed, attempts) (failed, gone)
      | inr more ↦
          let (silent, row) = reduce_retries roll u s m e more in
          let (floor', less, shrunk) = reduced_shrinks roll s.amount s.min_amount floor fits in
          rw (silent, attempts)
            (attempts-fail n rolls u (retry_with (reduced roll s.amount s.min_amount) s)
              (reduce_or_fail roll u m).0 row floor' (omega (arith, less, fits))
              (power_step n (s.amount - s.min_amount)
                (reduced roll s.amount s.min_amount - s.min_amount) shrunk small)
              (omega (arith, long)))
    ]
