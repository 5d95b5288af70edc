-- ===== src/Swap/Found.antt =====
-- The rows that the handlers find, and the greenthreads that they start.
use clboss.Base.{
  ℕ, ◌+◌, ◌≤◌, ◌<◌, ◌≡◌, refl, inl, inr, Bool, true, false, ◌&&◌, List, [], ◌∷◌, some, map, arith,
  not, ◌==◌, keep_if, count, count_if, Bool-cases, Option-cases, ==_refl,
}
use clboss.Swap.{
  needs_onchain_address, Swap, SwapManager, swap_reduce_or_fail, holds, is_state, has_uuid,
  last_where,
}
use clboss.Swap.Address.{take_cached}
use clboss.Swap.Settle.{retry_with, is_due}
use clboss.Swap.Invoice.{await_result}
use clboss.Swap.Steps.{waiting, is_reduction}
use clboss.Swap.Rows.{is_shaped, is_new, IsQuiet, old-new}
use clboss.Swap.Consistent.{IsConsistent}
use clboss.Swap.Tables.{last_where-test, last_where-count, count_if-le}

pub retry_with-IsQuiet : (a : ℕ) → IsQuiet (retry_with a)
retry_with-IsQuiet a = record {
  same_uuid = λ x. refl;
  not_new = λ x. refl;
  shape = λ x h old. ground (arith, h, old);
}

pub await_result-IsQuiet : (hash timeout : ℕ) → IsQuiet (await_result hash timeout)
await_result-IsQuiet hash timeout = record {
  same_uuid = λ x. refl;
  not_new = λ x. refl;
  shape = λ x h old. ground (arith, h, old);
}

-- A swap that is found in a state other than the first has an address.
pub found_old :
    (m : SwapManager) (p : Swap → Bool) (s : Swap)
    → IsConsistent m
    → last_where p m.swaps ≡ some s
    → is_state needs_onchain_address s.state ≡ false
    → count_if (is_new s.uuid) m.swaps ≡ 0
found_old m p s c e old =
    let q : Swap → Bool = λ w. has_uuid s.uuid w && not (is_state needs_onchain_address w.state) in
    omega (
      arith,
      last_where-count p q m.swaps s e (rw (==_refl s.uuid, old) refl),
      count_if-le (λ y. p y && q y) q m.swaps (λ y h. ground (arith, h)),
      old-new s.uuid m.swaps,
      c.unique s.uuid,
    )

pub take_cached-filled :
    (cache : List ℕ) (r : ℕ × List ℕ) → take_cached cache ≡ some r → (r.0 == 0) ≡ false
unfolding take_cached
take_cached-filled [] r h = cc
take_cached-filled (a ∷ cache) r h = elim (Bool-cases (a == 0)) [
  | inr e ↦ ground (arith, h, e)
  | inl e ↦ elim (Option-cases (take_cached cache)) [
    | inl none_left ↦ absurd (ground (arith, h, e, none_left))
    | inr (t, e') ↦ ground (arith, h, e, e', take_cached-filled cache t e')
  ]
]

-- A row that is found is shaped.
pub found_shaped :
    (m : SwapManager) (p : Swap → Bool) (s : Swap)
    → IsConsistent m
    → last_where p m.swaps ≡ some s
    → is_shaped s ≡ true
found_shaped m p s c e = elim (Bool-cases (is_shaped s)) [
  | inl shaped ↦ shaped
  | inr broken ↦ absurd (
      omega (
        arith,
        c.shaped,
        last_where-count p (λ s. not (is_shaped s)) m.swaps s e (rw broken refl),
        count_if-le (λ s. p s && not (is_shaped s)) (λ s. not (is_shaped s)) m.swaps
            (λ s h. ground (arith, h)),
      ))
]

-- A row with a hash has an address.
pub hashed_old :
    (m : SwapManager) (hash : ℕ) (s : Swap)
    → IsConsistent m
    → last_where (λ s. holds s.payment_hash hash) m.swaps ≡ some s
    → is_state needs_onchain_address s.state ≡ false
hashed_old m hash s c e =
    let p : Swap → Bool = λ s. holds s.payment_hash hash in
    ground (arith, found_shaped m p s c e, last_where-test p m.swaps s e)

-- A swap that has an address, found by its id.
pub found_not_new :
    (m : SwapManager) (u : ℕ) (s : Swap)
    → last_where (has_uuid u) m.swaps ≡ some s
    → count_if (is_new u) m.swaps ≡ 0
    → is_state needs_onchain_address s.state ≡ false
found_not_new m u s e old = elim (Bool-cases (is_state needs_onchain_address s.state)) [
  | inr fine ↦ fine
  | inl new ↦ absurd (
      omega (
        arith,
        old,
        last_where-count (has_uuid u) (λ s. is_state needs_onchain_address s.state) m.swaps s e new,
      ))
]

-- The swaps that are due are reduced.
pub due-count :
    (height v : ℕ) (xs : List Swap)
    → count_if (is_reduction v) (map (λ s. swap_reduce_or_fail s.uuid) (keep_if (is_due height) xs))
      ≤ count_if (λ w. has_uuid v w && not (is_state needs_onchain_address w.state)) xs
due-count height v [] = omega arith
due-count height v (x ∷ xs) = ground (arith, due-count height v xs)

-- A greenthread at work.
pub works_old :
    (m : SwapManager) (c : IsConsistent m) (u v : ℕ)
    → count_if (is_new u) m.swaps ≡ 0
    → 0 < waiting v m + count v (u ∷ [])
    → count_if (is_new v) m.swaps ≡ 0
works_old m c u v old h = elim (Bool-cases (u == v)) [
  | inl e ↦ let same : u ≡ v = ground (arith, e) in rw (← same) old
  | inr e ↦ c.settled v (ground (arith, e, h))
]
