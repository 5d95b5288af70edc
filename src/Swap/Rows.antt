-- ===== src/Swap/Rows.antt =====
-- What a row holds in its state, and how the queries count.
use clboss.Base.{
  ℕ, ◌+◌, ◌≤◌, ◌<◌, ◌≡◌, ◌⊎◌, refl, ap, inl, inr, Bool, true, false, ◌&&◌, List, [], ◌∷◌, Option,
  none, some, map, arith, not, ◌==◌, if◌then◌else◌, keep_if, count, count_if, count_if-map,
  Bool-cases,
}
use clboss.Swap.{
  State, needs_onchain_address, needs_invoice, awaiting_result, Swap, is_state, has_uuid,
  update_where,
}
use clboss.Swap.Address.{new_swap, load_queue, give_address}
use clboss.Swap.Tables.{count_if-le, count_if-update, count_if-or}

abbrev pub is_null : Option ℕ → Bool
is_null none = true
is_null (some v) = false

-- A text that is there and not empty.
abbrev pub is_filled : Option ℕ → Bool
is_filled none = false
is_filled (some v) = not (v == 0)

-- What the columns of a row hold in its state.
abbrev pub is_shaped : Swap → Bool
is_shaped s = elim s.state [
  | needs_onchain_address ↦ is_null s.address && is_null s.payment_hash && is_null s.timeout
  | needs_invoice ↦ is_filled s.address && is_null s.payment_hash && is_null s.timeout
  | awaiting_result ↦ is_filled s.address && not (is_null s.payment_hash) && not (is_null s.timeout)
]

-- The row of a swap that has no address yet.
abbrev pub is_new : ℕ → Swap → Bool
is_new u s = has_uuid u s && is_state needs_onchain_address s.state

pub new-le-uuid : (u : ℕ) (xs : List Swap) → count_if (is_new u) xs ≤ count_if (has_uuid u) xs
new-le-uuid u xs = count_if-le (is_new u) (has_uuid u) xs (λ s h. ground arith)

-- A number where a function is zero is another than one where it is not.
pub at_most_once : (f : ℕ → ℕ) (u v : ℕ) → f u ≡ 0 → f v ≤ 1 → f v + count v (u ∷ []) ≤ 1
at_most_once f u v h le = elim (Bool-cases (u == v)) [
  | inl e ↦ let same : u ≡ v = ground (arith, e) in ground (arith, ap f same, e, h, le)
  | inr e ↦ ground (arith, e)
]

pub differs : (f : ℕ → ℕ) (u v : ℕ) → f u ≡ 0 → 0 < f v → count v (u ∷ []) ≡ 0
differs f u v h pos = elim (Bool-cases (u == v)) [
  | inl e ↦ let same : u ≡ v = ground (arith, e) in absurd (omega (arith, ap f same))
  | inr e ↦ ground (arith, e)
]

loaded-count :
    (st : State) (xs : List Swap) (u : ℕ)
    → count u (map (λ w. w.uuid) (keep_if (λ w. is_state st w.state) xs))
      ≡ count_if (λ w. has_uuid u w && is_state st w.state) xs
loaded-count st [] u = refl
loaded-count st (x ∷ xs) u = ground (arith, loaded-count st xs u)

two_states :
    (u : ℕ) (xs : List Swap)
    → count_if (is_new u) xs + count_if (λ w. has_uuid u w && is_state needs_invoice w.state) xs
      ≤ count_if (has_uuid u) xs
two_states u [] = omega arith
two_states u (x ∷ xs) = ground (arith, two_states u xs)

-- A row that has an address leaves no other of its id.
pub old-new :
    (u : ℕ) (xs : List Swap)
    → count_if (λ w. has_uuid u w && not (is_state needs_onchain_address w.state)) xs
        + count_if (is_new u) xs
      ≤ count_if (has_uuid u) xs
old-new u [] = omega arith
old-new u (x ∷ xs) = ground (arith, old-new u xs)

-- The loaded queues.
pub load_queue-new :
    (q : List ℕ) (xs : List Swap) (u : ℕ)
    → count u q ≤ count_if (is_new u) xs
    → count u (load_queue q needs_onchain_address xs) ≤ count_if (is_new u) xs
load_queue-new (v ∷ q) xs u h = h
load_queue-new [] xs u h = rw (loaded-count needs_onchain_address xs u) (omega arith)

pub load_queue-ready :
    (q : List ℕ) (xs : List Swap) (u : ℕ)
    → count_if (has_uuid u) xs ≤ 1
    → 0 < count u (load_queue q needs_invoice xs)
    → (0 < count u q) ⊎ (count_if (is_new u) xs ≡ 0)
load_queue-ready (v ∷ q) xs u one h = inl h
load_queue-ready [] xs u one h =
    inr (omega (arith, loaded-count needs_invoice xs u, two_states u xs))

-- The rows after one has got its address.
module _ (u a : ℕ) where
  pub given-same :
      (xs : List Swap) → count_if (is_new u) (update_where (is_new u) (give_address a) xs) ≡ 0
  given-same [] = refl
  given-same (x ∷ xs) = ground (arith, given-same xs)

  pub given-other :
      (v : ℕ) (xs : List Swap)
      → (u == v) ≡ false
      → count_if (is_new v) (update_where (is_new u) (give_address a) xs) ≡ count_if (is_new v) xs
  given-other v [] h = refl
  given-other v (x ∷ xs) h = ground (arith, h, given-other v xs h)

  pub given-shaped :
      (s : Swap)
      → (a == 0) ≡ false
      → not (is_shaped (if is_new u s then give_address a s else s)) ≡ true
      → not (is_shaped s) ≡ true
  given-shaped s filled h = ground (arith, filled, h)

module _ (u max_amount min_amount : ℕ) where
  pub new_swap-uuid :
      (v : ℕ) → count_if (has_uuid v) (new_swap u max_amount min_amount ∷ []) ≡ count v (u ∷ [])
  new_swap-uuid v = ground arith

  pub new_swap-new :
      (v : ℕ) → count_if (is_new v) (new_swap u max_amount min_amount ∷ []) ≡ count v (u ∷ [])
  new_swap-new v = ground arith

-- A change of a row that has an address leaves it its address and its id.
pub record IsQuiet (f : Swap → Swap) : Type 0 where
  pub same_uuid : (x : Swap) → (f x).uuid ≡ x.uuid
  pub not_new : (x : Swap) → is_state needs_onchain_address (f x).state ≡ false
  pub shape :
      (x : Swap)
      → is_shaped x ≡ true
      → is_state needs_onchain_address x.state ≡ false
      → is_shaped (f x) ≡ true

module _ (u : ℕ) (f : Swap → Swap) (q : IsQuiet f) where
  changed : Swap → Swap
  changed x = if has_uuid u x then f x else x

  misshaped :
      (x : Swap)
      → not (is_shaped (changed x)) ≡ true
      → not (is_shaped x) ≡ false
      → is_new u x ≡ true
  unfolding changed
  misshaped x h h' = elim (Bool-cases (has_uuid u x)) [
    | inr e ↦ absurd (ground (arith, h, h', e))
    | inl e ↦ elim (Bool-cases (is_state needs_onchain_address x.state)) [
      | inl new ↦ rw (e, new) refl
      | inr old ↦ absurd (ground (arith, h, h', e, q.shape x (ground (arith, h')) old))
    ]
  ]

  less_new : (v : ℕ) (x : Swap) → is_new v (changed x) ≡ true → is_new v x ≡ true
  unfolding changed
  less_new v x h = elim (Bool-cases (has_uuid u x)) [
    | inr e ↦ ground (arith, h, e)
    | inl e ↦ absurd (ground (arith, h, e, q.not_new x))
  ]

  more_new :
      (v : ℕ) (x : Swap) → is_new v x ≡ true → is_new v (changed x) ≡ false → is_new u x ≡ true
  unfolding changed
  more_new v x h h' = elim (Bool-cases (has_uuid u x)) [
    | inr e ↦ absurd (ground (arith, h, h', e))
    | inl e ↦ ground (arith, h, e)
  ]

  same_uuids : (v : ℕ) (x : Swap) → has_uuid v (changed x) ≡ true → has_uuid v x ≡ true
  unfolding changed
  same_uuids v x h = elim (Bool-cases (has_uuid u x)) [
    | inr e ↦ ground (arith, h, e)
    | inl e ↦ ground (arith, h, e, q.same_uuid x)
  ]

  pub quiet-uuid :
      (v : ℕ) (xs : List Swap)
      → count_if (has_uuid v) (update_where (has_uuid u) f xs) ≤ count_if (has_uuid v) xs
  unfolding changed
  quiet-uuid v xs = count_if-update (has_uuid v) (has_uuid v) (has_uuid u) f xs (same_uuids v)

  pub quiet-shaped :
      (xs : List Swap)
      → count_if (is_new u) xs ≡ 0
      → count_if (λ s. not (is_shaped s)) xs ≡ 0
      → count_if (λ s. not (is_shaped s)) (update_where (has_uuid u) f xs) ≡ 0
  unfolding changed
  quiet-shaped xs old h = omega (
    arith,
    old,
    h,
    count_if-map (λ s. not (is_shaped s)) changed xs,
    count_if-or (λ x. not (is_shaped (changed x))) (λ s. not (is_shaped s)) (is_new u) xs misshaped,
  )

  pub quiet-new :
      (v : ℕ) (xs : List Swap)
      → count_if (is_new u) xs ≡ 0
      → count_if (is_new v) (update_where (has_uuid u) f xs) ≡ count_if (is_new v) xs
  unfolding changed
  quiet-new v xs old = omega (
    arith,
    old,
    count_if-map (is_new v) changed xs,
    count_if-le (λ x. is_new v (changed x)) (is_new v) xs (less_new v),
    count_if-or (is_new v) (λ x. is_new v (changed x)) (is_new u) xs (more_new v),
  )
