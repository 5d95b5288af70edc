-- ===== src/Swap/Sharing.antt =====
-- Where the addresses are: each is in the cache or with a swap, and only a completed swap takes one away.
use clboss.Base.{
  ℕ, ◌+◌, ◌≤◌, ◌≡◌, refl, ap, inl, inr, Bool, true, false, ◌&&◌, List, [], ◌∷◌, some, arith, not,
  ◌==◌, if◌then◌else◌, count, count_if, count_if-append, Bool-cases, Option-cases, List-cases,
}
use clboss.Swap.{
  needs_onchain_address, Swap, SwapManager, Message, request_newaddr, solicit_swap_quotation,
  accept_swap_quotation, pay_invoice, request_listpays, swap_response, swap_completed, Ensures,
  holds, text_of, is_state, has_uuid, last_where, update_where,
}
use clboss.Swap.Address.{
  take_cached, loop_needs_address, on_response_newaddr, load_address, give_address, on_swap_request,
  new_swap,
}
use clboss.Swap.Settle.{
  fail_swap, reduced, reduce_or_fail, retry_with, amount_found, min_amount_found,
}
use clboss.Swap.Invoice.{
  await_result, loop_needs_invoice, loop_quotations, on_swap_created, pop_front,
}
use clboss.Swap.Onchain.{awaits_at, loop_onchain_funds, on_pay_success, funds_seen}
use clboss.Swap.Steps.{uses}
use clboss.Swap.Rows.{is_shaped, is_new, new-le-uuid}
use clboss.Swap.Found.{found_shaped, found_not_new}
use clboss.Swap.Consistent.{IsConsistent}
use clboss.Swap.Tables.{last_where-none, count_if-deleted, count_if-le, count_if-only}

-- A swap that is reported as done.
abbrev pub succeeded : Message → Bool
succeeded (swap_response uuid success amount) = success
succeeded request_newaddr = false
succeeded (solicit_swap_quotation amount) = false
succeeded (accept_swap_quotation amount address provider) = false
succeeded (pay_invoice invoice) = false
succeeded (request_listpays hash) = false
succeeded (swap_completed sent received name) = false

module _ (a : ℕ) where
  abbrev held : List Swap → ℕ
  held = count_if (λ s. holds s.address a)

  given-held :
      (u x : ℕ) (rows : List Swap)
      → count_if (λ s. not (is_shaped s)) rows ≡ 0
      → held (update_where (is_new u) (give_address x) rows)
        ≡ held rows + (if x == a then count_if (is_new u) rows else 0)
  given-held u x [] h = ground arith
  given-held u x (s ∷ rows) h = ground (arith, h, given-held u x rows)

  take_cached-count :
      (cache : List ℕ) (r : ℕ × List ℕ)
      → take_cached cache ≡ some r
      → count a cache ≡ count a r.1 + count a (r.0 ∷ [])
  unfolding take_cached
  take_cached-count [] r h = cc
  take_cached-count (b ∷ cache) r h = elim (Bool-cases (b == 0)) [
    | inr e ↦ ground (arith, h, e)
    | inl e ↦ elim (Option-cases (take_cached cache)) [
      | inl none_left ↦ absurd (ground (arith, h, e, none_left))
      | inr (t, e') ↦ ground (arith, h, e, e', take_cached-count cache t e')
    ]
  ]

  pub invoice_turn-uses :
      (m : SwapManager) → Ensures (λ n. uses a n ≡ uses a m) (loop_needs_invoice m)
  unfolding loop_needs_invoice
  invoice_turn-uses m = ground arith

  pub quotations-uses : (m : SwapManager) → Ensures (λ n. uses a n ≡ uses a m) (loop_quotations m)
  unfolding loop_quotations
  quotations-uses m = ground arith

  await-held :
      (u hash timeout : ℕ) (rows : List Swap)
      → held (update_where (has_uuid u) (await_result hash timeout) rows) ≡ held rows
  await-held u hash timeout [] = refl
  await-held u hash timeout (s ∷ rows) = ground (arith, await-held u hash timeout rows)

  retry-held :
      (u amount : ℕ) (rows : List Swap)
      → held (update_where (has_uuid u) (retry_with amount) rows) ≡ held rows
  retry-held u amount [] = refl
  retry-held u amount (s ∷ rows) = ground (arith, retry-held u amount rows)

  pub created-uses :
      (m : SwapManager) (invoice hash timeout : ℕ)
      → Ensures (λ n. uses a n ≡ uses a m) (on_swap_created invoice hash timeout m)
  unfolding on_swap_created
  created-uses m invoice hash timeout = grind (arith, await-held)

  pub pay_success-uses :
      (m : SwapManager) (hash sent : ℕ) → uses a (on_pay_success hash sent m).0 ≡ uses a m
  unfolding on_pay_success
  pay_success-uses m hash sent = ground arith

  filled_address :
      (s : Swap)
      → is_shaped s ≡ true
      → is_state needs_onchain_address s.state ≡ false
      → ((text_of s.address == 0) ≡ false) × (holds s.address a ≡ (text_of s.address == a))
  filled_address s shaped old = ground (arith, shaped, old)

  pub seen-uses :
      (m : SwapManager) (hash received name : ℕ)
      → uses a (funds_seen hash received name m).0 ≡ uses a m
  unfolding funds_seen
  seen-uses m hash received name = ground arith

  pub pop_front-uses : (m : SwapManager) → Ensures (λ n. uses a n ≡ uses a m) (pop_front m)
  unfolding pop_front
  pop_front-uses m = ground arith

  pub request-uses : (m : SwapManager) (u x y : ℕ) → uses a (on_swap_request u x y m) ≡ uses a m
  unfolding on_swap_request
  request-uses m u x y =
      ground (arith, count_if-append (λ s. holds s.address a) m.swaps (new_swap u x y ∷ []))

  module _ (m : SwapManager) (c : IsConsistent m) where
    -- The front of the queue has one row, which has no address yet.
    pub load_address-uses :
        (u x : ℕ) (rest cache : List ℕ)
        → m.address_queue ≡ u ∷ rest
        → uses a (load_address u x rest (record m { addrcache = cache }))
          ≡ count a cache + held m.swaps + count a (x ∷ [])
    unfolding load_address
    load_address-uses u x rest cache e =
        let one : count_if (is_new u) m.swaps ≡ 1 =
          ground (arith, c.queued u, ap (count u) e, new-le-uuid u m.swaps, c.unique u) in
        ground (arith, one, given-held u x m.swaps c.shaped)

    pub fail-uses : (u : ℕ) → count_if (is_new u) m.swaps ≡ 0 → uses a (fail_swap u m).0 ≡ uses a m
    unfolding fail_swap
    fail-uses u old = elim (Option-cases (last_where (has_uuid u) m.swaps)) [
      | inl e ↦
          let nobody = last_where-none (has_uuid u) m.swaps e in
          rw (e, fail_swap)
            (omega (
              arith,
              nobody,
              count_if-deleted (has_uuid u) (λ s. holds s.address a) m.swaps,
              count_if-le (λ s. has_uuid u s && holds s.address a) (has_uuid u) m.swaps
                  (λ s h. ground (arith, h)),
            ))
      | inr (s, e) ↦
          let filled =
            filled_address s (found_shaped m (has_uuid u) s c e) (found_not_new m u s e old) in
          rw (e, fail_swap)
            (ground (
              arith,
              filled.0,
              filled.1,
              count_if-append (λ x. x == a) m.addrcache (text_of s.address ∷ []),
              count_if-deleted (has_uuid u) (λ s. holds s.address a) m.swaps,
              count_if-only (has_uuid u) (λ s. holds s.address a) m.swaps s e (c.unique u),
            ))
    ]

    pub reduce-uses :
        (roll u : ℕ)
        → count_if (is_new u) m.swaps ≡ 0
        → uses a (reduce_or_fail roll u m).0 ≡ uses a m
    unfolding reduce_or_fail
    reduce-uses roll u old =
        let found = last_where (has_uuid u) m.swaps in
        elim (Bool-cases (amount_found found == min_amount_found found)) [
          | inl e ↦ rw (e, reduce_or_fail) (fail-uses u old)
          | inr e ↦
              rw (e, reduce_or_fail)
                (omega (
                  arith,
                  retry-held u (reduced roll (amount_found found) (min_amount_found found)) m.swaps,
                ))
        ]

    pub address_turn-uses : Ensures (λ n. uses a n ≡ uses a m) (loop_needs_address m)
    unfolding loop_needs_address
    address_turn-uses = elim (List-cases m.address_queue) [
      | inl e ↦ rw (e, loop_needs_address) refl
      | inr (u, rest, e) ↦ elim (Option-cases (take_cached m.addrcache)) [
        | inl e' ↦ rw (e, e', loop_needs_address) refl
        | inr (r, e') ↦
            rw (e, e', loop_needs_address)
              (omega
                (arith, load_address-uses u r.0 rest r.1 e, take_cached-count m.addrcache r e'))
      ]
    ]

    pub newaddr-uses :
        (x : ℕ) → Ensures (λ n. uses a n ≡ uses a m + count a (x ∷ [])) (on_response_newaddr x m)
    unfolding on_response_newaddr
    newaddr-uses x = elim (Bool-cases m.getting_address) [
      | inr off ↦ rw (off, on_response_newaddr) tt
      | inl on ↦ elim (List-cases m.address_queue) [
        | inl e ↦ rw (on, e, on_response_newaddr) tt
        | inr (u, rest, e) ↦
            rw (on, e, on_response_newaddr)
              (omega (arith, load_address-uses u x rest m.addrcache e))
      ]
    ]

    -- The address of a completed swap goes.
    pub funds_turn-uses :
        (uses a (loop_onchain_funds m).0 ≤ uses a m)
        × (uses a m ≤ uses a (loop_onchain_funds m).0 + count_if succeeded (loop_onchain_funds m).1)
    unfolding loop_onchain_funds
    funds_turn-uses = elim (List-cases m.onchain_funds) [
      | inl e ↦ rw (e, loop_onchain_funds) (omega arith)
      | inr (fund, rest, e) ↦ elim (Option-cases (last_where (awaits_at fund.0) m.swaps)) [
        | inl e' ↦ rw (e, e', loop_onchain_funds) (omega arith)
        | inr (s, e') ↦
            rw (e, e', loop_onchain_funds)
              (omega (
                arith,
                count_if-deleted (has_uuid s.uuid) (λ s. holds s.address a) m.swaps,
                count_if-le (λ y. has_uuid s.uuid y && holds y.address a) (has_uuid s.uuid) m.swaps
                    (λ s h. ground (arith, h)),
                c.unique s.uuid,
              ))
      ]
    ]
