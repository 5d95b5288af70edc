-- ===== src/Swap/Invariant.antt =====
-- Every handler keeps the tables and queues consistent.
use clboss.Base.{
  ℕ, ◌≡◌, ◌≢◌, refl, ap, inl, inr, [], ◌∷◌, map, arith, ◌==◌, keep_if, count, count_if,
  count_if-append, Bool-cases, Option-cases, List-cases, le_cases,
}
use clboss.Swap.{
  SwapManager, swap_reduce_or_fail, on_onchain_funds_seen, pop_invoice, holds, text_of, has_uuid,
  last_where, Ensures,
}
use clboss.Swap.Address.{take_cached, loop_needs_address, on_response_newaddr}
use clboss.Swap.Settle.{
  fail_swap, reduce_or_fail, retry_with, reduced, on_pay_failure, on_block, is_due, amount_found,
  min_amount_found,
}
use clboss.Swap.Invoice.{
  await_result, loop_needs_invoice, loop_quotations, on_swap_created, pop_front, last_quotation,
}
use clboss.Swap.Onchain.{
  awaits_at, name_of, loop_onchain_funds, on_pay_success, funds_seen, is_comp_pay, is_comp_onchain,
}
use clboss.Swap.Steps.{waiting, is_reduction}
use clboss.Swap.Rows.{is_new, old-new}
use clboss.Swap.Consistent.{
  IsConsistent, load_address-IsConsistent, same-IsConsistent, update-IsConsistent,
  delete-IsConsistent,
}
use clboss.Swap.Tables.{last_where-test}
use clboss.Swap.Found.{
  retry_with-IsQuiet, await_result-IsQuiet, found_old, take_cached-filled, hashed_old, due-count,
  works_old,
}

module _ (m : SwapManager) (c : IsConsistent m) where
  pub reduce-IsConsistent :
      (roll u : ℕ) → count_if (is_new u) m.swaps ≡ 0 → IsConsistent (reduce_or_fail roll u m).0
  unfolding reduce_or_fail fail_swap
  reduce-IsConsistent roll u old =
      let found = last_where (has_uuid u) m.swaps in
      elim (Bool-cases (amount_found found == min_amount_found found)) [
        | inl e ↦
            rw (e, reduce_or_fail)
              (delete-IsConsistent m c u (fail_swap u m).0 old refl refl c.settled)
        | inr e ↦
            rw (e, reduce_or_fail)
              (update-IsConsistent m c u
                (retry_with (reduced roll (amount_found found) (min_amount_found found))) _
                (retry_with-IsQuiet _) old refl refl
                (λ v h.
                  works_old m c u v old
                    (omega (arith, h, count_if-append (λ x. x == v) m.invoice_queue (u ∷ [])))))
      ]

  pub address_turn-IsConsistent : Ensures IsConsistent (loop_needs_address m)
  unfolding loop_needs_address
  address_turn-IsConsistent = elim (List-cases m.address_queue) [
    | inl e ↦ rw (e, loop_needs_address) (same-IsConsistent m c _ refl refl c.settled)
    | inr (u, rest, e) ↦ elim (Option-cases (take_cached m.addrcache)) [
      | inl e' ↦ rw (e, e', loop_needs_address) c
      | inr (r, e') ↦
          rw (e, e', loop_needs_address)
            (load_address-IsConsistent m c u r.0 rest r.1 e (take_cached-filled m.addrcache r e'))
    ]
  ]

  pub newaddr-IsConsistent : (a : ℕ) → a ≢ 0 → Ensures IsConsistent (on_response_newaddr a m)
  unfolding on_response_newaddr
  newaddr-IsConsistent a filled = elim (Bool-cases m.getting_address) [
    | inr off ↦ rw (off, on_response_newaddr) tt
    | inl on ↦ elim (List-cases m.address_queue) [
      | inl e ↦ rw (on, e, on_response_newaddr) tt
      | inr (u, rest, e) ↦
          rw (on, e, on_response_newaddr)
            (load_address-IsConsistent m c u a rest m.addrcache e (ground (arith, filled)))
    ]
  ]

  pub invoice_turn-IsConsistent : Ensures IsConsistent (loop_needs_invoice m)
  unfolding loop_needs_invoice
  invoice_turn-IsConsistent = elim (List-cases m.invoice_queue) [
    | inl e ↦ rw (e, loop_needs_invoice) (same-IsConsistent m c _ refl refl c.settled)
    | inr (u, rest, e) ↦ elim (Option-cases (last_where (has_uuid u) m.swaps)) [
      | inl e' ↦ rw (e, e', loop_needs_invoice) (same-IsConsistent m c _ refl refl c.settled)
      | inr (s, e') ↦ rw (e, e', loop_needs_invoice) (same-IsConsistent m c _ refl refl c.settled)
    ]
  ]

  pub quotations-IsConsistent : Ensures IsConsistent (loop_quotations m)
  unfolding loop_quotations
  quotations-IsConsistent = elim (Option-cases (last_quotation m.quotations)) [
    | inr (q, e) ↦ rw (e, loop_quotations) c
    | inl e ↦ elim (List-cases m.invoice_queue) [
      | inl e' ↦ rw (e, e', loop_quotations) tt
      | inr (u, rest, e') ↦
          rw (e, e', loop_quotations)
            (same-IsConsistent m c _ refl refl (λ v h. c.settled v (
              omega (
                arith,
                h,
                ap (count v) e',
                count_if-append (is_reduction v) m.tasks (swap_reduce_or_fail u ∷ []),
              ))))
    ]
  ]

  pub created-IsConsistent :
      (invoice hash timeout : ℕ) → Ensures IsConsistent (on_swap_created invoice hash timeout m)
  unfolding on_swap_created
  created-IsConsistent invoice hash timeout = elim (Option-cases (last_quotation m.quotations)) [
    | inl e ↦ rw (e, on_swap_created) tt
    | inr (q, e) ↦ elim (List-cases m.invoice_queue) [
      | inl e' ↦ rw (e, e', on_swap_created) tt
      | inr (u, rest, e') ↦ elim (Option-cases (last_where (has_uuid u) m.swaps)) [
        | inl f ↦ rw (e, e', f, on_swap_created) tt
        | inr (s, f) ↦
            rw (e, e', f, on_swap_created)
              (update-IsConsistent m c u (await_result hash timeout) _
                (await_result-IsQuiet hash timeout) (c.settled u (ground (arith, ap (count u) e')))
                refl refl
                (λ v h.
                  c.settled v (
                    omega (arith, h, count_if-append (is_reduction v) m.tasks (pop_invoice ∷ [])))))
      ]
    ]
  ]

  pub pop_front-IsConsistent : Ensures IsConsistent (pop_front m)
  unfolding pop_front
  pop_front-IsConsistent = elim (List-cases m.invoice_queue) [
    | inl e ↦ rw (e, pop_front) tt
    | inr (u, rest, e) ↦
        rw (e, pop_front)
          (same-IsConsistent m c _ refl refl
            (λ v h. c.settled v (omega (arith, h, ap (count v) e))))
  ]

  pub pay_success-IsConsistent : (hash sent : ℕ) → IsConsistent (on_pay_success hash sent m).0
  unfolding on_pay_success
  pay_success-IsConsistent hash sent =
      elim (Option-cases (last_where (is_comp_onchain hash) m.comp_onchain)) [
        | inr (r, e) ↦ rw (e, on_pay_success) (same-IsConsistent m c _ refl refl c.settled)
        | inl e ↦ elim (Option-cases (last_where (is_comp_pay hash) m.comp_pay)) [
          | inr (r, e') ↦ rw (e, e', on_pay_success) c
          | inl e' ↦ rw (e, e', on_pay_success) (same-IsConsistent m c _ refl refl c.settled)
        ]
      ]

  pub seen-IsConsistent :
      (hash received name : ℕ) → IsConsistent (funds_seen hash received name m).0
  unfolding funds_seen
  seen-IsConsistent hash received name =
      elim (Option-cases (last_where (is_comp_pay hash) m.comp_pay)) [
        | inr (r, e) ↦ rw (e, funds_seen) (same-IsConsistent m c _ refl refl c.settled)
        | inl e ↦ elim (Option-cases (last_where (is_comp_onchain hash) m.comp_onchain)) [
          | inr (r, e') ↦ rw (e, e', funds_seen) c
          | inl e' ↦ rw (e, e', funds_seen) (same-IsConsistent m c _ refl refl c.settled)
        ]
      ]

  pub pay_failure-IsConsistent : (hash : ℕ) → IsConsistent (on_pay_failure hash m)
  unfolding on_pay_failure
  pay_failure-IsConsistent hash =
      elim (Option-cases (last_where (λ s. holds s.payment_hash hash) m.swaps)) [
        | inl e ↦ rw (e, on_pay_failure) c
        | inr (s, e) ↦
            rw (e, on_pay_failure)
              (same-IsConsistent m c _ refl refl (λ v h.
                works_old m c s.uuid v (found_old m _ s c e (hashed_old m hash s c e)) (
                  omega (
                    arith,
                    h,
                    count_if-append (is_reduction v) m.tasks (swap_reduce_or_fail s.uuid ∷ []),
                  ))))
      ]

  pub funds_turn-IsConsistent : IsConsistent (loop_onchain_funds m).0
  unfolding loop_onchain_funds
  funds_turn-IsConsistent = elim (List-cases m.onchain_funds) [
    | inl e ↦ rw (e, loop_onchain_funds) c
    | inr (fund, rest, e) ↦ elim (Option-cases (last_where (awaits_at fund.0) m.swaps)) [
      | inl e' ↦ rw (e, e', loop_onchain_funds) (same-IsConsistent m c _ refl refl c.settled)
      | inr (s, e') ↦
          rw (e, e', loop_onchain_funds)
            (delete-IsConsistent m c s.uuid _
              (found_old m (awaits_at fund.0) s c e'
                (ground (arith, last_where-test (awaits_at fund.0) m.swaps s e')))
              refl refl
              (λ v h. c.settled v (
                omega (
                  arith,
                  h,
                  count_if-append (is_reduction v) m.tasks (
                      on_onchain_funds_seen (text_of s.payment_hash) fund.1
                        (name_of s.uuid m.providers)
                      ∷ []),
                ))))
    ]
  ]

  pub block-IsConsistent : (height : ℕ) → IsConsistent (on_block height m)
  unfolding on_block
  block-IsConsistent height = same-IsConsistent m c _ refl refl (λ v h.
      elim (le_cases (waiting v m) 0) [
        | inr old ↦ c.settled v old
        | inl idle ↦ omega (
          arith,
          h,
          idle,
          count_if-append (is_reduction v) m.tasks
              (map (λ s. swap_reduce_or_fail s.uuid) (keep_if (is_due height) m.swaps)),
          due-count height v m.swaps,
          old-new v m.swaps,
          c.unique v,
        )
      ])
