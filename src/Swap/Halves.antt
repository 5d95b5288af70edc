-- ===== src/Swap/Halves.antt =====
-- The two halves of a completed swap, the payment and the funds onchain, in the tables of completions.
use clboss.Base.{
  ℕ, ◌+◌, ◌≤◌, ◌≡◌, Bool, true, false, List, [], ◌∷◌, arith, not, keep_if, count_if,
  count_if-append, Option-cases, List-cases, inl, inr, ◌==◌, if◌then◌else◌,
}
use clboss.Swap.{
  SwapManager, Message, request_newaddr, solicit_swap_quotation, accept_swap_quotation, pay_invoice,
  request_listpays, swap_response, swap_completed, Ensures, last_where,
}
use clboss.Swap.Address.{on_swap_request, load_address, loop_needs_address, on_response_newaddr}
use clboss.Swap.Settle.{fail_swap, reduce_or_fail}
use clboss.Swap.Invoice.{
  loop_needs_invoice, loop_quotations, start_quotations, on_swap_not_created, on_swap_created,
  pop_front,
}
use clboss.Swap.Onchain.{
  loop_onchain_funds, is_comp_onchain, is_comp_pay, on_pay_success, funds_seen,
}
use clboss.Swap.Tables.{last_where-none}

abbrev pub is_completed : Message → Bool
is_completed (swap_completed sent received name) = true
is_completed request_newaddr = false
is_completed (solicit_swap_quotation amount) = false
is_completed (accept_swap_quotation amount address provider) = false
is_completed (pay_invoice invoice) = false
is_completed (request_listpays hash) = false
is_completed (swap_response uuid done amount) = false

-- The halves with a payment hash that wait for the other one.
abbrev pub halves : ℕ → SwapManager → ℕ
halves hash m =
    count_if (is_comp_onchain hash) m.comp_onchain + count_if (is_comp_pay hash) m.comp_pay

module _ (a : ℕ) where
  abbrev pub Unmoved : SwapManager → SwapManager → Type 0
  Unmoved m n = halves a n ≡ halves a m

  unfoldable pub IsKept : SwapManager → List Message → SwapManager → Type 0
  IsKept m out n = (halves a n ≤ 1) × (halves a m ≤ halves a n + count_if is_completed out)

  pub kept :
      (m n : SwapManager) (out : List Message)
      → halves a m ≤ 1
      → halves a n ≡ halves a m
      → IsKept m out n
  unfolding IsKept
  kept m n out h e = omega (arith, h, e)

  deleted {ℓ} :
      {A : Type ℓ} (hash_of : A → ℕ) (hash : ℕ) (xs : List A)
      → count_if (λ c. hash_of c == a) (keep_if (λ c. not (hash_of c == hash)) xs)
        ≡ (if a == hash then 0 else count_if (λ c. hash_of c == a) xs)
  deleted hash_of hash [] = ground arith
  deleted hash_of hash (x ∷ xs) = ground (arith, deleted hash_of hash xs)

  pub paid-IsKept :
      (m : SwapManager) (hash sent : ℕ)
      → halves a m ≤ 1
      → IsKept m (on_pay_success hash sent m).1 (on_pay_success hash sent m).0
  unfolding IsKept on_pay_success
  paid-IsKept m hash sent h =
      elim (Option-cases (last_where (is_comp_onchain hash) m.comp_onchain)) [
        | inr (c, e) ↦
            rw (e, on_pay_success)
              (ground (arith, h, deleted (λ c. c.payment_hash) hash m.comp_onchain))
        | inl e ↦ elim (Option-cases (last_where (is_comp_pay hash) m.comp_pay)) [
          | inr (c, e') ↦ rw (e, e', on_pay_success) (omega (arith, h))
          | inl e' ↦
              rw (e, e', on_pay_success)
                (ground (
                  arith,
                  h,
                  last_where-none (is_comp_onchain hash) m.comp_onchain e,
                  last_where-none (is_comp_pay hash) m.comp_pay e',
                  count_if-append (is_comp_pay a) m.comp_pay
                      (record { payment_hash = hash; amount_sent = sent } ∷ []),
                ))
        ]
      ]

  pub seen-IsKept :
      (m : SwapManager) (hash received name : ℕ)
      → halves a m ≤ 1
      → IsKept m (funds_seen hash received name m).1 (funds_seen hash received name m).0
  unfolding IsKept funds_seen
  seen-IsKept m hash received name h =
      elim (Option-cases (last_where (is_comp_pay hash) m.comp_pay)) [
        | inr (c, e) ↦
            rw (e, funds_seen) (ground (arith, h, deleted (λ c. c.payment_hash) hash m.comp_pay))
        | inl e ↦ elim (Option-cases (last_where (is_comp_onchain hash) m.comp_onchain)) [
          | inr (c, e') ↦ rw (e, e', funds_seen) (omega (arith, h))
          | inl e' ↦
              rw (e, e', funds_seen)
                (ground (
                  arith,
                  h,
                  last_where-none (is_comp_pay hash) m.comp_pay e,
                  last_where-none (is_comp_onchain hash) m.comp_onchain e',
                  count_if-append (is_comp_onchain a) m.comp_onchain (
                      record {
                        payment_hash = hash;
                        amount_received = received;
                        provider_name = name;
                      }
                      ∷ []),
                ))
        ]
      ]

  pub address_turn-Unmoved : (m : SwapManager) → Ensures (Unmoved m) (loop_needs_address m)
  unfolding loop_needs_address load_address
  address_turn-Unmoved m = ground arith

  pub newaddr-Unmoved :
      (m : SwapManager) (address : ℕ) → Ensures (Unmoved m) (on_response_newaddr address m)
  unfolding on_response_newaddr load_address
  newaddr-Unmoved m address = ground arith

  pub invoice_turn-Unmoved : (m : SwapManager) → Ensures (Unmoved m) (loop_needs_invoice m)
  unfolding loop_needs_invoice
  invoice_turn-Unmoved m = ground arith

  quotations-Unmoved : (m : SwapManager) → Ensures (Unmoved m) (loop_quotations m)
  unfolding loop_quotations
  quotations-Unmoved m = ground arith

  pub quotations_in-Unmoved :
      (m : SwapManager) (rolls : List ℕ) → Ensures (Unmoved m) (start_quotations rolls m)
  unfolding start_quotations
  quotations_in-Unmoved m rolls = quotations-Unmoved _

  pub not_created-Unmoved : (m : SwapManager) → Ensures (Unmoved m) (on_swap_not_created m)
  unfolding on_swap_not_created
  not_created-Unmoved m = elim (List-cases m.quotations) [
    | inl e ↦ rw (e, on_swap_not_created) tt
    | inr (q, qs, e) ↦ rw (e, on_swap_not_created) (quotations-Unmoved _)
  ]

  pub created-Unmoved :
      (m : SwapManager) (invoice hash timeout : ℕ)
      → Ensures (Unmoved m) (on_swap_created invoice hash timeout m)
  unfolding on_swap_created
  created-Unmoved m invoice hash timeout = ground arith

  pub pop_front-Unmoved : (m : SwapManager) → Ensures (Unmoved m) (pop_front m)
  unfolding pop_front
  pop_front-Unmoved m = ground arith

  pub reduce-Unmoved : (roll u : ℕ) (m : SwapManager) → Unmoved m (reduce_or_fail roll u m).0
  unfolding reduce_or_fail fail_swap
  reduce-Unmoved roll u m = ground arith

  pub funds_turn-Unmoved : (m : SwapManager) → Unmoved m (loop_onchain_funds m).0
  unfolding loop_onchain_funds
  funds_turn-Unmoved m = ground arith

  pub request-Unmoved : (m : SwapManager) (u x y : ℕ) → Unmoved m (on_swap_request u x y m)
  unfolding on_swap_request
  request-Unmoved m u x y = ground arith
