-- ===== src/Swap/Settle.antt =====
-- Swaps whose payment failed, that found no provider or that timed out: tried again with less, or failed.
use clboss.Base.{
  ℕ, ◌+◌, ◌-◌, ◌*◌, ◌/◌, ◌%◌, Bool, false, ◌&&◌, List, [], ◌∷◌, ◌++◌, Option, none, some, ltb, leb,
  ◌==◌, if◌then◌else◌, map, keep_if, ◌^◌,
}
use clboss.Ln.Amount.{Amount}
use clboss.Swap.{
  needs_invoice, awaiting_result, Swap, SwapManager, Message, swap_response, request_listpays,
  swap_reduce_or_fail, is_state, holds, text_of, update_where, has_uuid, last_where, delete_swap,
}

-- What the loops over the rows find; without a row the variables keep their first values.
abbrev pub address_found : Option Swap → ℕ
address_found none = 0
address_found (some s) = text_of s.address

abbrev pub amount_found : Option Swap → Amount
amount_found none = 0
amount_found (some s) = s.amount

abbrev pub min_amount_found : Option Swap → Amount
min_amount_found none = 0
min_amount_found (some s) = s.min_amount

-- Moves the address to the cache and deletes the swap.
unfoldable pub fail_swap : ℕ → SwapManager → SwapManager × List Message
fail_swap uuid m =
    let address = address_found (last_where (has_uuid uuid) m.swaps) in
    let cache = if address == 0 then m.addrcache else m.addrcache ++ address ∷ [] in
    (delete_swap uuid (record m { addrcache = cache }), swap_response uuid false 0 ∷ [])

-- `std::uniform_int_distribution` from `amount / 4` to `amount * 3 / 4`, given a random number; the
-- product wraps.
unfoldable pub draw_amount : ℕ → Amount → Amount
draw_amount roll amount =
    let low = amount / 4 in let high = amount * 3 % 2 ^ 64 / 4 in low + roll % (high - low + 1)

unfoldable pub reduced : ℕ → Amount → Amount → Amount
reduced roll amount min_amount =
    let drawn = draw_amount roll amount in if ltb drawn min_amount then min_amount else drawn

abbrev pub retry_with : Amount → Swap → Swap
retry_with amount s = record s {
  state = needs_invoice;
  amount = amount;
  payment_hash = none;
  timeout = none;
}

unfoldable pub reduce_or_fail : ℕ → ℕ → SwapManager → SwapManager × List Message
reduce_or_fail roll uuid m =
    let found = last_where (has_uuid uuid) m.swaps in
    let amount = amount_found found in
    let min_amount = min_amount_found found in
    if amount == min_amount then fail_swap uuid m else (
      record m {
        swaps = update_where (has_uuid uuid) (retry_with (reduced roll amount min_amount)) m.swaps;
        invoice_queue = m.invoice_queue ++ uuid ∷ [];
      },
      [],
    )

unfoldable pub initiate_check_payments : SwapManager → List Message
initiate_check_payments m =
    map (λ s. request_listpays (text_of s.payment_hash))
      (keep_if (λ s. is_state awaiting_result s.state) m.swaps)

-- The answer that a payment failed.
unfoldable pub on_pay_failure : ℕ → SwapManager → SwapManager
on_pay_failure hash m = elim (last_where (λ s. holds s.payment_hash hash) m.swaps) [
  | none ↦ m
  | some s ↦ record m { tasks = m.tasks ++ swap_reduce_or_fail s.uuid ∷ [] }
]

abbrev pub is_due : ℕ → Swap → Bool
is_due height s =
    is_state awaiting_result s.state && elim s.timeout [ none ↦ false | some t ↦ leb t height ]

unfoldable pub on_block : ℕ → SwapManager → SwapManager
on_block height m = record m {
  tasks = m.tasks ++ map (λ s. swap_reduce_or_fail s.uuid) (keep_if (is_due height) m.swaps);
}
