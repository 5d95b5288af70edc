-- ===== src/Swap/Steps.antt =====
-- The manager at work: whatever its environment sends, and its greenthreads in any order. A loop may be
-- started and may make a turn at any time, which is more than the program does. The program may stop
-- and start again between any two steps; it does not stop between a commit and the messages that the
-- same stretch of code raises.
use clboss.Base.{
  ℕ, ◌+◌, ◌≡◌, ◌≢◌, Bool, false, List, [], ◌∷◌, ◌++◌, Option, some, ◌==◌, count, count_if, keep_if,
  not,
}
use clboss.Ln.Amount.{Amount}
use clboss.Swap.{
  Quotation, SwapManager, Message, Task, swap_reduce_or_fail, on_onchain_funds_seen, pop_invoice,
  holds, empty_manager,
}
use clboss.Swap.Address.{
  on_swap_request, load_address_queue, load_invoice_queue, process_needs_address,
  process_needs_invoice, loop_needs_address, on_response_newaddr,
}
use clboss.Swap.Settle.{reduce_or_fail, on_pay_failure, on_block}
use clboss.Swap.Invoice.{
  loop_needs_invoice, on_provide_swap_quotation, start_quotations, on_swap_not_created,
  on_swap_created, pop_front,
}
use clboss.Swap.Onchain.{on_listfunds_result, loop_onchain_funds, on_pay_success, funds_seen}

pub data StatusListpays : Type 0 where
  nonexistent success pending failed : StatusListpays

unfoldable pub on_response_listpays :
    StatusListpays → ℕ → Amount → SwapManager → SwapManager × List Message
on_response_listpays success hash sent m = on_pay_success hash sent m
on_response_listpays failed hash sent m = (on_pay_failure hash m, [])
on_response_listpays nonexistent hash sent m = (m, [])
on_response_listpays pending hash sent m = (m, [])

abbrev pub is_reduction : ℕ → Task → Bool
is_reduction u t = elim t [
  | swap_reduce_or_fail v ↦ v == u
  | on_onchain_funds_seen hash received name ↦ false
  | pop_invoice ↦ false
]

-- How often a greenthread is about to find an invoice for a swap, or to reduce it.
abbrev pub waiting : ℕ → SwapManager → ℕ
waiting u m = count u m.invoice_queue + count_if (is_reduction u) m.tasks

-- Where an address is: in the cache, or with a swap.
abbrev pub uses : ℕ → SwapManager → ℕ
uses a m = count a m.addrcache + count_if (λ s. holds s.address a) m.swaps

-- What a greenthread does after its wait; the roll is for a random amount.
unfoldable pub resume : ℕ → Task → SwapManager → Option (SwapManager × List Message)
resume roll (swap_reduce_or_fail uuid) m = some (reduce_or_fail roll uuid m)
resume roll (on_onchain_funds_seen hash received name) m = some (funds_seen hash received name m)
resume roll pop_invoice m = pop_front m

-- The program starts again: the members are as the constructor leaves them, the greenthreads are gone,
-- and blank addresses are deleted from the tables, which stay.
unfoldable pub on_init : SwapManager → SwapManager
on_init m = record empty_manager {
  swaps = m.swaps;
  addrcache = keep_if (λ a. not (a == 0)) m.addrcache;
  providers = m.providers;
  comp_onchain = m.comp_onchain;
  comp_pay = m.comp_pay;
}

-- Requests come with an id that no greenthread works on, and lightningd makes addresses that are new.
pub data Step (m n : SwapManager) : List Message → Type 0 where
  restarted : n ≡ on_init m → Step m n []
  requested :
      (uuid max_amount min_amount : ℕ)
      → waiting uuid m ≡ 0
      → n ≡ on_swap_request uuid max_amount min_amount m
      → Step m n []
  loaded_addresses : n ≡ load_address_queue m → Step m n []
  loaded_invoices : n ≡ load_invoice_queue m → Step m n []
  started_addresses : n ≡ process_needs_address m → Step m n []
  started_invoices : n ≡ process_needs_invoice m → Step m n []
  address_turn : {out : List Message} → loop_needs_address m ≡ some (n, out) → Step m n out
  got_address :
      (address : ℕ) {out : List Message}
      → address ≢ 0
      → uses address m ≡ 0
      → on_response_newaddr address m ≡ some (n, out)
      → Step m n out
  invoice_turn : {out : List Message} → loop_needs_invoice m ≡ some (n, out) → Step m n out
  quoted : (q : Quotation) → n ≡ on_provide_swap_quotation q m → Step m n []
  quotations_in :
      (rolls : List ℕ) {out : List Message}
      → start_quotations rolls m ≡ some (n, out)
      → Step m n out
  not_created : {out : List Message} → on_swap_not_created m ≡ some (n, out) → Step m n out
  created :
      (invoice hash timeout : ℕ) {out : List Message}
      → on_swap_created invoice hash timeout m ≡ some (n, out)
      → Step m n out
  listed_pay :
      (status : StatusListpays) (hash sent : ℕ) {out : List Message}
      → (n, out) ≡ on_response_listpays status hash sent m
      → Step m n out
  listed_funds : (outputs : List (ℕ × Amount)) → n ≡ on_listfunds_result outputs m → Step m n []
  funds_turn : {out : List Message} → (n, out) ≡ loop_onchain_funds m → Step m n out
  block : (height : ℕ) → n ≡ on_block height m → Step m n []
  resumed :
      (roll : ℕ) (before after : List Task) (t : Task) {out : List Message}
      → m.tasks ≡ before ++ t ∷ after
      → resume roll t (record m { tasks = before ++ after }) ≡ some (n, out)
      → Step m n out

-- From the first start, with all the messages that were raised.
pub data Reach : SwapManager → List Message → Type 0 where
  initial : Reach empty_manager []
  later :
      {m n : SwapManager} {sent out : List Message}
      → Reach m sent
      → Step m n out
      → Reach n (sent ++ out)
