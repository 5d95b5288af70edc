-- ===== src/Swap/Pairing.antt =====
-- Through every step the halves of completed swaps are paired.
use mathlib.Core.Option.{some-injective}
use clboss.Base.{ℕ, ◌+◌, ◌≤◌, ◌≡◌, ◌∙◌, ap, subst, sym, List, [], ◌++◌, arith, count_if}
use clboss.Swap.{
  SwapManager, Message, swap_reduce_or_fail, on_onchain_funds_seen, pop_invoice, Ensures-some,
}
use clboss.Swap.Address.{
  load_address_queue, load_invoice_queue, process_needs_address, process_needs_invoice,
}
use clboss.Swap.Settle.{reduce_or_fail, on_pay_failure, on_block}
use clboss.Swap.Invoice.{on_provide_swap_quotation}
use clboss.Swap.Onchain.{on_listfunds_result, funds_seen}
use clboss.Swap.Steps.{
  resume, on_response_listpays, nonexistent, pending, success, failed, Step, Reach, requested,
  restarted, on_init, loaded_addresses, loaded_invoices, started_addresses, started_invoices,
  address_turn, got_address, invoice_turn, quoted, quotations_in, not_created, created, listed_pay,
  listed_funds, funds_turn, block, resumed, initial, later,
}
use clboss.Swap.Halves.{
  is_completed, halves, paid-IsKept, seen-IsKept, address_turn-Unmoved, newaddr-Unmoved,
  invoice_turn-Unmoved, quotations_in-Unmoved, not_created-Unmoved, created-Unmoved,
  pop_front-Unmoved, reduce-Unmoved, funds_turn-Unmoved, request-Unmoved, kept, IsKept, Unmoved,
}

module _ (a : ℕ) where
  Step-IsKept :
      (m n : SwapManager) (out : List Message) → Step m n out → halves a m ≤ 1 → IsKept a m out n
  unfolding load_address_queue load_invoice_queue process_needs_address process_needs_invoice
      on_provide_swap_quotation on_listfunds_result on_block resume on_response_listpays
      on_pay_failure on_init IsKept
  Step-IsKept m n _ (restarted e) h = kept a m n [] h (ap (halves a) e)
  Step-IsKept m n _ (requested u x y free e) h =
      kept a m n [] h (ap (halves a) e ∙ request-Unmoved a m u x y)
  Step-IsKept m n _ (loaded_addresses e) h = kept a m n [] h (ap (halves a) e)
  Step-IsKept m n _ (loaded_invoices e) h = kept a m n [] h (ap (halves a) e)
  Step-IsKept m n _ (started_addresses e) h = kept a m n [] h (ap (halves a) e ∙ ground arith)
  Step-IsKept m n _ (started_invoices e) h = kept a m n [] h (ap (halves a) e ∙ ground arith)
  Step-IsKept m n out (address_turn e) h =
      kept a m n out h (Ensures-some (Unmoved a m) _ n out (address_turn-Unmoved a m) e)
  Step-IsKept m n out (got_address x filled new e) h =
      kept a m n out h (Ensures-some (Unmoved a m) _ n out (newaddr-Unmoved a m x) e)
  Step-IsKept m n out (invoice_turn e) h =
      kept a m n out h (Ensures-some (Unmoved a m) _ n out (invoice_turn-Unmoved a m) e)
  Step-IsKept m n _ (quoted q e) h = kept a m n [] h (ap (halves a) e)
  Step-IsKept m n out (quotations_in rolls e) h =
      kept a m n out h (Ensures-some (Unmoved a m) _ n out (quotations_in-Unmoved a m rolls) e)
  Step-IsKept m n out (not_created e) h =
      kept a m n out h (Ensures-some (Unmoved a m) _ n out (not_created-Unmoved a m) e)
  Step-IsKept m n out (created invoice hash timeout e) h =
      kept a m n out h
        (Ensures-some (Unmoved a m) _ n out (created-Unmoved a m invoice hash timeout) e)
  Step-IsKept m n out (listed_pay success hash sent e) h =
      subst (λ r. IsKept a m r.1 r.0) (sym e) (paid-IsKept a m hash sent h)
  Step-IsKept m n out (listed_pay failed hash sent e) h =
      kept a m n out h (ap (λ r. halves a r.0) e ∙ ground arith)
  Step-IsKept m n out (listed_pay nonexistent hash sent e) h =
      kept a m n out h (ap (λ r. halves a r.0) e)
  Step-IsKept m n out (listed_pay pending hash sent e) h =
      kept a m n out h (ap (λ r. halves a r.0) e)
  Step-IsKept m n _ (listed_funds outputs e) h = kept a m n [] h (ap (halves a) e)
  Step-IsKept m n out (funds_turn e) h =
      kept a m n out h (ap (λ r. halves a r.0) e ∙ funds_turn-Unmoved a m)
  Step-IsKept m n _ (block height e) h = kept a m n [] h (ap (halves a) e)
  Step-IsKept m n out (resumed roll before after (swap_reduce_or_fail u) e e') h =
      let next : reduce_or_fail roll u (record m { tasks = before ++ after }) ≡ (n, out) =
        some-injective _ _ e' in
      kept a m n out h (
        ap (λ r. halves a r.0) (sym next)
        ∙ reduce-Unmoved a roll u (record m { tasks = before ++ after }))
  Step-IsKept m n out (resumed roll before after (on_onchain_funds_seen hash received name) e e')
        h =
      let next : funds_seen hash received name (record m { tasks = before ++ after }) ≡ (n, out) =
        some-injective _ _ e' in
      subst (λ r. IsKept a m r.1 r.0) next
        (seen-IsKept a (record m { tasks = before ++ after }) hash received name h)
  Step-IsKept m n out (resumed roll before after pop_invoice e e') h = kept a m n out h (
      Ensures-some (Unmoved a m) _ n out
        (pop_front-Unmoved a (record m { tasks = before ++ after })) e')

  Reach-halves : (m : SwapManager) (sent : List Message) → Reach m sent → halves a m ≤ 1
  unfolding IsKept
  Reach-halves _ _ initial = omega arith
  Reach-halves _ _ (later {m} {n} {sent} {out} r st) =
      (Step-IsKept m n out st (Reach-halves m sent r)).0

  -- In every state that the manager reaches, and after any step from it, for each payment hash at
  -- most one half of a completion is recorded, the payment or the funds onchain; a record is gone
  -- after the step only if the step broadcasts a completed swap.
  pub Reach-paired :
      (m n : SwapManager) (sent out : List Message)
      → Reach m sent
      → Step m n out
      → (halves a m ≤ 1) × (halves a n ≤ 1) × (halves a m ≤ halves a n + count_if is_completed out)
  unfolding IsKept
  Reach-paired m n sent out r st =
      let one = Reach-halves m sent r in
      let (next, gone) = Step-IsKept m n out st one in (one, next, gone)
