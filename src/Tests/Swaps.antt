-- ===== src/Tests/Swaps.antt =====
-- The swap manager (Boss/Mod/SwapManager.cpp) at concrete inputs.
use clboss.Base.{◌+◌, ◌≤◌, ◌≡◌, refl, true, false, [], ◌∷◌, none, some, arith, count_if}
use clboss.Swap.{
  Quotation, pop_invoice, on_onchain_funds_seen, SwapManager, pay_invoice, swap_response, Outcome,
  has_uuid, last_where, empty_manager,
}
use clboss.Swap.Address.{
  on_swap_request, new_swap, process_needs_address, load_address, on_response_newaddr,
}
use clboss.Swap.Invoice.{on_provide_swap_quotation, on_swap_created}
use clboss.Swap.Onchain.{on_listfunds_result, loop_onchain_funds, funds_seen}
use clboss.Swap.Steps.{
  uses, Step, Reach, requested, started_addresses, got_address, quoted, created, listed_funds,
  funds_turn, initial, later, resumed, resume, on_init,
}
use clboss.Swap.Consistent.{IsConsistent}
use clboss.Swap.Reachable.{Reach-IsConsistent}
use clboss.Swap.Sharing.{succeeded}
use clboss.Swap.Custody.{Reach-custody}
use clboss.Swap.Halves.{halves, is_completed}
use clboss.Swap.Pairing.{Reach-paired}
use clboss.Swap.Reduction.{attempts, attempts-fail}

abbrev state_of : Outcome → SwapManager
state_of none = empty_manager
state_of (some r) = r.0

abbrev quote : Quotation
quote = record { score = 20; provider = 3; provider_name = 12 }

-- Swap 7 gets the address 50, an invoice with the hash 77, and funds.
abbrev asked : SwapManager
asked = process_needs_address (on_swap_request 7 4000 1000 empty_manager)

abbrev addressed : SwapManager
addressed = load_address 7 50 [] asked

abbrev priced : SwapManager
priced = on_provide_swap_quotation quote addressed

abbrev awaiting : SwapManager
awaiting = state_of (on_swap_created 9 77 800 priced)

abbrev funded : SwapManager
funded = on_listfunds_result ((50, 3900) ∷ []) awaiting

abbrev done : SwapManager
done = (loop_onchain_funds funded).0

journey : Reach funded (pay_invoice 9 ∷ [])
unfolding on_swap_request process_needs_address on_response_newaddr load_address
    on_provide_swap_quotation on_swap_created on_listfunds_result
journey =
    later {sent = pay_invoice 9 ∷ []} {out = []}
      (later {sent = []} {out = pay_invoice 9 ∷ []}
        (later {sent = []} {out = []}
          (later {sent = []} {out = []}
            (later {sent = []} {out = []}
              (later {sent = []} {out = []} initial (requested 7 4000 1000 refl refl))
              (started_addresses refl))
            (got_address 50 (omega arith) refl refl))
          (quoted quote refl))
        (created 9 77 800 refl))
      (listed_funds ((50, 3900) ∷ []) refl)

funded-Step : Step funded done (swap_response 7 true 3900 ∷ [])
unfolding on_swap_request process_needs_address load_address on_provide_swap_quotation
    on_swap_created on_listfunds_result loop_onchain_funds
funded-Step = funds_turn refl

Reach-IsConsistent_example : IsConsistent funded
Reach-IsConsistent_example = Reach-IsConsistent funded (pay_invoice 9 ∷ []) journey

Reach-custody_example :
    (uses 50 funded ≤ 1)
    × (uses 50 done ≤ 1)
    × (uses 50 funded ≤ uses 50 done + count_if succeeded (swap_response 7 true 3900 ∷ []))
Reach-custody_example =
    Reach-custody 50 funded done (pay_invoice 9 ∷ []) (swap_response 7 true 3900 ∷ []) journey
      funded-Step

-- The funds are recorded, to wait for the news of the payment.
abbrev recorded : SwapManager
recorded = (funds_seen 77 3900 12 (record done { tasks = pop_invoice ∷ [] })).0

recorded-Step : Step done recorded []
unfolding on_swap_request process_needs_address load_address on_provide_swap_quotation
    on_swap_created on_listfunds_result loop_onchain_funds funds_seen resume
recorded-Step = resumed 0 (pop_invoice ∷ []) [] (on_onchain_funds_seen 77 3900 12) refl refl

Reach-paired_example :
    (halves 77 done ≤ 1)
    × (halves 77 recorded ≤ 1)
    × (halves 77 done ≤ halves 77 recorded + count_if is_completed [])
Reach-paired_example =
    Reach-paired 77 done recorded (pay_invoice 9 ∷ swap_response 7 true 3900 ∷ []) []
      (later {sent = pay_invoice 9 ∷ []} {out = swap_response 7 true 3900 ∷ []} journey funded-Step)
      recorded-Step

-- A swap of 5, of which 3 must remain, is given up after four attempts at most.
abbrev small : SwapManager
small = on_swap_request 8 5 3 empty_manager

small_row : last_where (has_uuid 8) small.swaps ≡ some (new_swap 8 5 3)
unfolding on_swap_request
small_row = refl

attempts-fail_example :
    ((attempts (6 ∷ 1 ∷ 0 ∷ 2 ∷ []) 8 small).1 ≡ swap_response 8 false 0 ∷ [])
    × (last_where (has_uuid 8) (attempts (6 ∷ 1 ∷ 0 ∷ 2 ∷ []) 8 small).0.swaps ≡ none)
attempts-fail_example =
    attempts-fail 3 (6 ∷ 1 ∷ 0 ∷ 2 ∷ []) 8 (new_swap 8 5 3) small small_row (omega arith)
      (omega arith) (omega arith) (omega arith)

-- A restart deletes a blank address, and forgets what was queued.
starts_again :
    on_init (record empty_manager {
      addrcache = 0 ∷ 7 ∷ [];
      getting_address = true;
      address_queue = 3 ∷ [];
    })
    ≡ record empty_manager { addrcache = 7 ∷ [] }
unfolding on_init
starts_again = refl
