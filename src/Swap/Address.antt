-- ===== src/Swap/Address.antt =====
-- New swaps, and the loop that gives each an onchain address.
use clboss.Base.{
  ℕ, true, false, ◌&&◌, List, [], ◌∷◌, ◌++◌, Option, none, some, ◌==◌, if◌then◌else◌, map, keep_if,
}
use clboss.Ln.Amount.{Amount}
use clboss.Swap.{
  State, needs_onchain_address, needs_invoice, Swap, request_newaddr, SwapManager, Outcome,
  is_state, update_where, has_uuid, last_where,
}

-- `INSERT INTO "SwapManager"`.
abbrev pub new_swap : ℕ → Amount → Amount → Swap
new_swap uuid amount min_amount = record {
  uuid = uuid;
  amount = amount;
  min_amount = min_amount;
  state = needs_onchain_address;
  address = none;
  payment_hash = none;
  timeout = none;
}

-- A duplicate is logged and rolled back.
unfoldable pub on_swap_request : ℕ → Amount → Amount → SwapManager → SwapManager
on_swap_request uuid max_amount min_amount m = elim (last_where (has_uuid uuid) m.swaps) [
  | some s ↦ m
  | none ↦ record m {
    swaps = m.swaps ++ new_swap uuid max_amount min_amount ∷ [];
    address_queue = m.address_queue ++ uuid ∷ [];
  }
]

-- The ids of the swaps in a state, if the queue is empty.
abbrev pub load_queue : List ℕ → State → List Swap → List ℕ
load_queue [] s swaps = map (λ w. w.uuid) (keep_if (λ w. is_state s w.state) swaps)
load_queue (u ∷ us) s swaps = u ∷ us

unfoldable pub load_address_queue : SwapManager → SwapManager
load_address_queue m = record m {
  address_queue = load_queue m.address_queue needs_onchain_address m.swaps;
}

unfoldable pub load_invoice_queue : SwapManager → SwapManager
load_invoice_queue m = record m { invoice_queue = load_queue m.invoice_queue needs_invoice m.swaps }

-- Starts the loop, unless it runs; its turns are steps of their own.
unfoldable pub process_needs_address : SwapManager → SwapManager
process_needs_address m = if m.getting_address then m else record m { getting_address = true }

unfoldable pub process_needs_invoice : SwapManager → SwapManager
process_needs_invoice m = if m.getting_invoice then m else record m { getting_invoice = true }

-- The first address of the cache that is not empty, and the cache without it.
unfoldable pub take_cached : List ℕ → Option (ℕ × List ℕ)
take_cached [] = none
take_cached (a ∷ cache) =
    if a == 0
    then elim (take_cached cache) [ none ↦ none | some r ↦ some (r.0, a ∷ r.1) ]
    else some (a, cache)

abbrev pub give_address : ℕ → Swap → Swap
give_address address s = record s { address = some address; state = needs_invoice }

-- Pops the queue, whose front the id is.
unfoldable pub load_address : ℕ → ℕ → List ℕ → SwapManager → SwapManager
load_address uuid address rest m = record m {
  swaps =
      update_where (λ s. has_uuid uuid s && is_state needs_onchain_address s.state)
        (give_address address) m.swaps;
  address_queue = rest;
  invoice_queue = m.invoice_queue ++ uuid ∷ [];
}

-- One turn of the loop.
unfoldable pub loop_needs_address : SwapManager → Outcome
loop_needs_address m = elim m.address_queue [
  | [] ↦ some (record m { getting_address = false }, [])
  | uuid ∷ rest ↦ elim (take_cached m.addrcache) [
    | none ↦ some (m, request_newaddr ∷ [])
    | some r ↦ some (load_address uuid r.0 rest (record m { addrcache = r.1 }), [])
  ]
]

unfoldable pub on_response_newaddr : ℕ → SwapManager → Outcome
on_response_newaddr address m =
    if m.getting_address
    then elim m.address_queue [
      | [] ↦ none
      | uuid ∷ rest ↦ some (load_address uuid address rest m, [])
    ]
    else none
