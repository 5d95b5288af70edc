-- ===== src/Swap/Invoice.antt =====
-- The loop that finds each swap a provider and an invoice.
use clboss.Base.{
  ℕ, ◌%◌, ◌+◌, false, List, [], ◌∷◌, ◌++◌, Option, none, some, ltb, ◌==◌, if◌then◌else◌, not,
  keep_if,
}
use clboss.Swap.{
  awaiting_result, Swap, Quotation, SwapManager, solicit_swap_quotation, accept_swap_quotation,
  pay_invoice, swap_reduce_or_fail, pop_invoice, Outcome, text_of, update_where, has_uuid,
  last_where,
}

-- One turn of the loop, up to the solicitation. A missing row leaves the amount and address as they were.
unfoldable pub loop_needs_invoice : SwapManager → Outcome
loop_needs_invoice m = elim m.invoice_queue [
  | [] ↦ some (record m { getting_invoice = false }, [])
  | uuid ∷ rest ↦ elim (last_where (has_uuid uuid) m.swaps) [
    | none ↦ some (record m { quotations = [] }, solicit_swap_quotation m.amount ∷ [])
    | some s ↦ some (
      record m { quotations = []; amount = s.amount; address = text_of s.address },
      solicit_swap_quotation s.amount ∷ [],
    )
  ]
]

unfoldable pub on_provide_swap_quotation : Quotation → SwapManager → SwapManager
on_provide_swap_quotation q m = record m { quotations = m.quotations ++ q ∷ [] }

-- Each score becomes a random number up to it.
abbrev pub randomize : List ℕ → List Quotation → List Quotation
randomize rolls [] = []
randomize [] (q ∷ qs) = q ∷ randomize [] qs
randomize (roll ∷ rolls) (q ∷ qs) = record q { score = roll % (q.score + 1) } ∷ randomize rolls qs

-- From the highest score to the lowest.
pub insert_score : Quotation → List Quotation → List Quotation
insert_score q [] = q ∷ []
insert_score q (r ∷ rs) = if ltb r.score q.score then q ∷ r ∷ rs else r ∷ insert_score q rs

pub sort_scores : List Quotation → List Quotation
sort_scores [] = []
sort_scores (q ∷ qs) = insert_score q (sort_scores qs)

abbrev pub last_quotation : List Quotation → Option Quotation
last_quotation [] = none
last_quotation (q ∷ qs) = elim (last_quotation qs) [ none ↦ some q | some r ↦ some r ]

abbrev pub drop_last : List Quotation → List Quotation
drop_last [] = []
drop_last (q ∷ []) = []
drop_last (q ∷ r ∷ rs) = q ∷ drop_last (r ∷ rs)

-- The swap fails for now if there is no quotation left, else the cheapest is accepted.
unfoldable pub loop_quotations : SwapManager → Outcome
loop_quotations m = elim (last_quotation m.quotations) [
  | some q ↦ some (m, accept_swap_quotation m.amount m.address q.provider ∷ [])
  | none ↦ elim m.invoice_queue [
    | [] ↦ none
    | uuid ∷ rest ↦
        some
          (record m { invoice_queue = rest; tasks = m.tasks ++ swap_reduce_or_fail uuid ∷ [] }, [])
  ]
]

-- When the providers have answered.
unfoldable pub start_quotations : List ℕ → SwapManager → Outcome
start_quotations rolls m =
    loop_quotations (record m { quotations = sort_scores (randomize rolls m.quotations) })

unfoldable pub on_swap_not_created : SwapManager → Outcome
on_swap_not_created m = elim m.quotations [
  | [] ↦ none
  | q ∷ qs ↦ loop_quotations (record m { quotations = drop_last (q ∷ qs) })
]

abbrev pub await_result : ℕ → ℕ → Swap → Swap
await_result hash timeout s = record s {
  state = awaiting_result;
  payment_hash = some hash;
  timeout = some timeout;
}

-- `INSERT OR REPLACE`, which the foreign key refuses for an unknown swap.
unfoldable pub on_swap_created : (invoice hash timeout : ℕ) → SwapManager → Outcome
on_swap_created invoice hash timeout m = elim (last_quotation m.quotations) [
  | none ↦ none
  | some q ↦ elim m.invoice_queue [
    | [] ↦ none
    | uuid ∷ rest ↦ elim (last_where (has_uuid uuid) m.swaps) [
      | none ↦ none
      | some s ↦ some (
        record m {
          swaps = update_where (has_uuid uuid) (await_result hash timeout) m.swaps;
          providers = keep_if (λ p. not (p.0 == uuid)) m.providers ++ (uuid, q.provider_name) ∷ [];
          tasks = m.tasks ++ pop_invoice ∷ [];
        },
        pay_invoice invoice ∷ [],
      )
    ]
  ]
]

-- After the invoice is passed on.
unfoldable pub pop_front : SwapManager → Outcome
pop_front m = elim m.invoice_queue [
  | [] ↦ none
  | uuid ∷ rest ↦ some (record m { invoice_queue = rest }, [])
]
