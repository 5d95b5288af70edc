-- ===== src/Swap/Reachable.antt =====
-- Every step keeps the tables and queues consistent, and so every reachable state has them so.
use clboss.Base.{
  ℕ, ◌+◌, ◌<◌, ◌≡◌, refl, sym, ap, subst, inl, inr, Bool, true, false, List, [], ◌∷◌, ◌++◌, arith,
  if◌then◌else◌, count_if, count_if-append, List-cases, ==_refl,
}
use clboss.Swap.{
  Quotation, SwapManager, Message, Task, swap_reduce_or_fail, on_onchain_funds_seen, pop_invoice,
  Ensures, Ensures-some,
}
use clboss.Swap.Address.{process_needs_address, process_needs_invoice}
use clboss.Swap.Invoice.{on_provide_swap_quotation, start_quotations, on_swap_not_created}
use clboss.Swap.Onchain.{on_listfunds_result}
use clboss.Swap.Steps.{
  waiting, is_reduction, Step, Reach, resume, on_response_listpays, StatusListpays,
}
use clboss.Swap.Rows.{is_new}
use clboss.Swap.Consistent.{
  IsConsistent, empty_manager-IsConsistent, request-IsConsistent, load_addresses-IsConsistent,
  load_invoices-IsConsistent, same-IsConsistent,
}
use clboss.Swap.Invariant.{
  reduce-IsConsistent, address_turn-IsConsistent, newaddr-IsConsistent, invoice_turn-IsConsistent,
  quotations-IsConsistent, created-IsConsistent, pop_front-IsConsistent, pay_success-IsConsistent,
  seen-IsConsistent, pay_failure-IsConsistent, funds_turn-IsConsistent, block-IsConsistent,
}
use clboss.Swap.Steps.{
  restarted, on_init, requested, loaded_addresses, loaded_invoices, started_addresses,
  started_invoices, address_turn, got_address, invoice_turn, quoted, quotations_in, not_created,
  created, listed_pay, listed_funds, funds_turn, block, resumed, initial, later, nonexistent,
  pending, success, failed,
}

either_way {ℓ} :
    {A : Type 0} (P : A → Type ℓ) (b : Bool) (x y : A) → P x → P y → P (if b then x else y)
either_way P true x y h h' = h
either_way P false x y h h' = h'

process_address-IsConsistent :
    (m : SwapManager) → IsConsistent m → IsConsistent (process_needs_address m)
unfolding process_needs_address
process_address-IsConsistent m c =
    let started : SwapManager = record m { getting_address = true } in
    either_way IsConsistent m.getting_address m started c
      (same-IsConsistent m c started refl refl c.settled)

process_invoice-IsConsistent :
    (m : SwapManager) → IsConsistent m → IsConsistent (process_needs_invoice m)
unfolding process_needs_invoice
process_invoice-IsConsistent m c =
    let started : SwapManager = record m { getting_invoice = true } in
    either_way IsConsistent m.getting_invoice m started c
      (same-IsConsistent m c started refl refl c.settled)

quoted-IsConsistent :
    (m : SwapManager) (q : Quotation)
    → IsConsistent m
    → IsConsistent (on_provide_swap_quotation q m)
unfolding on_provide_swap_quotation
quoted-IsConsistent m q c = same-IsConsistent m c _ refl refl c.settled

listed_funds-IsConsistent :
    (m : SwapManager) (outputs : List (ℕ × ℕ))
    → IsConsistent m
    → IsConsistent (on_listfunds_result outputs m)
unfolding on_listfunds_result
listed_funds-IsConsistent m outputs c = same-IsConsistent m c _ refl refl c.settled

not_created-IsConsistent :
    (m : SwapManager) → IsConsistent m → Ensures IsConsistent (on_swap_not_created m)
unfolding on_swap_not_created
not_created-IsConsistent m c = elim (List-cases m.quotations) [
  | inl e ↦ rw (e, on_swap_not_created) tt
  | inr (q, qs, e) ↦
      rw (e, on_swap_not_created)
        (quotations-IsConsistent _ (same-IsConsistent m c _ refl refl c.settled))
]

start_quotations-IsConsistent :
    (m : SwapManager) (rolls : List ℕ)
    → IsConsistent m
    → Ensures IsConsistent (start_quotations rolls m)
unfolding start_quotations
start_quotations-IsConsistent m rolls c =
    quotations-IsConsistent _ (same-IsConsistent m c _ refl refl c.settled)

listed_pay-IsConsistent :
    (m : SwapManager) (status : StatusListpays) (hash sent : ℕ)
    → IsConsistent m
    → IsConsistent (on_response_listpays status hash sent m).0
unfolding on_response_listpays
listed_pay-IsConsistent m success hash sent c = pay_success-IsConsistent m c hash sent
listed_pay-IsConsistent m failed hash sent c = pay_failure-IsConsistent m c hash
listed_pay-IsConsistent m nonexistent hash sent c = c
listed_pay-IsConsistent m pending hash sent c = c

-- A greenthread goes on.
resume_task-IsConsistent :
    (m : SwapManager) (roll : ℕ) (before after : List Task) (t : Task)
    → IsConsistent (record m { tasks = before ++ after })
    → ((u : ℕ) → 0 < count_if (is_reduction u) (t ∷ []) → count_if (is_new u) m.swaps ≡ 0)
    → Ensures IsConsistent (resume roll t (record m { tasks = before ++ after }))
unfolding resume
resume_task-IsConsistent m roll before after (swap_reduce_or_fail u) c old =
    reduce-IsConsistent _ c roll u (old u (rw (==_refl u) (omega arith)))
resume_task-IsConsistent m roll before after (on_onchain_funds_seen hash received name) c old =
    seen-IsConsistent _ c hash received name
resume_task-IsConsistent m roll before after pop_invoice c old = pop_front-IsConsistent _ c

-- A greenthread that waited for a swap to be reduced did so for one that has an address.
pub fewer_tasks :
    (m : SwapManager) (before after : List Task) (t : Task)
    → IsConsistent m
    → m.tasks ≡ before ++ t ∷ after
    → IsConsistent (record m { tasks = before ++ after })
      × ((u : ℕ) → 0 < count_if (is_reduction u) (t ∷ []) → count_if (is_new u) m.swaps ≡ 0)
fewer_tasks m before after t c e =
    let left : (v : ℕ)
        → waiting v m
          ≡ waiting v (record m { tasks = before ++ after }) + count_if (is_reduction v) (t ∷ []) =
      λ v. omega (
        arith,
        ap (count_if (is_reduction v)) e,
        count_if-append (is_reduction v) before (t ∷ after),
        count_if-append (is_reduction v) before after,
      ) in
    (
      same-IsConsistent m c _ refl refl (λ v h. c.settled v (omega (arith, h, left v))),
      λ u h. c.settled u (omega (arith, h, left u)),
    )

resume-IsConsistent :
    (m : SwapManager) (roll : ℕ) (before after : List Task) (t : Task)
    → IsConsistent m
    → m.tasks ≡ before ++ t ∷ after
    → Ensures IsConsistent (resume roll t (record m { tasks = before ++ after }))
resume-IsConsistent m roll before after t c e =
    let (fewer, old) = fewer_tasks m before after t c e in
    resume_task-IsConsistent m roll before after t fewer old

-- Nothing is queued, and no greenthread waits.
on_init-IsConsistent : (m : SwapManager) → IsConsistent m → IsConsistent (on_init m)
unfolding on_init
on_init-IsConsistent m c = record {
  unique = c.unique;
  shaped = c.shaped;
  queued = λ u. omega arith;
  settled = λ u h. absurd (omega (arith, h));
}

Step-IsConsistent :
    (m n : SwapManager) (out : List Message) → Step m n out → IsConsistent m → IsConsistent n
Step-IsConsistent m n out (restarted e) c = subst IsConsistent (sym e) (on_init-IsConsistent m c)
Step-IsConsistent m n out (requested u a b fresh e) c =
    subst IsConsistent (sym e) (request-IsConsistent m c u a b fresh)
Step-IsConsistent m n out (loaded_addresses e) c =
    subst IsConsistent (sym e) (load_addresses-IsConsistent m c)
Step-IsConsistent m n out (loaded_invoices e) c =
    subst IsConsistent (sym e) (load_invoices-IsConsistent m c)
Step-IsConsistent m n out (started_addresses e) c =
    subst IsConsistent (sym e) (process_address-IsConsistent m c)
Step-IsConsistent m n out (started_invoices e) c =
    subst IsConsistent (sym e) (process_invoice-IsConsistent m c)
Step-IsConsistent m n out (address_turn e) c =
    Ensures-some IsConsistent _ n out (address_turn-IsConsistent m c) e
Step-IsConsistent m n out (got_address a filled new e) c =
    Ensures-some IsConsistent _ n out (newaddr-IsConsistent m c a filled) e
Step-IsConsistent m n out (invoice_turn e) c =
    Ensures-some IsConsistent _ n out (invoice_turn-IsConsistent m c) e
Step-IsConsistent m n out (quoted q e) c = subst IsConsistent (sym e) (quoted-IsConsistent m q c)
Step-IsConsistent m n out (quotations_in rolls e) c =
    Ensures-some IsConsistent _ n out (start_quotations-IsConsistent m rolls c) e
Step-IsConsistent m n out (not_created e) c =
    Ensures-some IsConsistent _ n out (not_created-IsConsistent m c) e
Step-IsConsistent m n out (created invoice hash timeout e) c =
    Ensures-some IsConsistent _ n out (created-IsConsistent m c invoice hash timeout) e
Step-IsConsistent m n out (listed_pay status hash sent e) c =
    subst (λ r. IsConsistent r.0) (sym e) (listed_pay-IsConsistent m status hash sent c)
Step-IsConsistent m n out (listed_funds outputs e) c =
    subst IsConsistent (sym e) (listed_funds-IsConsistent m outputs c)
Step-IsConsistent m n out (funds_turn e) c =
    subst (λ r. IsConsistent r.0) (sym e) (funds_turn-IsConsistent m c)
Step-IsConsistent m n out (block height e) c =
    subst IsConsistent (sym e) (block-IsConsistent m c height)
Step-IsConsistent m n out (resumed roll before after t e e') c =
    Ensures-some IsConsistent _ n out (resume-IsConsistent m roll before after t c e) e'

-- In every state that the manager reaches by any sequence of its steps, ids are unique, each row
-- has the address, the hash and the timeout that its state wants, an id in the queue for addresses
-- has a row that needs one and stands there once, and no greenthread works on a swap that still
-- needs an address.
pub Reach-IsConsistent : (m : SwapManager) (sent : List Message) → Reach m sent → IsConsistent m
Reach-IsConsistent _ _ initial = empty_manager-IsConsistent
Reach-IsConsistent _ _ (later {m} {n} {sent} {out} r st) =
    Step-IsConsistent m n out st (Reach-IsConsistent m sent r)
