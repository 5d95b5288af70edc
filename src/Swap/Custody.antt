-- ===== src/Swap/Custody.antt =====
-- Through every step each address is in one place at most, and only a completed swap takes one away.
use clboss.Base.{
  ℕ, ◌+◌, ◌≤◌, ◌<◌, ◌≡◌, ◌≢◌, sym, subst, not, ◌==◌, keep_if, Bool-cases, ◌∙◌, refl, ap, List, [],
  ◌∷◌, ◌++◌, arith, count, count_if, ==_refl, List-cases, inl, inr,
}
use clboss.Swap.{
  SwapManager, Quotation, Message, Task, swap_reduce_or_fail, on_onchain_funds_seen, pop_invoice,
  Ensures, Ensures-some,
}
use clboss.Swap.Address.{
  load_address_queue, load_invoice_queue, process_needs_address, process_needs_invoice,
}
use clboss.Swap.Settle.{on_pay_failure, on_block}
use clboss.Swap.Invoice.{on_provide_swap_quotation, start_quotations, on_swap_not_created}
use clboss.Swap.Onchain.{on_listfunds_result, loop_onchain_funds}
use clboss.Swap.Steps.{
  uses, is_reduction, resume, on_response_listpays, StatusListpays, nonexistent, pending, success,
  failed, Step, Reach, requested, restarted, on_init, loaded_addresses, loaded_invoices,
  started_addresses, started_invoices, address_turn, got_address, invoice_turn, quoted,
  quotations_in, not_created, created, listed_pay, listed_funds, funds_turn, block, resumed,
  initial, later,
}
use clboss.Swap.Tables.{count_if-keep_if-le}
use clboss.Swap.Rows.{is_new, at_most_once}
use clboss.Swap.Consistent.{IsConsistent}
use clboss.Swap.Reachable.{Reach-IsConsistent, fewer_tasks}
use clboss.Swap.Sharing.{
  succeeded, invoice_turn-uses, quotations-uses, created-uses, pay_success-uses, seen-uses,
  pop_front-uses, request-uses, reduce-uses, address_turn-uses, newaddr-uses, funds_turn-uses,
}

module _ (a : ℕ) where
  quotations_in-uses :
      (m : SwapManager) (rolls : List ℕ)
      → Ensures (λ n. uses a n ≡ uses a m) (start_quotations rolls m)
  unfolding start_quotations
  quotations_in-uses m rolls = quotations-uses a _

  not_created-uses : (m : SwapManager) → Ensures (λ n. uses a n ≡ uses a m) (on_swap_not_created m)
  unfolding on_swap_not_created
  not_created-uses m = elim (List-cases m.quotations) [
    | inl e ↦ rw (e, on_swap_not_created) tt
    | inr (q, qs, e) ↦ rw (e, on_swap_not_created) (quotations-uses a _)
  ]

  listed_pay-uses :
      (m : SwapManager) (status : StatusListpays) (hash sent : ℕ)
      → uses a (on_response_listpays status hash sent m).0 ≡ uses a m
  unfolding on_response_listpays on_pay_failure
  listed_pay-uses m success hash sent = pay_success-uses a m hash sent
  listed_pay-uses m failed hash sent = ground arith
  listed_pay-uses m nonexistent hash sent = refl
  listed_pay-uses m pending hash sent = refl

  unmoved :
      (m : SwapManager) (q : Quotation) (outputs : List (ℕ × ℕ)) (height : ℕ)
      → (uses a (load_address_queue m) ≡ uses a m)
        × (uses a (load_invoice_queue m) ≡ uses a m)
        × (uses a (process_needs_address m) ≡ uses a m)
        × (uses a (process_needs_invoice m) ≡ uses a m)
        × (uses a (on_provide_swap_quotation q m) ≡ uses a m)
        × (uses a (on_listfunds_result outputs m) ≡ uses a m)
        × (uses a (on_block height m) ≡ uses a m)
  unfolding load_address_queue load_invoice_queue process_needs_address process_needs_invoice
      on_provide_swap_quotation on_listfunds_result on_block
  unmoved m q outputs height = (refl, refl, ground arith, ground arith, refl, refl, refl)

  -- One place at most, and none for the empty text.
  abbrev IsHeld : SwapManager → Type 0
  IsHeld m = (uses a m ≤ 1) × (a ≡ 0 → uses a m ≡ 0)

  -- Held, and gone only with a success.
  IsKept : SwapManager → List Message → SwapManager → Type 0
  IsKept m out n = IsHeld n × (uses a m ≤ uses a n + count_if succeeded out)

  kept : (m n : SwapManager) (out : List Message) → IsHeld m → uses a n ≡ uses a m → IsKept m out n
  unfolding IsKept
  kept m n out h e = ((omega (arith, h.0, e), λ z. e ∙ h.1 z), omega (arith, e))

  abbrev no_quotation : Quotation
  no_quotation = record { score = 0; provider = 0; provider_name = 0 }

  given :
      (m n : SwapManager) (out : List Message) (x : ℕ)
      → IsHeld m
      → x ≢ 0
      → uses x m ≡ 0
      → uses a n ≡ uses a m + count a (x ∷ [])
      → IsKept m out n
  unfolding IsKept
  given m n out x h filled new e = (
    (
      omega (arith, h.0, e, at_most_once (λ w. uses w m) x a new h.0),
      λ z. ground (arith, h.1 z, e, filled, z),
    ),
    omega (arith, e),
  )

  completed :
      (m n : SwapManager) (out : List Message)
      → IsHeld m
      → (n, out) ≡ loop_onchain_funds m
      → (uses a (loop_onchain_funds m).0 ≤ uses a m)
        × (uses a m ≤ uses a (loop_onchain_funds m).0 + count_if succeeded (loop_onchain_funds m).1)
      → IsKept m out n
  unfolding IsKept
  completed m n out h e (less, more) =
      let same = ap (λ r. uses a r.0) e in
      (
        (omega (arith, h.0, less, same), λ z. omega (arith, h.1 z, less, same)),
        omega (arith, more, same, ap (λ r. count_if succeeded r.1) e),
      )

  -- Only blank addresses go.
  cleaned : (xs : List ℕ) → a ≢ 0 → count a (keep_if (λ x. not (x == 0)) xs) ≡ count a xs
  cleaned [] filled = refl
  cleaned (x ∷ xs) filled = ground (arith, cleaned xs filled)

  started_again : (m : SwapManager) → IsHeld m → IsKept m [] (on_init m)
  unfolding IsKept on_init
  started_again m h = elim (Bool-cases (a == 0)) [
    | inl e ↦
        let zero_is : a ≡ 0 = ground arith in
        let less : uses a (on_init m) ≤ uses a m =
          omega (arith, count_if-keep_if-le (λ x. x == a) (λ x. not (x == 0)) m.addrcache) in
        ((omega (arith, h.0, less), λ z. omega (arith, h.1 z, less)), omega (arith, h.1 zero_is))
    | inr e ↦
        let filled : a ≢ 0 = ground arith in
        kept m (on_init m) [] h (omega (arith, cleaned m.addrcache filled))
  ]

  resume-uses :
      (m : SwapManager) (roll : ℕ) (before after : List Task) (t : Task)
      → IsConsistent (record m { tasks = before ++ after })
      → ((u : ℕ) → 0 < count_if (is_reduction u) (t ∷ []) → count_if (is_new u) m.swaps ≡ 0)
      → Ensures (λ n. uses a n ≡ uses a m) (resume roll t (record m { tasks = before ++ after }))
  unfolding resume
  resume-uses m roll before after (swap_reduce_or_fail u) c old =
      reduce-uses a _ c roll u (old u (rw (==_refl u) (omega arith)))
  resume-uses m roll before after (on_onchain_funds_seen hash received name) c old =
      seen-uses a _ hash received name
  resume-uses m roll before after pop_invoice c old = pop_front-uses a _

  Step-IsKept :
      (m n : SwapManager) (out : List Message)
      → Step m n out
      → IsConsistent m
      → IsHeld m
      → IsKept m out n
  Step-IsKept m n out (restarted e) c h = subst (IsKept m []) (sym e) (started_again m h)
  Step-IsKept m n out (requested u x y fresh e) c h =
      kept m n [] h (ap (uses a) e ∙ request-uses a m u x y)
  Step-IsKept m n out (loaded_addresses e) c h =
      kept m n [] h (ap (uses a) e ∙ (unmoved m no_quotation [] 0).0)
  Step-IsKept m n out (loaded_invoices e) c h =
      kept m n [] h (ap (uses a) e ∙ (unmoved m no_quotation [] 0).1)
  Step-IsKept m n out (started_addresses e) c h =
      kept m n [] h (ap (uses a) e ∙ (unmoved m no_quotation [] 0).2)
  Step-IsKept m n out (started_invoices e) c h =
      kept m n [] h (ap (uses a) e ∙ (unmoved m no_quotation [] 0).3)
  Step-IsKept m n out (address_turn e) c h =
      kept m n out h (Ensures-some (λ n. uses a n ≡ uses a m) _ n out (address_turn-uses a m c) e)
  Step-IsKept m n out (got_address x filled new e) c h =
      given m n out x h filled new (
        Ensures-some (λ n. uses a n ≡ uses a m + count a (x ∷ [])) _ n out (newaddr-uses a m c x) e)
  Step-IsKept m n out (invoice_turn e) c h =
      kept m n out h (Ensures-some (λ n. uses a n ≡ uses a m) _ n out (invoice_turn-uses a m) e)
  Step-IsKept m n out (quoted q e) c h = kept m n [] h (ap (uses a) e ∙ (unmoved m q [] 0).4)
  Step-IsKept m n out (quotations_in rolls e) c h =
      kept m n out h
        (Ensures-some (λ n. uses a n ≡ uses a m) _ n out (quotations_in-uses m rolls) e)
  Step-IsKept m n out (not_created e) c h =
      kept m n out h (Ensures-some (λ n. uses a n ≡ uses a m) _ n out (not_created-uses m) e)
  Step-IsKept m n out (created invoice hash timeout e) c h =
      kept m n out h
        (Ensures-some (λ n. uses a n ≡ uses a m) _ n out (created-uses a m invoice hash timeout) e)
  Step-IsKept m n out (listed_pay status hash sent e) c h =
      kept m n out h (ap (λ r. uses a r.0) e ∙ listed_pay-uses m status hash sent)
  Step-IsKept m n out (listed_funds outputs e) c h =
      kept m n [] h (ap (uses a) e ∙ (unmoved m no_quotation outputs 0).5)
  Step-IsKept m n out (funds_turn e) c h = completed m n out h e (funds_turn-uses a m c)
  Step-IsKept m n out (block height e) c h =
      kept m n [] h (ap (uses a) e ∙ (unmoved m no_quotation [] height).6)
  Step-IsKept m n out (resumed roll before after t e e') c h =
      let (fewer, old) = fewer_tasks m before after t c e in
      kept m n out h (
        Ensures-some (λ n. uses a n ≡ uses a m) _ n out
          (resume-uses m roll before after t fewer old) e')

  Reach-IsHeld : (m : SwapManager) (sent : List Message) → Reach m sent → IsHeld m
  unfolding IsKept
  Reach-IsHeld _ _ initial = (omega arith, λ z. refl)
  Reach-IsHeld _ _ (later {m} {n} {sent} {out} r st) =
      (Step-IsKept m n out st (Reach-IsConsistent m sent r) (Reach-IsHeld m sent r)).0

  -- In every state that the manager reaches, and after any step from it, an address is in the
  -- cache once, or with one swap, or in neither; it is gone after the step only if the step
  -- reports a success.
  pub Reach-custody :
      (m n : SwapManager) (sent out : List Message)
      → Reach m sent
      → Step m n out
      → (uses a m ≤ 1) × (uses a n ≤ 1) × (uses a m ≤ uses a n + count_if succeeded out)
  unfolding IsKept
  Reach-custody m n sent out r st =
      let one = Reach-IsHeld m sent r in
      let (next, gone) = Step-IsKept m n out st (Reach-IsConsistent m sent r) one in
      (one.0, next.0, gone)
