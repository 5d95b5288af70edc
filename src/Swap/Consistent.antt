-- ===== src/Swap/Consistent.antt =====
-- What the tables and queues hold in every reachable state.
use clboss.Base.{
  ℕ, ◌+◌, ◌≤◌, ◌<◌, ◌≡◌, ◌∙◌, refl, ap, inl, inr, false, ◌&&◌, List, [], ◌∷◌, arith, not, ◌==◌,
  keep_if, count, count_if, count_if-append, Bool-cases, Option-cases, le_cases,
}
use clboss.Swap.{
  needs_invoice, Swap, SwapManager, has_uuid, update_where, last_where, empty_manager,
}
use clboss.Swap.Address.{
  on_swap_request, new_swap, load_queue, load_address, load_address_queue, load_invoice_queue,
  give_address,
}
use clboss.Swap.Steps.{waiting}
use clboss.Swap.Rows.{
  is_shaped, is_new, new-le-uuid, at_most_once, differs, load_queue-new, load_queue-ready,
  given-same, given-other, given-shaped, new_swap-uuid, new_swap-new, IsQuiet, quiet-uuid,
  quiet-shaped, quiet-new,
}
use clboss.Swap.Tables.{
  count_if-le, count_if-update, count_if-keep_if-le, last_where-none, count_if-deleted,
}

-- Ids are unique; each row is shaped as its state wants; an id in the queue for addresses has a row
-- that needs one, and stands in it once; and no greenthread works on a swap without an address.
pub record IsConsistent (m : SwapManager) : Type 0 where
  pub unique : (u : ℕ) → count_if (has_uuid u) m.swaps ≤ 1
  pub shaped : count_if (λ s. not (is_shaped s)) m.swaps ≡ 0
  pub queued : (u : ℕ) → count u m.address_queue ≤ count_if (is_new u) m.swaps
  pub settled : (u : ℕ) → 0 < waiting u m → count_if (is_new u) m.swaps ≡ 0

pub empty_manager-IsConsistent : IsConsistent empty_manager
empty_manager-IsConsistent = record {
  unique = λ u. omega arith;
  shaped = refl;
  queued = λ u. omega arith;
  settled = λ u h. refl;
}

module _ (m : SwapManager) (c : IsConsistent m) where
  pub request-IsConsistent :
      (u max_amount min_amount : ℕ)
      → waiting u m ≡ 0
      → IsConsistent (on_swap_request u max_amount min_amount m)
  unfolding on_swap_request
  request-IsConsistent u max_amount min_amount fresh =
      elim (Option-cases (last_where (has_uuid u) m.swaps)) [
        | inr (s, e) ↦ rw (e, on_swap_request) c
        | inl e ↦
            let row : List Swap = new_swap u max_amount min_amount ∷ [] in
            let unknown = last_where-none (has_uuid u) m.swaps e in
            let added = λ (v : ℕ).
              count_if-append (is_new v) m.swaps row
              ∙ ap (λ n. count_if (is_new v) m.swaps + n)
                  (new_swap-new u max_amount min_amount v) in
            rw (e, on_swap_request)
              (record {
                unique = λ v. omega (
                  arith,
                  count_if-append (has_uuid v) m.swaps row,
                  new_swap-uuid u max_amount min_amount v,
                  at_most_once (λ w. count_if (has_uuid w) m.swaps) u v unknown (c.unique v),
                );
                shaped =
                    omega (arith, c.shaped, count_if-append (λ s. not (is_shaped s)) m.swaps row);
                queued = λ v. omega (
                  arith,
                  c.queued v,
                  added v,
                  count_if-append (λ x. x == v) m.address_queue (u ∷ []),
                );
                settled = λ v h.
                    omega (arith, added v, c.settled v h, differs (λ w. waiting w m) u v fresh h);
              })
      ]

  pub load_addresses-IsConsistent : IsConsistent (load_address_queue m)
  unfolding load_address_queue
  load_addresses-IsConsistent = record {
    unique = c.unique;
    shaped = c.shaped;
    queued = λ u. load_queue-new m.address_queue m.swaps u (c.queued u);
    settled = c.settled;
  }

  pub load_invoices-IsConsistent : IsConsistent (load_invoice_queue m)
  unfolding load_invoice_queue
  load_invoices-IsConsistent = record {
    unique = c.unique;
    shaped = c.shaped;
    queued = c.queued;
    settled = λ u h.
        elim (le_cases (count u (load_queue m.invoice_queue needs_invoice m.swaps)) 0) [
          | inl out ↦ c.settled u (omega (arith, h, out))
          | inr queued ↦ elim (load_queue-ready m.invoice_queue m.swaps u (c.unique u) queued) [
            | inl old ↦ c.settled u (omega (arith, old))
            | inr done ↦ done
          ]
        ];
  }

  -- The front of the queue gets an address; the cache does not matter here.
  pub load_address-IsConsistent :
      (u a : ℕ) (rest cache : List ℕ)
      → m.address_queue ≡ u ∷ rest
      → (a == 0) ≡ false
      → IsConsistent (load_address u a rest (record m { addrcache = cache }))
  unfolding load_address
  load_address-IsConsistent u a rest cache e filled = record {
    unique = λ v. omega (
      arith,
      c.unique v,
      count_if-update (has_uuid v) (has_uuid v) (is_new u) (give_address a) m.swaps
          (λ s h. ground (arith, h)),
    );
    shaped = omega (
      arith,
      c.shaped,
      count_if-update (λ s. not (is_shaped s)) (λ s. not (is_shaped s)) (is_new u) (give_address a)
          m.swaps (λ s h. given-shaped u a s filled h),
    );
    queued = λ v. elim (Bool-cases (u == v)) [
      | inl same ↦
          let eq : u ≡ v = ground (arith, same) in
          rw (← eq) (ground (arith, c.queued u, ap (count u) e, new-le-uuid u m.swaps, c.unique u))
      | inr other ↦ omega (arith, c.queued v, ap (count v) e, given-other u a v m.swaps other)
    ];
    settled = λ v h. elim (Bool-cases (u == v)) [
      | inl same ↦ let eq : u ≡ v = ground (arith, same) in rw (← eq) (given-same u a m.swaps)
      | inr other ↦
          given-other u a v m.swaps other
          ∙ c.settled v
              (ground (arith, h, other, count_if-append (λ x. x == v) m.invoice_queue (u ∷ [])))
    ];
  }

  -- Rows that need an address stay, and only others change.
  changed-IsConsistent :
      (n : SwapManager)
      → ((v : ℕ) → count_if (has_uuid v) n.swaps ≤ count_if (has_uuid v) m.swaps)
      → count_if (λ s. not (is_shaped s)) n.swaps ≡ 0
      → ((v : ℕ) → count_if (is_new v) n.swaps ≡ count_if (is_new v) m.swaps)
      → n.address_queue ≡ m.address_queue
      → ((v : ℕ) → 0 < waiting v n → count_if (is_new v) m.swaps ≡ 0)
      → IsConsistent n
  changed-IsConsistent n uuids shape news queue works = record {
    unique = λ v. omega (arith, c.unique v, uuids v);
    shaped = shape;
    queued = λ v. omega (arith, c.queued v, news v, ap (count v) queue);
    settled = λ v h. news v ∙ works v h;
  }

  -- Nothing changes but what the invariant does not see, and greenthreads that end.
  pub same-IsConsistent :
      (n : SwapManager)
      → n.swaps ≡ m.swaps
      → n.address_queue ≡ m.address_queue
      → ((v : ℕ) → 0 < waiting v n → count_if (is_new v) m.swaps ≡ 0)
      → IsConsistent n
  same-IsConsistent n rows queue works =
      changed-IsConsistent n (λ v. omega (arith, ap (count_if (has_uuid v)) rows))
        (ap (count_if (λ s. not (is_shaped s))) rows ∙ c.shaped)
        (λ v. ap (count_if (is_new v)) rows) queue works

  -- A change of the row of a swap that has an address.
  pub update-IsConsistent :
      (u : ℕ) (f : Swap → Swap) (n : SwapManager)
      → IsQuiet f
      → count_if (is_new u) m.swaps ≡ 0
      → n.swaps ≡ update_where (has_uuid u) f m.swaps
      → n.address_queue ≡ m.address_queue
      → ((v : ℕ) → 0 < waiting v n → count_if (is_new v) m.swaps ≡ 0)
      → IsConsistent n
  update-IsConsistent u f n q old rows queue works =
      changed-IsConsistent n
        (λ v. omega (arith, ap (count_if (has_uuid v)) rows, quiet-uuid u f q v m.swaps))
        (ap (count_if (λ s. not (is_shaped s))) rows ∙ quiet-shaped u f q m.swaps old c.shaped)
        (λ v. ap (count_if (is_new v)) rows ∙ quiet-new u f q v m.swaps old) queue works

  -- The deletion of a swap that has an address.
  pub delete-IsConsistent :
      (u : ℕ) (n : SwapManager)
      → count_if (is_new u) m.swaps ≡ 0
      → n.swaps ≡ keep_if (λ s. not (has_uuid u s)) m.swaps
      → n.address_queue ≡ m.address_queue
      → ((v : ℕ) → 0 < waiting v n → count_if (is_new v) m.swaps ≡ 0)
      → IsConsistent n
  delete-IsConsistent u n old rows queue works =
      changed-IsConsistent n
        (λ v. omega (
          arith,
          ap (count_if (has_uuid v)) rows,
          count_if-keep_if-le (has_uuid v) (λ s. not (has_uuid u s)) m.swaps,
        ))
        (omega (
          arith,
          ap (count_if (λ s. not (is_shaped s))) rows,
          c.shaped,
          count_if-keep_if-le (λ s. not (is_shaped s)) (λ s. not (has_uuid u s)) m.swaps,
        ))
        (λ v. omega (
          arith,
          ap (count_if (is_new v)) rows,
          old,
          count_if-deleted (has_uuid u) (is_new v) m.swaps,
          count_if-le (λ x. has_uuid u x && is_new v x) (is_new u) m.swaps
              (λ x h. ground (arith, h)),
        ))
        queue works
