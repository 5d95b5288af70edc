-- ===== src/Ev/Semaphore/Fair.antt =====
-- What the semaphore promises over any sequence of events.
use mathlib.Core.List.{append-nil, append_assoc}
use clboss.Base.{
  ℕ, zero, suc, ◌+◌, ◌≤◌, ◌≡◌, refl, sym, ap, ◌∙◌, subst, ◌⊎◌, inl, inr, List, [], ◌∷◌, ◌++◌, some,
  arith, ltb, length, length-append, Option-cases, Bool-cases, List-cases,
}
use clboss.Ev.Semaphore.{
  Semaphore, create, handle, unblock, run, remove, Event, arrives, ends, step, steps, arrivals,
}

-- The permits are shared out, nobody waits while one is left, and actions start in the order of
-- their arrival.
pub record IsFair (max : ℕ) (arrived : List ℕ) (s : Semaphore) : Type 0 where
  pub permits : s.remaining + length s.running ≡ max
  pub busy : s.blocked ≡ [] ⊎ s.remaining ≡ 0
  pub order : s.started ++ s.blocked ≡ arrived

remove-length : (i : ℕ) (xs rest : List ℕ) → remove i xs ≡ some rest → length xs ≡ length rest + 1
unfolding remove
remove-length i [] rest e = absurd (ground arith)
remove-length zero (a ∷ xs) rest e = let same : xs ≡ rest = ground arith in rw same (omega arith)
remove-length (suc i) (a ∷ xs) rest e = elim (Option-cases (remove i xs)) [
  | inl e1 ↦ absurd (ground (arith, e, e1))
  | inr (left, e1) ↦
      let same : rest ≡ a ∷ left = ground (arith, e, e1) in
      rw same (omega (arith, remove-length i xs left e1))
]

one_more : (xs : List ℕ) (a : ℕ) → length (xs ++ a ∷ []) ≡ length xs + 1
one_more xs a = omega (arith, length-append xs (a ∷ []))

run-IsFair :
    (max action : ℕ) (arrived : List ℕ) (s : Semaphore)
    → IsFair max arrived s
    → IsFair max (arrived ++ action ∷ []) (run action s)
unfolding run handle
run-IsFair max action arrived s f = elim (Bool-cases (ltb 0 s.remaining)) [
  | inl e ↦
      let free : s.blocked ≡ [] = ground (arith, f.busy, e) in
      rw (e, run)
        (record {
          permits = ground (arith, f.permits, one_more s.running action);
          busy = inl free;
          order =
              rw (← f.order, free)
                (append-nil (s.started ++ action ∷ [])
                  ∙ ap (λ xs. xs ++ action ∷ []) (sym (append-nil s.started)));
        })
  | inr e ↦
      rw (e, run)
        (record {
          permits = f.permits;
          busy = inr (ground arith);
          order = rw (← f.order) (sym (append_assoc s.started s.blocked (action ∷ [])));
        })
]

unblock-IsFair :
    (max : ℕ) (arrived : List ℕ) (s : Semaphore)
    → s.remaining + length s.running + 1 ≡ max
    → s.blocked ≡ [] ⊎ s.remaining ≡ 0
    → s.started ++ s.blocked ≡ arrived
    → (t : Semaphore) × (unblock s ≡ some t) × IsFair max arrived t
unfolding unblock handle
unblock-IsFair max arrived s p b o = elim (List-cases s.blocked) [
  | inl e ↦ (
    record s { remaining = s.remaining + 1 },
    ground (arith, e),
    record { permits = omega (arith, p); busy = inl e; order = o },
  )
  | inr (next, rest, e) ↦
      let spent : s.remaining ≡ 0 = ground (arith, b, e) in
      (
        handle next (record s { blocked = rest }),
        ground (arith, e, spent),
        record {
          permits = omega (arith, p, one_more s.running next);
          busy = inr spent;
          order = append_assoc s.started (next ∷ []) rest ∙ ap (λ xs. s.started ++ xs) (sym e) ∙ o;
        },
      )
]

step-IsFair :
    (max : ℕ) (e : Event) (arrived : List ℕ) (s : Semaphore)
    → IsFair max arrived s
    → (t : Semaphore) × (step e s ≡ some t) × IsFair max (arrived ++ arrivals (e ∷ [])) t
unfolding step
step-IsFair max (arrives action) arrived s f =
    (run action s, refl, run-IsFair max action arrived s f)
step-IsFair max (ends i) arrived s f =
    rw (append-nil arrived) (elim (Option-cases (remove i s.running)) [
      | inl e ↦ (s, rw (e, step) refl, f)
      | inr (left, e) ↦
          let (t, q, fair) =
            unblock-IsFair max arrived (record s { running = left })
              (omega (arith, f.permits, remove-length i s.running left e)) f.busy f.order in
          (t, rw (e, step) q, fair)
    ])

arrivals_cons : (e : Event) (es : List Event) → arrivals (e ∷ es) ≡ arrivals (e ∷ []) ++ arrivals es
arrivals_cons (arrives action) es = refl
arrivals_cons (ends i) es = refl

runs-IsFair :
    (max : ℕ) (es : List Event) (arrived : List ℕ) (s : Semaphore)
    → IsFair max arrived s
    → (t : Semaphore) × (steps es s ≡ some t) × IsFair max (arrived ++ arrivals es) t
unfolding steps
runs-IsFair max [] arrived s f = (s, refl, rw (append-nil arrived) f)
runs-IsFair max (e ∷ es) arrived s f =
    let (next, q, g) = step-IsFair max e arrived s f in
    let (t, r, h) = runs-IsFair max es (arrived ++ arrivals (e ∷ [])) next g in
    (
      t,
      rw (q, steps) r,
      subst (λ xs. IsFair max xs t)
          (append_assoc arrived (arrivals (e ∷ [])) (arrivals es)
            ∙ ap (λ xs. arrived ++ xs) (sym (arrivals_cons e es)))
          h,
    )

-- Whatever arrives and whichever running action ends next, the assertion in `unblock` holds, at
-- most `max` actions run, exactly `max` do while one waits, and the actions that were started and
-- those that wait are the arrivals in their order.
pub steps-IsFair :
    (max : ℕ) (es : List Event)
    → (t : Semaphore) × (steps es (create max) ≡ some t)
      × (length t.running ≤ max)
      × ((t.blocked ≡ []) ⊎ (length t.running ≡ max))
      × (t.started ++ t.blocked ≡ arrivals es)
unfolding create
steps-IsFair max es =
    let (t, q, f) =
      runs-IsFair max es [] (create max)
        (record { permits = omega arith; busy = inl refl; order = refl }) in
    (t, q, omega (arith, f.permits), ground (arith, f.busy, f.permits), f.order)
