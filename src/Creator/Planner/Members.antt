-- ===== src/Creator/Planner/Members.antt =====
-- Which nodes the plan of `Planner::run` names.
use clboss.Base.{
  ℕ, zero, suc, ◌+◌, ◌/◌, ◌%◌, ◌≡◌, refl, ◌≢◌, Bool, List, [], ◌∷◌, some, map, arith, Option-cases,
  Bool-cases, inl, inr, length, get_elem?, keep_if, count,
}
use clboss.Base.Maps.{assign, keys, insert, value_or}
use clboss.Ln.Amount.{Amount, le, add, sub}
use clboss.Creator.Planner.{
  NodeId, Proposal, Plan, Dowser, Planner, create, core_run, take_proposal, divide, deductible,
  spend_target, deduct_target, deduct_one, share_out, check_results, add_rejected, plan, granted,
}
use clboss.Creator.Planner.Loop.{uses_of}

module _ (k : NodeId) where
  count-keys-assign_other :
      (n : NodeId) (a : Amount) (m : Plan)
      → n ≢ k
      → count k (keys m) ≡ 0
      → count k (keys (assign n a m)) ≡ 0
  count-keys-assign_other n a [] h e = ground arith
  count-keys-assign_other n a ((j, w) ∷ m) h e = ground (arith, count-keys-assign_other n a m h)

  count-insert_other :
      (n : NodeId) (s : List NodeId) → n ≢ k → count k s ≡ 0 → count k (insert n s) ≡ 0
  count-insert_other n [] h e = ground arith
  count-insert_other n (j ∷ s) h e = ground (arith, count-insert_other n s h)

  take_proposal-unused :
      (dowser : Dowser) (s : Planner) (p : Proposal) (ps : List Proposal)
      → uses_of k (p ∷ ps) s ≡ 0
      → uses_of k ps (take_proposal dowser s p) ≡ 0
  unfolding take_proposal
  take_proposal-unused dowser s (node, patron) ps e = ground (
    arith,
    count-keys-assign_other node (granted s (dowser node patron)) s.result,
    count-insert_other node s.rejected,
  )

  core_run-unused :
      (dowser : Dowser) (ps : List Proposal) (s : Planner)
      → uses_of k ps s ≡ 0
      → uses_of k (core_run dowser ps s).proposals (core_run dowser ps s) ≡ 0
  unfolding core_run
  core_run-unused dowser [] s e = e
  core_run-unused dowser (p ∷ ps) s e = ground (
    arith,
    core_run-unused dowser ps (take_proposal dowser s p) (take_proposal-unused dowser s p ps e),
  )

  divide-keys :
      (i d r : ℕ) (hi : Amount) (m m' : Plan)
      → divide i d r hi m ≡ some m'
      → count k (keys m') ≡ count k (keys m)
  unfolding divide
  divide-keys i d r hi [] m' e = let q : m' ≡ [] = ground arith in rw q refl
  divide-keys i d r hi ((n, a) ∷ m) m' e = elim (Option-cases (divide (i + 1) d r hi m)) [
    | inl q ↦ absurd (ground arith)
    | inr (rest, q) ↦ ground (arith, divide-keys (i + 1) d r hi m rest q)
  ]

  kept_front :
      (q : NodeId × Amount → Bool) (x : NodeId × Amount) (m : Plan) (i : ℕ) (n : NodeId)
      → ((i : ℕ) → get_elem? (keys (keep_if q m)) i ≡ some n → n ≢ k)
      → count k (keys (x ∷ m)) ≡ 0
      → get_elem? (x.0 ∷ keys (keep_if q m)) i ≡ some n
      → n ≢ k
  kept_front q x m zero n ih h e = ground arith
  kept_front q x m (suc i) n ih h e = ih i e

  kept_used :
      (q : NodeId × Amount → Bool) (m : Plan) (i : ℕ) (n : NodeId)
      → get_elem? (keys (keep_if q m)) i ≡ some n
      → count k (keys m) ≡ 0
      → n ≢ k
  kept_used q [] i n e h = ground arith
  kept_used q (x ∷ m) i n e h = elim (Bool-cases (q x)) [
    | inr e0 ↦ kept_used q m i n (ground arith) (ground arith)
    | inl e1 ↦ kept_front q x m i n (λ i a. kept_used q m i n a (ground arith)) h (ground arith)
  ]

  spend_target-unused :
      (target : Amount) (s : Planner) (ps : List Proposal)
      → uses_of k ps s ≡ 0
      → count k (keys (spend_target target s ps).result)
          + count k (spend_target target s ps).rejected
        ≡ 0
  unfolding spend_target
  spend_target-unused target s [] e = omega (arith, e)
  spend_target-unused target s ((n, q) ∷ ps) e =
      ground (arith, count-keys-assign_other n target s.result)

  deduct_one-unused :
      (choose : ℕ → ℕ) (s t : Planner)
      → uses_of k s.proposals s ≡ 0
      → deduct_one choose s ≡ some t
      → count k (keys t.result) + count k t.rejected ≡ 0
  unfolding deduct_one deductible
  deduct_one-unused choose s t e q =
      let target : Amount = deduct_target s in
      let needed : Amount = sub target s.remaining in
      let ids = deductible s.min_amount needed s.result in
      let free : count k (keys s.result) ≡ 0 = omega (arith, e) in
      elim (Option-cases (get_elem? ids (choose (length ids)))) [
        | inl e0 ↦ absurd (ground arith)
        | inr (n, e1) ↦
            let a = sub (value_or 0 n s.result) needed in
            let other =
              kept_used (λ e. le (add s.min_amount needed) e.1) s.result (choose (length ids)) n e1
                free in
            let s' : Planner = record s { result = assign n a s.result; remaining = target } in
            let same : t ≡ spend_target target s' s.proposals = ground (arith, q, e1) in
            rw same (
              spend_target-unused target s' s.proposals
                (omega (arith, e, count-keys-assign_other n a s.result other free)))
      ]

  check_results-unused :
      (choose : ℕ → ℕ) (s t : Planner)
      → uses_of k s.proposals s ≡ 0
      → check_results choose s ≡ some t
      → count k (keys t.result) + count k t.rejected ≡ 0
  unfolding check_results share_out
  check_results-unused choose s t e q =
      elim (Option-cases (
        divide 0 (s.remaining / length s.result) (s.remaining % length s.result) s.max_amount
          s.result)) [
            | inl e0 ↦ ground (arith, deduct_one-unused choose s t e)
            | inr (copy, e1) ↦ ground (
              arith,
              divide-keys 0 (s.remaining / length s.result) (s.remaining % length s.result)
                  s.max_amount s.result copy e1,
            )
          ]

  add_rejected-unused :
      (ns : List NodeId) (m : Plan)
      → count k (keys m) + count k ns ≡ 0
      → count k (keys (add_rejected ns m)) ≡ 0
  unfolding add_rejected
  add_rejected-unused [] m e = omega (arith, e)
  add_rejected-unused (n ∷ ns) m e =
      add_rejected-unused ns (assign n 0 m) (ground (arith, count-keys-assign_other n 0 m))

  -- A node that is not among the proposals has no entry in the plan, neither a channel nor a
  -- rejection.
  pub plan-unused :
      (dowser : Dowser) (choose : ℕ → ℕ) (amount : Amount) (proposals : List Proposal)
      (existing : ℕ) (min_amount max_amount min_remaining : Amount) (m : Plan)
      → count k (map (λ p. p.0) proposals) ≡ 0
      → plan dowser choose amount proposals existing min_amount max_amount min_remaining ≡ some m
      → count k (keys m) ≡ 0
  unfolding plan create
  plan-unused dowser choose amount proposals existing lo hi reserve m e q =
      elim (Option-cases (create amount proposals existing lo hi reserve)) [
        | inl e0 ↦ absurd (ground arith)
        | inr (s, e1) ↦
            let ended = core_run dowser s.proposals s in
            let free : uses_of k s.proposals s ≡ 0 = ground arith in
            elim (Option-cases (check_results choose ended)) [
              | inl e2 ↦ absurd (ground (arith, e1))
              | inr (t, e2) ↦
                  let same : m ≡ add_rejected t.rejected t.result = ground (arith, e1) in
                  rw same (
                    add_rejected-unused t.rejected t.result (
                      check_results-unused choose ended t
                        (core_run-unused dowser s.proposals s free) e2))
            ]
      ]
