-- ===== src/Creator/Planner/Deduct.antt =====
-- `Planner::Impl::check_results` where the rest cannot be divided: one result gives up as much as
-- makes what remains large enough, for the next proposal or for a reserve.
use clboss.Base.{
  is_empty, ℕ, zero, suc, ◌+◌, ◌-◌, ◌≤◌, ◌<◌, ◌≡◌, refl, ◌⊎◌, inl, inr, Bool, true, false, List, [],
  ◌∷◌, some, arith, ltb, if◌then◌else◌, Bool-cases, length, get_elem?, get_elem?-lt, keep_if, All,
  count, count_if,
}
use clboss.Base.Maps.{
  lookup, value_or, assign, keys, Above, assign-Above, lookup-Above, count-keys-assign,
  length-assign,
}
use clboss.Ln.Amount.{Amount, add, sub, le}
use clboss.Ln.Amount.Laws.{add_exact, sub-eq}
use clboss.Creator.Planner.{
  NodeId, Proposal, Plan, Planner, deductible, deduct_target, spend_target, deduct_one,
}
use clboss.Creator.Planner.Sums.{
  total_of, total_of-assign, total_of-reassign, count-keys-reassign, length-reassign, All-assign,
  lookup-All,
}
use clboss.Creator.Planner.Loop.{Inv, InRange, uses_of}

-- What the library promises of a random draw: a number below the bound.
abbrev pub IsChoice : (ℕ → ℕ) → Type 0
IsChoice choose = (n : ℕ) → 0 < n → choose n < n

module _ (q : NodeId × Amount → Bool) where
  abbrev Kept : ℕ → Plan → Type 0
  Kept k m = (a : Amount) × (lookup k m ≡ some a) × (q (k, a) ≡ true)

  Kept-later : (b j w k : ℕ) (m : Plan) → Above b ((j, w) ∷ m) → Kept k m → Kept k ((j, w) ∷ m)
  Kept-later b j w k m h (a, l, p) = (a, ground (arith, l, lookup-Above (suc j) k m h.1), p)

  Kept-cons :
      (b i j w k : ℕ) (m : Plan)
      → Above b ((j, w) ∷ m)
      → q (j, w) ≡ true
      → ((i : ℕ) → get_elem? (keys (keep_if q m)) i ≡ some k → Kept k m)
      → get_elem? (j ∷ keys (keep_if q m)) i ≡ some k
      → Kept k ((j, w) ∷ m)
  Kept-cons b zero j w k m h pass later e =
      let same : j ≡ k = ground arith in (w, rw same (ground arith), rw same at pass)
  Kept-cons b (suc i) j w k m h pass later e = Kept-later b j w k m h (later i e)

  -- A key that the filter lets through is the key of an entry that passes.
  Kept-lookup :
      (b i k : ℕ) (m : Plan) → Above b m → get_elem? (keys (keep_if q m)) i ≡ some k → Kept k m
  Kept-lookup b i k [] h e = cc
  Kept-lookup b i k ((j, w) ∷ m) h e = elim (Bool-cases (q (j, w))) [
    | inl pass ↦
        Kept-cons b i j w k m h pass (λ i e. Kept-lookup (suc j) i k m h.1 e) (rw pass at e)
    | inr fail ↦ Kept-later b j w k m h (Kept-lookup (suc j) i k m h.1 (rw fail at e))
  ]

  -- What passes a stronger test is kept.
  kept_some :
      (p : NodeId × Amount → Bool)
      → ((e : NodeId × Amount) → p e ≡ true → q e ≡ true)
      → (m : Plan) → 0 < count_if p m
      → 0 < length (keys (keep_if q m))
  kept_some p stronger [] h = absurd (omega arith)
  kept_some p stronger (e ∷ m) h = ground (arith, stronger e, kept_some p stronger m)

-- What a deduction leaves: `target` more than the rest now remains, and one amount is smaller by
-- just that.
record IsDeducted (s : Planner) (target : Amount) (m : Plan) : Type 0 where
  sum : total_of m + target ≡ s.total
  within : All (λ e. InRange s.min_amount s.max_amount e.1) m
  sorted : Above 0 m
  counts : (k : ℕ) → count k (keys m) ≡ count k (keys s.result)
  size : length m ≡ length s.result

abbrev deducted : Planner → Amount → NodeId → Plan
deducted s target k = assign k (sub (value_or 0 k s.result) (sub target s.remaining)) s.result

abbrev candidates : Planner → Amount → List NodeId
candidates s target = deductible s.min_amount (sub target s.remaining) s.result

module _ (s : Planner) (target : Amount) (v : Inv s.proposals s) where
  deducted-IsDeducted :
      (k : NodeId)
      → s.remaining ≤ target
      → s.min_amount + target ≤ s.max_amount
      → Kept (λ e. le (add s.min_amount (sub target s.remaining)) e.1) k s.result
      → IsDeducted s target (deducted s target k)
  deducted-IsDeducted k h fits (a, l, pass) =
      let needed : Amount = target - s.remaining in
      let room : s.min_amount + needed ≤ a =
        ground (arith, sub-eq target s.remaining, add_exact s.min_amount needed, v.config.word) in
      let old : value_or 0 k s.result ≡ a = rw (l, value_or) in
      rw (old, sub-eq target s.remaining, sub-eq a needed)
        (record {
          sum = omega (arith, total_of-reassign 0 k (a - needed) a s.result v.sorted l, v.spent);
          within =
              All-assign (λ e. InRange s.min_amount s.max_amount e.1) k (a - needed) s.result
                (omega (
                  arith,
                  lookup-All (λ (x : Amount). InRange s.min_amount s.max_amount x) k a s.result
                      v.within l,
                ))
                v.within;
          sorted = assign-Above 0 k (a - needed) s.result (omega arith) v.sorted;
          counts = λ i. count-keys-reassign 0 i k (a - needed) a s.result v.sorted l;
          size = length-reassign 0 k (a - needed) a s.result v.sorted l;
        })

  -- If dividing fails, some result can be deducted from: the assertion holds.
  candidates_exist :
      s.remaining ≤ target
      → s.min_amount + target ≤ s.max_amount
      → 0 < count_if (λ e. ltb s.max_amount (e.1 + s.remaining)) s.result
      → 0 < length (candidates s target)
  unfolding deductible
  candidates_exist h fits big =
      kept_some (λ e. le (add s.min_amount (sub target s.remaining)) e.1)
        (λ e. ltb s.max_amount (e.1 + s.remaining))
        (λ e p. ground (
          arith,
          sub-eq target s.remaining,
          add_exact s.min_amount (target - s.remaining),
          v.config.word,
        ))
        s.result big

-- What `check_results` leaves: the limits still hold of every amount, no node is used twice, and of
-- the funds either nothing is spent, or all, or at least the reserve stays.
pub record IsChecked (s t : Planner) : Type 0 where
  pub within : All (λ e. InRange s.min_amount s.max_amount e.1) t.result
  pub fresh : (k : NodeId) → count k (keys t.result) + count k t.rejected ≤ 1
  pub leaves :
      (t.result ≡ [])
      ⊎ (total_of t.result ≡ s.total)
      ⊎ (total_of t.result + s.min_remaining ≤ s.total)
  pub pair : s.at_least_2 ≡ true → (t.result ≡ []) ⊎ (2 ≤ length t.result)

module _ (s : Planner) (v : Inv s.proposals s) where
  proposal_uses : (k : NodeId) (ps : List Proposal) → s.proposals ≡ ps → uses_of k ps s ≤ 1
  proposal_uses k ps e = rw (← e) (v.fresh k)

  spend_target-IsChecked :
      (target : Amount) (m : Plan)
      → IsDeducted s target m
      → 2 ≤ length s.result ⊎ s.at_least_2 ≡ false
      → (ps : List Proposal) → s.proposals ≡ ps
      → target ≡ (if is_empty ps then s.min_remaining else s.min_amount)
      → IsChecked s (spend_target target (record s { result = m; remaining = target }) ps)
  unfolding spend_target
  spend_target-IsChecked target m d two [] e t = record {
    within = d.within;
    fresh = λ k. omega (arith, proposal_uses k [] e, d.counts k);
    leaves = inr (inr (omega (arith, d.sum, t)));
    pair = λ p. ground (arith, two, d.size);
  }
  spend_target-IsChecked target m d two ((n, patron) ∷ ps) e t =
      let uses = λ (k : NodeId). proposal_uses k ((n, patron) ∷ ps) e in
      let unused : count n (keys m) ≡ 0 = ground (arith, uses n, d.counts n) in
      record {
        within =
            All-assign (λ e. InRange s.min_amount s.max_amount e.1) n target m
              (omega (arith, t, v.config.room_two)) d.within;
        fresh = λ k. omega (arith, uses k, d.counts k, count-keys-assign k n target m unused);
        leaves = inr (inl (omega (arith, d.sum, total_of-assign n target m unused)));
        pair = λ p. ground (arith, two, d.size, length-assign n target m unused);
      }

  target_fits :
      (ps : List Proposal)
      → s.remaining < s.min_remaining
      → (s.remaining < s.min_amount) ⊎ (ps ≡ [])
      → let target = if is_empty ps then s.min_remaining else s.min_amount in
        (s.remaining ≤ target) × (s.min_amount + target ≤ s.max_amount)
  target_fits [] h stop = omega (arith, v.config.room)
  target_fits (p ∷ ps) h stop = ground (arith, v.config.room_two)

  -- Where the rest cannot be divided, `deduct_one` finds a result to deduct from.
  pub deduct_one-IsChecked :
      (choose : ℕ → ℕ)
      → IsChoice choose
      → s.remaining < s.min_remaining
      → (s.remaining < s.min_amount) ⊎ (s.proposals ≡ [])
      → 2 ≤ length s.result ⊎ s.at_least_2 ≡ false
      → 0 < count_if (λ e. ltb s.max_amount (e.1 + s.remaining)) s.result
      → (t : Planner) × (deduct_one choose s ≡ some t) × IsChecked s t
  unfolding deduct_one
  deduct_one-IsChecked choose lawful h stop two big =
      let target : Amount = deduct_target s in
      let (low, high) = target_fits s.proposals h stop in
      let ids : List NodeId = candidates s target in
      let (k, at) =
        get_elem?-lt ids (choose (length ids))
          (lawful (length ids) (candidates_exist s target v low high big)) in
      let d =
        deducted-IsDeducted s target v k low high
          (unfold deductible in Kept-lookup _ 0 _ k s.result v.sorted at) in
      (
        spend_target target (record s { result = deducted s target k; remaining = target })
            s.proposals,
        rw (at, deduct_one),
        spend_target-IsChecked target (deducted s target k) d two s.proposals refl refl,
      )
