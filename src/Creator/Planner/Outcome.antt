-- ===== src/Creator/Planner/Outcome.antt =====
-- `Planner::run` as a whole: that it ends without a failed assertion, and what the plan satisfies.
use clboss.Base.{
  ℕ, ◌+◌, ◌≤◌, ◌<◌, ◌≡◌, refl, ◌≢◌, ◌⊎◌, inl, inr, List, [], ◌∷◌, some, map, arith, ltb, length,
  All, count, count_if, Distinct,
}
use clboss.Base.Maps.{assign, keys, count-keys-assign}
use clboss.Ln.Amount.{Amount}
use clboss.Ln.Amount.Laws.{times_exact, add_exact}
use clboss.Creator.Planner.{
  NodeId, Proposal, Plan, Dowser, Planner, create, core_run, add_rejected, plan,
}
use clboss.Creator.Planner.Sums.{total_of, total_of-assign, All-assign}
use clboss.Creator.Planner.Loop.{IsConfig, InRange, Inv, core_run-Ended}
use clboss.Creator.Planner.Check.{check_results-IsChecked}
use clboss.Creator.Planner.Deduct.{IsChoice, IsChecked}

-- Entries of the rejected nodes: amount zero.
abbrev pub IsEntry : Amount → Amount → Amount → Type 0
IsEntry lo hi a = (a ≡ 0) ⊎ InRange lo hi a

abbrev pub funded : Plan → ℕ
funded = count_if (λ e. ltb 0 e.1)

module _ (n : NodeId) (ns : List NodeId) (m : Plan)
    (h : (k : NodeId) → count k (keys m) + count k (n ∷ ns) ≤ 1) where
  new_key : count n (keys m) ≡ 0
  new_key = ground (arith, h n)

  later_keys : (k : NodeId) → count k (keys (assign n 0 m)) + count k ns ≤ 1
  later_keys k = omega (arith, h k, count-keys-assign k n 0 m new_key)

add_rejected-total :
    (ns : List NodeId) (m : Plan)
    → ((k : NodeId) → count k (keys m) + count k ns ≤ 1)
    → total_of (add_rejected ns m) ≡ total_of m
unfolding add_rejected
add_rejected-total [] m h = refl
add_rejected-total (n ∷ ns) m h = omega (
  arith,
  add_rejected-total ns (assign n 0 m) (later_keys n ns m h),
  total_of-assign n 0 m (new_key n ns m h),
)

count_if-assign_zero :
    (n : NodeId) (m : Plan) → count n (keys m) ≡ 0 → funded (assign n 0 m) ≡ funded m
count_if-assign_zero n [] h = refl
count_if-assign_zero n ((j, w) ∷ m) h = ground (arith, count_if-assign_zero n m)

add_rejected-funded :
    (ns : List NodeId) (m : Plan)
    → ((k : NodeId) → count k (keys m) + count k ns ≤ 1)
    → funded (add_rejected ns m) ≡ funded m
unfolding add_rejected
add_rejected-funded [] m h = refl
add_rejected-funded (n ∷ ns) m h = omega (
  arith,
  add_rejected-funded ns (assign n 0 m) (later_keys n ns m h),
  count_if-assign_zero n m (new_key n ns m h),
)

add_rejected-IsEntry :
    (lo hi : Amount) (ns : List NodeId) (m : Plan)
    → All (λ e. IsEntry lo hi e.1) m
    → All (λ e. IsEntry lo hi e.1) (add_rejected ns m)
unfolding add_rejected
add_rejected-IsEntry lo hi [] m h = h
add_rejected-IsEntry lo hi (n ∷ ns) m h =
    add_rejected-IsEntry lo hi ns (assign n 0 m)
      (All-assign (λ e. IsEntry lo hi e.1) n 0 m (inl refl) h)

funded-length :
    (lo hi : Amount) (m : Plan)
    → 0 < lo
    → All (λ e. InRange lo hi e.1) m
    → (funded m ≡ length m) × All (λ e. IsEntry lo hi e.1) m
funded-length lo hi [] h v = (refl, tt)
funded-length lo hi (e ∷ m) h v =
    let (same, entries) = funded-length lo hi m h v.1 in
    (ground (arith, same, v.0), (inr v.0, entries))

-- What the creator is promised of a plan over `total`: every entry is a rejection or within the
-- limits; nothing is funded, or the whole is spent, or the reserve stays; and a node with fewer
-- than two channels never gets exactly one.
pub record IsGoodPlan (total lo hi reserve existing : ℕ) (m : Plan) : Type 0 where
  pub entries : All (λ e. IsEntry lo hi e.1) m
  pub leaves : (funded m ≡ 0) ⊎ (total_of m ≡ total) ⊎ (total_of m + reserve ≤ total)
  pub pair : existing < 2 → funded m ≢ 1

empty-total : (m : Plan) → m ≡ [] → (length m ≡ 0) × (total_of m ≡ 0)
empty-total m e = rw e (refl, refl)

checked-IsGoodPlan :
    (s t : Planner) (existing : ℕ)
    → 0 < s.min_amount
    → s.at_least_2 ≡ ltb existing 2
    → IsChecked s t
    → IsGoodPlan s.total s.min_amount s.max_amount s.min_remaining existing
        (add_rejected t.rejected t.result)
checked-IsGoodPlan s t existing pos few c =
    let (same, entries) = funded-length s.min_amount s.max_amount t.result pos c.within in
    let total_is = add_rejected-total t.rejected t.result c.fresh in
    let funded_is = add_rejected-funded t.rejected t.result c.fresh in
    record {
      entries = add_rejected-IsEntry s.min_amount s.max_amount t.rejected t.result entries;
      leaves = ground (arith, c.leaves, total_is, funded_is, same, empty-total t.result);
      pair = λ e one.
          absurd (ground (arith, c.pair, funded_is, same, empty-total t.result, few, e, one));
    }

relimit :
    {a a' lo lo' hi hi' r r' existing : ℕ} {m : Plan}
    → a' ≡ a
    → lo' ≡ lo
    → hi' ≡ hi
    → r' ≡ r
    → IsGoodPlan a' lo' hi' r' existing m
    → IsGoodPlan a lo hi r existing m
relimit p q u v g = rw (← p, ← q, ← u, ← v) g

module _ (amount : Amount) (proposals : List Proposal)
    (existing min_amount max_amount min_remaining : ℕ)
    (config : IsConfig amount min_amount max_amount min_remaining)
    (distinct : Distinct (map (λ p. p.0) proposals)) where
  abbrev started : Planner
  started = record {
    total = amount;
    remaining = amount;
    proposals = proposals;
    at_least_2 = ltb existing 2;
    min_amount = min_amount;
    max_amount = max_amount;
    min_remaining = min_remaining;
    result = [];
    rejected = [];
  }

  started-Inv : Inv proposals started
  started-Inv = record {
    config = config;
    spent = omega arith;
    within = tt;
    sorted = tt;
    fresh = λ k. omega (arith, distinct k);
  }

  create-started :
      create amount proposals existing min_amount max_amount min_remaining ≡ some started
  unfolding create
  create-started = ground (
    arith,
    config.twice,
    config.room,
    config.exact,
    config.word,
    times_exact min_amount 2,
    add_exact min_amount min_remaining,
  )

  -- For a positive smallest channel that fits the funds and the largest channel twice, the room
  -- that the constructor asserts, amounts below 2^53 and 2^63, distinct proposals and a lawful
  -- random choice, the planner ends with a plan, so no assertion fails. Every entry of the plan is
  -- zero or within the limits; nothing is funded, or all is spent, or the reserve stays; and a
  -- node with fewer than two channels does not get exactly one.
  pub plan-IsGoodPlan :
      (dowser : Dowser) (choose : ℕ → ℕ)
      → IsChoice choose
      → (m : Plan) × (plan dowser choose amount proposals existing min_amount max_amount
            min_remaining
          ≡ some m)
        × IsGoodPlan amount min_amount max_amount min_remaining existing m
  unfolding plan
  plan-IsGoodPlan dowser choose lawful =
      let s = core_run dowser proposals started in
      let e = core_run-Ended dowser proposals started started-Inv in
      let (t, q, c) = check_results-IsChecked s e.inv choose lawful e.stopped in
      let (total_is, two_is, min_is, max_is, reserve_is) = e.limits in
      (
        add_rejected t.rejected t.result,
        rw (create-started, plan, q),
        relimit total_is min_is max_is reserve_is
            (checked-IsGoodPlan s t existing (omega (arith, config.positive, min_is)) two_is c),
      )
