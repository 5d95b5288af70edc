-- ===== src/Creator/Planner/Loop.antt =====
-- `Planner::Impl::core_run`: what holds each time round the loop.
use clboss.Base.{
  ℕ, ◌+◌, ◌*◌, ◌≤◌, ◌<◌, ◌^◌, ◌≡◌, refl, ◌⊎◌, inl, inr, true, List, [], ◌∷◌, map, arith, ◌==◌,
  Bool-cases, length, All, count,
}
use clboss.Base.Maps.{keys, Above, assign-Above, count-keys-assign, count-insert}
use clboss.Ln.Amount.{Amount, lt}
use clboss.Ln.Amount.Laws.{half_exact, sub-eq}
use clboss.Creator.Planner.{
  NodeId, Proposal, Plan, Dowser, Planner, granted, take_proposal, core_run,
}
use clboss.Creator.Planner.Sums.{total_of, total_of-assign, All-assign}

-- The limits under which the planner works: the two assertions of its constructor, amounts that a
-- double holds exactly, and room for two smallest channels in a largest one.
pub record IsConfig (total min_amount max_amount min_remaining : Amount) : Type 0 where
  pub positive : 0 < min_amount
  pub twice : min_amount * 2 ≤ total
  pub room : min_amount + min_remaining ≤ max_amount
  pub room_two : min_amount * 2 ≤ max_amount
  pub exact : total < 2 ^ 53
  pub word : max_amount < 2 ^ 63

abbrev pub InRange : Amount → Amount → Amount → Type 0
InRange lo hi a = (lo ≤ a) × (a ≤ hi)

-- How often a node occurs among the proposals to come, the results and the rejected nodes.
abbrev pub uses_of : NodeId → List Proposal → Planner → ℕ
uses_of k ps s = count k (map (λ p. p.0) ps) + count k (keys s.result) + count k s.rejected

pub record Inv (ps : List Proposal) (s : Planner) : Type 0 where
  pub config : IsConfig s.total s.min_amount s.max_amount s.min_remaining
  pub spent : total_of s.result + s.remaining ≡ s.total
  pub within : All (λ e. InRange s.min_amount s.max_amount e.1) s.result
  pub sorted : Above 0 s.result
  pub fresh : (k : NodeId) → uses_of k ps s ≤ 1

total_of_empty : (m : Plan) → (length m == 0) ≡ true → total_of m ≡ 0
total_of_empty [] h = refl
total_of_empty (e ∷ m) h = ground arith

-- While there is enough for a smallest channel, what is granted is within the limits and at hand.
pub granted_bounds :
    (ps : List Proposal) (s : Planner) (a : Amount)
    → Inv ps s
    → s.min_amount ≤ s.remaining
    → s.min_amount ≤ a
    → InRange s.min_amount s.max_amount (granted s a) × (granted s a ≤ s.remaining)
unfolding granted
granted_bounds ps s a v h k = ground (
  arith,
  v.config.twice,
  v.config.room,
  v.config.exact,
  v.spent,
  half_exact s.remaining,
  total_of_empty s.result,
)

-- The node in front has no result yet, nor has it been rejected.
head_unused :
    (ps : List Proposal) (s : Planner) (p : Proposal)
    → Inv (p ∷ ps) s
    → (count p.0 (keys s.result) ≡ 0) × (count p.0 s.rejected ≡ 0)
head_unused ps s p v = ground (arith, v.fresh p.0)

-- Each round keeps the invariant, whether it rejects or grants.
pub take_proposal-Inv :
    (dowser : Dowser) (ps : List Proposal) (s : Planner) (p : Proposal)
    → Inv (p ∷ ps) s
    → s.min_amount ≤ s.remaining
    → Inv ps (take_proposal dowser s p)
unfolding take_proposal
take_proposal-Inv dowser ps s (node, patron) v h =
    let (no_result, no_reject) = head_unused ps s (node, patron) v in
    let amt = granted s (dowser node patron) in
    elim (Bool-cases (lt (dowser node patron) s.min_amount)) [
      | inl small ↦ rw small (record {
        config = v.config;
        spent = v.spent;
        within = v.within;
        sorted = v.sorted;
        fresh = λ k. omega (arith, v.fresh k, count-insert k node s.rejected no_reject);
      })
      | inr big ↦
          let (range, at_hand) = granted_bounds _ s (dowser node patron) v h (ground arith) in
          rw big (record {
            config = v.config;
            spent = omega (
              arith,
              v.spent,
              total_of-assign node amt s.result no_result,
              sub-eq s.remaining amt,
            );
            within =
                All-assign (λ e. InRange s.min_amount s.max_amount e.1) node amt s.result range
                  v.within;
            sorted = assign-Above 0 node amt s.result (omega arith) v.sorted;
            fresh = λ k. omega (arith, v.fresh k, count-keys-assign k node amt s.result no_result);
          })
    ]

-- The loop keeps the limits it was given.
abbrev pub SameLimits : Planner → Planner → Type 0
SameLimits s t =
    (t.total ≡ s.total)
    × (t.at_least_2 ≡ s.at_least_2)
    × (t.min_amount ≡ s.min_amount)
    × (t.max_amount ≡ s.max_amount)
    × (t.min_remaining ≡ s.min_remaining)

take_proposal-SameLimits :
    (dowser : Dowser) (s : Planner) (p : Proposal) → SameLimits s (take_proposal dowser s p)
unfolding take_proposal
take_proposal-SameLimits dowser s (node, patron) = ground arith

-- When the loop ends, there is too little left for a smallest channel, or no proposal is left.
pub record Ended (s t : Planner) : Type 0 where
  pub inv : Inv t.proposals t
  pub stopped : (t.remaining < t.min_amount) ⊎ (t.proposals ≡ [])
  pub limits : SameLimits s t

pub core_run-Ended :
    (dowser : Dowser) (ps : List Proposal) (s : Planner) → Inv ps s → Ended s (core_run dowser ps s)
unfolding core_run
core_run-Ended dowser [] s v = record {
  inv = record {
    config = v.config;
    spent = v.spent;
    within = v.within;
    sorted = v.sorted;
    fresh = v.fresh;
  };
  stopped = inr refl;
  limits = (refl, refl, refl, refl, refl);
}
core_run-Ended dowser (p ∷ ps) s v = elim (Bool-cases (lt s.remaining s.min_amount)) [
  | inl stop ↦ rw stop (record {
    inv = record {
      config = v.config;
      spent = v.spent;
      within = v.within;
      sorted = v.sorted;
      fresh = v.fresh;
    };
    stopped = inl (ground arith);
    limits = (refl, refl, refl, refl, refl);
  })
  | inr more ↦
      let t = take_proposal dowser s p in
      let e = core_run-Ended dowser ps t (take_proposal-Inv dowser ps s p v (ground arith)) in
      rw more (record {
        inv = e.inv;
        stopped = e.stopped;
        limits = ground (arith, e.limits, take_proposal-SameLimits dowser s p);
      })
]
