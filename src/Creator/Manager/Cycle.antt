-- ===== src/Creator/Manager/Cycle.antt =====
-- One cycle of channel creation as a whole: how it ends, and what a plan of it holds.
use clboss.Base.{
  ℕ, ◌+◌, ◌*◌, ◌≤◌, ◌<◌, ◌≡◌, refl, ◌∙◌, ◌⊎◌, inl, inr, true, false, List, [], ◌∷◌, none, some, map,
  arith, count, Option-cases, ==_refl,
}
use clboss.Base.Maps.{keys}
use clboss.Ln.Amount.{Amount}
use clboss.Creator.Settings.{Settings}
use clboss.Creator.Planner.{NodeId, Proposal, Plan, plan}
use clboss.Creator.Planner.Outcome.{IsGoodPlan}
use clboss.Creator.Planner.Members.{plan-unused}
use clboss.Creator.Manager.{
  Manager, Answers, Outcome, skipped_offline, skipped_too_little, constructed, Moments, cycle_error,
  aborted, run_begun, run_planner, constructs, solicits, plan_is_empty, dowser_func, arranged,
  on_request_channel_creation,
}
use clboss.Creator.Manager.Arranged.{may_propose, drop_channeled_none, arranged-count, HasFailed}

-- How a cycle can end that starts under the settings `s`, and whose planner is made under `s'`.
abbrev pub EndsWell : Settings → Settings → Amount → Answers → Moments → Manager → Outcome → Type 0
EndsWell s s' amt w t m o =
    ((m.offline ≡ true) × (o ≡ skipped_offline))
    ⊎ ((amt < s.min_channel * 2) × (o ≡ skipped_too_little))
    ⊎ (HasFailed t w × (o ≡ cycle_error))
    ⊎ ((amt < s'.min_channel * 2) × (o ≡ aborted))
    ⊎ ((num_chans : ℕ × ℕ) × (p : Plan) × (w.num_channels ≡ some num_chans)
        × (s'.min_channel * 2 ≤ amt)
        × (o ≡ constructed p)
        × IsGoodPlan amt s'.min_channel s'.max_channel s'.min_remaining (num_chans.0 + num_chans.1)
            p)

-- A plan comes of the planner, with the proposals as arranged.
constructed-plan :
    (amt : Amount) (w : Answers) (t : Moments) (m : Manager) (p : Plan)
    → on_request_channel_creation amt w t m ≡ constructed p
    → (n : ℕ) × (ps : List Proposal) × (arranged t w ≡ some ps)
      × (plan
            (dowser_func t w)
            w.choose
            amt
            ps
            n
            t.at_plan.min_amount
            t.at_plan.max_amount
            t.at_plan.min_remaining
          ≡ some p)
unfolding on_request_channel_creation run_begun run_planner
constructed-plan amt w t m p e = elim (Option-cases w.num_channels) [
  | inl e0 ↦ absurd (ground arith)
  | inr (c, e1) ↦ elim (Option-cases (arranged t w)) [
    | inl e0 ↦ absurd (ground arith)
    | inr (ps, e2) ↦
        elim (Option-cases (
          plan (dowser_func t w) w.choose amt ps (c.0 + c.1) t.at_plan.min_amount
            t.at_plan.max_amount t.at_plan.min_remaining)) [
              | inl e0 ↦ absurd (ground arith)
              | inr (p', e3) ↦
                  let same : p' ≡ p = ground arith in (c.0 + c.1, ps, e2, rw (← same) e3)
            ]
  ]
]

-- If a cycle ends with a plan, a node that has a channel is not in it, and no node is when
-- `listpeerchannels` failed.
pub cycle_unchanneled :
    (amt : Amount) (w : Answers) (t : Moments) (m : Manager) (p : Plan) (k : NodeId)
    → on_request_channel_creation amt w t m ≡ constructed p
    → may_propose w.channeled k ≡ false
    → count k (keys p) ≡ 0
cycle_unchanneled amt w t m p k e h =
    let (n, ps, e1, e2) = constructed-plan amt w t m p e in
    let (cs, e3, same) = arranged-count t w ps e1 in
    let free : count k (map (λ p. p.0) ps) ≡ 0 = same k ∙ drop_channeled_none w.channeled cs k h in
    plan-unused k (dowser_func t w) w.choose amt ps n t.at_plan.min_amount t.at_plan.max_amount
      t.at_plan.min_remaining p free e2

no_keys : (m : Plan) → ((k : NodeId) → count k (keys m) ≡ 0) → m ≡ []
no_keys [] h = refl
no_keys ((n, a) ∷ m) h = absurd (ground (arith, h n, ==_refl n))

-- If `listpeerchannels` fails and a cycle ends with a plan, the plan is empty: the carpenter is
-- not called, and more candidates are solicited.
pub cycle_rpc_error :
    (amt : Amount) (w : Answers) (t : Moments) (m : Manager) (p : Plan)
    → w.channeled ≡ none
    → on_request_channel_creation amt w t m ≡ constructed p
    → (p ≡ []) × (constructs (constructed p) ≡ false) × (solicits (constructed p) ≡ true)
unfolding constructs solicits plan_is_empty
cycle_rpc_error amt w t m p h e =
    let none_left = no_keys p (λ k. cycle_unchanneled amt w t m p k e (rw h refl)) in
    rw none_left (refl, refl, refl)
