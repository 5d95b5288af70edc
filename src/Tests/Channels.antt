-- ===== src/Tests/Channels.antt =====
-- Channel creation (Boss/Mod/ChannelCreator/) and eviction at concrete inputs.
use clboss.Base.{
  ℕ, ◌*◌, ◌%◌, ◌≡◌, refl, true, false, List, [], ◌∷◌, Option, none, some, map, arith, ◌==◌, count,
  Distinct, SameItems,
}
use clboss.Base.Sorting.{IsStableSort}
use clboss.Ln.Amount.{times, to_double, add, sub, half}
use clboss.Creator.Settings.{Settings}
use clboss.Creator.Planner.Deduct.{IsChoice}
use clboss.Creator.Planner.Outcome.{IsGoodPlan, plan-IsGoodPlan}
use clboss.Creator.Planner.Members.{plan-unused}
use clboss.Creator.Rearranger.Groups.{group, Descending, rearrange_by_size-groups}
use clboss.Creator.Reprioritizer.Flat.{Sized, size_of}
use clboss.Creator.Reprioritizer.Order.{sized, reprioritize-IsStableSort}
use clboss.Creator.Manager.TrackRecord.{tier_of, prioritize_by_track_record-IsStableSort}
use clboss.Creator.Manager.Cycle.{cycle_unchanneled, cycle_rpc_error}
use clboss.Creator.Manager.Guard.{run, request, cycle_end, run-Guarded}
use clboss.Creator.Eviction.{Reason, pick}
use clboss.Creator.Eviction.Stratum.{rank_of, rank_of_reason, IsLowest, pick-IsLowest}
use clboss.Base.Maps.{keys}
use clboss.Base.{if◌then◌else◌}
use clboss.Creator.Planner.{
  NodeId, Proposal, Plan, create, granted, take_proposal, core_run, divide, deductible,
  spend_target, deduct_target, deduct_one, share_out, check_results, add_rejected, plan,
}
use clboss.Creator.Rearranger.{insert_larger, sort_larger, sort_groups, rearrange_by_size}
use clboss.Creator.Reprioritizer.{
  update_bin, count_peers, push_proposal, reprioritize_step, reprioritize_loop,
  build_final_proposals, reprioritize,
}
use clboss.Creator.Manager.{
  Manager, Answers, Verdict, keeper, underperformer, constructed, cycle_error, aborted, Moments,
  on_amount_settings, arrange_by_size, arrange_by_bin, arrange_by_record, run_planner, run_begun,
  drop_channeled, verdict_of, push_tier, split_tiers, get_spliceable_nodes, stable_partition,
  prioritize_by_track_record, solicits, constructs, arranged, on_request_channel_creation,
}

abbrev settings : Settings
settings = record {
  min_channel = 500000000;
  max_channel = 100000000000;
  reserve = 100000000;
  min_amount = 1000000000;
  min_remaining = 1050000000;
}

abbrev candidates : List Proposal
candidates = (1, 10) ∷ (2, 10) ∷ (3, 11) ∷ (4, 11) ∷ []

candidates-Distinct : Distinct (map (λ p. p.0) candidates)
candidates-Distinct k = ground arith

abbrev first_of : ℕ → ℕ
first_of n = 0

first_of-IsChoice : IsChoice first_of
first_of-IsChoice n h = h

abbrev answers : Option (List NodeId) → Answers
answers channeled = record {
  num_channels = some (0, 3);
  candidates = some candidates;
  channeled = channeled;
  dowse = λ probe floor n patron. some (n * 700000000);
  current_peers = some (5 ∷ 6 ∷ []);
  bin_of = λ n. some (n % 2);
  records = some ((1, underperformer) ∷ (3, keeper) ∷ []);
  announces_splice = λ n. n == 4;
  choose = first_of;
}

abbrev manager : Manager
manager = record {
  has_rpc = true;
  offline = false;
  prefer_spliceable = true;
  cycle_running = false;
  min_amount = 0;
  max_amount = 0;
  min_remaining = 0;
}

-- Nothing changes while the cycle waits.
abbrev steady : Moments
steady = record {
  at_dowse = λ n patron. on_amount_settings settings manager;
  at_records = on_amount_settings settings manager;
  at_plan = on_amount_settings settings manager;
}

-- The smallest channel is raised to 0.04 bitcoin before the planner is made.
abbrev raised : Settings
raised = record {
  min_channel = 4000000000;
  max_channel = 100000000000;
  reserve = 100000000;
  min_amount = 8000000000;
  min_remaining = 8050000000;
}

abbrev raised_late : Moments
raised_late = record steady { at_plan = on_amount_settings raised manager }

-- The check at the start passes, and the planner's constructor fails.
ends_aborted :
    on_request_channel_creation 5000000000
      (answers (some (2 ∷ [])))
      raised_late
      (on_amount_settings settings manager)
    ≡ aborted
unfolding create granted take_proposal core_run divide deductible spend_target deduct_target
    deduct_one share_out check_results add_rejected plan insert_larger sort_larger sort_groups
    rearrange_by_size update_bin count_peers push_proposal reprioritize_step reprioritize_loop
    build_final_proposals reprioritize on_amount_settings drop_channeled verdict_of push_tier
    split_tiers get_spliceable_nodes stable_partition prioritize_by_track_record arranged
    arrange_by_size arrange_by_bin arrange_by_record run_planner run_begun
    on_request_channel_creation times to_double add sub
ends_aborted = refl

-- The dowser fails for one of the candidates.
ends_cycle_error :
    on_request_channel_creation 5000000000
      (record (answers (some (2 ∷ []))) { dowse = λ probe floor n patron. none })
      steady
      (on_amount_settings settings manager)
    ≡ cycle_error
unfolding create granted take_proposal core_run divide deductible spend_target deduct_target
    deduct_one share_out check_results add_rejected plan insert_larger sort_larger sort_groups
    rearrange_by_size update_bin count_peers push_proposal reprioritize_step reprioritize_loop
    build_final_proposals reprioritize on_amount_settings drop_channeled verdict_of push_tier
    split_tiers get_spliceable_nodes stable_partition prioritize_by_track_record arranged
    arrange_by_size arrange_by_bin arrange_by_record run_planner run_begun
    on_request_channel_creation times to_double add sub
ends_cycle_error = refl

abbrev no_plan : Plan
no_plan = []

abbrev planned : Plan
planned = (3, 2150000000) ∷ (4, 2850000000) ∷ []

-- Node 2 has a channel; node 1, which underperforms, gets nothing once the funds are spent.
ends_planned :
    on_request_channel_creation 5000000000
      (answers (some (2 ∷ [])))
      steady
      (on_amount_settings settings manager)
    ≡ constructed planned
unfolding create granted take_proposal core_run divide deductible spend_target deduct_target
    deduct_one share_out check_results add_rejected plan insert_larger sort_larger sort_groups
    rearrange_by_size update_bin count_peers push_proposal reprioritize_step reprioritize_loop
    build_final_proposals reprioritize on_amount_settings drop_channeled verdict_of push_tier
    split_tiers get_spliceable_nodes stable_partition prioritize_by_track_record arranged
    arrange_by_size arrange_by_bin arrange_by_record run_planner run_begun
    on_request_channel_creation times to_double add sub
ends_planned = refl

cycle_unchanneled_example : count 2 (keys planned) ≡ 0
cycle_unchanneled_example =
    cycle_unchanneled 5000000000 (answers (some (2 ∷ []))) steady
      (on_amount_settings settings manager) planned 2 ends_planned refl

ends_empty :
    on_request_channel_creation 5000000000
      (answers none)
      steady
      (on_amount_settings settings manager)
    ≡ constructed []
unfolding create granted take_proposal core_run divide deductible spend_target deduct_target
    deduct_one share_out check_results add_rejected plan insert_larger sort_larger sort_groups
    rearrange_by_size update_bin count_peers push_proposal reprioritize_step reprioritize_loop
    build_final_proposals reprioritize on_amount_settings drop_channeled verdict_of push_tier
    split_tiers get_spliceable_nodes stable_partition prioritize_by_track_record arranged
    arrange_by_size arrange_by_bin arrange_by_record run_planner run_begun
    on_request_channel_creation times to_double add sub
ends_empty = refl

cycle_rpc_error_example :
    (no_plan ≡ [])
    × (constructs (constructed no_plan) ≡ false)
    × (solicits (constructed no_plan) ≡ true)
cycle_rpc_error_example =
    cycle_rpc_error 5000000000 (answers none) steady (on_amount_settings settings manager) [] refl
      ends_empty

run-Guarded_example : (run (request ∷ request ∷ cycle_end ∷ request ∷ []) (manager, 0)).1 ≡ (
    if (run (request ∷ request ∷ cycle_end ∷ request ∷ []) (manager, 0)).0.cycle_running
    then 1
    else 0)
run-Guarded_example = run-Guarded (request ∷ request ∷ cycle_end ∷ request ∷ []) manager refl

abbrev planned_five : Plan
planned_five = (1, 700000000) ∷ (2, 1400000000) ∷ (3, 2100000000) ∷ (4, 800000000) ∷ []

abbrev dowsed : NodeId → NodeId → ℕ
dowsed n patron = n * 700000000

plan-IsGoodPlan_example :
    (m : Plan) × (plan dowsed first_of 5000000000 candidates 0 500000000 100000000000 1050000000
      ≡ some m)
    × IsGoodPlan 5000000000 500000000 100000000000 1050000000 0 m
plan-IsGoodPlan_example =
    plan-IsGoodPlan 5000000000 candidates 0 500000000 100000000000 1050000000
      (record {
        positive = omega arith;
        twice = omega arith;
        room = omega arith;
        room_two = omega arith;
        exact = omega arith;
        word = omega arith;
      })
      candidates-Distinct dowsed first_of first_of-IsChoice

plan_five :
    plan dowsed first_of 5000000000 candidates 0 500000000 100000000000 1050000000
    ≡ some planned_five
unfolding create granted take_proposal core_run divide deductible spend_target deduct_target
    deduct_one share_out check_results add_rejected plan half times to_double add sub
plan_five = refl

plan-unused_example : count 9 (keys planned_five) ≡ 0
plan-unused_example =
    plan-unused 9 dowsed first_of 5000000000 candidates 0 500000000 100000000000 1050000000
      planned_five refl plan_five

abbrev records : List (NodeId × Verdict)
records = (1, underperformer) ∷ (3, keeper) ∷ []

prioritize_by_track_record-IsStableSort_example :
    IsStableSort
      (tier_of true records (λ n. n == 4))
      candidates
      (prioritize_by_track_record true records (λ n. n == 4) candidates)
prioritize_by_track_record-IsStableSort_example =
    prioritize_by_track_record-IsStableSort true records (λ n. n == 4) candidates

-- The keeper, the spliceable node without a record, the other one, and the underperformer.
in_tiers :
    prioritize_by_track_record true records (λ n. n == 4) candidates
    ≡ (3, 11) ∷ (4, 11) ∷ (2, 10) ∷ (1, 10) ∷ []
unfolding prioritize_by_track_record split_tiers push_tier verdict_of get_spliceable_nodes
    stable_partition
in_tiers = refl

reprioritize-IsStableSort_example :
    (sorted : List Sized) × (map (λ e. e.1) sorted ≡ reprioritize (λ n. n % 2) (5 ∷ []) candidates)
    × IsStableSort size_of (sized (λ n. n % 2) (map (λ n. n % 2) (5 ∷ [])) candidates) sorted
reprioritize-IsStableSort_example = reprioritize-IsStableSort (λ n. n % 2) (5 ∷ []) candidates

-- A peer has the bin of the odd nodes.
in_bins : reprioritize (λ n. n % 2) (5 ∷ []) candidates ≡ (2, 10) ∷ (1, 10) ∷ (4, 11) ∷ (3, 11) ∷ []
unfolding reprioritize count_peers update_bin reprioritize_loop reprioritize_step push_proposal
    build_final_proposals
in_bins = refl

rearrange_by_size-groups_example :
    SameItems (group 0 candidates) (group 0 (rearrange_by_size dowsed candidates))
    × Descending (map (λ p. dowsed p.0 p.1) (group 0 (rearrange_by_size dowsed candidates)))
rearrange_by_size-groups_example = rearrange_by_size-groups dowsed candidates 0

pick-IsLowest_example :
    (n : NodeId) × (r : Reason) × (pick first_of (1 ∷ 3 ∷ 4 ∷ 2 ∷ []) records (4 ∷ [])
      ≡ some (n, r))
    × (rank_of records (4 ∷ []) n ≡ rank_of_reason r)
    × IsLowest records (4 ∷ []) (1 ∷ 3 ∷ 4 ∷ 2 ∷ []) n
pick-IsLowest_example =
    pick-IsLowest records (4 ∷ []) first_of (1 ∷ 3 ∷ 4 ∷ 2 ∷ []) first_of-IsChoice (omega arith)
