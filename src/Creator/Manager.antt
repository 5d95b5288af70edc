-- ===== src/Creator/Manager.antt =====
-- Boss/Mod/ChannelCreator/Manager.cpp: the handlers, and one cycle of channel creation. What the
-- cycle asks of other modules and of the node is a record, `Answers`. It waits for each, and handlers
-- run meanwhile: the managers that it finds afterwards are a record, `Moments`.
pub mod TrackRecord
pub mod Arranged
pub mod Cycle
pub mod Guard
use clboss.Base.{
  ◌>>=◌, is_empty, ℕ, ◌+◌, ◌≡◌, Bool, true, false, ◌||◌, not, List, [], ◌∷◌, ◌++◌, Option, none,
  some, ltb, ◌==◌, if◌then◌else◌, keep_if, all_of, map,
}
use clboss.Base.Maps.{lookup, contains}
use clboss.Ln.Amount.{Amount, add, times, lt, gt}
use clboss.Creator.Settings.{Settings}
use clboss.Creator.Planner.{NodeId, Proposal, Plan, Dowser, plan}
use clboss.Creator.Rearranger.{rearrange_by_size}
use clboss.Creator.Reprioritizer.{IpBin, reprioritize}

pub data Verdict : Type 0 where
  keeper : Verdict
  no_record : Verdict
  underperformer : Verdict

pub record Manager : Type 0 where
  pub has_rpc : Bool
  pub offline : Bool
  pub prefer_spliceable : Bool
  pub cycle_running : Bool
  pub min_amount : Amount
  pub max_amount : Amount
  pub min_remaining : Amount

-- The value of an option, as JSON gives it; a string is either of the two that are known, or not.
pub data OptionValue : Type 0 where
  boolean : Bool → OptionValue
  text_true : OptionValue
  text_false : OptionValue
  other : OptionValue

-- The handler of `Msg::Option` for the option of its own; the Boolean tells whether it accepts.
unfoldable pub on_option : OptionValue → Manager → Bool × Manager
on_option (boolean b) m = (true, record m { prefer_spliceable = b })
on_option text_true m = (true, record m { prefer_spliceable = true })
on_option text_false m = (true, record m { prefer_spliceable = false })
on_option other m = (false, m)

unfoldable pub on_amount_settings : Settings → Manager → Manager
on_amount_settings a m = record m {
  min_amount = a.min_channel;
  max_amount = a.max_channel;
  min_remaining = a.min_remaining;
}

unfoldable pub on_init : Bool → Manager → Manager
on_init offline m = record m { has_rpc = true; offline = offline }

-- The handler of `Msg::RequestChannelCreation`; the Boolean tells whether a cycle is started.
unfoldable pub on_request : Manager → Bool × Manager
on_request m =
    if not m.has_rpc
    then (false, m)
    else if m.cycle_running
    then (false, m)
    else (true, record m { cycle_running = true })

-- The end of `run_cycle`, reached after an exception as well.
unfoldable pub on_cycle_end : Manager → Manager
on_cycle_end m = record m { cycle_running = false }

-- What a cycle asks for, while messages go on to be handled; `none` is an exception, which ends it.
pub record Answers : Type 0 where
  -- `num_pending_channels` and `num_active_channels` of `getinfo`.
  pub num_channels : Option (ℕ × ℕ)
  pub candidates : Option (List Proposal)
  -- The peers of `listpeerchannels`; here `none` is an `RpcError`, which is caught.
  pub channeled : Option (List NodeId)
  -- The dowser, with the size of its probe and the floor of what it measures.
  pub dowse : Amount → Amount → NodeId → NodeId → Option Amount
  pub current_peers : Option (List NodeId)
  pub bin_of : NodeId → Option IpBin
  pub records : Option (List (NodeId × Verdict))
  -- What `listnodes` announces; an error there counts as not spliceable.
  pub announces_splice : NodeId → Bool
  pub choose : ℕ → ℕ

-- The manager as the later parts of a cycle find it: when a proposal is dowsed first, when the
-- records are in, and when the planner is made.
pub record Moments : Type 0 where
  pub at_dowse : NodeId → NodeId → Manager
  pub at_records : Manager
  pub at_plan : Manager

unfoldable pub drop_channeled : Option (List NodeId) → List Proposal → List Proposal
drop_channeled none proposals = []
drop_channeled (some channeled) proposals = keep_if (λ p. not (contains p.0 channeled)) proposals

unfoldable pub verdict_of : List (NodeId × Verdict) → NodeId → Verdict
verdict_of records n = elim (lookup n records) [ none ↦ no_record | some v ↦ v ]

pub record Tiers : Type 0 where
  pub keepers : List Proposal
  pub no_records : List Proposal
  pub underperformers : List Proposal

unfoldable pub push_tier : Verdict → Proposal → Tiers → Tiers
push_tier keeper p t = record t { keepers = t.keepers ++ p ∷ [] }
push_tier no_record p t = record t { no_records = t.no_records ++ p ∷ [] }
push_tier underperformer p t = record t { underperformers = t.underperformers ++ p ∷ [] }

unfoldable pub split_tiers : List (NodeId × Verdict) → List Proposal → Tiers → Tiers
split_tiers records [] t = t
split_tiers records (p ∷ ps) t = split_tiers records ps (push_tier (verdict_of records p.0) p t)

-- Only the nodes that are asked for can be in the set.
unfoldable pub get_spliceable_nodes : (NodeId → Bool) → List NodeId → List NodeId
get_spliceable_nodes announces_splice nodes = keep_if announces_splice nodes

unfoldable pub stable_partition : (Proposal → Bool) → List Proposal → List Proposal
stable_partition p ps = keep_if p ps ++ keep_if (λ x. not (p x)) ps

unfoldable pub prioritize_by_track_record :
    Bool → List (NodeId × Verdict) → (NodeId → Bool) → List Proposal → List Proposal
prioritize_by_track_record prefer_spliceable records announces_splice proposals =
    let t =
      split_tiers records proposals
        (record { keepers = []; no_records = []; underperformers = [] }) in
    let no_record_nodes = if prefer_spliceable then map (λ p. p.0) t.no_records else [] in
    let spliceable = get_spliceable_nodes announces_splice no_record_nodes in
    if is_empty proposals
    then proposals
    else t.keepers
      ++ stable_partition (λ p. contains p.0 spliceable) t.no_records
      ++ t.underperformers

-- How a cycle ends: skipped, with an exception that `run_cycle` logs, or with a plan, which the
-- carpenter gets unless it is empty. A failed assertion aborts the program.
pub data Outcome : Type 0 where
  skipped_offline : Outcome
  skipped_too_little : Outcome
  skipped_bad_limits : Outcome
  cycle_error : Outcome
  aborted : Outcome
  constructed : Plan → Outcome

unfoldable pub plan_is_empty : Plan → Bool
plan_is_empty m = all_of (λ e. e.1 == 0) m

-- Whether `Msg::SolicitChannelCandidates` is raised, and whether the carpenter is called.
unfoldable pub solicits : Outcome → Bool
solicits (constructed m) = plan_is_empty m
solicits o = false

unfoldable pub constructs : Outcome → Bool
constructs (constructed m) = not (is_empty m)
constructs o = false

abbrev pub is_some {ℓ} : {A : Type ℓ} → Option A → Bool
is_some none = false
is_some (some a) = true

abbrev pub value_or_zero : Option ℕ → ℕ
value_or_zero none = 0
value_or_zero (some a) = a

-- The answer of the base dowser, which is memoized: each proposal is dowsed once.
abbrev pub dowsed : Moments → Answers → NodeId → NodeId → Option Amount
dowsed t w proposal patron =
    let m = t.at_dowse proposal patron in w.dowse m.max_amount m.min_amount proposal patron

abbrev pub dowser_func : Moments → Answers → Dowser
dowser_func t w proposal patron = value_or_zero (dowsed t w proposal patron)

-- Dowses all proposals, so that the planner gets what is remembered.
unfoldable pub arrange_by_size : Moments → Answers → List Proposal → Option (List Proposal)
arrange_by_size t w ps =
    if all_of (λ p. is_some (dowsed t w p.0 p.1)) ps
    then some (rearrange_by_size (dowser_func t w) ps)
    else none

-- Whether there is an address, or the lack of one, to read for every node.
abbrev pub has_bins : Answers → List NodeId → Bool
has_bins w nodes = all_of (λ n. is_some (w.bin_of n)) nodes

unfoldable pub arrange_by_bin : Answers → List Proposal → Option (List Proposal)
arrange_by_bin w ps = elim w.current_peers [
  | none ↦ none
  | some peers ↦
      if has_bins w (peers ++ map (λ p. p.0) ps)
      then some (reprioritize (λ n. value_or_zero (w.bin_of n)) peers ps)
      else none
]

unfoldable pub arrange_by_record : Moments → Answers → List Proposal → Option (List Proposal)
arrange_by_record t w [] = some []
arrange_by_record t w (p ∷ ps) = elim w.records [
  | none ↦ none
  | some records ↦ some (
      prioritize_by_track_record t.at_records.prefer_spliceable records w.announces_splice (p ∷ ps))
]

-- The proposals as the planner gets them.
unfoldable pub arranged : Moments → Answers → Option (List Proposal)
arranged t w = do
  candidates ← w.candidates
  by_size ← arrange_by_size t w (drop_channeled w.channeled candidates)
  by_bin ← arrange_by_bin w by_size
  arrange_by_record t w by_bin

-- The planner has no plan to give when an assertion of it fails.
abbrev pub outcome_of : Option Plan → Outcome
outcome_of none = aborted
outcome_of (some p) = constructed p

-- The planner, with the limits as they are by then.
unfoldable pub run_planner : Amount → Moments → Answers → ℕ → List Proposal → Outcome
run_planner amt t w num_chans proposals =
    let m = t.at_plan in
    outcome_of (
      plan (dowser_func t w) w.choose amt proposals num_chans m.min_amount m.max_amount
        m.min_remaining)

-- What follows the checks; the manager may change meanwhile.
unfoldable pub run_begun : Amount → Moments → Answers → Outcome
run_begun amt t w = elim w.num_channels [
  | none ↦ cycle_error
  | some (pending, active) ↦ elim (arranged t w) [
    | none ↦ cycle_error
    | some proposals ↦ run_planner amt t w (pending + active) proposals
  ]
]

-- The manager is that of the start.
unfoldable pub on_request_channel_creation : Amount → Answers → Moments → Manager → Outcome
on_request_channel_creation amt w t m =
    if m.offline
    then skipped_offline
    else if lt amt (times m.min_amount 2)
    then skipped_too_little
    else if gt (add m.min_amount m.min_remaining) m.max_amount
    then skipped_bad_limits
    else run_begun amt t w
