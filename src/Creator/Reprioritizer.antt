-- ===== src/Creator/Reprioritizer.antt =====
-- Boss/Mod/ChannelCreator/Reprioritizer.cpp: proposals in bins that hold few nodes come first. The
-- bin of a node (its address, the salted hash of an onion name, the subnet binner) is an argument.
pub mod Flat
pub mod Order
use clboss.Base.{ℕ, suc, ◌+◌, Bool, List, [], ◌∷◌, ◌++◌, some, none, if◌then◌else◌}
use clboss.Base.Maps.{lookup, assign}
use clboss.Creator.Planner.{NodeId, Proposal}

abbrev pub IpBin : Type 0
IpBin = ℕ

pub record Run : Type 0 where
  pub nodes_per_bin : List (IpBin × ℕ)
  pub nodes_per_binsize : List (ℕ × List Proposal)

-- `update_bin` at one of the current peers.
unfoldable pub update_bin : (NodeId → IpBin) → NodeId → List (IpBin × ℕ) → List (IpBin × ℕ)
update_bin get_bin_of n nodes_per_bin =
    let bin = get_bin_of n in
    elim (lookup bin nodes_per_bin) [
      | none ↦ assign bin 1 nodes_per_bin
      | some size ↦ assign bin (size + 1) nodes_per_bin
    ]

-- The peers may answer in any order; counting does not depend on it.
unfoldable pub count_peers : (NodeId → IpBin) → List NodeId → List (IpBin × ℕ) → List (IpBin × ℕ)
count_peers get_bin_of [] nodes_per_bin = nodes_per_bin
count_peers get_bin_of (n ∷ ns) nodes_per_bin =
    count_peers get_bin_of ns (update_bin get_bin_of n nodes_per_bin)

unfoldable pub push_proposal : ℕ → Proposal → List (ℕ × List Proposal) → List (ℕ × List Proposal)
push_proposal binsize p m = elim (lookup binsize m) [
  | none ↦ assign binsize (p ∷ []) m
  | some ps ↦ assign binsize (ps ++ p ∷ []) m
]

unfoldable pub reprioritize_step : (NodeId → IpBin) → Proposal → Run → Run
reprioritize_step get_bin_of p r =
    let bin = get_bin_of p.0 in
    elim (lookup bin r.nodes_per_bin) [
      | none ↦ record {
        nodes_per_bin = assign bin 1 r.nodes_per_bin;
        nodes_per_binsize = push_proposal 0 p r.nodes_per_binsize;
      }
      | some binsize ↦ record {
        nodes_per_bin = assign bin (binsize + 1) r.nodes_per_bin;
        nodes_per_binsize = push_proposal binsize p r.nodes_per_binsize;
      }
    ]

unfoldable pub reprioritize_loop : (NodeId → IpBin) → List Proposal → Run → Run
reprioritize_loop get_bin_of [] r = r
reprioritize_loop get_bin_of (p ∷ ps) r =
    reprioritize_loop get_bin_of ps (reprioritize_step get_bin_of p r)

unfoldable pub build_final_proposals : List (ℕ × List Proposal) → List Proposal
build_final_proposals [] = []
build_final_proposals ((binsize, ps) ∷ m) = ps ++ build_final_proposals m

unfoldable pub reprioritize : (NodeId → IpBin) → List NodeId → List Proposal → List Proposal
reprioritize get_bin_of current_peers proposals =
    build_final_proposals
      (reprioritize_loop get_bin_of proposals (record {
        nodes_per_bin = count_peers get_bin_of current_peers [];
        nodes_per_binsize = [];
      })).nodes_per_binsize
