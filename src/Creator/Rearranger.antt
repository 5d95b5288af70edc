-- ===== src/Creator/Rearranger.antt =====
-- Boss/Mod/ChannelCreator/RearrangerBySize.cpp: proposals of larger capacity first, within groups of
-- three. `std::sort` may leave equal capacities in any order; here they keep theirs.
pub mod Groups
use clboss.Base.{
  ℕ, zero, suc, ◌+◌, ◌≤◌, ◌≡◌, refl, sym, ap, Bool, List, [], ◌∷◌, ◌++◌, map, arith, ltb,
  if◌then◌else◌, length, length-append, take, drop, take-length, drop-length, count_if,
  count_if-append, SameItems, SameItems-map,
}
use clboss.Ln.Amount.{Amount, gt}
use clboss.Creator.Planner.{Proposal, Dowser}

abbrev pub ProposalCapacity : Type 0
ProposalCapacity = Proposal × Amount

-- `std::sort` with the comparison `a.second > b.second`.
unfoldable pub insert_larger : ProposalCapacity → List ProposalCapacity → List ProposalCapacity
insert_larger a [] = a ∷ []
insert_larger a (b ∷ bs) = if gt b.1 a.1 then b ∷ insert_larger a bs else a ∷ b ∷ bs

unfoldable pub sort_larger : List ProposalCapacity → List ProposalCapacity
sort_larger [] = []
sort_larger (a ∷ rest) = insert_larger a (sort_larger rest)

-- The loop over the groups; `group_by` is 3, and the last group may be shorter.
unfoldable pub sort_groups : List ProposalCapacity → List ProposalCapacity
sort_groups (a ∷ b ∷ c ∷ rest) = sort_larger (a ∷ b ∷ c ∷ []) ++ sort_groups rest
sort_groups few = sort_larger few

unfoldable pub rearrange_by_size : Dowser → List Proposal → List Proposal
rearrange_by_size dowser proposals =
    map (λ pc. pc.0) (sort_groups (map (λ p. (p, dowser p.0 p.1)) proposals))
