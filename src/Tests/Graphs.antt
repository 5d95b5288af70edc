-- ===== src/Tests/Graphs.antt =====
-- Dijkstra's algorithm (Graph/Dijkstra.hpp) at a concrete graph, with the costs that
-- Boss/Mod/ChannelFinderByDistance.cpp uses: amounts, whose addition saturates.
use clboss.Base.{◌⊎◌, ℕ, zero, suc, ◌≡◌, [], ◌∷◌, some, arith}
use clboss.Ln.Amount
use clboss.Ln.Amount.{u64_max}
use clboss.Ln.Amount.Laws.{add_saturates}
use clboss.Graph.Dijkstra.{Dijkstra, initialize, loop}
use clboss.Graph.Dijkstra.Costs.{cost_at, AtMost}
use clboss.Graph.Dijkstra.Invariant.{IsCost, Graph, Walk}
use clboss.Graph.Dijkstra.Tree.{IsChild}
use clboss.Graph.Dijkstra.Shortest.{IsGraph, loop-shortest}

amounts-IsCost : IsCost Amount.add u64_max
amounts-IsCost = record {
  stays = λ a c h h'. omega (arith, add_saturates a c (omega (arith, h)) (omega (arith, h')));
  grows = λ a c h h'. omega (arith, h, add_saturates a c (omega (arith, h)) (omega (arith, h')));
  monotone = λ a b c le h h'. omega (
    arith,
    le,
    add_saturates a c (omega (arith, le, h)) (omega (arith, h')),
    add_saturates b c (omega (arith, h)) (omega (arith, h')),
  );
}

-- The way from 0 to 1 through 2 is the cheaper one.
abbrev diamond : Graph
diamond zero = (1, 10) ∷ (2, 3) ∷ []
diamond (suc zero) = (3, 1) ∷ []
diamond (suc (suc zero)) = (1, 4) ∷ (3, 20) ∷ []
diamond (suc (suc (suc n))) = []

diamond-IsGraph : IsGraph 4 u64_max diamond
diamond-IsGraph zero = omega arith
diamond-IsGraph (suc zero) = omega arith
diamond-IsGraph (suc (suc zero)) = omega arith
diamond-IsGraph (suc (suc (suc n))) = tt

loop-shortest_example :
    (d : Dijkstra) × (loop Amount.add 4 diamond (initialize 0 0) ≡ some d)
    × ((n c : ℕ) → cost_at n d.treenodes ≡ some c → Walk Amount.add diamond 0 0 n c)
    × ((n c : ℕ) → Walk Amount.add diamond 0 0 n c → AtMost c (cost_at n d.treenodes))
    × ((n c : ℕ)
        → cost_at n d.treenodes ≡ some c
        → (n ≡ 0) ⊎ IsChild Amount.add diamond n c d.treenodes)
loop-shortest_example =
    loop-shortest Amount.add u64_max amounts-IsCost diamond 4 diamond-IsGraph 0 0 (omega arith)
      (omega arith)
