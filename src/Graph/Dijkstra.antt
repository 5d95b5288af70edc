-- ===== src/Graph/Dijkstra.antt =====
-- Graph/Dijkstra.hpp and Graph/TreeNode.hpp: Dijkstra's algorithm, fed by its client. Nodes and costs are
-- numbers, and the addition of costs is an argument, as it is a parameter of the template. A pointer to
-- a tree node is the node. The priority queue is a list by ascending cost; `std::priority_queue` may
-- order equal costs otherwise.
pub mod Costs
pub mod Invariant
pub mod Relax
pub mod Closed
pub mod Visit
pub mod Tree
pub mod Rising
pub mod Shortest
use clboss.Base.{
  ℕ, zero, suc, Bool, true, false, not, List, [], ◌∷◌, ◌++◌, Option, none, some, ltb, ◌==◌,
  if◌then◌else◌, keep_if,
}
use clboss.Base.Maps.{lookup, assign, insert, contains}
use clboss.Base.Sorting.{insert_behind}

-- `data.second`, `parent` and `children`.
pub record TreeNode : Type 0 where
  pub cost : ℕ
  pub parent : Option ℕ
  pub children : List ℕ

abbrev pub TreeNodes : Type 0
TreeNodes = List (ℕ × TreeNode)

pub record Dijkstra : Type 0 where
  pub q : List (ℕ × ℕ)
  pub treenodes : TreeNodes
  pub closed : List ℕ

abbrev pub push : ℕ × ℕ → List (ℕ × ℕ) → List (ℕ × ℕ)
push = insert_behind (λ e. e.1)

abbrev pub new_node : ℕ → TreeNode
new_node cost = record { cost = cost; parent = none; children = [] }

pub initialize : ℕ → ℕ → Dijkstra
initialize root root_cost = record {
  q = push (root, root_cost) [];
  treenodes = assign root (new_node root_cost) [];
  closed = [];
}

pub current : Dijkstra → Option ℕ
current d = elim d.q [ [] ↦ none | e ∷ rest ↦ some e.0 ]

pub modify : ℕ → (TreeNode → TreeNode) → TreeNodes → TreeNodes
modify n f t = elim (lookup n t) [ none ↦ t | some v ↦ assign n (f v) t ]

-- Off the children of the old parent, if there is one, and on those of the new one.
pub reparent : ℕ → ℕ → Option ℕ → TreeNodes → TreeNodes
reparent n parent none t =
    modify parent (λ p. record p { children = p.children ++ n ∷ [] })
      (modify n (λ v. record v { parent = some parent }) t)
reparent n parent (some old) t =
    modify parent (λ p. record p { children = p.children ++ n ∷ [] })
      (modify n (λ v. record v { parent = some parent })
        (modify old (λ p. record p { children = keep_if (λ c. not (c == n)) p.children }) t))

pub cost_or_zero : Option TreeNode → ℕ
cost_or_zero none = 0
cost_or_zero (some v) = v.cost

-- Those already in the closed set go.
pub drop_closed : List ℕ → List (ℕ × ℕ) → List (ℕ × ℕ)
drop_closed closed [] = []
drop_closed closed (e ∷ q) = if contains e.0 closed then drop_closed closed q else e ∷ q

pub end_neighbors : Dijkstra → Option Dijkstra
end_neighbors d = elim d.q [
  | [] ↦ none
  | e ∷ q ↦
      let closed = insert e.0 d.closed in
      some (record d { closed = closed; q = drop_closed closed q })
]

module _ (add_c : ℕ → ℕ → ℕ) where
  -- `neighbor`, with the current node.
  pub relax : ℕ → ℕ → ℕ → Dijkstra → Dijkstra
  relax u n c d =
      let alt = add_c (cost_or_zero (lookup u d.treenodes)) c in
      elim (lookup n d.treenodes) [
        | none ↦ record d {
          treenodes = reparent n u none (assign n (new_node alt) d.treenodes);
          q = push (n, alt) d.q;
        }
        | some v ↦
            if ltb alt v.cost
            then record d {
              treenodes = reparent n u v.parent (assign n (record v { cost = alt }) d.treenodes);
              q = push (n, alt) d.q;
            }
            else d
      ]

  -- `none` if there is no current node.
  pub neighbor : ℕ → ℕ → Dijkstra → Option Dijkstra
  neighbor n c d = elim (current d) [ none ↦ none | some u ↦ some (relax u n c d) ]

  -- A client's turn: it feeds the neighbors of the current node.
  pub feed : List (ℕ × ℕ) → Dijkstra → Option Dijkstra
  feed [] d = end_neighbors d
  feed (e ∷ edges) d = elim (neighbor e.0 e.1 d) [ none ↦ none | some next ↦ feed edges next ]

  -- The client's loop over a graph, which gives each node its neighbors; `none` if the fuel runs out.
  pub loop : ℕ → (ℕ → List (ℕ × ℕ)) → Dijkstra → Option Dijkstra
  loop zero graph d = elim (current d) [ none ↦ some d | some u ↦ none ]
  loop (suc fuel) graph d = elim (current d) [
    | none ↦ some d
    | some u ↦ elim (feed (graph u) d) [ none ↦ none | some next ↦ loop fuel graph next ]
  ]
