-- ===== src/Graph/Dijkstra/Invariant.antt =====
-- What holds between the client's turns, and while a node's neighbors are fed.
use clboss.Base.{
  ℕ, ◌≤◌, ◌<◌, ◌≡◌, Bool, true, false, ◌&&◌, List, [], ◌∷◌, some, ◌==◌, map, get_elem?, count_if,
  All,
}
use clboss.Base.Maps.{Above, contains}
use clboss.Base.Sorting.{AscendingFrom}
use clboss.Graph.Dijkstra.{Dijkstra}
use clboss.Graph.Dijkstra.Costs.{cost_at, AtMost}

-- What the addition of costs keeps to: up to a limit, as for amounts, which saturate.
pub record IsCost (add_c : ℕ → ℕ → ℕ) (limit : ℕ) : Type 0 where
  pub stays : (a c : ℕ) → a ≤ limit → c ≤ limit → add_c a c ≤ limit
  pub grows : (a c : ℕ) → a ≤ limit → c ≤ limit → a ≤ add_c a c
  pub monotone : (a b c : ℕ) → a ≤ b → b ≤ limit → c ≤ limit → add_c a c ≤ add_c b c

-- The edges to a node's neighbors.
abbrev pub Graph : Type 0
Graph = ℕ → List (ℕ × ℕ)

-- A walk from the root to a node, and what it costs.
pub data Walk (add_c : ℕ → ℕ → ℕ) (graph : Graph) (root root_cost : ℕ) : ℕ → ℕ → Type 0 where
  stay : {v c : ℕ} → v ≡ root → c ≡ root_cost → Walk add_c graph root root_cost v c
  go :
      {v c : ℕ} (u b w i : ℕ)
      → Walk add_c graph root root_cost u b
      → get_elem? (graph u) i ≡ some (v, w)
      → c ≡ add_c b w
      → Walk add_c graph root root_cost v c

abbrev pub is_entry : ℕ → ℕ → ℕ × ℕ → Bool
is_entry n c e = (e.0 == n) && (e.1 == c)

-- The neighbors have been reached from a node of the cost.
abbrev pub Relaxed : (ℕ → ℕ → ℕ) → ℕ → Dijkstra → List (ℕ × ℕ) → Type 0
Relaxed add_c cost d = All (λ e. AtMost (add_c cost e.1) (cost_at e.0 d.treenodes))

-- The costs of the tree are those of walks. The queue has an entry for each node that is not closed,
-- with its cost, and no entry below its node's cost. Closed nodes cost no more than what is queued, and
-- their neighbors are reached.
pub record IsDijkstra (add_c : ℕ → ℕ → ℕ) (limit : ℕ) (graph : Graph) (root root_cost : ℕ)
    (d : Dijkstra) : Type 0 where
  pub above : Above 0 d.treenodes
  pub ascending : AscendingFrom 0 (map (λ e. e.1) d.q)
  pub within : (n c : ℕ) → cost_at n d.treenodes ≡ some c → c ≤ limit
  pub walks : (n c : ℕ) → cost_at n d.treenodes ≡ some c → Walk add_c graph root root_cost n c
  pub known : (n : ℕ) → contains n d.closed ≡ true → (c : ℕ) × (cost_at n d.treenodes ≡ some c)
  pub rooted : AtMost root_cost (cost_at root d.treenodes)
  pub queued : All (λ e. AtMost e.1 (cost_at e.0 d.treenodes)) d.q
  pub waits :
      (n c : ℕ)
      → cost_at n d.treenodes ≡ some c
      → contains n d.closed ≡ false
      → 0 < count_if (is_entry n c) d.q
  pub low :
      (n c : ℕ)
      → cost_at n d.treenodes ≡ some c
      → contains n d.closed ≡ true
      → All (λ e. c ≤ e.1) d.q
  pub relaxed :
      (n c : ℕ)
      → cost_at n d.treenodes ≡ some c
      → contains n d.closed ≡ true
      → Relaxed add_c c d (graph n)

-- The current node is not closed.
abbrev pub HeadOpen : List ℕ → List (ℕ × ℕ) → Type 0
HeadOpen closed [] = Unit {0}
HeadOpen closed (e ∷ q) = contains e.0 closed ≡ false
