-- ===== src/Graph/Dijkstra/Shortest.antt =====
-- The client's loop ends, with the shortest distances.
use clboss.Base.{
  All-map, ℕ, zero, suc, ◌+◌, ◌≤◌, ◌<◌, ◌≡◌, refl, sym, ap, subst, inl, inr, ◌⊎◌, true, false, List,
  [], ◌∷◌, some, arith, get_elem?, get_elem?-All, count_if, length, All, Bool-cases, List-cases,
  ==_refl,
}
use clboss.Base.Maps.{contains, insert}
use clboss.Base.Sorting.{insert_behind}
use clboss.Graph.Dijkstra.{Dijkstra, new_node, initialize, loop}
use clboss.Graph.Dijkstra.Costs.{
  cost_at, AtMost, AtMost-cost, some-AtMost, AtMost-some, AtMost-mono, current-none, current-some,
}
use clboss.Graph.Dijkstra.Invariant.{IsCost, Graph, Walk, stay, go, is_entry, IsDijkstra, HeadOpen}
use clboss.Graph.Dijkstra.Tree.{IsTree, IsChild, feed-IsTree}
use clboss.Graph.Dijkstra.Visit.{IsEdge, feed-IsClosed}
use clboss.Graph.Dijkstra.Relax.{current_cost}
use clboss.Graph.Dijkstra.Rising.{Rising, Rising-length, insert-Rising, length-insert}

-- The edges of a list of neighbors, with their places.
placed :
    (P : ℕ × ℕ → Type 0) (es : List (ℕ × ℕ))
    → All P es
    → All (λ e. P e × ((i : ℕ) × (get_elem? es i ≡ some e))) es
placed P [] h = tt
placed P (x ∷ es) (h0, h) = (
  (h0, (0, refl)),
  All-map (λ e. P e × ((i : ℕ) × (get_elem? es i ≡ some e)))
      (λ e. P e × ((i : ℕ) × (get_elem? (x ∷ es) i ≡ some e))) es (λ e h. (h.0, (suc h.1.0, h.1.1)))
      (placed P es h),
)

-- Every edge leads to a node below the size, at a cost within the limit.
abbrev pub IsGraph : ℕ → ℕ → Graph → Type 0
IsGraph size limit graph = (u : ℕ) → All (λ e. (e.0 < size) × (e.1 ≤ limit)) (graph u)

module _ (add_c : ℕ → ℕ → ℕ) (limit : ℕ) (laws : IsCost add_c limit) (graph : Graph) (size : ℕ)
    (bounded : IsGraph size limit graph) (root root_cost : ℕ) (root_in : root < size)
    (cheap : root_cost ≤ limit) where
  abbrev Ok : Dijkstra → Type 0
  Ok = IsDijkstra add_c limit graph root root_cost

  start :
      (n c : ℕ)
      → cost_at n ((root, new_node root_cost) ∷ []) ≡ some c
      → (root ≡ n) × (root_cost ≡ c)
  start n c e = ground (arith, e)

  root_found : cost_at root ((root, new_node root_cost) ∷ []) ≡ some root_cost
  root_found = ground (arith, ==_refl root)

  initialize-Ok : Ok (initialize root root_cost)
  unfolding initialize insert_behind
  initialize-Ok = record {
    above = omega arith;
    ascending = omega arith;
    within = λ n c e. omega (arith, cheap, (start n c e).1);
    walks = λ n c e. let (at, is) = start n c e in stay (sym at) (sym is);
    known = λ n h. cc;
    rooted = some-AtMost root_cost root_cost _ root_found (omega arith);
    queued = (some-AtMost root_cost root_cost _ root_found (omega arith), tt);
    waits = λ n c e h.
        let (at, is) = start n c e in
        rw (← at, ← is, ==_refl root, ==_refl root_cost) (omega arith);
    low = λ n c e h. cc;
    relaxed = λ n c e h. cc;
  }

  -- A walk ends below the size, within the limit.
  Walk-in : (n c : ℕ) → Walk add_c graph root root_cost n c → (n < size) × (c ≤ limit)
  Walk-in n c (stay e e') = omega (arith, e, e', root_in, cheap)
  Walk-in n c (go u b w i walk edge e) =
      let (below, light) =
        get_elem?-All (λ e. (e.0 < size) × (e.1 ≤ limit)) (graph u) i (n, w) (bounded u) edge in
      omega (arith, below, e, laws.stays b w (Walk-in u b walk).1 light)

  -- When nothing is queued all nodes are closed.
  all_closed :
      (d : Dijkstra)
      → Ok d
      → d.q ≡ []
      → (n c : ℕ) → cost_at n d.treenodes ≡ some c
      → contains n d.closed ≡ true
  all_closed d v e n c at = elim (Bool-cases (contains n d.closed)) [
    | inl closed ↦ closed
    | inr waiting ↦ absurd (omega (arith, v.waits n c at waiting, ap (count_if (is_entry n c)) e))
  ]

  -- When nothing is queued each walk costs at least the distance.
  Walk-shortest :
      (d : Dijkstra)
      → Ok d
      → d.q ≡ []
      → (n c : ℕ) → Walk add_c graph root root_cost n c
      → AtMost c (cost_at n d.treenodes)
  Walk-shortest d v e n c (stay e1 e2) = rw (e1, e2) v.rooted
  Walk-shortest d v e n c (go u b w i walk edge e') =
      let (cu, at, le) = AtMost-cost b (cost_at u d.treenodes) (Walk-shortest d v e u b walk) in
      let light =
        (get_elem?-All (λ e. (e.0 < size) × (e.1 ≤ limit)) (graph u) i (n, w) (bounded u) edge).1 in
      let reached =
        get_elem?-All (λ e. AtMost (add_c cu e.1) (cost_at e.0 d.treenodes)) (graph u) i (n, w)
          (v.relaxed u cu at (all_closed d v e u cu at)) edge in
      AtMost-mono (add_c cu w) c (cost_at n d.treenodes)
        (omega (arith, e', laws.monotone cu b w le (Walk-in u b walk).1 light)) reached

  head_fresh :
      (d : Dijkstra) (u k : ℕ) (rest : List (ℕ × ℕ))
      → d.q ≡ (u, k) ∷ rest
      → HeadOpen d.closed d.q
      → contains u d.closed ≡ false
  head_fresh d u k rest e h = subst (HeadOpen d.closed) e h

  current_in :
      (d : Dijkstra)
      → Ok d
      → (u k : ℕ) (rest : List (ℕ × ℕ)) → d.q ≡ (u, k) ∷ rest
      → contains u d.closed ≡ false
      → u < size
  current_in d v u k rest e fresh =
      (Walk-in u k
        (v.walks u k (current_cost add_c limit laws graph root root_cost d v u k rest e fresh))).0

  loop-ends :
      (fuel : ℕ) (d : Dijkstra)
      → Ok d
      → HeadOpen d.closed d.q
      → Rising 0 size d.closed
      → size ≤ length d.closed + fuel
      → IsTree add_c limit laws graph root d.treenodes
      → (d' : Dijkstra) × (loop add_c fuel graph d ≡ some d')
        × Ok d'
        × (d'.q ≡ [])
        × IsTree add_c limit laws graph root d'.treenodes
  unfolding loop
  loop-ends zero d v open_top rising enough tree = elim (List-cases d.q) [
    | inl e ↦ let cur = current-none d e in (d, rw (cur, loop) refl, v, e, tree)
    | inr ((u, k), rest, e) ↦
        let fresh = head_fresh d u k rest e open_top in
        let below = current_in d v u k rest e fresh in
        absurd (
          omega (
            arith,
            enough,
            length-insert u d.closed fresh,
            Rising-length 0 size (insert u d.closed) (omega arith)
                (insert-Rising 0 size u d.closed (omega arith) below rising),
          ))
  ]
  loop-ends (suc fuel) d v open_top rising enough tree = elim (List-cases d.q) [
    | inl e ↦ let cur = current-none d e in (d, rw (cur, loop) refl, v, e, tree)
    | inr ((u, k), rest, e) ↦
        let cur = current-some d u k rest e in
        let fresh = head_fresh d u k rest e open_top in
        let below = current_in d v u k rest e fresh in
        let edges : All (IsEdge add_c limit laws graph root root_cost u) (graph u) =
          placed (λ e. e.1 ≤ limit) (graph u)
            (All-map (λ e. (e.0 < size) × (e.1 ≤ limit)) (λ e. e.1 ≤ limit) (graph u) (λ e h. h.1)
              (bounded u)) in
        let (d1, fed, c) =
          feed-IsClosed add_c limit laws graph root root_cost u k (graph u) d rest edges v e fresh
            (λ d' low r. r) in
        let rising1 : Rising 0 size d1.closed =
          subst (Rising 0 size) (sym c.grown)
            (insert-Rising 0 size u d.closed (omega arith) below rising) in
        let at_top = current_cost add_c limit laws graph root root_cost d v u k rest e fresh in
        let tree1 =
          feed-IsTree add_c limit laws graph root u k (graph u) rest d d1 edges tree at_top e fed in
        let (d', done, ok, empty, tree') =
          loop-ends fuel d1 c.valid c.head rising1
            (omega (arith, enough, ap length c.grown, length-insert u d.closed fresh)) tree1 in
        (d', rw (cur, fed, loop) done, ok, empty, tree')
  ]

  initialize-IsTree : IsTree add_c limit laws graph root (initialize root root_cost).treenodes
  unfolding initialize
  initialize-IsTree = record {
    sorted = omega arith;
    fits = λ n c e. omega (arith, cheap, (start n c e).1);
    linked = λ n c e. inl (sym (start n c e).0);
  }

  -- When nothing is queued a node costs just what the way over its parent costs.
  child :
      (d : Dijkstra)
      → Ok d
      → d.q ≡ []
      → IsTree add_c limit laws graph root d.treenodes
      → (n c : ℕ) → cost_at n d.treenodes ≡ some c
      → (n ≡ root) ⊎ IsChild add_c graph n c d.treenodes
  child d v e tree n c at = elim (tree.linked n c at) [
    | inl is_root ↦ inl is_root
    | inr p ↦
        let way =
          go p.parent p.reached p.step_cost p.at (v.walks p.parent p.reached p.in_tree) p.is_edge
            refl in
        let least =
          AtMost-some (add_c p.reached p.step_cost) c (cost_at n d.treenodes) at
            (Walk-shortest d v e n (add_c p.reached p.step_cost) way) in
        inr (
          p.parent,
          p.reached,
          p.step_cost,
          p.at,
          p.is_parent,
          p.in_tree,
          p.is_edge,
          omega (arith, least, p.enough),
        )
  ]

  -- In a graph whose edges lead to nodes below `size` and cost at most a limit, with an addition
  -- of costs that stays within the limit, never lowers a cost and is monotone, the client's loop
  -- ends within `size` turns, each cost in its tree is that of a walk from the root, the end of
  -- each walk from the root is in the tree at no more than the cost of the walk, and each node but
  -- the root has a parent in the tree, with an edge from it over which the costs add up.
  pub loop-shortest :
      (d : Dijkstra) × (loop add_c size graph (initialize root root_cost) ≡ some d)
      × ((n c : ℕ) → cost_at n d.treenodes ≡ some c → Walk add_c graph root root_cost n c)
      × ((n c : ℕ) → Walk add_c graph root root_cost n c → AtMost c (cost_at n d.treenodes))
      × ((n c : ℕ)
          → cost_at n d.treenodes ≡ some c
          → (n ≡ root) ⊎ IsChild add_c graph n c d.treenodes)
  unfolding initialize insert_behind
  loop-shortest =
      let (d, done, v, empty, tree) =
        loop-ends size (initialize root root_cost) initialize-Ok refl tt (omega arith)
          initialize-IsTree in
      (d, done, v.walks, Walk-shortest d v empty, child d v empty tree)
