-- ===== src/Graph/Dijkstra/Visit.antt =====
-- A client's turn: all neighbors of the current node are fed, and it is closed.
use clboss.Base.{
  ℕ, ◌≤◌, ◌<◌, ◌≡◌, ◌∙◌, refl, ap, inl, inr, false, List, [], ◌∷◌, Option, none, some, arith, ltb,
  ◌==◌, if◌then◌else◌, get_elem?, All, Bool-cases, Option-cases, ==_refl,
}
use clboss.Base.Maps.{lookup, assign, Above, assign-Above, contains, insert}
use clboss.Base.Sorting.{insert_behind}
use clboss.Graph.Dijkstra.{
  Dijkstra, TreeNode, TreeNodes, new_node, push, reparent, cost_or_zero, relax, neighbor,
  drop_closed, end_neighbors, feed,
}
use clboss.Graph.Dijkstra.Costs.{
  cost_at, AtMost, some-AtMost, cost_at-assign, reparent-Above, cost_at-reparent, current-some,
}
use clboss.Graph.Dijkstra.Invariant.{IsCost, Graph, Relaxed, IsDijkstra, HeadOpen}
use clboss.Graph.Dijkstra.Relax.{current_cost, next, lowered, next-IsDijkstra, ascending-All}
use clboss.Graph.Dijkstra.Closed.{
  contains-old, contains-not, other_entry, current_eq, head_tail, rest-All, drop-All,
  drop-ascending, drop-count, drop-head,
}

module _ (add_c : ℕ → ℕ → ℕ) (limit : ℕ) (laws : IsCost add_c limit) (graph : Graph)
    (root root_cost : ℕ) where
  pub cost_of_found :
      (o : Option TreeNode) (k : ℕ)
      → (elim o as (λ o. Option ℕ) [ none ↦ none | some v ↦ some v.cost ]) ≡ some k
      → cost_or_zero o ≡ k
  unfolding cost_or_zero
  cost_of_found none k h = cc
  cost_of_found (some v) k h = ground (arith, h)

  abbrev Ok : Dijkstra → Type 0
  Ok = IsDijkstra add_c limit graph root root_cost

  -- An edge of the graph, of a cost within the limit.
  abbrev pub IsEdge : ℕ → ℕ × ℕ → Type 0
  IsEdge u e = (e.1 ≤ limit) × ((i : ℕ) × (get_elem? (graph u) i ≡ some e))

  -- After a neighbor is fed the current node is the same, no cost has risen, and the neighbor is reached.
  record IsFed (u k : ℕ) (e : ℕ × ℕ) (d d' : Dijkstra) : Type 0 where
    valid : Ok d'
    same_closed : d'.closed ≡ d.closed
    top : (rest : List (ℕ × ℕ)) × (d'.q ≡ (u, k) ∷ rest)
    lower : (j m : ℕ) → AtMost m (cost_at j d.treenodes) → AtMost m (cost_at j d'.treenodes)
    fed : AtMost (add_c k e.1) (cost_at e.0 d'.treenodes)

  pub push-top :
      (u k n c : ℕ) (q rest : List (ℕ × ℕ))
      → q ≡ (u, k) ∷ rest
      → k ≤ c
      → push (n, c) q ≡ (u, k) ∷ push (n, c) rest
  unfolding insert_behind
  push-top u k n c q rest e h =
      let later : ltb c k ≡ false = ground (arith, h) in rw e (rw later refl)

  module _ (d : Dijkstra) (v : Ok d) (u k : ℕ) (rest : List (ℕ × ℕ)) (top : d.q ≡ (u, k) ∷ rest)
      (open_top : contains u d.closed ≡ false) where
    cost : cost_at u d.treenodes ≡ some k
    cost = current_cost add_c limit laws graph root root_cost d v u k rest top open_top

    module _ (n w : ℕ) (edge : IsEdge u (n, w)) where
      improved-IsFed :
          (t : TreeNodes)
          → Above 0 t
          → ((j : ℕ) → cost_at j t ≡ (if n == j then some (add_c k w) else cost_at j d.treenodes))
          → ((c : ℕ) → cost_at n d.treenodes ≡ some c → add_c k w < c)
          → IsFed u k (n, w) d (record d { treenodes = t; q = push (n, add_c k w) d.q })
      unfolding next
      improved-IsFed t above costs better = record {
        valid =
            next-IsDijkstra add_c limit laws graph root root_cost d v u k rest top open_top n w
              edge.1.0 edge.1.1 edge.0 t above costs better;
        same_closed = refl;
        top = (
          push (n, add_c k w) rest,
          push-top u k n (add_c k w) d.q rest top (laws.grows k w (v.within u k cost) edge.0),
        );
        lower =
            lowered add_c limit laws graph root root_cost d v u k rest top open_top n w edge.1.0
              edge.1.1 edge.0 t above costs better;
        fed = rw (costs n, ==_refl n) (omega arith);
      }

      assigned-IsFed :
          (old : Option ℕ) (x : TreeNode)
          → x.cost ≡ add_c k w
          → ((c : ℕ) → cost_at n d.treenodes ≡ some c → add_c k w < c)
          → IsFed u k
              (n, w)
              d
              (record d {
                treenodes = reparent n u old (assign n x d.treenodes);
                q = push (n, add_c k w) d.q;
              })
      assigned-IsFed old x e better =
          let above = assign-Above 0 n x d.treenodes (omega arith) v.above in
          improved-IsFed (reparent n u old (assign n x d.treenodes))
            (reparent-Above n u old _ above)
            (λ j.
              cost_at-reparent n u j old _ above
              ∙ cost_at-assign j n x d.treenodes v.above
              ∙ rw e refl)
            better

      relax-IsFed : IsFed u k (n, w) d (relax add_c u n w d)
      unfolding relax
      relax-IsFed =
          let now : cost_or_zero (lookup u d.treenodes) ≡ k =
            cost_of_found (lookup u d.treenodes) k cost in
          elim (Option-cases (lookup n d.treenodes)) [
            | inl e ↦
                rw (e, now, relax)
                  (assigned-IsFed none (new_node (add_c k w)) refl
                    (λ c h. absurd (ground (arith, e, h))))
            | inr (x, e) ↦
                let found : cost_at n d.treenodes ≡ some x.cost = ground (arith, e) in
                elim (Bool-cases (ltb (add_c k w) x.cost)) [
                  | inl less ↦
                      rw (e, now, less, relax)
                        (assigned-IsFed x.parent (record x { cost = add_c k w }) refl
                          (λ c h. ground (arith, e, h, less)))
                  | inr more ↦
                      rw (e, now, more, relax)
                        (record {
                          valid = v;
                          same_closed = refl;
                          top = (rest, top);
                          lower = λ j m h. h;
                          fed =
                              some-AtMost (add_c k w) x.cost (cost_at n d.treenodes) found
                                (ground (arith, more));
                        })
                ]
          ]

  -- The turn.
  module _ (u k : ℕ) where
    -- What a turn leaves.
    pub record IsClosed (d d' : Dijkstra) : Type 0 where
      pub valid : Ok d'
      pub grown : d'.closed ≡ insert u d.closed
      pub head : HeadOpen d'.closed d'.q

    end-IsClosed :
        (d : Dijkstra) (rest : List (ℕ × ℕ))
        → Ok d
        → d.q ≡ (u, k) ∷ rest
        → contains u d.closed ≡ false
        → Relaxed add_c k d (graph u)
        → (d' : Dijkstra) × (end_neighbors d ≡ some d') × IsClosed d d'
    unfolding end_neighbors
    end-IsClosed d rest v top open_top fed =
        let closed = insert u d.closed in
        let cost = current_cost add_c limit laws graph root root_cost d v u k rest top open_top in
        let d' : Dijkstra = record d { closed = closed; q = drop_closed closed rest } in
        let low_u : All (λ e. k ≤ e.1) rest =
          ascending-All k rest (head_tail u k d.q rest top v.ascending) in
        let tail = λ (P : ℕ × ℕ → Type 0) (a : All P d.q).
          drop-All closed P rest (rest-All P u k d.q rest top a) in
        (
          d',
          rw (top, end_neighbors) refl,
          record {
            valid = record {
              above = v.above;
              ascending =
                  drop-ascending closed k 0 rest (omega arith)
                    (head_tail u k d.q rest top v.ascending);
              within = v.within;
              walks = v.walks;
              known = λ j h. elim (Bool-cases (u == j)) [
                | inl e ↦ let same : u ≡ j = ground (arith, e) in (k, rw (← same) cost)
                | inr e ↦ v.known j (contains-old u j d.closed e h)
              ];
              rooted = v.rooted;
              queued = tail (λ e. AtMost e.1 (cost_at e.0 d.treenodes)) v.queued;
              waits = λ j c e h.
                  let (other, old) = contains-not u j d.closed h in
                  omega (
                    arith,
                    drop-count closed j c rest h,
                    other_entry u k j c d.q rest top other,
                    v.waits j c e old,
                  );
              low = λ j c e h. elim (Bool-cases (u == j)) [
                | inl e' ↦
                    let eq : k ≡ c = current_eq u k j c d cost e' e in
                    rw (← eq) (drop-All closed (λ x. k ≤ x.1) rest low_u)
                | inr e' ↦ tail (λ x. c ≤ x.1) (v.low j c e (contains-old u j d.closed e' h))
              ];
              relaxed = λ j c e h. elim (Bool-cases (u == j)) [
                | inl e' ↦
                    let same : u ≡ j = ground (arith, e') in
                    let eq : k ≡ c = current_eq u k j c d cost e' e in rw (← same, ← eq) fed
                | inr e' ↦ v.relaxed j c e (contains-old u j d.closed e' h)
              ];
            };
            grown = refl;
            head = drop-head closed rest;
          },
        )

    pub feed-IsClosed :
        (edges : List (ℕ × ℕ)) (d : Dijkstra) (rest : List (ℕ × ℕ))
        → All (IsEdge u) edges
        → Ok d
        → d.q ≡ (u, k) ∷ rest
        → contains u d.closed ≡ false
        → ((d' : Dijkstra)
            → ((j m : ℕ) → AtMost m (cost_at j d.treenodes) → AtMost m (cost_at j d'.treenodes))
            → Relaxed add_c k d' edges
            → Relaxed add_c k d' (graph u))
        → (d' : Dijkstra) × (feed add_c edges d ≡ some d') × IsClosed d d'
    unfolding feed neighbor
    feed-IsClosed [] d rest edges v top open_top all =
        end-IsClosed d rest v top open_top (all d (λ j m h. h) tt)
    feed-IsClosed (e ∷ edges) d rest (edge, more) v top open_top all =
        let d1 = relax add_c u e.0 e.1 d in
        let f : IsFed u k e d d1 = relax-IsFed d v u k rest top open_top e.0 e.1 edge in
        let (rest', top') = f.top in
        let open' : contains u d1.closed ≡ false = ap (contains u) f.same_closed ∙ open_top in
        let (d', done, c) = feed-IsClosed edges d1 rest' more f.valid top' open' (λ d' low r.
          all d' (λ j m h. low j m (f.lower j m h)) (low e.0 (add_c k e.1) f.fed, r)) in
        let cur = current-some d u k rest top in
        (
          d',
          rw (cur, feed, neighbor) done,
          record { valid = c.valid; grown = c.grown ∙ ap (insert u) f.same_closed; head = c.head },
        )
