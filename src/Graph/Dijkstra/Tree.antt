-- ===== src/Graph/Dijkstra/Tree.antt =====
-- The parents of the tree nodes: each but the root's comes with an edge, and is reached before.
use mathlib.Core.Option.{some-injective}
use clboss.Base.{
  true, ℕ, ◌≤◌, ◌<◌, ◌≡◌, ◌∙◌, ◌⊎◌, inl, inr, refl, sym, ap, subst, false, List, [], ◌∷◌, Option,
  none, some, arith, ltb, ◌==◌, if◌then◌else◌, get_elem?, Bool-cases, Option-cases, ==_refl, All,
}
use clboss.Base.Maps.{lookup, assign, Above, assign-Above}
use clboss.Graph.Dijkstra.{
  Dijkstra, TreeNode, TreeNodes, new_node, push, reparent, cost_or_zero, relax, neighbor,
  end_neighbors, feed,
}
use clboss.Graph.Dijkstra.Costs.{
  cost_at, parent_at, field_at-assign, cost_at-assign, reparent-Above, cost_at-reparent,
  parent_at-reparent, current-some,
}
use clboss.Graph.Dijkstra.Invariant.{IsCost, Graph}
use clboss.Graph.Dijkstra.Visit.{cost_of_found, push-top}

-- A node's parent is in the tree, an edge leads from it to the node, and the costs add up.
abbrev pub IsChild : (ℕ → ℕ → ℕ) → Graph → ℕ → ℕ → TreeNodes → Type 0
IsChild add_c graph n c t =
    (p : ℕ) × (k : ℕ) × (w : ℕ) × (i : ℕ) × (parent_at n t ≡ some (some p))
    × (cost_at p t ≡ some k)
    × (get_elem? (graph p) i ≡ some (n, w))
    × (c ≡ add_c k w)

module _ (add_c : ℕ → ℕ → ℕ) (limit : ℕ) (laws : IsCost add_c limit) (graph : Graph)
    (root : ℕ) where
  -- The parent of a node of a cost: an edge leads from it, over which the node costs no more.
  pub record HasParent (n c : ℕ) (t : TreeNodes) : Type 0 where
    pub parent : ℕ
    pub reached : ℕ
    pub step_cost : ℕ
    pub at : ℕ
    pub is_parent : parent_at n t ≡ some (some parent)
    pub in_tree : cost_at parent t ≡ some reached
    pub is_edge : get_elem? (graph parent) at ≡ some (n, step_cost)
    pub light : step_cost ≤ limit
    pub enough : add_c reached step_cost ≤ c

  pub record IsTree (t : TreeNodes) : Type 0 where
    pub sorted : Above 0 t
    pub fits : (n c : ℕ) → cost_at n t ≡ some c → c ≤ limit
    pub linked : (n c : ℕ) → cost_at n t ≡ some c → (n ≡ root) ⊎ HasParent n c t

  module _ (u k n w i : ℕ) (light : w ≤ limit) (edge : get_elem? (graph u) i ≡ some (n, w))
      (t : TreeNodes) (v : IsTree t) (cost : cost_at u t ≡ some k) where
    within : k ≤ limit
    within = v.fits u k cost

    -- A node that is new, or that gets cheaper, is put below the current one.
    module _ (t' : TreeNodes) (above : Above 0 t')
        (costs : (j : ℕ) → cost_at j t' ≡ (if n == j then some (add_c k w) else cost_at j t))
        (parents : (j : ℕ) → parent_at j t' ≡ (if n == j then some (some u) else parent_at j t))
        (better : (c : ℕ) → cost_at n t ≡ some c → add_c k w < c) where
      cost-moved : (j : ℕ) → (n == j) ≡ true → cost_at j t' ≡ some (add_c k w)
      cost-moved j hit = costs j ∙ rw hit refl

      cost-others : (j : ℕ) → (n == j) ≡ false → cost_at j t' ≡ cost_at j t
      cost-others j miss = costs j ∙ rw miss refl

      apart : (n == u) ≡ false
      apart = elim (Bool-cases (n == u)) [
        | inr miss ↦ miss
        | inl hit ↦
            let same : n ≡ u = ground (arith, hit) in
            absurd (
              omega
                (arith, better k (ap (λ x. cost_at x t) same ∙ cost), laws.grows k w within light))
      ]

      cost-current : cost_at u t' ≡ some k
      cost-current = cost-others u apart ∙ cost

      moved-HasParent : (j c : ℕ) → (n == j) ≡ true → cost_at j t' ≡ some c → HasParent j c t'
      moved-HasParent j c hit e =
          let same : add_c k w ≡ c = some-injective _ _ (sym (cost-moved j hit) ∙ e) in
          let here : n ≡ j = ground (arith, hit) in
          record {
            parent = u;
            reached = k;
            step_cost = w;
            at = i;
            is_parent = parents j ∙ rw hit refl;
            in_tree = cost-current;
            is_edge = subst (λ x. get_elem? (graph u) i ≡ some (x, w)) here edge;
            light = light;
            enough = omega (arith, same);
          }

      -- A parent that gets cheaper stays one.
      other-HasParent : (j c : ℕ) → (n == j) ≡ false → HasParent j c t → HasParent j c t'
      other-HasParent j c miss p = elim (Bool-cases (n == p.parent)) [
        | inl hit ↦
            let here : n ≡ p.parent = ground (arith, hit) in
            let less = better p.reached (ap (λ x. cost_at x t) here ∙ p.in_tree) in
            let known = v.fits p.parent p.reached p.in_tree in
            record {
              parent = p.parent;
              reached = add_c k w;
              step_cost = p.step_cost;
              at = p.at;
              is_parent = parents j ∙ rw miss p.is_parent;
              in_tree = cost-moved p.parent hit;
              is_edge = p.is_edge;
              light = p.light;
              enough = omega (
                arith,
                p.enough,
                laws.monotone (add_c k w) p.reached p.step_cost (omega (arith, less)) known p.light,
              );
            }
        | inr other ↦ record {
          parent = p.parent;
          reached = p.reached;
          step_cost = p.step_cost;
          at = p.at;
          is_parent = parents j ∙ rw miss p.is_parent;
          in_tree = cost-others p.parent other ∙ p.in_tree;
          is_edge = p.is_edge;
          light = p.light;
          enough = p.enough;
        }
      ]

      moved-IsTree : IsTree t' × (cost_at u t' ≡ some k)
      moved-IsTree = (
        record {
          sorted = above;
          fits = λ j c e. elim (Bool-cases (n == j)) [
            | inl hit ↦
                let same : add_c k w ≡ c = some-injective _ _ (sym (cost-moved j hit) ∙ e) in
                omega (arith, same, laws.stays k w within light)
            | inr miss ↦ v.fits j c (sym (cost-others j miss) ∙ e)
          ];
          linked = λ j c e. elim (Bool-cases (n == j)) [
            | inl hit ↦ inr (moved-HasParent j c hit e)
            | inr miss ↦ elim (v.linked j c (sym (cost-others j miss) ∙ e)) [
              | inl is_root ↦ inl is_root
              | inr p ↦ inr (other-HasParent j c miss p)
            ]
          ];
        },
        cost-current,
      )

    assigned-IsTree :
        (old : Option ℕ) (x : TreeNode)
        → x.cost ≡ add_c k w
        → ((c : ℕ) → cost_at n t ≡ some c → add_c k w < c)
        → IsTree (reparent n u old (assign n x t))
          × (cost_at u (reparent n u old (assign n x t)) ≡ some k)
    assigned-IsTree old x e better =
        let above = assign-Above 0 n x t (omega arith) v.sorted in
        let placed : cost_at n (assign n x t) ≡ some x.cost =
          cost_at-assign n n x t v.sorted ∙ rw (==_refl n) refl in
        moved-IsTree (reparent n u old (assign n x t)) (reparent-Above n u old _ above)
          (λ j. cost_at-reparent n u j old _ above ∙ cost_at-assign j n x t v.sorted ∙ rw e refl)
          (λ j.
            parent_at-reparent n u j x.cost old _ above placed
            ∙ ground (arith, field_at-assign (λ v. v.parent) j n x t v.sorted))
          better

  module _ (u k n w i : ℕ) (light : w ≤ limit) (edge : get_elem? (graph u) i ≡ some (n, w))
      (d : Dijkstra) (v : IsTree d.treenodes) (cost : cost_at u d.treenodes ≡ some k) where
    relax-IsTree :
        IsTree (relax add_c u n w d).treenodes
        × (cost_at u (relax add_c u n w d).treenodes ≡ some k)
    unfolding relax
    relax-IsTree =
        let now : cost_or_zero (lookup u d.treenodes) ≡ k =
          cost_of_found add_c limit laws graph root 0 (lookup u d.treenodes) k cost in
        elim (Option-cases (lookup n d.treenodes)) [
          | inl e ↦
              rw (e, now, relax)
                (assigned-IsTree u k n w i light edge d.treenodes v cost none (new_node (add_c k w))
                  refl (λ c h. absurd (ground (arith, e, h))))
          | inr (x, e) ↦ elim (Bool-cases (ltb (add_c k w) x.cost)) [
            | inl less ↦
                rw (e, now, less, relax)
                  (assigned-IsTree u k n w i light edge d.treenodes v cost x.parent
                    (record x { cost = add_c k w }) refl (λ c h. ground (arith, e, h, less)))
            | inr more ↦ rw (e, now, more, relax) (v, cost)
          ]
        ]

    -- The current node stays on top of the queue.
    relax-top :
        (rest : List (ℕ × ℕ))
        → d.q ≡ (u, k) ∷ rest
        → (rest' : List (ℕ × ℕ)) × ((relax add_c u n w d).q ≡ (u, k) ∷ rest')
    unfolding relax
    relax-top rest top =
        let now : cost_or_zero (lookup u d.treenodes) ≡ k =
          cost_of_found add_c limit laws graph root 0 (lookup u d.treenodes) k cost in
        let pushed =
          push-top add_c limit laws graph root 0 u k n (add_c k w) d.q rest top
            (laws.grows k w (v.fits u k cost) light) in
        elim (Option-cases (lookup n d.treenodes)) [
          | inl e ↦ rw (e, now, relax) (push (n, add_c k w) rest, pushed)
          | inr (x, e) ↦ elim (Bool-cases (ltb (add_c k w) x.cost)) [
            | inl less ↦ rw (e, now, less, relax) (push (n, add_c k w) rest, pushed)
            | inr more ↦ rw (e, now, more, relax) (rest, top)
          ]
        ]

  end-IsTree :
      (d d' : Dijkstra) → IsTree d.treenodes → end_neighbors d ≡ some d' → IsTree d'.treenodes
  unfolding end_neighbors
  end-IsTree d d' v e =
      let same : d.treenodes ≡ d'.treenodes = ground (arith, e) in subst IsTree same v

  -- A turn of the client.
  pub feed-IsTree :
      (u k : ℕ) (edges rest : List (ℕ × ℕ)) (d d' : Dijkstra)
      → All (λ e. (e.1 ≤ limit) × ((i : ℕ) × (get_elem? (graph u) i ≡ some e))) edges
      → IsTree d.treenodes
      → cost_at u d.treenodes ≡ some k
      → d.q ≡ (u, k) ∷ rest
      → feed add_c edges d ≡ some d'
      → IsTree d'.treenodes
  unfolding feed neighbor
  feed-IsTree u k [] rest d d' es v cost top e = end-IsTree d d' v e
  feed-IsTree u k ((n, w) ∷ edges) rest d d' ((light, (i, edge)), es) v cost top e =
      let (v', cost') = relax-IsTree u k n w i light edge d v cost in
      let (rest', top') = relax-top u k n w i light edge d v cost rest top in
      let cur = current-some d u k rest top in
      feed-IsTree u k edges rest' (relax add_c u n w d) d' es v' cost' top'
        (rw (cur, feed, neighbor) at e)
