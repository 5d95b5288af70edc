-- ===== src/Graph/Dijkstra/Relax.antt =====
-- Feeding one neighbor of the current node.
use clboss.Base.{
  All-map, ℕ, ◌≤◌, ◌<◌, ◌≡◌, ◌∙◌, refl, sym, ap, subst, inl, inr, true, false, List, [], ◌∷◌, some,
  arith, ltb, ◌==◌, if◌then◌else◌, map, get_elem?, count_if, All, Bool-cases, ==_refl,
}
use clboss.Base.Maps.{Above, contains}
use clboss.Base.Sorting.{AscendingFrom, insert_behind, insert_behind-ascending, insert_behind-count}
use clboss.Graph.Dijkstra.{Dijkstra, TreeNodes, push}
use clboss.Graph.Dijkstra.Costs.{cost_at, AtMost, AtMost-cost}
use clboss.Graph.Dijkstra.Invariant.{IsCost, Graph, Walk, go, is_entry, IsDijkstra}

-- Facts on queues.
pub All-push :
    (P : ℕ × ℕ → Type 0) (e : ℕ × ℕ) (q : List (ℕ × ℕ)) → P e → All P q → All P (push e q)
unfolding insert_behind
All-push P e [] h a = (h, tt)
All-push P e (x ∷ q) h (a0, a) = elim (Bool-cases (ltb e.1 x.1)) [
  | inl lt ↦ rw lt (h, (a0, a))
  | inr ge ↦ rw ge (a0, All-push P e q h a)
]

pub entry-ge :
    (c u x : ℕ) (q : List (ℕ × ℕ)) → All (λ e. c ≤ e.1) q → 0 < count_if (is_entry u x) q → c ≤ x
entry-ge c u x [] a h = absurd (omega (arith, h))
entry-ge c u x (e ∷ q) (a0, a) h = elim (Bool-cases (is_entry u x e)) [
  | inl hit ↦ ground (arith, hit, a0)
  | inr miss ↦ entry-ge c u x q a (ground (arith, h, miss))
]

pub ascending-All :
    (b : ℕ) (q : List (ℕ × ℕ)) → AscendingFrom b (map (λ e. e.1) q) → All (λ e. b ≤ e.1) q
ascending-All b [] a = tt
ascending-All b (e ∷ q) (a0, a) = (
  a0,
  All-map (λ x. e.1 ≤ x.1) (λ x. b ≤ x.1) q (λ x h. omega (arith, h, a0)) (ascending-All e.1 q a),
)

pub head_rises :
    (u k : ℕ) (q rest : List (ℕ × ℕ))
    → q ≡ (u, k) ∷ rest
    → AscendingFrom 0 (map (λ e. e.1) q)
    → AscendingFrom k (map (λ e. e.1) q)
head_rises u k q rest e a =
    let rises : AscendingFrom 0 (map (λ e. e.1) ((u, k) ∷ rest)) = rw e at a in
    rw e (omega arith, rises.1)

module _ (add_c : ℕ → ℕ → ℕ) (limit : ℕ) (laws : IsCost add_c limit) (graph : Graph)
    (root root_cost : ℕ) (d : Dijkstra) (v : IsDijkstra add_c limit graph root root_cost d)
    (u k : ℕ) (rest : List (ℕ × ℕ)) (top : d.q ≡ (u, k) ∷ rest)
    (open_top : contains u d.closed ≡ false) where
  top-All : All (λ e. k ≤ e.1) d.q
  top-All = ascending-All k d.q (head_rises u k d.q rest top v.ascending)

  -- The key of the current entry is the cost of its node.
  pub current_cost : cost_at u d.treenodes ≡ some k
  current_cost =
      let heads : All (λ e. AtMost e.1 (cost_at e.0 d.treenodes)) ((u, k) ∷ rest) =
        subst (All (λ e. AtMost e.1 (cost_at e.0 d.treenodes))) top v.queued in
      let (c, e, le) = AtMost-cost k (cost_at u d.treenodes) heads.0 in
      let ge = entry-ge k u c d.q top-All (v.waits u c e open_top) in
      e ∙ ap (λ n. some n) (omega (arith, le, ge))

  -- A closed node costs no more than the current one.
  pub closed-le : (n c : ℕ) → cost_at n d.treenodes ≡ some c → contains n d.closed ≡ true → c ≤ k
  closed-le n c e h = entry-ge c u k d.q (v.low n c e h) (v.waits u k current_cost open_top)

  module _ (n w i : ℕ) (edge : get_elem? (graph u) i ≡ some (n, w)) (light : w ≤ limit) where
    alt : ℕ
    alt = add_c k w

    alt-ge : k ≤ alt
    unfolding alt
    alt-ge = laws.grows k w (v.within u k current_cost) light

    -- The cost of the neighbor is lowered to that through the current node.
    module _ (t : TreeNodes) (above : Above 0 t)
        (costs : (j : ℕ)
          → cost_at j t ≡ (if n == j then some (add_c k w) else cost_at j d.treenodes))
        (better : (c : ℕ) → cost_at n d.treenodes ≡ some c → add_c k w < c) where
      unfoldable pub next : Dijkstra
      next = record d { treenodes = t; q = push (n, add_c k w) d.q }

      n_open : contains n d.closed ≡ false
      unfolding alt
      n_open = elim (Bool-cases (contains n d.closed)) [
        | inr e ↦ e
        | inl e ↦
            let (c, e') = v.known n e in
            absurd (omega (arith, closed-le n c e' e, alt-ge, better c e'))
      ]

      pub lowered : (j m : ℕ) → AtMost m (cost_at j d.treenodes) → AtMost m (cost_at j t)
      lowered j m h = elim (Bool-cases (n == j)) [
        | inr e ↦ rw (costs j, e) h
        | inl e ↦
            let same : n ≡ j = ground (arith, e) in
            let (c, e', le) = AtMost-cost m (cost_at j d.treenodes) h in
            rw (costs j, e)
              (omega (arith, le, better c (ap (λ x. cost_at x d.treenodes) same ∙ e')))
      ]

      unmoved : (j : ℕ) → contains j d.closed ≡ true → cost_at j t ≡ cost_at j d.treenodes
      unmoved j h = elim (Bool-cases (n == j)) [
        | inr e ↦ costs j ∙ rw e refl
        | inl e ↦
            let same : n ≡ j = ground (arith, e) in
            absurd (ground (arith, h, n_open, ap (λ x. contains x d.closed) same))
      ]

      added :
          (j c : ℕ)
          → 0 < count_if (is_entry j c) ((n, add_c k w) ∷ d.q)
          → 0 < count_if (is_entry j c) (push (n, add_c k w) d.q)
      added j c h =
          omega (arith, h, insert_behind-count (λ e. e.1) (is_entry j c) (n, add_c k w) d.q)

      -- What holds of the lowered cost and of the others holds of all.
      by_cost :
          (P : ℕ → ℕ → Type 0)
          → P n (add_c k w)
          → ((j c : ℕ) → cost_at j d.treenodes ≡ some c → P j c)
          → (j c : ℕ) → cost_at j t ≡ some c
          → P j c
      by_cost P new old j c h = elim (Bool-cases (n == j)) [
        | inr e ↦
            let kept : cost_at j t ≡ cost_at j d.treenodes = costs j ∙ rw e refl in
            old j c (sym kept ∙ h)
        | inl e ↦
            let same : n ≡ j = ground (arith, e) in
            let hit : cost_at j t ≡ some (add_c k w) = costs j ∙ rw e refl in
            let eq : add_c k w ≡ c = ground (arith, hit, h) in rw (← same, ← eq) new
      ]

      pub next-IsDijkstra : IsDijkstra add_c limit graph root root_cost next
      unfolding next alt
      next-IsDijkstra = record {
        above = above;
        ascending =
            insert_behind-ascending (λ e. e.1) 0 (n, add_c k w) d.q (omega arith) v.ascending;
        within =
            by_cost (λ j c. c ≤ limit) (laws.stays k w (v.within u k current_cost) light) v.within;
        walks =
            by_cost (Walk add_c graph root root_cost)
              (go u k w i (v.walks u k current_cost) edge refl) v.walks;
        known = λ j h. let (c, e) = v.known j h in (c, unmoved j h ∙ e);
        rooted = lowered root root_cost v.rooted;
        queued =
            All-push (λ e. AtMost e.1 (cost_at e.0 t)) (n, add_c k w) d.q
              (rw (costs n, ==_refl n) (omega arith))
              (All-map (λ e. AtMost e.1 (cost_at e.0 d.treenodes)) (λ e. AtMost e.1 (cost_at e.0 t))
                d.q (λ e h. lowered e.0 e.1 h) v.queued);
        waits =
            by_cost
              (λ j c.
                contains j d.closed ≡ false → 0 < count_if (is_entry j c) (push (n, add_c k w) d.q))
              (λ h. added n (add_c k w) (rw (==_refl n, ==_refl (add_c k w)) (omega arith)))
              (λ j c e h. added j c (omega (arith, v.waits j c e h)));
        low = λ j c e h.
            All-push (λ x. c ≤ x.1) (n, add_c k w) d.q
              (omega (arith, closed-le j c (sym (unmoved j h) ∙ e) h, alt-ge))
              (v.low j c (sym (unmoved j h) ∙ e) h);
        relaxed = λ j c e h.
            All-map (λ x. AtMost (add_c c x.1) (cost_at x.0 d.treenodes))
              (λ x. AtMost (add_c c x.1) (cost_at x.0 t)) (graph j)
              (λ x a. lowered x.0 (add_c c x.1) a) (v.relaxed j c (sym (unmoved j h) ∙ e) h);
      }
