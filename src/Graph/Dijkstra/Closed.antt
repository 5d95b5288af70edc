-- ===== src/Graph/Dijkstra/Closed.antt =====
-- The closed set and the queue without its nodes.
use clboss.Base.{
  ℕ, ◌≤◌, ◌≡◌, ◌∙◌, refl, sym, ap, subst, inl, inr, true, false, ◌||◌, List, [], ◌∷◌, Option, some,
  arith, ◌==◌, map, count_if, All, Bool-cases,
}
use clboss.Base.Maps.{contains, insert}
use clboss.Base.Sorting.{AscendingFrom}
use clboss.Graph.Dijkstra.{Dijkstra, drop_closed}
use clboss.Graph.Dijkstra.Costs.{cost_at}
use clboss.Graph.Dijkstra.Invariant.{is_entry, HeadOpen}

-- The set of closed nodes after another is added, and the queue without those.
contains-insert : (u j : ℕ) (s : List ℕ) → contains j (insert u s) ≡ (u == j || contains j s)
contains-insert u j [] = ground arith
contains-insert u j (x ∷ s) = ground (arith, contains-insert u j s)

pub contains-old :
    (u j : ℕ) (s : List ℕ) → (u == j) ≡ false → contains j (insert u s) ≡ true → contains j s ≡ true
contains-old u j s e h = ground (arith, e, h, contains-insert u j s)

pub contains-not :
    (u j : ℕ) (s : List ℕ)
    → contains j (insert u s) ≡ false
    → ((u == j) ≡ false) × (contains j s ≡ false)
contains-not u j s h = ground (arith, h, contains-insert u j s)

pub other_entry :
    (u k j c : ℕ) (q rest : List (ℕ × ℕ))
    → q ≡ (u, k) ∷ rest
    → (u == j) ≡ false
    → count_if (is_entry j c) q ≡ count_if (is_entry j c) rest
other_entry u k j c q rest e other = rw e (rw other (omega arith))

pub current_eq :
    (u k j c : ℕ) (d : Dijkstra)
    → cost_at u d.treenodes ≡ some k
    → (u == j) ≡ true
    → cost_at j d.treenodes ≡ some c
    → k ≡ c
current_eq u k j c d cost e e' =
    let same : u ≡ j = ground (arith, e) in
    let both : ◌≡◌ {A = Option ℕ} (some k) (some c) =
      sym cost ∙ ap (λ x. cost_at x d.treenodes) same ∙ e' in
    ground (arith, both)

pub head_tail :
    (u k : ℕ) (q rest : List (ℕ × ℕ))
    → q ≡ (u, k) ∷ rest
    → AscendingFrom 0 (map (λ e. e.1) q)
    → AscendingFrom k (map (λ e. e.1) rest)
head_tail u k q rest e a =
    let rises : AscendingFrom 0 (map (λ e. e.1) ((u, k) ∷ rest)) = rw e at a in rises.1

pub rest-All :
    (P : ℕ × ℕ → Type 0) (u k : ℕ) (q rest : List (ℕ × ℕ))
    → q ≡ (u, k) ∷ rest
    → All P q
    → All P rest
rest-All P u k q rest e a = let all : All P ((u, k) ∷ rest) = subst (All P) e a in all.1

module _ (closed : List ℕ) where
  pub drop-All : (P : ℕ × ℕ → Type 0) (q : List (ℕ × ℕ)) → All P q → All P (drop_closed closed q)
  unfolding drop_closed
  drop-All P [] a = tt
  drop-All P (e ∷ q) (a0, a) = elim (Bool-cases (contains e.0 closed)) [
    | inl h ↦ rw h (drop-All P q a)
    | inr h ↦ rw h (a0, a)
  ]

  pub drop-ascending :
      (b b' : ℕ) (q : List (ℕ × ℕ))
      → b' ≤ b
      → AscendingFrom b (map (λ e. e.1) q)
      → AscendingFrom b' (map (λ e. e.1) (drop_closed closed q))
  unfolding drop_closed
  drop-ascending b b' [] le a = tt
  drop-ascending b b' (e ∷ q) le (a0, a) = elim (Bool-cases (contains e.0 closed)) [
    | inl h ↦ rw h (drop-ascending e.1 b' q (omega (arith, le, a0)) a)
    | inr h ↦ rw h (omega (arith, le, a0), a)
  ]

  pub drop-count :
      (n c : ℕ) (q : List (ℕ × ℕ))
      → contains n closed ≡ false
      → count_if (is_entry n c) (drop_closed closed q) ≡ count_if (is_entry n c) q
  unfolding drop_closed
  drop-count n c [] h = refl
  drop-count n c (e ∷ q) h = elim (Bool-cases (contains e.0 closed)) [
    | inr e' ↦ rw e' refl
    | inl e' ↦ elim (Bool-cases (e.0 == n)) [
      | inl same ↦
          let eq : e.0 ≡ n = ground (arith, same) in
          absurd (ground (arith, h, e', ap (λ x. contains x closed) eq))
      | inr other ↦ rw (e', other) (omega (arith, drop-count n c q h))
    ]
  ]

  pub drop-head : (q : List (ℕ × ℕ)) → HeadOpen closed (drop_closed closed q)
  unfolding drop_closed
  drop-head [] = tt
  drop-head (e ∷ q) = elim (Bool-cases (contains e.0 closed)) [
    | inl h ↦ rw h (drop-head q)
    | inr h ↦ rw h h
  ]
