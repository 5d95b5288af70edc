-- ===== src/Graph/Dijkstra/Costs.antt =====
-- The costs of the tree nodes, through the changes of the tree.
use clboss.Base.{
  ℕ, ◌≤◌, ◌≡◌, ◌∙◌, refl, ap, inl, inr, not, List, [], ◌∷◌, ◌++◌, Option, none, some, arith, ◌==◌,
  if◌then◌else◌, keep_if, Bool-cases, Option-cases,
}
use clboss.Base.Maps.{lookup, assign, Above, assign-Above, lookup-assign}
use clboss.Graph.Dijkstra.{Dijkstra, current, TreeNode, TreeNodes, modify, reparent}

abbrev pub field_at {ℓ} : {B : Type ℓ} → (TreeNode → B) → ℕ → TreeNodes → Option B
field_at g i t = elim (lookup i t) [ none ↦ none | some v ↦ some (g v) ]

abbrev pub cost_at : ℕ → TreeNodes → Option ℕ
cost_at = field_at (λ v. v.cost)

abbrev pub parent_at : ℕ → TreeNodes → Option (Option ℕ)
parent_at = field_at (λ v. v.parent)

-- There is a cost, and it is no larger.
abbrev pub AtMost : ℕ → Option ℕ → Type 0
AtMost k none = ⊥
AtMost k (some c) = c ≤ k

pub AtMost-cost : (k : ℕ) (o : Option ℕ) → AtMost k o → (c : ℕ) × (o ≡ some c) × (c ≤ k)
AtMost-cost k none h = absurd h
AtMost-cost k (some c) h = (c, refl, h)

pub AtMost-some : (k c : ℕ) (o : Option ℕ) → o ≡ some c → AtMost k o → c ≤ k
AtMost-some k c o e h = rw e at h

pub some-AtMost : (k c : ℕ) (o : Option ℕ) → o ≡ some c → c ≤ k → AtMost k o
some-AtMost k c o e h = rw e h

pub AtMost-mono : (j k : ℕ) (o : Option ℕ) → j ≤ k → AtMost j o → AtMost k o
AtMost-mono j k none h a = absurd a
AtMost-mono j k (some c) h a = omega (arith, h, a)

pub field_at-assign {ℓ} :
    {B : Type ℓ} (g : TreeNode → B) (i n : ℕ) (v : TreeNode) (t : TreeNodes)
    → Above 0 t
    → field_at g i (assign n v t) ≡ (if n == i then some (g v) else field_at g i t)
field_at-assign g i n v t a = ground (arith, lookup-assign 0 i n v t a)

pub cost_at-assign :
    (i n : ℕ) (v : TreeNode) (t : TreeNodes)
    → Above 0 t
    → cost_at i (assign n v t) ≡ (if n == i then some v.cost else cost_at i t)
cost_at-assign = field_at-assign (λ v. v.cost)

module _ {ℓ} {B : Type ℓ} (f : TreeNode → TreeNode) (g : TreeNode → B)
    (same : (v : TreeNode) → g (f v) ≡ g v) where
  modify-Above : (n : ℕ) (t : TreeNodes) → Above 0 t → Above 0 (modify n f t)
  unfolding modify
  modify-Above n t a = elim (Option-cases (lookup n t)) [
    | inl e ↦ rw (e, modify) a
    | inr (v, e) ↦ rw (e, modify) (assign-Above 0 n (f v) t (omega arith) a)
  ]

  field_at-modify :
      (i n : ℕ) (t : TreeNodes) → Above 0 t → field_at g i (modify n f t) ≡ field_at g i t
  unfolding modify
  field_at-modify i n t a = elim (Option-cases (lookup n t)) [
    | inl e ↦ rw (e, modify) refl
    | inr (v, e) ↦ elim (Bool-cases (n == i)) [
      | inl hit ↦
          let eq : n ≡ i = ground (arith, hit) in
          rw (e, modify)
            (field_at-assign g i n (f v) t a
              ∙ ground (arith, hit, e, same v, ap (λ k. lookup k t) eq))
      | inr miss ↦ rw (e, modify) (field_at-assign g i n (f v) t a ∙ rw miss refl)
    ]
  ]

module _ (n u : ℕ) where
  adopt : TreeNode → TreeNode
  adopt p = record p { children = p.children ++ n ∷ [] }

  leave : TreeNode → TreeNode
  leave p = record p { children = keep_if (λ c. not (c == n)) p.children }

  point : TreeNode → TreeNode
  point v = record v { parent = some u }

  pub reparent-Above : (old : Option ℕ) (t : TreeNodes) → Above 0 t → Above 0 (reparent n u old t)
  unfolding reparent adopt leave point
  reparent-Above none t a =
      modify-Above adopt (λ v. v.cost) (λ v. refl) u _
        (modify-Above point (λ v. v.cost) (λ v. refl) n t a)
  reparent-Above (some o) t a =
      modify-Above adopt (λ v. v.cost) (λ v. refl) u _
        (modify-Above point (λ v. v.cost) (λ v. refl) n _
          (modify-Above leave (λ v. v.cost) (λ v. refl) o t a))

  pub cost_at-reparent :
      (i : ℕ) (old : Option ℕ) (t : TreeNodes)
      → Above 0 t
      → cost_at i (reparent n u old t) ≡ cost_at i t
  unfolding reparent adopt leave point
  cost_at-reparent i none t a =
      field_at-modify adopt (λ v. v.cost) (λ v. refl) i u _
        (modify-Above point (λ v. v.cost) (λ v. refl) n t a)
      ∙ field_at-modify point (λ v. v.cost) (λ v. refl) i n t a
  cost_at-reparent i (some o) t a =
      let first = modify-Above leave (λ v. v.cost) (λ v. refl) o t a in
      field_at-modify adopt (λ v. v.cost) (λ v. refl) i u _
        (modify-Above point (λ v. v.cost) (λ v. refl) n _ first)
      ∙ field_at-modify point (λ v. v.cost) (λ v. refl) i n _ first
      ∙ field_at-modify leave (λ v. v.cost) (λ v. refl) i o t a

  point-parent :
      (i c : ℕ) (t : TreeNodes)
      → Above 0 t
      → cost_at n t ≡ some c
      → parent_at i (modify n point t) ≡ (if n == i then some (some u) else parent_at i t)
  unfolding modify point
  point-parent i c t a known = elim (Option-cases (lookup n t)) [
    | inl e ↦ absurd (ground (arith, e, known))
    | inr (v, e) ↦ rw (e, modify) (field_at-assign (λ v. v.parent) i n (point v) t a)
  ]

  pub parent_at-reparent :
      (i c : ℕ) (old : Option ℕ) (t : TreeNodes)
      → Above 0 t
      → cost_at n t ≡ some c
      → parent_at i (reparent n u old t) ≡ (if n == i then some (some u) else parent_at i t)
  unfolding reparent adopt leave point
  parent_at-reparent i c none t a known =
      field_at-modify adopt (λ v. v.parent) (λ v. refl) i u _
        (modify-Above point (λ v. v.cost) (λ v. refl) n t a)
      ∙ point-parent i c t a known
  parent_at-reparent i c (some o) t a known =
      let first = modify-Above leave (λ v. v.cost) (λ v. refl) o t a in
      field_at-modify adopt (λ v. v.parent) (λ v. refl) i u _
        (modify-Above point (λ v. v.cost) (λ v. refl) n _ first)
      ∙ point-parent i c _ first (field_at-modify leave (λ v. v.cost) (λ v. refl) n o t a ∙ known)
      ∙ ap (λ x. if n == i then some (some u) else x)
          (field_at-modify leave (λ v. v.parent) (λ v. refl) i o t a)

pub current-none : (d : Dijkstra) → d.q ≡ [] → current d ≡ none
unfolding current
current-none d e = rw e refl

pub current-some :
    (d : Dijkstra) (u k : ℕ) (rest : List (ℕ × ℕ)) → d.q ≡ (u, k) ∷ rest → current d ≡ some u
unfolding current
current-some d u k rest e = rw e refl
