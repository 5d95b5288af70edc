-- ===== src/Creator/Reprioritizer/Flat.antt =====
-- The proposals by bin as one list, and what a push does to it.
use mathlib.Core.List.{map-append}
use clboss.Base.{
  ℕ, suc, ◌+◌, ◌≤◌, ◌<◌, ◌≡◌, refl, sym, ap, true, List, [], ◌∷◌, ◌++◌, map, arith, ◌==◌,
  Option-cases, lt_cases, inl, inr,
}
use clboss.Base.Maps.{lookup, Above, assign-Above, Above-mono, lookup-Above}
use clboss.Base.Sorting.{insert_behind}
use clboss.Creator.Planner.{Proposal}
use clboss.Creator.Reprioritizer.{push_proposal, build_final_proposals}

-- A proposal with the number of nodes that were in its bin.
abbrev pub Sized : Type 0
Sized = ℕ × Proposal

abbrev pub size_of : Sized → ℕ
size_of e = e.0

abbrev pub flat : List (ℕ × List Proposal) → List Sized
flat [] = []
flat ((z, ps) ∷ m) = map (λ p. (z, p)) ps ++ flat m

untag : (z : ℕ) (ps : List Proposal) → map (λ (e : Sized). e.1) (map (λ p. (z, p)) ps) ≡ ps
untag z [] = refl
untag z (p ∷ ps) = ap (λ qs. p ∷ qs) (untag z ps)

pub flat_final : (m : List (ℕ × List Proposal)) → map (λ e. e.1) (flat m) ≡ build_final_proposals m
unfolding build_final_proposals
flat_final [] = refl
flat_final ((z, ps) ∷ m) =
    rw (map-append (λ (e : Sized). e.1), untag z ps) (ap (λ qs. ps ++ qs) (flat_final m))

insert_front :
    (z y : ℕ) (p : Proposal) (ps : List Proposal) (xs : List Sized)
    → z < y
    → insert_behind size_of (z, p) xs ≡ (z, p) ∷ xs
    → insert_behind size_of (z, p) (map (λ q. (y, q)) ps ++ xs)
      ≡ (z, p) ∷ map (λ q. (y, q)) ps ++ xs
unfolding insert_behind
insert_front z y p [] xs h e = e
insert_front z y p (q ∷ ps) xs h e = ground arith

-- A proposal of smaller size goes to the front.
insert_flat :
    (z : ℕ) (p : Proposal) (m : List (ℕ × List Proposal))
    → Above (suc z) m
    → insert_behind size_of (z, p) (flat m) ≡ (z, p) ∷ flat m
insert_flat z p [] a = unfold insert_behind in refl
insert_flat z p ((y, ps) ∷ m) a =
    insert_front z y p ps (flat m) a.0
      (insert_flat z p m (Above-mono (suc z) (suc y) m (omega arith) a.1))

-- It is put behind all proposals that are not larger.
insert_skip :
    (z y : ℕ) (p : Proposal) (ps : List Proposal) (xs : List Sized)
    → y ≤ z
    → insert_behind size_of (z, p) (map (λ q. (y, q)) ps ++ xs)
      ≡ map (λ q. (y, q)) ps ++ insert_behind size_of (z, p) xs
unfolding insert_behind
insert_skip z y p [] xs h = refl
insert_skip z y p (q ∷ ps) xs h = ground (arith, insert_skip z y p ps xs)

push_later :
    (z y : ℕ) (p : Proposal) (ps : List Proposal) (m : List (ℕ × List Proposal))
    → y < z
    → push_proposal z p ((y, ps) ∷ m) ≡ (y, ps) ∷ push_proposal z p m
unfolding push_proposal
push_later z y p ps m h = ground arith

push_here :
    (z y : ℕ) (p : Proposal) (ps : List Proposal) (m : List (ℕ × List Proposal))
    → y ≡ z
    → push_proposal z p ((y, ps) ∷ m) ≡ (z, ps ++ p ∷ []) ∷ m
unfolding push_proposal
push_here z y p ps m h = ground arith

push_before :
    (z y : ℕ) (p : Proposal) (ps : List Proposal) (m : List (ℕ × List Proposal))
    → z < y
    → Above (suc y) m
    → push_proposal z p ((y, ps) ∷ m) ≡ (z, p ∷ []) ∷ (y, ps) ∷ m
unfolding push_proposal
push_before z y p ps m h a = ground (arith, lookup-Above (suc y) z m)

pub push-Above :
    (b z : ℕ) (p : Proposal) (m : List (ℕ × List Proposal))
    → b ≤ z
    → Above b m
    → Above b (push_proposal z p m)
unfolding push_proposal
push-Above b z p m h a = elim (Option-cases (lookup z m)) [
  | inl e ↦ rw (e, push_proposal) (assign-Above b z (p ∷ []) m h a)
  | inr (ps, e) ↦ rw (e, push_proposal) (assign-Above b z (ps ++ p ∷ []) m h a)
]

tag_append :
    (z : ℕ) (p : Proposal) (ps : List Proposal) (xs : List Sized)
    → map (λ q. (z, q)) (ps ++ p ∷ []) ++ xs ≡ map (λ q. (z, q)) ps ++ (z, p) ∷ xs
tag_append z p [] xs = refl
tag_append z p (q ∷ ps) xs = ap (λ ys. (z, q) ∷ ys) (tag_append z p ps xs)

-- Pushing a proposal puts it behind all of its size and before any that is larger.
pub flat_push :
    (b z : ℕ) (p : Proposal) (m : List (ℕ × List Proposal))
    → Above b m
    → flat (push_proposal z p m) ≡ insert_behind size_of (z, p) (flat m)
flat_push b z p [] a = unfold push_proposal insert_behind in refl
flat_push b z p ((y, ps) ∷ m) a = elim (lt_cases y z) [
  | inl less ↦
      rw (push_later z y p ps m less, insert_skip z y p ps (flat m) (omega arith))
        (ap (λ xs. map (λ q. (y, q)) ps ++ xs) (flat_push (suc y) z p m a.1))
  | inr (inl same) ↦
      rw
        (
          push_here z y p ps m same,
          insert_skip z y p ps (flat m) (omega arith),
          tag_append z p ps (flat m),
          same,
        )
        (ap (λ xs. map (λ q. (z, q)) ps ++ xs) (sym (insert_flat z p m (rw (sym same) a.1))))
  | inr (inr more) ↦ rw (push_before z y p ps m more a.1) (
      sym (
        insert_front z y p ps (flat m) more
          (insert_flat z p m (Above-mono (suc z) (suc y) m (omega arith) a.1))))
]

pub one : (c : ℕ) → (c == 0) ≡ true → c + 1 ≡ 1
one c e = ground arith
