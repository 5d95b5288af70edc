-- ===== src/Creator/Rearranger/Groups.antt =====
-- What RearrangerBySize does to each group of three proposals.
use clboss.Base.{
  ℕ, zero, suc, ◌≤◌, ◌≡◌, refl, sym, ap, Bool, not, List, [], ◌∷◌, ◌++◌, map, arith, ◌==◌, length,
  take, drop, take-length, drop-length, count_if, count_if-append, count_if-map, SameItems,
}
use clboss.Ln.Amount.{Amount}
use clboss.Creator.Planner.{Proposal, Dowser}
use clboss.Creator.Rearranger.{
  ProposalCapacity, insert_larger, sort_larger, sort_groups, rearrange_by_size,
}

-- The k-th group of three.
abbrev pub group {ℓ} : {A : Type ℓ} → ℕ → List A → List A
group zero xs = take 3 xs
group (suc k) xs = group k (drop 3 xs)

-- No amount is larger than the bound, nor than the one before it.
abbrev pub DescendingFrom : Amount → List Amount → Type 0
DescendingFrom b [] = Unit {0}
DescendingFrom b (a ∷ rest) = (a ≤ b) × DescendingFrom a rest

abbrev pub Descending : List Amount → Type 0
Descending [] = Unit {0}
Descending (a ∷ rest) = DescendingFrom a rest

abbrev capacities : List ProposalCapacity → List Amount
capacities = map (λ pc. pc.1)

insert_larger-count :
    (p : ProposalCapacity → Bool) (a : ProposalCapacity) (xs : List ProposalCapacity)
    → count_if p (insert_larger a xs) ≡ count_if p (a ∷ xs)
unfolding insert_larger
insert_larger-count p a [] = refl
insert_larger-count p a (x ∷ xs) = ground (arith, insert_larger-count p a xs)

insert_larger-DescendingFrom :
    (b : Amount) (a : ProposalCapacity) (xs : List ProposalCapacity)
    → a.1 ≤ b
    → DescendingFrom b (capacities xs)
    → DescendingFrom b (capacities (insert_larger a xs))
unfolding insert_larger
insert_larger-DescendingFrom b a [] h s = (h, tt)
insert_larger-DescendingFrom b a (x ∷ xs) h s =
    ground (arith, insert_larger-DescendingFrom x.1 a xs)

insert_larger-Descending :
    (a : ProposalCapacity) (xs : List ProposalCapacity)
    → Descending (capacities xs)
    → Descending (capacities (insert_larger a xs))
unfolding insert_larger
insert_larger-Descending a [] s = tt
insert_larger-Descending a (x ∷ xs) s = ground (arith, insert_larger-DescendingFrom x.1 a xs)

length-insert_larger :
    (a : ProposalCapacity) (xs : List ProposalCapacity)
    → length (insert_larger a xs) ≡ suc (length xs)
unfolding insert_larger
length-insert_larger a [] = refl
length-insert_larger a (x ∷ xs) = ground (arith, length-insert_larger a xs)

-- A sorted group: the same proposals, larger capacities first.
record IsSorted (xs ys : List ProposalCapacity) : Type 0 where
  same : SameItems xs ys
  descends : Descending (capacities ys)
  size : length ys ≡ length xs

sort_larger-IsSorted : (xs : List ProposalCapacity) → IsSorted xs (sort_larger xs)
unfolding sort_larger
sort_larger-IsSorted [] = record { same = λ p. refl; descends = tt; size = refl }
sort_larger-IsSorted (x ∷ xs) =
    let s = sort_larger-IsSorted xs in
    record {
      same = λ p. omega (arith, s.same p, insert_larger-count p x (sort_larger xs));
      descends = insert_larger-Descending x (sort_larger xs) s.descends;
      size = omega (arith, s.size, length-insert_larger x (sort_larger xs));
    }

-- The first group of a list of three or more, and what is left.
first_group :
    (ys zs : List ProposalCapacity)
    → length ys ≡ 3
    → (take 3 (ys ++ zs) ≡ ys) × (drop 3 (ys ++ zs) ≡ zs)
first_group ys zs h = rw (← h) (take-length ys zs, drop-length ys zs)

take_all {ℓ} : {A : Type ℓ} (xs : List A) → length xs ≤ 3 → (take 3 xs ≡ xs) × (drop 3 xs ≡ [])
take_all [] h = (refl, refl)
take_all (a ∷ []) h = (refl, refl)
take_all (a ∷ b ∷ []) h = (refl, refl)
take_all (a ∷ b ∷ c ∷ []) h = (refl, refl)
take_all (a ∷ b ∷ c ∷ d ∷ xs) h = absurd (omega arith)

group-nil {ℓ} : {A : Type ℓ} (k : ℕ) → group {A = A} k [] ≡ []
group-nil zero = refl
group-nil (suc k) = group-nil k

few_groups :
    (xs : List ProposalCapacity) (k : ℕ)
    → length xs ≤ 3
    → IsSorted (group k xs) (group k (sort_larger xs))
few_groups xs zero h =
    let s = sort_larger-IsSorted xs in
    rw ((take_all xs h).0, (take_all (sort_larger xs) (omega (arith, s.size))).0) s
few_groups xs (suc k) h =
    let s = sort_larger-IsSorted xs in
    rw ((take_all xs h).1, (take_all (sort_larger xs) (omega (arith, s.size))).1, group-nil k)
      (unfold sort_larger in sort_larger-IsSorted [])

sort_groups-IsSorted :
    (xs : List ProposalCapacity) (k : ℕ) → IsSorted (group k xs) (group k (sort_groups xs))
unfolding sort_groups
sort_groups-IsSorted (a ∷ b ∷ c ∷ rest) zero =
    let s = sort_larger-IsSorted (a ∷ b ∷ c ∷ []) in
    rw ((first_group (sort_larger (a ∷ b ∷ c ∷ [])) (sort_groups rest) s.size).0) s
sort_groups-IsSorted (a ∷ b ∷ c ∷ rest) (suc k) =
    let s = sort_larger-IsSorted (a ∷ b ∷ c ∷ []) in
    rw ((first_group (sort_larger (a ∷ b ∷ c ∷ [])) (sort_groups rest) s.size).1)
      (sort_groups-IsSorted rest k)
sort_groups-IsSorted [] k = few_groups [] k (omega arith)
sort_groups-IsSorted (a ∷ []) k = few_groups (a ∷ []) k (omega arith)
sort_groups-IsSorted (a ∷ b ∷ []) k = few_groups (a ∷ b ∷ []) k (omega arith)

group-map {ℓ κ} :
    {A : Type ℓ} {B : Type κ} (f : A → B) (k : ℕ) (xs : List A)
    → group k (map f xs) ≡ map f (group k xs)
group-map f zero [] = refl
group-map f zero (a ∷ []) = refl
group-map f zero (a ∷ b ∷ []) = refl
group-map f zero (a ∷ b ∷ c ∷ xs) = refl
group-map f (suc k) [] = group-map f k []
group-map f (suc k) (a ∷ []) = group-map f k []
group-map f (suc k) (a ∷ b ∷ []) = group-map f k []
group-map f (suc k) (a ∷ b ∷ c ∷ xs) = group-map f k xs

sort_groups-count :
    (p : ProposalCapacity → Bool) (xs : List ProposalCapacity)
    → count_if p (sort_groups xs) ≡ count_if p xs
unfolding sort_groups
sort_groups-count p (a ∷ b ∷ c ∷ rest) =
    let s = sort_larger-IsSorted (a ∷ b ∷ c ∷ []) in
    omega (
      arith,
      count_if-append p (sort_larger (a ∷ b ∷ c ∷ [])) (sort_groups rest),
      s.same p,
      sort_groups-count p rest,
    )
sort_groups-count p [] = sym ((sort_larger-IsSorted []).same p)
sort_groups-count p (a ∷ []) = sym ((sort_larger-IsSorted (a ∷ [])).same p)
sort_groups-count p (a ∷ b ∷ []) = sym ((sort_larger-IsSorted (a ∷ b ∷ [])).same p)

module _ (dowser : Dowser) where
  abbrev dowse : Proposal → ProposalCapacity
  dowse p = (p, dowser p.0 p.1)

  -- The entries whose capacity is not the dowsed one; there are none.
  abbrev strays : List ProposalCapacity → ℕ
  strays = count_if (λ pc. not (pc.1 == dowser pc.0.0 pc.0.1))

  strays-dowse : (ps : List Proposal) → strays (map dowse ps) ≡ 0
  strays-dowse [] = refl
  strays-dowse (p ∷ ps) = ground (arith, strays-dowse ps)

  capacities-dowsed :
      (xs : List ProposalCapacity)
      → strays xs ≡ 0
      → map (λ p. dowser p.0 p.1) (map (λ pc. pc.0) xs) ≡ capacities xs
  capacities-dowsed [] h = refl
  capacities-dowsed (x ∷ xs) h = ground (arith, capacities-dowsed xs)

  first-dowse : (ps : List Proposal) → map (λ pc. pc.0) (map dowse ps) ≡ ps
  first-dowse [] = refl
  first-dowse (p ∷ ps) = ap (λ qs. p ∷ qs) (first-dowse ps)

-- No proposal is lost or made up.
pub rearrange_by_size-SameItems :
    (dowser : Dowser) (ps : List Proposal) → SameItems ps (rearrange_by_size dowser ps)
unfolding rearrange_by_size
rearrange_by_size-SameItems dowser ps p =
    let dowsed = map (dowse dowser) ps in
    omega (
      arith,
      count_if-map p (λ pc. pc.0) (sort_groups dowsed),
      sort_groups-count (λ pc. p pc.0) dowsed,
      count_if-map (λ pc. p pc.0) (dowse dowser) ps,
    )

-- Each group of three proposals holds the same proposals as before, in the order of descending
-- capacity.
pub rearrange_by_size-groups :
    (dowser : Dowser) (ps : List Proposal) (k : ℕ)
    → SameItems (group k ps) (group k (rearrange_by_size dowser ps))
      × Descending (map (λ p. dowser p.0 p.1) (group k (rearrange_by_size dowser ps)))
unfolding rearrange_by_size
rearrange_by_size-groups dowser ps k =
    let s = sort_groups-IsSorted (map (dowse dowser) ps) k in
    let tagged = group-map (dowse dowser) k ps in
    let none : strays dowser (group k (sort_groups (map (dowse dowser) ps))) ≡ 0 = omega (
      arith,
      s.same (λ pc. not (pc.1 == dowser pc.0.0 pc.0.1)),
      ap (strays dowser) tagged,
      strays-dowse dowser (group k ps),
    ) in
    rw (group-map (λ (pc : ProposalCapacity). pc.0) k) (
      λ p. omega (
        arith,
        count_if-map p (λ (pc : ProposalCapacity). pc.0)
            (group k (sort_groups (map (dowse dowser) ps))),
        s.same (λ pc. p pc.0),
        ap (count_if (λ pc. p pc.0)) tagged,
        count_if-map (λ pc. p pc.0) (dowse dowser) (group k ps),
      ),
      rw (capacities-dowsed dowser _ none) s.descends,
    )
