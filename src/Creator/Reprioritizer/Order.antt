-- ===== src/Creator/Reprioritizer/Order.antt =====
-- The order that Reprioritizer.cpp puts proposals in: a stable sort by how many nodes were in the
-- bin before.
use clboss.Base.{
  ℕ, ◌+◌, ◌≡◌, refl, sym, ap, ◌∙◌, List, [], ◌∷◌, Option, none, some, map, arith, ◌==◌,
  if◌then◌else◌, Bool-cases, inl, inr, count, count_if-map, SameItems,
}
use clboss.Base.Maps.{lookup, assign, Above, assign-Above, lookup-assign}
use clboss.Base.Sorting.{
  IsStableSort, insert_behind, insert_all, insert_all-ascending, insert_all-stable,
  insert_all-count,
}
use clboss.Creator.Planner.{NodeId, Proposal}
use clboss.Creator.Reprioritizer.{
  IpBin, Run, update_bin, count_peers, reprioritize_step, reprioritize_loop, reprioritize,
}
use clboss.Creator.Reprioritizer.Flat.{Sized, size_of, flat, flat_final, push-Above, flat_push, one}

module _ (get_bin_of : NodeId → IpBin) where
  -- Each proposal with the number of peers and of earlier proposals in its bin.
  abbrev pub sized : List IpBin → List Proposal → List Sized
  sized occupied [] = []
  sized occupied (p ∷ ps) =
      (count (get_bin_of p.0) occupied, p) ∷ sized (get_bin_of p.0 ∷ occupied) ps

  -- What the count of a bin looks like in the map.
  abbrev pub shown : ℕ → Option ℕ
  shown n = if n == 0 then none else some n

  -- The map counts how often each bin is filled.
  abbrev pub Counts : List (IpBin × ℕ) → List IpBin → Type 0
  Counts m occupied = Above 0 m × ((bin : IpBin) → lookup bin m ≡ shown (count bin occupied))

  assign-Counts :
      (bin k : ℕ) (m : List (IpBin × ℕ)) (occupied : List IpBin)
      → k ≡ count bin occupied + 1
      → Counts m occupied
      → Counts (assign bin k m) (bin ∷ occupied)
  assign-Counts bin k m occupied e h = (
    assign-Above 0 bin k m (omega arith) h.0,
    λ i. ground (arith, lookup-assign 0 i bin k m h.0, h.1 i, e),
  )

  update_bin-Counts :
      (n : NodeId) (m : List (IpBin × ℕ)) (occupied : List IpBin)
      → Counts m occupied
      → Counts (update_bin get_bin_of n m) (get_bin_of n ∷ occupied)
  unfolding update_bin
  update_bin-Counts n m occupied h =
      let c = count (get_bin_of n) occupied in
      elim (Bool-cases (c == 0)) [
        | inl e ↦
            rw (h.1 (get_bin_of n), e, update_bin)
              (assign-Counts (get_bin_of n) 1 m occupied (sym (one c e)) h)
        | inr e ↦
            rw (h.1 (get_bin_of n), e, update_bin)
              (assign-Counts (get_bin_of n) (c + 1) m occupied refl h)
      ]

  count_peers-Counts :
      (peers : List NodeId) (m : List (IpBin × ℕ)) (occupied : List IpBin)
      → Counts m occupied
      → (now : List IpBin) × Counts (count_peers get_bin_of peers m) now
        × ((bin : IpBin) → count bin now ≡ count bin (map get_bin_of peers) + count bin occupied)
  unfolding count_peers
  count_peers-Counts [] m occupied h = (occupied, h, λ bin. omega arith)
  count_peers-Counts (n ∷ ns) m occupied h =
      let (now, counts, same) =
        count_peers-Counts ns (update_bin get_bin_of n m) (get_bin_of n ∷ occupied)
          (update_bin-Counts n m occupied h) in
      (now, counts, λ bin. ground (arith, same bin))

  sized-count :
      (ps : List Proposal) (xs ys : List IpBin)
      → ((bin : IpBin) → count bin xs ≡ count bin ys)
      → sized xs ps ≡ sized ys ps
  sized-count [] xs ys h = refl
  sized-count (p ∷ ps) xs ys h =
      rw
        (
          h (get_bin_of p.0),
          sized-count ps (get_bin_of p.0 ∷ xs) (get_bin_of p.0 ∷ ys) (λ bin. omega (arith, h bin)),
        )
        refl

  untag_sized : (ps : List Proposal) (xs : List IpBin) → map (λ (e : Sized). e.1) (sized xs ps) ≡ ps
  untag_sized [] xs = refl
  untag_sized (p ∷ ps) xs = ap (λ qs. p ∷ qs) (untag_sized ps (get_bin_of p.0 ∷ xs))

  -- What one step does to the two maps.
  step-Counts :
      (p : Proposal) (r : Run) (occupied : List IpBin)
      → Counts r.nodes_per_bin occupied
      → Above 0 r.nodes_per_binsize
      → let next = reprioritize_step get_bin_of p r in
        Counts next.nodes_per_bin (get_bin_of p.0 ∷ occupied)
        × Above 0 next.nodes_per_binsize
        × (flat next.nodes_per_binsize
            ≡ insert_behind size_of (count (get_bin_of p.0) occupied, p) (flat r.nodes_per_binsize))
  unfolding reprioritize_step
  step-Counts p r occupied h a =
      let bin = get_bin_of p.0 in
      let c = count bin occupied in
      elim (Bool-cases (c == 0)) [
        | inl e ↦
            let z : c ≡ 0 = ground arith in
            rw (h.1 bin, e, z, reprioritize_step)
              (
                assign-Counts bin 1 r.nodes_per_bin occupied (sym (one c e)) h,
                push-Above 0 0 p r.nodes_per_binsize (omega arith) a,
                flat_push 0 0 p r.nodes_per_binsize a,
              )
        | inr e ↦
            rw (h.1 bin, e, reprioritize_step)
              (
                assign-Counts bin (c + 1) r.nodes_per_bin occupied refl h,
                push-Above 0 c p r.nodes_per_binsize (omega arith) a,
                flat_push 0 c p r.nodes_per_binsize a,
              )
      ]

  loop-flat :
      (ps : List Proposal) (r : Run) (occupied : List IpBin)
      → Counts r.nodes_per_bin occupied
      → Above 0 r.nodes_per_binsize
      → flat (reprioritize_loop get_bin_of ps r).nodes_per_binsize
        ≡ insert_all size_of (sized occupied ps) (flat r.nodes_per_binsize)
  unfolding reprioritize_loop
  loop-flat [] r occupied h a = refl
  loop-flat (p ∷ ps) r occupied h a =
      let (counts, above, same) = step-Counts p r occupied h a in
      loop-flat ps (reprioritize_step get_bin_of p r) (get_bin_of p.0 ∷ occupied) counts above
      ∙ ap (insert_all size_of (sized (get_bin_of p.0 ∷ occupied) ps)) same

  -- The loop is an insertion sort of the proposals by how many nodes their bins held.
  reprioritize-sort :
      (peers : List NodeId) (ps : List Proposal)
      → reprioritize get_bin_of peers ps
        ≡ map (λ e. e.1) (insert_all size_of (sized (map get_bin_of peers) ps) [])
  unfolding reprioritize
  reprioritize-sort peers ps =
      let (now, counts, same) = count_peers-Counts peers [] [] (tt, λ bin. refl) in
      let start : Run = record {
        nodes_per_bin = count_peers get_bin_of peers [];
        nodes_per_binsize = [];
      } in
      rw
        (
          ← flat_final (reprioritize_loop get_bin_of ps start).nodes_per_binsize,
          ← sized-count ps now (map get_bin_of peers) (λ bin. omega (arith, same bin)),
        )
        (ap (map (λ (e : Sized). e.1)) (loop-flat ps start now counts tt))

  -- The proposals are put in the order of how many current peers and earlier proposals share their
  -- bin, fewest first, and those with equally many keep their order.
  pub reprioritize-IsStableSort :
      (peers : List NodeId) (ps : List Proposal)
      → (sorted : List Sized) × (map (λ e. e.1) sorted ≡ reprioritize get_bin_of peers ps)
        × IsStableSort size_of (sized (map get_bin_of peers) ps) sorted
  reprioritize-IsStableSort peers ps =
      let es = sized (map get_bin_of peers) ps in
      (
        insert_all size_of es [],
        sym (reprioritize-sort peers ps),
        record {
          ascending = insert_all-ascending size_of es [] tt;
          stable = λ z. insert_all-stable size_of z es [] tt;
        },
      )

  pub reprioritize-SameItems :
      (peers : List NodeId) (ps : List Proposal) → SameItems ps (reprioritize get_bin_of peers ps)
  reprioritize-SameItems peers ps p =
      let es = sized (map get_bin_of peers) ps in
      ground (
        arith,
        reprioritize-sort peers ps,
        count_if-map p (λ (e : Sized). e.1) es,
        count_if-map p (λ (e : Sized). e.1) (insert_all size_of es []),
        insert_all-count size_of (λ e. p e.1) es [],
        untag_sized ps (map get_bin_of peers),
      )
