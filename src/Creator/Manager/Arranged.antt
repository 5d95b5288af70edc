-- ===== src/Creator/Manager/Arranged.antt =====
-- The proposals of a cycle of channel creation: which the planner gets, and why it may get none.
use clboss.Base.{
  ◌≤◌, ◌≡◌, refl, sym, ◌∙◌, ◌⊎◌, inl, inr, Bool, true, false, not, List, [], ◌∷◌, Option, none,
  some, map, all_of, ◌++◌, arith, ◌==◌, keep_if, count, Distinct, SameItems, SameItems-map,
  Bool-cases, Option-cases,
}
use clboss.Base.Maps.{contains}
use clboss.Creator.Planner.{NodeId, Proposal}
use clboss.Creator.Rearranger.{rearrange_by_size}
use clboss.Creator.Rearranger.Groups.{rearrange_by_size-SameItems}
use clboss.Creator.Reprioritizer.{reprioritize}
use clboss.Creator.Reprioritizer.Order.{reprioritize-SameItems}
use clboss.Creator.Manager.{
  Answers, Moments, dowsed, is_some, drop_channeled, value_or_zero, dowser_func,
  prioritize_by_track_record, arrange_by_size, arrange_by_bin, arrange_by_record, arranged,
}
use clboss.Creator.Manager.TrackRecord.{prioritize_by_track_record-SameItems}

arrange_by_size-SameItems :
    (t : Moments) (w : Answers) (ps qs : List Proposal)
    → arrange_by_size t w ps ≡ some qs
    → SameItems ps qs
unfolding arrange_by_size
arrange_by_size-SameItems t w ps qs e =
    let same : rearrange_by_size (dowser_func t w) ps ≡ qs = ground arith in
    rw (← same) (rearrange_by_size-SameItems (dowser_func t w) ps)

arrange_by_bin-SameItems :
    (w : Answers) (ps qs : List Proposal) → arrange_by_bin w ps ≡ some qs → SameItems ps qs
unfolding arrange_by_bin
arrange_by_bin-SameItems w ps qs e = elim (Option-cases w.current_peers) [
  | inl e0 ↦ absurd (ground arith)
  | inr (peers, e1) ↦
      let bin = λ (n : NodeId). value_or_zero (w.bin_of n) in
      let same : reprioritize bin peers ps ≡ qs = ground arith in
      rw (← same) (reprioritize-SameItems bin peers ps)
]

arrange_by_record-SameItems :
    (t : Moments) (w : Answers) (ps qs : List Proposal)
    → arrange_by_record t w ps ≡ some qs
    → SameItems ps qs
unfolding arrange_by_record
arrange_by_record-SameItems t w [] qs e =
    let same : [] ≡ qs = ground arith in rw (← same) (λ q. refl)
arrange_by_record-SameItems t w (p ∷ ps) qs e = elim (Option-cases w.records) [
  | inl e0 ↦ absurd (ground arith)
  | inr (records, e1) ↦
      let spliceable = t.at_records.prefer_spliceable in
      let same : prioritize_by_track_record spliceable records w.announces_splice (p ∷ ps) ≡ qs =
        ground arith in
      rw (← same)
        (prioritize_by_track_record-SameItems spliceable records w.announces_splice (p ∷ ps))
]

-- The three rearrangements lose no proposal and make none.
arranged-SameItems :
    (t : Moments) (w : Answers) (ps : List Proposal)
    → arranged t w ≡ some ps
    → (cs : List Proposal) × (w.candidates ≡ some cs) × SameItems (drop_channeled w.channeled cs) ps
unfolding arranged
arranged-SameItems t w ps e = elim (Option-cases w.candidates) [
  | inl e0 ↦ absurd (ground arith)
  | inr (cs, e1) ↦ elim (Option-cases (arrange_by_size t w (drop_channeled w.channeled cs))) [
    | inl e0 ↦ absurd (ground arith)
    | inr (by_size, e2) ↦ elim (Option-cases (arrange_by_bin w by_size)) [
      | inl e0 ↦ absurd (ground arith)
      | inr (by_bin, e3) ↦ (
        cs,
        e1,
        λ q.
            arrange_by_size-SameItems t w _ by_size e2 q
            ∙ arrange_by_bin-SameItems w by_size by_bin e3 q
            ∙ arrange_by_record-SameItems t w by_bin ps (ground arith) q,
      )
    ]
  ]
]

keep_if-count :
    (f : Proposal → Bool) (ps : List Proposal) (k : NodeId)
    → count k (map (λ p. p.0) (keep_if f ps)) ≤ count k (map (λ p. p.0) ps)
keep_if-count f [] k = omega arith
keep_if-count f (p ∷ ps) k = ground (arith, keep_if-count f ps k)

drop_channeled-count :
    (channeled : Option (List NodeId)) (ps : List Proposal) (k : NodeId)
    → count k (map (λ p. p.0) (drop_channeled channeled ps)) ≤ count k (map (λ p. p.0) ps)
unfolding drop_channeled
drop_channeled-count none ps k = omega arith
drop_channeled-count (some ns) ps k = keep_if-count (λ p. not (contains p.0 ns)) ps k

-- Whether the peers are known and the node is not among them.
abbrev pub may_propose : Option (List NodeId) → NodeId → Bool
may_propose none k = false
may_propose (some ns) k = not (contains k ns)

keep_if_channeled :
    (ns : List NodeId) (ps : List Proposal) (k : NodeId)
    → contains k ns ≡ true
    → count k (map (λ p. p.0) (keep_if (λ p. not (contains p.0 ns)) ps)) ≡ 0
keep_if_channeled ns [] k h = refl
keep_if_channeled ns (p ∷ ps) k h = elim (Bool-cases (p.0 == k)) [
  | inl e ↦ let same : p.0 ≡ k = ground arith in rw (same, h) (keep_if_channeled ns ps k h)
  | inr e ↦ ground (arith, keep_if_channeled ns ps k h)
]

pub drop_channeled_none :
    (channeled : Option (List NodeId)) (ps : List Proposal) (k : NodeId)
    → may_propose channeled k ≡ false
    → count k (map (λ p. p.0) (drop_channeled channeled ps)) ≡ 0
unfolding drop_channeled
drop_channeled_none none ps k h = refl
drop_channeled_none (some ns) ps k h = keep_if_channeled ns ps k (ground arith)

pub arranged-count :
    (t : Moments) (w : Answers) (ps : List Proposal)
    → arranged t w ≡ some ps
    → (cs : List Proposal) × (w.candidates ≡ some cs)
      × ((k : NodeId)
          → count k (map (λ p. p.0) ps) ≡ count k (map (λ p. p.0) (drop_channeled w.channeled cs)))
arranged-count t w ps e =
    let (cs, e1, same) = arranged-SameItems t w ps e in
    (cs, e1, λ k. sym (SameItems-map (λ (p : Proposal). p.0) _ _ same (λ x. x == k)))

-- The candidates, if there are any, name no node twice.
abbrev pub AreDistinct : Option (List Proposal) → Type 0
AreDistinct candidates = (cs : List Proposal) → candidates ≡ some cs → Distinct (map (λ p. p.0) cs)

pub arranged-Distinct :
    (t : Moments) (w : Answers) (ps : List Proposal)
    → arranged t w ≡ some ps
    → AreDistinct w.candidates
    → Distinct (map (λ p. p.0) ps)
arranged-Distinct t w ps e h k =
    let (cs, e1, same) = arranged-count t w ps e in
    omega (arith, h cs e1 k, same k, drop_channeled-count w.channeled cs k)

-- Some question of the cycle was answered by an exception.
abbrev pub HasFailed : Moments → Answers → Type 0
HasFailed t w =
    (w.num_channels ≡ none)
    ⊎ (w.candidates ≡ none)
    ⊎ ((n : NodeId) × (patron : NodeId) × (dowsed t w n patron ≡ none))
    ⊎ (w.current_peers ≡ none)
    ⊎ ((n : NodeId) × (w.bin_of n ≡ none))
    ⊎ (w.records ≡ none)

not_all {ℓ} :
    {A : Type ℓ} (f : A → Bool) (xs : List A) → all_of f xs ≡ false → (x : A) × (f x ≡ false)
not_all f [] h = absurd (ground arith)
not_all f (x ∷ xs) h = elim (Bool-cases (f x)) [
  | inl e ↦ not_all f xs (ground arith)
  | inr e ↦ (x, e)
]

is_some-none {ℓ} : {A : Type ℓ} (o : Option A) → is_some o ≡ false → o ≡ none
is_some-none none h = refl
is_some-none (some a) h = absurd (ground arith)

arrange_by_size-failed :
    (t : Moments) (w : Answers) (ps : List Proposal) → arrange_by_size t w ps ≡ none → HasFailed t w
unfolding arrange_by_size
arrange_by_size-failed t w ps e =
    let (p, q) = not_all (λ p. is_some (dowsed t w p.0 p.1)) ps (ground arith) in
    inr (inr (inl (p.0, p.1, is_some-none _ q)))

arrange_by_bin-failed :
    (t : Moments) (w : Answers) (ps : List Proposal) → arrange_by_bin w ps ≡ none → HasFailed t w
unfolding arrange_by_bin
arrange_by_bin-failed t w ps e = elim (Option-cases w.current_peers) [
  | inl e0 ↦ inr (inr (inr (inl e0)))
  | inr (peers, e1) ↦
      let nodes = peers ++ map (λ p. p.0) ps in
      let (n, q) = not_all (λ n. is_some (w.bin_of n)) nodes (ground arith) in
      inr (inr (inr (inr (inl (n, is_some-none _ q)))))
]

arrange_by_record-failed :
    (t : Moments) (w : Answers) (ps : List Proposal)
    → arrange_by_record t w ps ≡ none
    → HasFailed t w
unfolding arrange_by_record
arrange_by_record-failed t w [] e = absurd (ground arith)
arrange_by_record-failed t w (p ∷ ps) e = elim (Option-cases w.records) [
  | inl e0 ↦ inr (inr (inr (inr (inr e0))))
  | inr (records, e1) ↦ absurd (ground arith)
]

pub arranged-failed : (t : Moments) (w : Answers) → arranged t w ≡ none → HasFailed t w
unfolding arranged
arranged-failed t w e = elim (Option-cases w.candidates) [
  | inl e0 ↦ inr (inl e0)
  | inr (cs, e1) ↦ elim (Option-cases (arrange_by_size t w (drop_channeled w.channeled cs))) [
    | inl e0 ↦ arrange_by_size-failed t w _ e0
    | inr (by_size, e2) ↦ elim (Option-cases (arrange_by_bin w by_size)) [
      | inl e0 ↦ arrange_by_bin-failed t w by_size e0
      | inr (by_bin, e3) ↦ arrange_by_record-failed t w by_bin (ground arith)
    ]
  ]
]
