-- ===== src/Creator/Manager/TrackRecord.antt =====
-- The tiers of `Manager::prioritize_by_track_record`.
use mathlib.Core.List.{append_assoc, append-nil}
use mathlib.Core.Path.{ap₂}
use clboss.Base.{
  ℕ, ◌<◌, ◌≡◌, refl, ap, sym, ◌∙◌, Bool, true, false, ◌&&◌, ◌||◌, not, List, [], ◌∷◌, ◌++◌, map,
  arith, ◌==◌, if◌then◌else◌, keep_if, All, SameItems, ==_refl, Bool-cases, inl, inr,
}
use clboss.Base.Maps.{contains}
use clboss.Base.Sorting.{IsStableSort}
use clboss.Base.Classes.{
  push_kept, keep_if-cong, keep_if-keep_if, classes, classes-IsStableSort, classes-SameItems,
}
use clboss.Creator.Planner.{NodeId, Proposal}
use clboss.Creator.Manager.{
  Verdict, keeper, no_record, underperformer, verdict_of, Tiers, push_tier, split_tiers,
  get_spliceable_nodes, stable_partition, prioritize_by_track_record,
}

contains-append : (k : ℕ) (xs ys : List ℕ) → contains k (xs ++ ys) ≡ contains k xs || contains k ys
contains-append k [] ys = refl
contains-append k (x ∷ xs) ys = ground (arith, contains-append k xs ys)

contains-keep_if :
    (a : ℕ → Bool) (k : ℕ) (xs : List ℕ) → contains k (keep_if a xs) ≡ a k && contains k xs
contains-keep_if a k [] = ground arith
contains-keep_if a k (x ∷ xs) = elim (Bool-cases (x == k)) [
  | inl e ↦ let same : x ≡ k = ground arith in ground (arith, same, contains-keep_if a k xs)
  | inr e ↦ ground (arith, contains-keep_if a k xs)
]

All-mono :
    (P Q : Proposal → Type 0) (ps : List Proposal)
    → ((p : Proposal) → P p → Q p)
    → All P ps
    → All Q ps
All-mono P Q [] h a = tt
All-mono P Q (p ∷ ps) h a = (h p a.0, All-mono P Q ps h a.1)

-- Each node of a list of proposals is among its nodes.
members :
    (ns : List NodeId) (ps : List Proposal)
    → All (λ p. contains p.0 (ns ++ map (λ q. q.0) ps) ≡ true) ps
members ns [] = tt
members ns (p ∷ ps) = (
  rw (contains-append p.0 ns (p.0 ∷ map (λ q. q.0) ps), ==_refl p.0) (ground arith),
  All-mono _ _ ps
      (λ q h. ap (contains q.0) (sym (append_assoc ns (p.0 ∷ []) (map (λ r. r.0) ps))) ∙ h)
      (members (ns ++ p.0 ∷ []) ps),
)

keep_if_members :
    (f g : Proposal → Bool) (ps : List Proposal)
    → All (λ p. f p ≡ g p) ps
    → keep_if f ps ≡ keep_if g ps
keep_if_members f g [] h = refl
keep_if_members f g (p ∷ ps) h = rw (h.0, keep_if_members f g ps h.1) refl

-- Which of the two halves of the partition a node goes to, among those that were asked for.
spliceable_members :
    (a : NodeId → Bool) (ps : List Proposal)
    → All (λ p. contains p.0 (get_spliceable_nodes a (map (λ q. q.0) ps)) ≡ a p.0) ps
unfolding get_spliceable_nodes
spliceable_members a ps =
    All-mono _ _ ps (λ p h. ground (arith, contains-keep_if a p.0 (map (λ q. q.0) ps), h))
      (members [] ps)

abbrev is_keeper : Verdict → Bool
is_keeper v = elim v [ keeper ↦ true | no_record ↦ false | underperformer ↦ false ]

abbrev is_no_record : Verdict → Bool
is_no_record v = elim v [ keeper ↦ false | no_record ↦ true | underperformer ↦ false ]

abbrev is_underperformer : Verdict → Bool
is_underperformer v = elim v [ keeper ↦ false | no_record ↦ false | underperformer ↦ true ]

push_tier-fields :
    (v : Verdict) (p : Proposal) (t : Tiers)
    → ((push_tier v p t).keepers ≡ t.keepers ++ (if is_keeper v then p ∷ [] else []))
      × ((push_tier v p t).no_records ≡ t.no_records ++ (if is_no_record v then p ∷ [] else []))
      × ((push_tier v p t).underperformers
          ≡ t.underperformers ++ (if is_underperformer v then p ∷ [] else []))
unfolding push_tier
push_tier-fields keeper p t =
    (refl, sym (append-nil t.no_records), sym (append-nil t.underperformers))
push_tier-fields no_record p t =
    (sym (append-nil t.keepers), refl, sym (append-nil t.underperformers))
push_tier-fields underperformer p t =
    (sym (append-nil t.keepers), sym (append-nil t.no_records), refl)

module _ (records : List (NodeId × Verdict)) where
  split_tiers-keep_if :
      (ps : List Proposal) (t : Tiers)
      → ((split_tiers records ps t).keepers
          ≡ t.keepers ++ keep_if (λ p. is_keeper (verdict_of records p.0)) ps)
        × ((split_tiers records ps t).no_records
            ≡ t.no_records ++ keep_if (λ p. is_no_record (verdict_of records p.0)) ps)
        × ((split_tiers records ps t).underperformers
            ≡ t.underperformers ++ keep_if (λ p. is_underperformer (verdict_of records p.0)) ps)
  unfolding split_tiers push_tier
  split_tiers-keep_if [] t = (
    sym (append-nil t.keepers),
    sym (append-nil t.no_records),
    sym (append-nil t.underperformers),
  )
  split_tiers-keep_if (p ∷ ps) t =
      let v = verdict_of records p.0 in
      let (ks, ns, us) = split_tiers-keep_if ps (push_tier v p t) in
      let (a, b, c) = push_tier-fields v p t in
      (
        ks ∙ push_kept (is_keeper v) p _ t.keepers _ a,
        ns ∙ push_kept (is_no_record v) p _ t.no_records _ b,
        us ∙ push_kept (is_underperformer v) p _ t.underperformers _ c,
      )

module _ (prefer_spliceable : Bool) (records : List (NodeId × Verdict))
    (announces_splice : NodeId → Bool) where
  -- The tier of a proposal, the first to be funded lowest.
  abbrev pub tier_of : Proposal → ℕ
  tier_of p = elim (verdict_of records p.0) [
    | keeper ↦ 0
    | no_record ↦ if prefer_spliceable && announces_splice p.0 then 1 else 2
    | underperformer ↦ 3
  ]

  tier_of-lt : (p : Proposal) → tier_of p < 4
  tier_of-lt p = ground arith

  abbrev class : ℕ → List Proposal → List Proposal
  class k ps = keep_if (λ p. tier_of p == k) ps

  keepers_tier :
      (ps : List Proposal)
      → keep_if (λ p. is_keeper (verdict_of records p.0)) ps ≡ keep_if (λ p. tier_of p == 0) ps
  keepers_tier ps = keep_if-cong _ _ ps (λ p. ground arith)

  underperformers_tier :
      (ps : List Proposal)
      → keep_if (λ p. is_underperformer (verdict_of records p.0)) ps
        ≡ keep_if (λ p. tier_of p == 3) ps
  underperformers_tier ps = keep_if-cong _ _ ps (λ p. ground arith)

  -- Whether a proposal without a record is put among the spliceable.
  abbrev asked : List Proposal → Proposal → Bool
  asked ps p =
      contains p.0 (
        get_spliceable_nodes announces_splice (if prefer_spliceable then map (λ q. q.0) ps else []))

  asked_members :
      (ps : List Proposal) → All (λ p. asked ps p ≡ prefer_spliceable && announces_splice p.0) ps
  unfolding get_spliceable_nodes
  asked_members ps = elim (Bool-cases prefer_spliceable) [
    | inl e ↦ rw e (spliceable_members announces_splice ps)
    | inr e ↦ rw e (All-mono _ _ ps (λ p h. refl) (members [] ps))
  ]

  abbrev preferred : Proposal → Bool
  preferred p = prefer_spliceable && announces_splice p.0

  no_records_tier :
      (ps : List Proposal)
      → let ns = keep_if (λ p. is_no_record (verdict_of records p.0)) ps in
        stable_partition (asked ns) ns
        ≡ keep_if (λ p. tier_of p == 1) ps ++ keep_if (λ p. tier_of p == 2) ps
  unfolding stable_partition
  no_records_tier ps =
      let ns = keep_if (λ p. is_no_record (verdict_of records p.0)) ps in
      let h = asked_members ns in
      ap₂ (λ xs ys. xs ++ ys)
        (keep_if_members (asked ns) (λ p. preferred p) ns h
          ∙ keep_if-keep_if (λ p. preferred p) (λ p. is_no_record (verdict_of records p.0)) ps
          ∙ keep_if-cong (λ p. if is_no_record (verdict_of records p.0) then preferred p else false)
              _ ps (λ p. ground arith))
        (keep_if_members (λ p. not (asked ns p)) (λ p. not (preferred p)) ns
            (All-mono _ _ ns (λ p e. ap not e) h)
          ∙ keep_if-keep_if (λ p. not (preferred p)) (λ p. is_no_record (verdict_of records p.0)) ps
          ∙ keep_if-cong
              (λ p. if is_no_record (verdict_of records p.0) then not (preferred p) else false) _ ps
              (λ p. ground arith))

  prioritize-classes :
      (ps : List Proposal)
      → prioritize_by_track_record prefer_spliceable records announces_splice ps
        ≡ classes tier_of 0 4 ps
  unfolding prioritize_by_track_record
  prioritize-classes [] = refl
  prioritize-classes (p ∷ ps) =
      let (ks, ns, us) =
        split_tiers-keep_if records (p ∷ ps)
          (record { keepers = []; no_records = []; underperformers = [] }) in
      rw (ks, ns, us, prioritize_by_track_record)
        (append_assoc (keep_if (λ p. is_keeper (verdict_of records p.0)) (p ∷ ps))
            (stable_partition
              (asked (keep_if (λ p. is_no_record (verdict_of records p.0)) (p ∷ ps)))
              (keep_if (λ p. is_no_record (verdict_of records p.0)) (p ∷ ps)))
            (keep_if (λ p. is_underperformer (verdict_of records p.0)) (p ∷ ps))
          ∙ ap₂ (λ xs ys. xs ++ ys) (keepers_tier (p ∷ ps))
              (ap₂ (λ xs ys. xs ++ ys) (no_records_tier (p ∷ ps))
                  (underperformers_tier (p ∷ ps) ∙ sym (append-nil (class 3 (p ∷ ps))))
                ∙ append_assoc (class 1 (p ∷ ps)) (class 2 (p ∷ ps)) (class 3 (p ∷ ps) ++ [])))

  -- Keepers come first, then nodes without a record, those that announce splicing before the
  -- others if that is preferred, and underperformers last; within a tier the order stays.
  pub prioritize_by_track_record-IsStableSort :
      (ps : List Proposal)
      → IsStableSort tier_of ps
          (prioritize_by_track_record prefer_spliceable records announces_splice ps)
  prioritize_by_track_record-IsStableSort ps =
      rw (prioritize-classes ps) (classes-IsStableSort tier_of 4 ps tier_of-lt)

  pub prioritize_by_track_record-SameItems :
      (ps : List Proposal)
      → SameItems ps (prioritize_by_track_record prefer_spliceable records announces_splice ps)
  prioritize_by_track_record-SameItems ps =
      rw (prioritize-classes ps) (classes-SameItems tier_of 4 ps tier_of-lt)
