-- ===== src/Creator/Eviction/Stratum.antt =====
-- The candidate that `EvictionPolicy::pick` chooses.
use mathlib.Core.List.{append-nil}
use clboss.Base.{
  ℕ, zero, suc, ◌≤◌, ◌<◌, ◌≡◌, refl, sym, ap, ◌∙◌, Bool, true, List, [], ◌∷◌, ◌++◌, some, arith,
  ◌==◌, if◌then◌else◌, length, get_elem?, get_elem?-lt, count, keep_if, Bool-cases, List-cases, inl,
  inr, ==_refl, le_cases,
}
use clboss.Base.Classes.{push_kept}
use clboss.Base.Maps.{contains}
use clboss.Creator.Planner.{NodeId}
use clboss.Creator.Planner.Deduct.{IsChoice}
use clboss.Creator.Manager.{Verdict, keeper, no_record, underperformer, verdict_of}
use clboss.Creator.Eviction.{
  Reason, underperforming, no_record_plain, no_record_spliceable, keeping, Strata, push_stratum,
  stratify, choose_stratum, pick,
}

abbrev pub rank : List NodeId → Verdict → NodeId → ℕ
rank spliceable v n = elim v [
  | underperformer ↦ 0
  | no_record ↦ if contains n spliceable then 2 else 1
  | keeper ↦ 3
]

abbrev pub rank_of_reason : Reason → ℕ
rank_of_reason underperforming = 0
rank_of_reason no_record_plain = 1
rank_of_reason no_record_spliceable = 2
rank_of_reason keeping = 3

push_stratum-fields :
    (spliceable : List NodeId) (v : Verdict) (n : NodeId) (s : Strata)
    → let t = push_stratum spliceable v n s in
      let r = rank spliceable v n in
      (t.underperformers ≡ s.underperformers ++ (if r == 0 then n ∷ [] else []))
      × (t.norecord_plain ≡ s.norecord_plain ++ (if r == 1 then n ∷ [] else []))
      × (t.norecord_splice ≡ s.norecord_splice ++ (if r == 2 then n ∷ [] else []))
      × (t.keepers ≡ s.keepers ++ (if r == 3 then n ∷ [] else []))
unfolding push_stratum
push_stratum-fields spliceable underperformer n s = (
  refl,
  sym (append-nil s.norecord_plain),
  sym (append-nil s.norecord_splice),
  sym (append-nil s.keepers),
)
push_stratum-fields spliceable keeper n s = (
  sym (append-nil s.underperformers),
  sym (append-nil s.norecord_plain),
  sym (append-nil s.norecord_splice),
  refl,
)
push_stratum-fields spliceable no_record n s = elim (Bool-cases (contains n spliceable)) [
  | inl e ↦
      rw (e, push_stratum)
        (
          sym (append-nil s.underperformers),
          sym (append-nil s.norecord_plain),
          refl,
          sym (append-nil s.keepers),
        )
  | inr e ↦
      rw (e, push_stratum)
        (
          sym (append-nil s.underperformers),
          refl,
          sym (append-nil s.norecord_splice),
          sym (append-nil s.keepers),
        )
]

-- A member of a list that is kept passes the test and is a member of the whole.
kept_member :
    (q : NodeId → Bool) (xs : List NodeId) (i : ℕ) (n : NodeId)
    → get_elem? (keep_if q xs) i ≡ some n
    → (q n ≡ true) × (0 < count n xs)
kept_member q [] i n e = absurd (ground arith)
kept_member q (x ∷ xs) i n e = elim (Bool-cases (q x)) [
  | inl e1 ↦ kept_member_cons q x xs i n e1 (λ j. kept_member q xs j n) (ground (arith, e, e1))
  | inr e1 ↦ let (a, b) = kept_member q xs i n (ground (arith, e, e1)) in (a, ground (arith, b))
]
  where
    kept_member_cons :
        (q : NodeId → Bool) (x : NodeId) (xs : List NodeId) (i : ℕ) (n : NodeId)
        → q x ≡ true
        → ((j : ℕ) → get_elem? (keep_if q xs) j ≡ some n → (q n ≡ true) × (0 < count n xs))
        → get_elem? (x ∷ keep_if q xs) i ≡ some n
        → (q n ≡ true) × (0 < count n (x ∷ xs))
    kept_member_cons q x xs zero n e1 ih e =
        let same : x ≡ n = ground arith in (rw (← same) e1, rw (same, ==_refl n) (omega arith))
    kept_member_cons q x xs (suc j) n e1 ih e = let (a, b) = ih j e in (a, ground (arith, b))

none_kept :
    (q : NodeId → Bool) (xs : List NodeId) (m : NodeId)
    → keep_if q xs ≡ []
    → q m ≡ true
    → count m xs ≡ 0
none_kept q [] m e h = refl
none_kept q (x ∷ xs) m e h = elim (Bool-cases (x == m)) [
  | inl e1 ↦
      let same : x ≡ m = ground arith in
      let passes : q x ≡ true = rw same h in absurd (ground (arith, e, passes))
  | inr e1 ↦ ground (arith, none_kept q xs m, e, h, e1)
]

module _ (verdicts : List (NodeId × Verdict)) (spliceable : List NodeId) where
  abbrev pub rank_of : NodeId → ℕ
  rank_of n = rank spliceable (verdict_of verdicts n) n

  abbrev stratum : ℕ → List NodeId → List NodeId
  stratum k pool = keep_if (λ n. rank_of n == k) pool

  stratify-keep_if :
      (pool : List NodeId) (s : Strata)
      → let t = stratify verdicts spliceable pool s in
        (t.underperformers ≡ s.underperformers ++ stratum 0 pool)
        × (t.norecord_plain ≡ s.norecord_plain ++ stratum 1 pool)
        × (t.norecord_splice ≡ s.norecord_splice ++ stratum 2 pool)
        × (t.keepers ≡ s.keepers ++ stratum 3 pool)
  unfolding stratify
  stratify-keep_if [] s = (
    sym (append-nil s.underperformers),
    sym (append-nil s.norecord_plain),
    sym (append-nil s.norecord_splice),
    sym (append-nil s.keepers),
  )
  stratify-keep_if (n ∷ pool) s =
      let v = verdict_of verdicts n in
      let (a, b, c, d) = push_stratum-fields spliceable v n s in
      let (a', b', c', d') = stratify-keep_if pool (push_stratum spliceable v n s) in
      (
        a' ∙ push_kept (rank_of n == 0) n _ s.underperformers _ a,
        b' ∙ push_kept (rank_of n == 1) n _ s.norecord_plain _ b,
        c' ∙ push_kept (rank_of n == 2) n _ s.norecord_splice _ c,
        d' ∙ push_kept (rank_of n == 3) n _ s.keepers _ d,
      )

  -- The chosen one is in the pool and no candidate has a lower rank.
  abbrev pub IsLowest : List NodeId → NodeId → Type 0
  IsLowest pool n = (0 < count n pool) × ((m : NodeId) → 0 < count m pool → rank_of n ≤ rank_of m)

  chosen :
      (dist : ℕ → ℕ) (pool : List NodeId) (k : ℕ)
      → IsChoice dist
      → 0 < length (stratum k pool)
      → ((j : ℕ) → j < k → stratum j pool ≡ [])
      → (n : NodeId) × (get_elem? (stratum k pool) (dist (length (stratum k pool))) ≡ some n)
        × (rank_of n ≡ k)
        × IsLowest pool n
  chosen dist pool k lawful some_kept lower =
      let (n, e) =
        get_elem?-lt (stratum k pool) (dist (length (stratum k pool))) (lawful _ some_kept) in
      let (r, at) = kept_member (λ n. rank_of n == k) pool _ n e in
      let same : rank_of n ≡ k = ground (arith, r) in
      (
        n,
        e,
        same,
        (
          at,
          λ m h. elim (le_cases k (rank_of m)) [
            | inl le ↦ omega (arith, same, le)
            | inr lt ↦ absurd (
                omega (
                  arith,
                  h,
                  none_kept (λ n. rank_of n == rank_of m) pool m (lower (rank_of m) lt)
                      (==_refl (rank_of m)),
                ))
          ],
        ),
      )

  -- The strata below the third or the fourth are empty.
  below :
      (j : ℕ) (pool : List NodeId) (k : ℕ)
      → j < k
      → k ≤ 3
      → stratum 0 pool ≡ []
      → stratum 1 pool ≡ []
      → (2 < k → stratum 2 pool ≡ [])
      → stratum j pool ≡ []
  below zero pool k h l e0 e1 e2 = e0
  below (suc zero) pool k h l e0 e1 e2 = e1
  below (suc (suc zero)) pool k h l e0 e1 e2 = e2 (omega (arith, h))
  below (suc (suc (suc j))) pool k h l e0 e1 e2 = absurd (omega (arith, h, l))

  rank_of-le : (n : NodeId) → rank_of n ≤ 3
  rank_of-le n = ground arith

  last_kept :
      (pool : List NodeId)
      → stratum 0 pool ≡ []
      → stratum 1 pool ≡ []
      → stratum 2 pool ≡ []
      → 0 < length pool
      → 0 < length (stratum 3 pool)
  last_kept [] e0 e1 e2 h = h
  last_kept (x ∷ pool) e0 e1 e2 h = ground (arith, e0, e1, e2, rank_of-le x)

  abbrev no_strata : Strata
  no_strata = record {
    underperformers = [];
    norecord_plain = [];
    norecord_splice = [];
    keepers = [];
  }

  picked :
      (dist : ℕ → ℕ) (pool : List NodeId) (k : ℕ) (reason : Reason)
      → IsChoice dist
      → rank_of_reason reason ≡ k
      → choose_stratum (stratify verdicts spliceable pool no_strata) ≡ (stratum k pool, reason)
      → 0 < length (stratum k pool)
      → ((j : ℕ) → j < k → stratum j pool ≡ [])
      → (n : NodeId) × (r : Reason) × (pick dist pool verdicts spliceable ≡ some (n, r))
        × (rank_of n ≡ rank_of_reason r)
        × IsLowest pool n
  unfolding pick
  picked dist pool k reason lawful is_rank e some_kept lower =
      let (n, at, same, lowest) = chosen dist pool k lawful some_kept lower in
      (
        n,
        reason,
        rw (e, at, pick) (ap (λ (q : List NodeId × Reason). some (n, q.1)) e),
        same ∙ sym is_rank,
        lowest,
      )

  -- From a pool that is not empty, by a lawful choice, a candidate of the pool is picked, none of
  -- the pool is of a lower rank, and the reason that is given is that of its rank: underperformers
  -- first, then nodes without a record, the spliceable among them last, then keepers.
  pub pick-IsLowest :
      (dist : ℕ → ℕ) (pool : List NodeId)
      → IsChoice dist
      → 0 < length pool
      → (n : NodeId) × (r : Reason) × (pick dist pool verdicts spliceable ≡ some (n, r))
        × (rank_of n ≡ rank_of_reason r)
        × IsLowest pool n
  unfolding choose_stratum
  pick-IsLowest dist pool lawful some_there =
      let (a, b, c, d) = stratify-keep_if pool no_strata in
      elim (List-cases (stratum 0 pool)) [
        | inr (x0, r0, e0) ↦
            picked dist pool 0 underperforming lawful refl (ground (arith, a, e0))
              (ground (arith, e0)) (λ j h. absurd (omega (arith, h)))
        | inl e0 ↦ elim (List-cases (stratum 1 pool)) [
          | inr (x1, r1, e1) ↦
              picked dist pool 1 no_record_plain lawful refl (ground (arith, a, b, e0, e1))
                (ground (arith, e1)) (λ j h. let z : j ≡ 0 = omega (arith, h) in rw z e0)
          | inl e1 ↦ elim (List-cases (stratum 2 pool)) [
            | inr (x2, r2, e2) ↦
                picked dist pool 2 no_record_spliceable lawful refl
                  (ground (arith, a, b, c, e0, e1, e2)) (ground (arith, e2))
                  (λ j h. below j pool 2 h (omega arith) e0 e1 (λ l. absurd (omega (arith, l))))
            | inl e2 ↦
                picked dist pool 3 keeping lawful refl (ground (arith, a, b, c, d, e0, e1, e2))
                  (last_kept pool e0 e1 e2 some_there)
                  (λ j h. below j pool 3 h (omega arith) e0 e1 (λ l. e2))
          ]
        ]
      ]
