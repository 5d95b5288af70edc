-- ===== src/Creator/Eviction.antt =====
-- Boss/Mod/ChannelCandidateInvestigator/EvictionPolicy.cpp: which candidate is evicted from a full
-- pool. What the uniform distribution draws is an argument.
pub mod Stratum
use clboss.Base.{
  is_empty, ℕ, ◌+◌, ◌≤◌, ◌<◌, ◌≡◌, refl, Bool, true, false, ◌&&◌, List, [], ◌∷◌, ◌++◌, Option, none,
  some, arith, ltb, leb, ◌==◌, if◌then◌else◌, length, get_elem?, get_elem?-lt, count, keep_if,
  Bool-cases, inl, inr,
}
use clboss.Base.Maps.{contains}
use clboss.Creator.Planner.{NodeId}
use clboss.Creator.Planner.Deduct.{IsChoice}
use clboss.Creator.Manager.{Verdict, keeper, no_record, underperformer, verdict_of}

pub data Reason : Type 0 where
  underperforming no_record_plain no_record_spliceable keeping : Reason

pub record Strata : Type 0 where
  pub underperformers : List NodeId
  pub norecord_plain : List NodeId
  pub norecord_splice : List NodeId
  pub keepers : List NodeId

push_stratum : List NodeId → Verdict → NodeId → Strata → Strata
push_stratum spliceable underperformer n s = record s {
  underperformers = s.underperformers ++ n ∷ [];
}
push_stratum spliceable keeper n s = record s { keepers = s.keepers ++ n ∷ [] }
push_stratum spliceable no_record n s =
    if contains n spliceable
    then record s { norecord_splice = s.norecord_splice ++ n ∷ [] }
    else record s { norecord_plain = s.norecord_plain ++ n ∷ [] }

pub stratify : List (NodeId × Verdict) → List NodeId → List NodeId → Strata → Strata
stratify verdicts spliceable [] s = s
stratify verdicts spliceable (n ∷ pool) s =
    stratify verdicts spliceable pool (push_stratum spliceable (verdict_of verdicts n) n s)

pub choose_stratum : Strata → List NodeId × Reason
choose_stratum s =
    if is_empty s.underperformers
    then if is_empty s.norecord_plain
      then if is_empty s.norecord_splice
        then (s.keepers, keeping)
        else (s.norecord_splice, no_record_spliceable)
      else (s.norecord_plain, no_record_plain)
    else (s.underperformers, underperforming)

-- `none` is the failed assertion that the pool is not empty.
pub pick : (ℕ → ℕ) → List NodeId → List (NodeId × Verdict) → List NodeId → Option (NodeId × Reason)
pick dist pool verdicts spliceable =
    let strata =
      stratify verdicts spliceable pool (record {
        underperformers = [];
        norecord_plain = [];
        norecord_splice = [];
        keepers = [];
      }) in
    let (stratum, reason) = choose_stratum strata in
    elim (get_elem? stratum (dist (length stratum))) [ none ↦ none | some n ↦ some (n, reason) ]
