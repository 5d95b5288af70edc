-- ===== src/Stats/Median.antt =====
-- Stats/WeightedMedian.hpp as Boss/Mod/PeerCompetitorFeeMonitor/Surveyor.hpp uses it: samples are
-- numbers and weights amounts. `std::sort` may leave equal samples in any order; here they keep
-- theirs. No samples, for which the code throws, is `none`.
pub mod IsMedian
use clboss.Base.{
  ℕ, ◌==◌, Bool, true, false, List, [], ◌∷◌, ◌++◌, Option, none, some, ltb, if◌then◌else◌, length,
}
use clboss.Base.Sorting.{insert_all}
use clboss.Ln.Amount
use clboss.Ln.Amount.{Amount}

pub record Entry : Type 0 where
  pub s : ℕ
  pub w : Amount

pub record WeightedMedian : Type 0 where
  pub samples : List Entry
  pub total_weight : Amount

abbrev pub no_samples : WeightedMedian
no_samples = record { samples = []; total_weight = 0 }

pub add : Entry → WeightedMedian → WeightedMedian
add e m = record {
  samples = m.samples ++ e ∷ [];
  total_weight = if length m.samples == 0 then e.w else Amount.add m.total_weight e.w;
}

pub add_all : List Entry → WeightedMedian → WeightedMedian
add_all [] m = m
add_all (e ∷ es) m = add_all es (add e m)

-- The loop over the sorted samples, with its variables `first` and `running_weight`.
pub find_median : Amount → Bool → Amount → List Entry → Option ℕ
find_median total_weight first running_weight [] = none
find_median total_weight first running_weight (e ∷ es) =
    let once = if first then e.w else Amount.add running_weight e.w in
    let twice = Amount.add once e.w in
    let rest = find_median total_weight false twice es in
    if ltb total_weight twice then some e.s else rest

pub finalize : WeightedMedian → Option ℕ
finalize m = find_median m.total_weight true m.total_weight (insert_all (λ e. e.s) m.samples [])
