-- ===== src/Tests/Sampling.antt =====
-- The reservoir sampler and the weighted median (Stats/) at concrete inputs.
use clboss.Base.{
  ℕ, ◌≡◌, min, ◌≤◌, ◌==◌, List, [], ◌∷◌, map, length, count_if, none, some, arith, ◌⊎◌,
}
use clboss.Stats.Median.{Entry, no_samples, finalize}
use clboss.Stats.Median.IsMedian.{weight, IsMedian, finalize-IsMedian}
use clboss.Stats.Median
use clboss.Stats.Reservoir.{create, add_all}
use clboss.Stats.Reservoir.Largest.{reaching, add_all-IsLargest}
use clboss.Stats.Reservoir.Drawn.{pairs, add_all-pairs}

abbrev weighted : List Entry
weighted = record { s = 5; w = 10 } ∷ record { s = 1; w = 30 } ∷ record { s = 9; w = 30 } ∷ []

finalize-IsMedian_example :
    ((finalize (Median.add_all weighted no_samples) ≡ none) × (weight weighted ≡ 0))
    ⊎ ((s : ℕ) × (finalize (Median.add_all weighted no_samples) ≡ some s) × IsMedian s weighted)
finalize-IsMedian_example = finalize-IsMedian weighted (omega arith)

abbrev stream : List (ℕ × ℕ)
stream = (1, 40) ∷ (2, 10) ∷ (3, 30) ∷ (4, 20) ∷ (5, 30) ∷ []

add_all-IsLargest_example :
    (length (add_all stream (create 2)).keys ≡ min 2 (length (map (λ i. i.1) stream)))
    × (length (add_all stream (create 2)).selected ≡ length (add_all stream (create 2)).keys)
    × ((t : ℕ)
        → reaching t (add_all stream (create 2)).keys ≡ min 2 (reaching t (map (λ i. i.1) stream)))
add_all-IsLargest_example = add_all-IsLargest 2 stream

add_all-pairs_example :
    count_if
      (λ i. i.1 == 30)
      (pairs (add_all stream (create 2)).selected (add_all stream (create 2)).keys)
    ≤ count_if (λ i. i.1 == 30) stream
add_all-pairs_example = add_all-pairs (λ i. i.1 == 30) 2 stream
