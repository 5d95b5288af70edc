-- ===== src/Tests/Fees.antt =====
-- The monitor of onchain fees (Boss/Mod/OnchainFeeMonitor.cpp) at concrete inputs.
use clboss.Base.{
  ◌*◌, ◌≡◌, ◌≤◌, ◌<◌, List, [], ◌∷◌, ◌++◌, none, some, arith, ltb, leb, length, count_if, ℕ,
}
use clboss.OnchainFee.{
  OnchainFeeMonitor, Event, started, retried, ticked, max_num_samples, initialize_sample_data,
  create, get_feerate_at_percentile, get_percentile_feerates, on_timer, run,
}
use clboss.OnchainFee.Percentile.{feerate-counts}
use clboss.OnchainFee.Hysteresis.{IsJudged, on_timer-IsJudged}
use clboss.OnchainFee.Window.{keep_last, sampled, run-window}

abbrev fees : List ℕ
fees = 300 ∷ 253 ∷ 900 ∷ 400 ∷ 253 ∷ 500 ∷ []

abbrev day : List Event
day = started none ∷ retried (some 800) ∷ ticked (some 300) ∷ ticked none ∷ ticked (some 900) ∷ []

abbrev fresh : OnchainFeeMonitor
fresh = create []

feerate-counts_example :
    (count_if (λ x. ltb x (get_feerate_at_percentile 20 fees)) fees * 100 ≤ length fees * 20)
    × (length fees * 20 < count_if (λ x. leb x (get_feerate_at_percentile 20 fees)) fees * 100)
feerate-counts_example = feerate-counts 20 fees (omega arith) (omega arith)

on_timer-IsJudged_example :
    IsJudged fresh.is_low_fee_flag
      (on_timer (some 253) fresh).0.is_low_fee_flag
      253
      (get_percentile_feerates (on_timer (some 253) fresh).0.samples)
on_timer-IsJudged_example = on_timer-IsJudged 253 fresh

run-window_example :
    (run day (create fees)).samples
    ≡ keep_last max_num_samples (initialize_sample_data fees ++ sampled day)
run-window_example = run-window fees day (omega arith)
