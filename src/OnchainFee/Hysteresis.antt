-- ===== src/OnchainFee/Hysteresis.antt =====
-- When the judgment changes.
use clboss.Base.{ℕ, ◌≤◌, ◌<◌, ◌≡◌, refl, inl, inr, Bool, true, false, List, some, arith, Bool-cases}
use clboss.OnchainFee.{
  PercentileFeerates, OnchainFeeMonitor, add_sample, get_percentile_feerates, apply_hysteresis,
  on_timer, retry,
}
use clboss.OnchainFee.Percentile.{feerate-rises}

-- The three percentiles of the samples are in order.
percentiles-rise :
    (samples : List ℕ)
    → ((get_percentile_feerates samples).h2l ≤ (get_percentile_feerates samples).mid)
      × ((get_percentile_feerates samples).mid ≤ (get_percentile_feerates samples).l2h)
unfolding get_percentile_feerates
percentiles-rise samples = (
  feerate-rises 17 20 samples (omega arith) (omega arith),
  feerate-rises 20 23 samples (omega arith) (omega arith),
)

-- The judgment of a feerate by the thresholds of the samples.
pub record IsJudged (before after : Bool) (feerate : ℕ) (t : PercentileFeerates) : Type 0 where
  pub low_side : t.h2l ≤ t.mid
  pub high_side : t.mid ≤ t.l2h
  pub turns_low : feerate ≤ t.h2l → after ≡ true
  pub turns_high : t.l2h < feerate → after ≡ false
  pub stays : t.h2l < feerate → feerate ≤ t.l2h → after ≡ before

-- When the timer brings a feerate, the flag turns low if the feerate is at most the 17th
-- percentile of the samples, this one included, turns high if it is above the 23rd percentile, and
-- stays as it was between the two; and the 17th, 20th and 23rd percentiles are in ascending order.
pub on_timer-IsJudged :
    (feerate : ℕ) (m : OnchainFeeMonitor)
    → IsJudged m.is_low_fee_flag
        (on_timer (some feerate) m).0.is_low_fee_flag
        feerate
        (get_percentile_feerates (on_timer (some feerate) m).0.samples)
unfolding on_timer apply_hysteresis
on_timer-IsJudged feerate m =
    let samples = add_sample feerate m.samples in
    let t = get_percentile_feerates samples in
    let (low, high) = percentiles-rise samples in
    elim (Bool-cases m.is_low_fee_flag) [
      | inl e ↦ record {
        low_side = low;
        high_side = high;
        turns_low = λ h. rw e (ground (arith, h, low, high));
        turns_high = λ h. rw e (ground (arith, h));
        stays = λ h h'. rw e (ground (arith, h, h'));
      }
      | inr e ↦ record {
        low_side = low;
        high_side = high;
        turns_low = λ h. rw e (ground (arith, h));
        turns_high = λ h. rw e (ground (arith, h, low, high));
        stays = λ h h'. rw e (ground (arith, h, h'));
      }
    ]

-- When a retry gets a feerate, fees are judged low whatever the feerate is, and the last feerate
-- stays what it was.
retry_judges_low :
    (feerate : ℕ) (m : OnchainFeeMonitor)
    → ((retry (some feerate) m).0.is_low_fee_flag ≡ true)
      × ((retry (some feerate) m).0.last_feerate ≡ m.last_feerate)
unfolding retry
retry_judges_low feerate m = (ground arith, refl)
