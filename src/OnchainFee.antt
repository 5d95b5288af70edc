-- ===== src/OnchainFee.antt =====
-- Boss/Mod/OnchainFeeMonitor.cpp: whether onchain fees are low now. Feerates are numbers per kiloweight,
-- which lightningd gives as integers. The table of samples is the list of its data by ascending id, so
-- that the rows with the smallest ids are the first ones. The events are the calls of the handlers, with
-- the answer of lightningd: `none` when it has no feerate.
pub mod Percentile
pub mod Hysteresis
pub mod Window
use clboss.Base.{
  ℕ, zero, suc, ◌+◌, ◌-◌, ◌*◌, ◌/◌, Bool, true, false, List, [], ◌∷◌, ◌++◌, Option, none, some, ltb,
  leb, ◌==◌, if◌then◌else◌, length, drop,
}
use clboss.Base.Sorting.{insert_all}

abbrev pub max_num_samples : ℕ
max_num_samples = 2016

abbrev pub num_initial_samples : ℕ
num_initial_samples = 14

abbrev pub initial_sample : ℕ
initial_sample = 253

abbrev pub hi_to_lo_percentile : ℕ
hi_to_lo_percentile = 17

abbrev pub mid_percentile : ℕ
mid_percentile = 20

abbrev pub lo_to_hi_percentile : ℕ
lo_to_hi_percentile = 23

pub record PercentileFeerates : Type 0 where
  pub h2l : ℕ
  pub mid : ℕ
  pub l2h : ℕ

pub record OnchainFeeMonitor : Type 0 where
  pub samples : List ℕ
  pub is_low_fee_flag : Bool
  pub last_feerate : Option ℕ

-- `Msg::OnchainFee`.
pub record OnchainFee : Type 0 where
  pub fees_low : Bool
  pub last_feerate : Option ℕ

-- As many initial samples as are missing.
pub fill_samples : ℕ → List ℕ → List ℕ
fill_samples zero samples = samples
fill_samples (suc missing) samples = fill_samples missing (samples ++ initial_sample ∷ [])

-- `IF NOT EXISTS` keeps old rows. At the message with the database: the rows found there, filled up.
pub initialize_sample_data : List ℕ → List ℕ
initialize_sample_data samples = fill_samples (num_initial_samples - length samples) samples

pub create : List ℕ → OnchainFeeMonitor
create rows = record {
  samples = initialize_sample_data rows;
  is_low_fee_flag = false;
  last_feerate = none;
}

-- Delete the oldest rows when there are too many.
pub check_num_samples : List ℕ → List ℕ
check_num_samples samples =
    let num = length samples in
    if ltb max_num_samples num then drop (num - max_num_samples) samples else samples

pub add_sample : ℕ → List ℕ → List ℕ
add_sample feerate samples = check_num_samples (samples ++ feerate ∷ [])

-- `LIMIT 1 OFFSET :index`: zero if there is no such row.
pub row_at : List ℕ → ℕ → ℕ
row_at [] index = 0
row_at (x ∷ xs) zero = x
row_at (x ∷ xs) (suc index) = row_at xs index

-- The index is a quotient of doubles, cut to an integer. The product is a small integer and exact, and a
-- quotient by 100 that is no integer is at least a hundredth off one, so it rounds to the same integer
-- part.
pub get_feerate_at_percentile : ℕ → List ℕ → ℕ
get_feerate_at_percentile percentile samples =
    let num = length samples in
    if num == 0
    then 253
    else let index = num * percentile / 100 in
      let capped = if leb num index then num - 1 else index in
      row_at (insert_all (λ x. x) samples []) capped

pub get_percentile_feerates : List ℕ → PercentileFeerates
get_percentile_feerates samples = record {
  h2l = get_feerate_at_percentile hi_to_lo_percentile samples;
  mid = get_feerate_at_percentile mid_percentile samples;
  l2h = get_feerate_at_percentile lo_to_hi_percentile samples;
}

pub report_fee : OnchainFeeMonitor → OnchainFee
report_fee m = record { fees_low = m.is_low_fee_flag; last_feerate = m.last_feerate }

-- Without a feerate nothing is reported, and `retry` is started.
pub on_init : Option ℕ → OnchainFeeMonitor → OnchainFeeMonitor × Option OnchainFee
on_init none m = (m, none)
on_init (some feerate) m =
    let feerates = get_percentile_feerates m.samples in
    let m' : OnchainFeeMonitor = record m {
      is_low_fee_flag = ltb feerate feerates.mid;
      last_feerate = some feerate;
    } in
    (m', some (report_fee m'))

pub apply_hysteresis : Bool → ℕ → PercentileFeerates → Bool
apply_hysteresis is_low feerate feerates =
    if is_low
    then if ltb feerates.l2h feerate then false else true
    else if leb feerate feerates.h2l
    then true
    else false

pub on_timer : Option ℕ → OnchainFeeMonitor → OnchainFeeMonitor × Option OnchainFee
on_timer none m = (m, some (report_fee m))
on_timer (some feerate) m =
    let samples = add_sample feerate m.samples in
    let m' : OnchainFeeMonitor = record {
      samples = samples;
      is_low_fee_flag =
          apply_hysteresis m.is_low_fee_flag feerate (get_percentile_feerates samples);
      last_feerate = some feerate;
    } in
    (m', some (report_fee m'))

-- The variable `saved_feerate` is the double that `make_shared<double>()` makes, zero, to the end.
pub retry : Option ℕ → OnchainFeeMonitor → OnchainFeeMonitor × Option OnchainFee
retry none m = (m, none)
retry (some feerate) m =
    let saved_feerate : ℕ = 0 in
    let feerates = get_percentile_feerates m.samples in
    let m' : OnchainFeeMonitor = record m { is_low_fee_flag = leb saved_feerate feerates.mid } in
    (m', some (report_fee m'))

pub data Event : Type 0 where
  started retried ticked : Option ℕ → Event

pub step : Event → OnchainFeeMonitor → OnchainFeeMonitor
step (started feerate) m = (on_init feerate m).0
step (retried feerate) m = (retry feerate m).0
step (ticked feerate) m = (on_timer feerate m).0

pub run : List Event → OnchainFeeMonitor → OnchainFeeMonitor
run [] m = m
run (e ∷ es) m = run es (step e m)
