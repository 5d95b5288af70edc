-- ===== src/Tests/Options.antt =====
-- The amount options (Boss/Mod/AmountSettingsHandler.cpp) at concrete inputs.
use clboss.Base.{ℕ, ◌+◌, ◌≡◌, ◌<◌, ◌^◌, refl, true, List, [], ◌∷◌, some, arith}
use clboss.Base.Decimal.{print_dec, digits_within, value_from}
use clboss.Ln.Amount.{times, to_double, add, sub, to_sat}
use clboss.Base.{◌*◌}
use clboss.Creator.Settings.{
  on_option, on_startup_option, on_end_of_options, floor_min_channel, floor_max_channel,
  floor_reserve, lower_conflict, lowered, Settings, validate, Handler, start, min_channel_name,
  max_channel_name, on_dynamic_option, reserve_low, conflict,
}
use clboss.Creator.Settings.Parse.{parse_sats, skip_space, span_digits}
use clboss.Creator.Settings.Valid.{
  IsValid, IsSettled, IsSettled-IsValid, IsRead, validate-IsSettled,
}
use clboss.Creator.Settings.Options.{
  Outcome, on_dynamic_option-Outcome, parse_sats-print_dec, parse_sats_wraps,
}
use clboss.Creator.Settings.Session.{Event, option, end_of_options, step, run, run-IsSettled}

-- A smallest channel that does not fit the largest.
abbrev conflicting : Settings
conflicting = record {
  min_channel = 1000000000;
  max_channel = 2000000000;
  reserve = 0;
  min_amount = 0;
  min_remaining = 0;
}

conflicting-IsRead : IsRead conflicting
conflicting-IsRead = record { min_word = omega arith; max_exact = omega arith }

validate-IsSettled_example : IsSettled (validate conflicting).0
validate-IsSettled_example = validate-IsSettled conflicting conflicting-IsRead

abbrev events : List Event
events =
    option max_channel_name (print_dec 2000000)
    ∷ end_of_options
    ∷ option min_channel_name (print_dec 600000)
    ∷ []

abbrev after_events : Handler
after_events = record {
  settings = record {
    min_channel = 600000000;
    max_channel = 2000000000;
    reserve = 100000000;
    min_amount = 1200000000;
    min_remaining = 1250000000;
  };
  options_ended = true;
}

run-start : run start events ≡ some after_events
unfolding run step on_option on_startup_option on_dynamic_option on_end_of_options validate
    floor_min_channel floor_max_channel floor_reserve lower_conflict lowered parse_sats skip_space
    span_digits value_from digits_within times to_double add sub to_sat
run-start = refl

sats_small : (n : ℕ) → n * 1000 < 2 ^ 52 → (parse_sats (print_dec n)).0 < 2 ^ 52
sats_small n h = ground (arith, parse_sats-print_dec n)

run-IsSettled_example : IsSettled after_events.settings
run-IsSettled_example =
    run-IsSettled events after_events
      (sats_small 2000000 (omega arith), (tt, (sats_small 600000 (omega arith), tt))) run-start refl

-- The largest channel is a whole number of satoshis here, so the planner's limits hold.
settled_whole : IsValid after_events.settings
settled_whole = IsSettled-IsValid after_events.settings refl (
    run-IsSettled events after_events
      (sats_small 2000000 (omega arith), (tt, (sats_small 600000 (omega arith), tt))) run-start
      refl)

-- A largest channel whose product wraps to no whole number of satoshis: the smallest channel and what
-- must remain exceed it by 992 millisatoshis, and a cycle of channel creation finds the limits bad.
wrapped_exceeds :
    (s : Settings) × (validate (record conflicting {
      min_channel = (parse_sats (print_dec 600000)).0;
      max_channel = (parse_sats (print_dec 2066035336257019783)).0;
    })
      ≡ (s, reserve_low 0 ∷ conflict 600000000 ∷ []))
    × (s.min_channel + s.min_remaining ≡ s.max_channel + 992)
unfolding validate floor_min_channel floor_max_channel floor_reserve lower_conflict lowered
    parse_sats skip_space span_digits value_from digits_within times to_double add sub to_sat
wrapped_exceeds = (_, refl, refl)

on_dynamic_option-Outcome_example :
    Outcome start min_channel_name
      (print_dec 600000)
      (on_dynamic_option start min_channel_name (print_dec 600000))
on_dynamic_option-Outcome_example =
    on_dynamic_option-Outcome start min_channel_name (print_dec 600000)

parse_sats_wraps_example : parse_sats (print_dec (700000 + 2 ^ 61)) ≡ parse_sats (print_dec 700000)
parse_sats_wraps_example = parse_sats_wraps 700000 (omega arith)
