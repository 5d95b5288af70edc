-- ===== src/Creator/Settings.antt =====
-- Boss/Mod/AmountSettingsHandler.cpp: the three configured amounts, their validation, and the two
-- amounts derived from them. A note keeps the kind of a problem and the value that had it; its
-- wording, its log level and the log lines themselves are left out.
pub mod Parse
pub mod Valid
pub mod Options
pub mod Session
use clboss.Base.{
  is_empty, ℕ, ◌+◌, ◌-◌, ◌*◌, ◌/◌, Bool, true, false, not, List, [], ◌∷◌, ◌++◌, Option, none, some,
  if◌then◌else◌,
}
use clboss.Creator.Settings.Parse.{parse_sats}
use clboss.Ln.Amount.{Amount, sat, to_sat, add, sub, times, lt, gt}

pub record Settings : Type 0 where
  pub min_channel : Amount
  pub max_channel : Amount
  pub reserve : Amount
  pub min_amount : Amount
  pub min_remaining : Amount

abbrev pub default_min_channel : Amount
default_min_channel = sat 500000

abbrev pub default_max_channel : Amount
default_max_channel = sat 100000000

abbrev pub default_reserve : Amount
default_reserve = sat 100000

abbrev pub min_min_channel : Amount
min_min_channel = sat 500000

abbrev pub additional_remaining : Amount
additional_remaining = sat 50000

-- `trigger_factor` is 2.
abbrev pub min_usable_max_channel : Amount
min_usable_max_channel = add (times min_min_channel 3) additional_remaining

abbrev pub min_usable_reserve : Amount
min_usable_reserve = sat 30000

pub data Note : Type 0 where
  min_channel_low max_channel_low reserve_low conflict : Amount → Note

abbrev pub derive : Settings → Settings
derive s = record s {
  min_amount = times s.min_channel 2;
  min_remaining = add (times s.min_channel 2) additional_remaining;
}

unfoldable pub floor_min_channel : Settings × List Note → Settings × List Note
floor_min_channel (s, notes) =
    if lt s.min_channel min_min_channel
    then (record s { min_channel = min_min_channel }, notes ++ min_channel_low s.min_channel ∷ [])
    else (s, notes)

unfoldable pub floor_max_channel : Settings × List Note → Settings × List Note
floor_max_channel (s, notes) =
    if lt s.max_channel min_usable_max_channel
    then (
      record s { max_channel = min_usable_max_channel },
      notes ++ max_channel_low s.max_channel ∷ [],
    )
    else (s, notes)

unfoldable pub floor_reserve : Settings × List Note → Settings × List Note
floor_reserve (s, notes) =
    if lt s.reserve min_usable_reserve
    then (record s { reserve = min_usable_reserve }, notes ++ reserve_low s.reserve ∷ [])
    else (s, notes)

unfoldable pub lowered : Settings → Amount
lowered s = sat (to_sat (sub s.max_channel additional_remaining) / 3)

unfoldable pub lower_conflict : Settings × List Note → Settings × List Note
lower_conflict (s, notes) =
    if gt (add s.min_channel s.min_remaining) s.max_channel
    then (derive (record s { min_channel = lowered s }), notes ++ conflict s.min_channel ∷ [])
    else (s, notes)

unfoldable pub validate : Settings → Settings × List Note
unfolding floor_min_channel floor_max_channel floor_reserve lower_conflict
validate s =
    let (floored, notes) = floor_reserve (floor_max_channel (floor_min_channel (s, []))) in
    lower_conflict (derive floored, notes)

-- The three options; `field_of` is null for every other name.
pub data Name : Type 0 where
  min_onchain min_channel_name max_channel_name : Name

abbrev pub field_of : Settings → Name → Amount
field_of s min_onchain = s.reserve
field_of s min_channel_name = s.min_channel
field_of s max_channel_name = s.max_channel

abbrev pub set_field : Settings → Name → Amount → Settings
set_field s min_onchain a = record s { reserve = a }
set_field s min_channel_name a = record s { min_channel = a }
set_field s max_channel_name a = record s { max_channel = a }

pub record Handler : Type 0 where
  pub settings : Settings
  pub options_ended : Bool

abbrev pub start : Handler
start = record {
  settings = record {
    min_channel = default_min_channel;
    max_channel = default_max_channel;
    reserve = default_reserve;
    min_amount = 0;
    min_remaining = 0;
  };
  options_ended = false;
}

-- What an option does: the new state, whether it was rejected, and the settings published.
pub record Reply : Type 0 where
  pub handler : Handler
  pub rejected : Bool
  pub published : Option Settings

unfoldable pub on_startup_option : Handler → Name → List ℕ → Reply
on_startup_option h name value = record {
  handler = record h { settings = set_field h.settings name (parse_sats value).0 };
  rejected = false;
  published = none;
}

unfoldable pub on_dynamic_option : Handler → Name → List ℕ → Reply
on_dynamic_option h name value =
    let (amount, clean) = parse_sats value in
    let (candidate, notes) = validate (set_field h.settings name amount) in
    let refused : Reply = record { handler = h; rejected = true; published = none } in
    if not clean then refused else if not (is_empty notes) then refused else record {
      handler = record h { settings = candidate };
      rejected = false;
      published = some candidate;
    }

-- The subscription to `Msg::Option`, for the three names that are ours.
unfoldable pub on_option : Handler → Name → List ℕ → Reply
on_option h name value =
    if h.options_ended then on_dynamic_option h name value else on_startup_option h name value

-- The subscription to `Msg::EndOfOptions`; `none` is its failed assertion.
unfoldable pub on_end_of_options : Handler → Option Reply
on_end_of_options h =
    let settings = (validate h.settings).0 in
    if h.options_ended
    then none
    else some (record {
      handler = record { settings = settings; options_ended = true };
      rejected = false;
      published = some settings;
    })
