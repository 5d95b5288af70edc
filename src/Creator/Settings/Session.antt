-- ===== src/Creator/Settings/Session.antt =====
-- A whole session of Boss/Mod/AmountSettingsHandler.cpp: options at startup, the end of options, and
-- options at runtime, in any order in which the handler's assertion does not fail.
use clboss.Base.{
  ℕ, ◌<◌, ◌^◌, ◌≡◌, subst, inl, inr, true, false, List, [], ◌∷◌, Option, none, some, arith,
  Bool-cases, Option-cases, All,
}
use mathlib.Core.Option.{some-injective}
use clboss.Creator.Settings.Parse.{parse_sats}
use clboss.Ln.Amount.{Amount}
use clboss.Creator.Settings.{
  Settings, Name, min_onchain, min_channel_name, max_channel_name, Handler, set_field, validate,
  on_startup_option, on_dynamic_option, on_option, on_end_of_options, start,
}
use clboss.Creator.Settings.Valid.{IsSettled, IsRead, validate-IsSettled, validate_max}
use clboss.Creator.Settings.Options.{
  on_dynamic_option-IsSettled, on_dynamic_option-max, on_dynamic_option-ended,
}

pub data Event : Type 0 where
  option : Name → List ℕ → Event
  end_of_options : Event

unfoldable pub step : Handler → Event → Option Handler
step h (option name value) = some (on_option h name value).handler
step h end_of_options = elim (on_end_of_options h) [ some r ↦ some r.handler | none ↦ none ]

unfoldable pub run : Handler → List Event → Option Handler
run h [] = some h
run h (e ∷ es) = elim (step h e) [ some h2 ↦ run h2 es | none ↦ none ]

abbrev pub IsSmall : Event → Type 0
IsSmall (option name value) = (parse_sats value).0 < 2 ^ 52
IsSmall end_of_options = Unit {0}

-- Every amount that is read is below 2 ^ 52 millisatoshis.
abbrev pub AllSmall : List Event → Type 0
AllSmall = All IsSmall

-- Before the end of options the amounts are as they were read; from then on they meet the limits.
record IsSound (h : Handler) : Type 0 where
  max_exact : h.settings.max_channel < 2 ^ 52
  before : h.options_ended ≡ false → IsRead h.settings
  after : h.options_ended ≡ true → IsSettled h.settings

startup-IsRead :
    (s : Settings) (name : Name) (a : Amount) → a < 2 ^ 52 → IsRead s → IsRead (set_field s name a)
startup-IsRead s min_onchain a h r = omega arith
startup-IsRead s min_channel_name a h r = omega arith
startup-IsRead s max_channel_name a h r = omega arith

dynamic_eq :
    (h : Handler) (name : Name) (value : List ℕ)
    → h.options_ended ≡ true
    → on_option h name value ≡ on_dynamic_option h name value
unfolding on_option
dynamic_eq h name value e = ground arith

startup_eq :
    (h : Handler) (name : Name) (value : List ℕ)
    → h.options_ended ≡ false
    → on_option h name value ≡ on_startup_option h name value
unfolding on_option
startup_eq h name value e = ground arith

option-IsSound :
    (h : Handler) (name : Name) (value : List ℕ)
    → IsSmall (option name value)
    → IsSound h
    → IsSound (on_option h name value).handler
option-IsSound h name value small v = elim (Bool-cases h.options_ended) [
  | inl ended ↦ rw (dynamic_eq h name value ended) (record {
    max_exact = on_dynamic_option-max h name value v.max_exact small;
    before = λ e. absurd (ground (arith, on_dynamic_option-ended h name value));
    after = λ e. on_dynamic_option-IsSettled h name value (v.after ended) v.max_exact small;
  })
  | inr starting ↦
      let r = startup-IsRead h.settings name (parse_sats value).0 small (v.before starting) in
      rw (startup_eq h name value starting) (
        unfold on_startup_option in
        record { max_exact = r.max_exact; before = λ e. r; after = λ e. absurd (ground arith) })
]

step-IsSound : (h t : Handler) (e : Event) → IsSmall e → IsSound h → step h e ≡ some t → IsSound t
unfolding step on_end_of_options
step-IsSound h t (option name value) small v e =
    subst IsSound (some-injective _ _ e) (option-IsSound h name value small v)
step-IsSound h t end_of_options small v e = elim (Bool-cases h.options_ended) [
  | inl ended ↦ absurd (ground arith)
  | inr starting ↦
      let r = v.before starting in
      let e' : t ≡ record { settings = (validate h.settings).0; options_ended = true } =
        ground arith in
      rw e' (record {
        max_exact = validate_max h.settings r;
        before = λ e. cc;
        after = λ e. validate-IsSettled h.settings r;
      })
]

run-IsSound :
    (es : List Event) (h t : Handler) → AllSmall es → IsSound h → run h es ≡ some t → IsSound t
unfolding run
run-IsSound [] h t small v e = subst IsSound (some-injective _ _ e) v
run-IsSound (e ∷ es) h t small v q = elim (Option-cases (step h e)) [
  | inl stop ↦ absurd (ground arith)
  | inr (u, e') ↦ run-IsSound es u t small.1 (step-IsSound h u e small.0 v e') (ground arith)
]

start-IsSound : IsSound start
start-IsSound = record { max_exact = omega arith; before = λ e. omega arith; after = λ e. cc }

-- If every amount that is read, at startup or afterwards, is below 2^52 millisatoshis, then once
-- the options have ended the settings in effect meet the floors, the two derived amounts are in
-- step, and the smallest channel with what must remain does not exceed the largest channel, or it
-- does by less than a satoshi and the largest channel is no whole number of satoshis.
pub run-IsSettled :
    (es : List Event) (h : Handler)
    → AllSmall es
    → run start es ≡ some h
    → h.options_ended ≡ true
    → IsSettled h.settings
run-IsSettled es h small e ended = (run-IsSound es start h small start-IsSound e).after ended
