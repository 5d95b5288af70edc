-- ===== src/Creator/Settings/Valid.antt =====
-- What `validate` of Boss/Mod/AmountSettingsHandler.cpp establishes: the limits that the planner
-- asserts.
use clboss.Base.{
  ◌+◌, ◌*◌, ◌%◌, ◌≤◌, ◌<◌, ◌^◌, ◌≡◌, ◌≢◌, ◌⊎◌, ◌==◌, refl, inl, inr, true, List, [], arith,
  Bool-cases,
}
use clboss.Ln.Amount.{Amount, to_sat, to_double, add, times, gt}
use clboss.Ln.Amount.Laws.{times_exact, add_exact, sub-eq, add_grows, add-le}
use clboss.Creator.Settings.{
  Settings, Note, additional_remaining, min_usable_max_channel, derive, lowered, validate,
  floor_min_channel, floor_max_channel, floor_reserve, lower_conflict,
}
use clboss.Creator.Planner.Loop.{IsConfig}

-- The published settings: above the floors, with the derived amounts in step, and with room for a
-- smallest channel beside what must remain.
pub record IsValid (s : Settings) : Type 0 where
  pub min_floor : 500000000 ≤ s.min_channel
  pub reserve_floor : 30000000 ≤ s.reserve
  pub derived_min : s.min_amount ≡ s.min_channel * 2
  pub derived_remaining : s.min_remaining ≡ s.min_channel * 2 + 50000000
  pub room : s.min_channel + s.min_remaining ≤ s.max_channel

-- As `IsValid`, but a largest channel that is no whole number of satoshis may be exceeded by less
-- than a satoshi.
pub record IsSettled (s : Settings) : Type 0 where
  pub min_floor : 500000000 ≤ s.min_channel
  pub reserve_floor : 30000000 ≤ s.reserve
  pub derived_min : s.min_amount ≡ s.min_channel * 2
  pub derived_remaining : s.min_remaining ≡ s.min_channel * 2 + 50000000
  pub room :
      (s.min_channel + s.min_remaining ≤ s.max_channel)
      ⊎ ((s.max_channel % 1000 ≢ 0) × (s.min_channel + s.min_remaining < s.max_channel + 1000))

pub IsValid-IsSettled : (s : Settings) → IsValid s → IsSettled s
IsValid-IsSettled s v = record {
  min_floor = v.min_floor;
  reserve_floor = v.reserve_floor;
  derived_min = v.derived_min;
  derived_remaining = v.derived_remaining;
  room = inl v.room;
}

-- In whole satoshis nothing is exceeded.
pub IsSettled-IsValid : (s : Settings) → s.max_channel % 1000 ≡ 0 → IsSettled s → IsValid s
IsSettled-IsValid s whole t = record {
  min_floor = t.min_floor;
  reserve_floor = t.reserve_floor;
  derived_min = t.derived_min;
  derived_remaining = t.derived_remaining;
  room = elim t.room [ inl fits ↦ fits | inr (broken, near) ↦ absurd (broken whole) ];
}

-- Amounts in a uint64_t, with a largest channel that a double holds exactly.
pub record IsRead (s : Settings) : Type 0 where
  pub min_word : s.min_channel < 2 ^ 64
  pub max_exact : s.max_channel < 2 ^ 52

usable_max : min_usable_max_channel ≡ 1550000000
unfolding add times to_double
usable_max = refl

-- Settings past the three floors.
record IsFloored (s : Settings) : Type 0 where
  min_floor : 500000000 ≤ s.min_channel
  min_word : s.min_channel < 2 ^ 64
  max_floor : 1550000000 ≤ s.max_channel
  max_exact : s.max_channel < 2 ^ 52
  reserve_floor : 30000000 ≤ s.reserve

abbrev floored : Settings → Settings × List Note
floored s = floor_reserve (floor_max_channel (floor_min_channel (s, [])))

floored-IsFloored : (s : Settings) → IsRead s → IsFloored (floored s).0
unfolding floor_reserve floor_max_channel floor_min_channel
floored-IsFloored s r = ground (arith, usable_max)

-- `derive` is exact on a smallest channel that a double holds.
derive_exact :
    (s : Settings)
    → s.min_channel < 2 ^ 52
    → ((derive s).min_amount ≡ s.min_channel * 2)
      × ((derive s).min_remaining ≡ s.min_channel * 2 + 50000000)
derive_exact s h =
    omega
      (arith, times_exact s.min_channel 2, add_exact (times s.min_channel 2) additional_remaining)

-- A smallest channel that is too large for doubles is past the largest channel in any case.
conflicts :
    (s : Settings)
    → s.min_channel < 2 ^ 64
    → s.max_channel < 2 ^ 52
    → 2 ^ 52 ≤ s.min_channel
    → gt (add s.min_channel (derive s).min_remaining) s.max_channel ≡ true
conflicts s word exact h = ground (
  arith,
  add_grows s.min_channel (derive s).min_remaining,
  add-le (times s.min_channel 2) additional_remaining,
)

lowered_bounds :
    (s : Settings)
    → IsFloored s
    → (500000000 ≤ lowered s)
      × (lowered s * 3 + 50000000 < s.max_channel + 1000)
      × (s.max_channel % 1000 ≡ 0 → lowered s * 3 + 50000000 ≤ s.max_channel)
unfolding lowered to_sat
lowered_bounds s f = (
  omega (arith, sub-eq s.max_channel additional_remaining, f.max_floor, f.max_exact),
  omega (arith, sub-eq s.max_channel additional_remaining, f.max_floor, f.max_exact),
  λ whole.
      omega (arith, sub-eq s.max_channel additional_remaining, whole, f.max_floor, f.max_exact),
)

lower_conflict-IsSettled :
    (s : Settings) (notes : List Note)
    → IsFloored s
    → IsSettled (lower_conflict (derive s, notes)).0
unfolding lower_conflict lowered
lower_conflict-IsSettled s notes f =
    let d = derive s in
    let (low, near, fits) = lowered_bounds s f in
    let keeps = derive_exact s in
    let lowers =
      derive_exact (record d { min_channel = lowered d }) (omega (arith, near, f.max_exact)) in
    elim (Bool-cases (gt (add d.min_channel d.min_remaining) d.max_channel)) [
      | inl clash ↦ rw clash (record {
        min_floor = low;
        reserve_floor = f.reserve_floor;
        derived_min = lowers.0;
        derived_remaining = lowers.1;
        room = elim (Bool-cases (s.max_channel % 1000 == 0)) [
          | inl whole ↦ inl (omega (arith, lowers, fits (ground (arith, whole))))
          | inr broken ↦ inr (λ whole. ground (arith, broken, whole), omega (arith, lowers, near))
        ];
      })
      | inr fine ↦
          let small : s.min_channel < 2 ^ 52 = ground (arith, conflicts s f.min_word f.max_exact) in
          rw fine (record {
            min_floor = f.min_floor;
            reserve_floor = f.reserve_floor;
            derived_min = (keeps small).0;
            derived_remaining = (keeps small).1;
            room =
                inl (
                  ground
                    (arith, keeps small, add_exact s.min_channel d.min_remaining, f.max_exact));
          })
    ]

-- Configured settings with a smallest channel below 2^64 and a largest one below 2^52 meet the
-- floors once they are validated, the two derived amounts are in step, and the smallest channel
-- with what must remain does not exceed the largest channel, or it does by less than a satoshi and
-- the largest channel is no whole number of satoshis.
pub validate-IsSettled : (s : Settings) → IsRead s → IsSettled (validate s).0
unfolding validate
validate-IsSettled s r =
    lower_conflict-IsSettled (floored s).0 (floored s).1 (floored-IsFloored s r)

-- Settings that meet the limits, with a largest channel below 2^52, pass unchanged and without a
-- note.
validate_fixed : (s : Settings) → IsValid s → s.max_channel < 2 ^ 52 → validate s ≡ (s, [])
unfolding validate floor_reserve floor_max_channel floor_min_channel lower_conflict
validate_fixed s v h = ground (
  arith,
  usable_max,
  derive_exact s,
  v.derived_min,
  v.derived_remaining,
  v.room,
  add_exact s.min_channel (derive s).min_remaining,
)

-- Settings that pass without a note keep what was configured.
pub validate_silent :
    (s t : Settings)
    → validate s ≡ (t, [])
    → (t.min_channel ≡ s.min_channel) × (t.max_channel ≡ s.max_channel) × (t.reserve ≡ s.reserve)
unfolding validate floor_reserve floor_max_channel floor_min_channel lower_conflict
validate_silent s t e = ground arith

-- What passes without a note meets the limits.
pub silent-IsValid :
    (s t : Settings)
    → s.min_channel < 2 ^ 64
    → s.max_channel < 2 ^ 52
    → validate s ≡ (t, [])
    → IsValid t
unfolding validate floor_reserve floor_max_channel floor_min_channel lower_conflict
silent-IsValid s t word exact e = ground (
  arith,
  usable_max,
  derive_exact s,
  conflicts s,
  add_exact s.min_channel (derive s).min_remaining,
)

-- Settings that meet the limits meet the planner's, for every budget of two smallest channels.
pub IsValid-IsConfig :
    (s : Settings) (amount : Amount)
    → IsValid s
    → s.max_channel < 2 ^ 52
    → s.min_channel * 2 ≤ amount
    → amount < 2 ^ 53
    → IsConfig amount s.min_channel s.max_channel s.min_remaining
IsValid-IsConfig s amount v h enough exact = omega arith

-- Validation leaves the largest channel within what a double holds.
pub validate_max : (s : Settings) → IsRead s → (validate s).0.max_channel < 2 ^ 52
unfolding validate floor_reserve floor_max_channel floor_min_channel lower_conflict
validate_max s r = ground (arith, usable_max)
