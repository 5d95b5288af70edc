-- ===== src/Creator/Settings/Options.antt =====
-- Options of Boss/Mod/AmountSettingsHandler.cpp: as text, at startup and at runtime.
use clboss.Base.{
  ℕ, ◌+◌, ◌≤◌, ◌<◌, ◌^◌, ◌≡◌, refl, ◌≢◌, ◌⊎◌, inl, inr, Bool, true, false, List, [], ◌∷◌, none,
  some, arith, length, All,
}
use clboss.Base.Decimal.{
  IsDigit, print_dec, value_from, value_from-digits_within, digits_within-IsDigit,
  length-digits_within_pos,
}
use clboss.Ln.Amount.{Amount, sat}
use clboss.Creator.Settings.Parse.{span_digits, parse_sats}
use clboss.Creator.Settings.{
  Settings, Note, Name, min_onchain, min_channel_name, max_channel_name, Handler, Reply, field_of,
  set_field, validate, on_dynamic_option,
}
use clboss.Creator.Settings.Valid.{IsSettled, IsValid-IsSettled, silent-IsValid, validate_silent}

span_digits-All : (cs : List ℕ) → All IsDigit cs → span_digits cs ≡ (cs, [])
unfolding span_digits
span_digits-All [] h = refl
span_digits-All (c ∷ cs) h = ground (arith, span_digits-All cs h.1)

-- A run of digits, nothing around it, is a clean amount.
parse_sats_digits :
    (cs : List ℕ)
    → 1 ≤ length cs
    → All IsDigit cs
    → value_from 0 cs < 2 ^ 64
    → parse_sats cs ≡ (sat (value_from 0 cs), true)
unfolding parse_sats
parse_sats_digits [] h d v = absurd (omega arith)
parse_sats_digits (c ∷ cs) h d v = ground (arith, span_digits-All (c ∷ cs) d)

-- A number of satoshis in decimal is read as that many satoshis.
pub parse_sats-print_dec : (n : ℕ) → n < 2 ^ 64 → parse_sats (print_dec n) ≡ (sat n, true)
parse_sats-print_dec n h =
    let value = value_from-digits_within 19 n (omega arith) in
    ground (
      arith,
      value,
      parse_sats_digits (print_dec n) (length-digits_within_pos 19 n) (digits_within-IsDigit 19 n),
    )

-- A decimal number of satoshis that is 2^61 too large, but below 2^64, is read as the same clean
-- amount as the number itself, because the product with 1000 wraps.
pub parse_sats_wraps :
    (n : ℕ) → n + 2 ^ 61 < 2 ^ 64 → parse_sats (print_dec (n + 2 ^ 61)) ≡ parse_sats (print_dec n)
parse_sats_wraps n h = ground (arith, parse_sats-print_dec n, parse_sats-print_dec (n + 2 ^ 61))

-- What `setconfig` does: it refuses and changes nothing, or the text was clean, the amount is in
-- effect as it was given, the other two are as before, and the settings are published.
pub data Outcome (h : Handler) (name : Name) (value : List ℕ) (r : Reply) : Type 0 where
  refused : r.rejected ≡ true → r.handler ≡ h → r.published ≡ none → Outcome h name value r
  accepted :
      r.rejected ≡ false
      → (parse_sats value).1 ≡ true
      → field_of r.handler.settings name ≡ (parse_sats value).0
      → ((other : Name)
          → other ≢ name
          → field_of r.handler.settings other ≡ field_of h.settings other)
      → r.published ≡ some r.handler.settings
      → Outcome h name value r

abbrev SameFields : Settings → Settings → Type 0
SameFields s t =
    (t.min_channel ≡ s.min_channel) × (t.max_channel ≡ s.max_channel) × (t.reserve ≡ s.reserve)

field_of_set :
    (s t : Settings) (name : Name) (a : Amount)
    → SameFields (set_field s name a) t
    → field_of t name ≡ a
field_of_set s t min_onchain a f = f.2
field_of_set s t min_channel_name a f = f.0
field_of_set s t max_channel_name a f = f.1

field_of_others :
    (s t : Settings) (name other : Name) (a : Amount)
    → SameFields (set_field s name a) t
    → other ≢ name
    → field_of t other ≡ field_of s other
field_of_others s t min_onchain min_onchain a f ne = absurd (ne refl)
field_of_others s t min_onchain min_channel_name a f ne = f.0
field_of_others s t min_onchain max_channel_name a f ne = f.1
field_of_others s t min_channel_name min_onchain a f ne = f.2
field_of_others s t min_channel_name min_channel_name a f ne = absurd (ne refl)
field_of_others s t min_channel_name max_channel_name a f ne = f.1
field_of_others s t max_channel_name min_onchain a f ne = f.2
field_of_others s t max_channel_name min_channel_name a f ne = f.0
field_of_others s t max_channel_name max_channel_name a f ne = absurd (ne refl)

-- The two ways a runtime option can go.
dynamic_cases :
    (h : Handler) (name : Name) (value : List ℕ)
    → let (amount, clean) = parse_sats value in
      (on_dynamic_option h name value ≡ record { handler = h; rejected = true; published = none })
      ⊎ ((t : Settings) × (clean ≡ true)
          × (validate (set_field h.settings name amount) ≡ (t, []))
          × (on_dynamic_option h name value ≡ record {
            handler = record h { settings = t };
            rejected = false;
            published = some t;
          }))
unfolding on_dynamic_option
dynamic_cases h name value = go (parse_sats value).1 (validate candidate).1 refl refl
  where
    candidate : Settings
    candidate = set_field h.settings name (parse_sats value).0

    go :
        (clean : Bool) (notes : List Note)
        → (parse_sats value).1 ≡ clean
        → (validate candidate).1 ≡ notes
        → (on_dynamic_option h name value
            ≡ record { handler = h; rejected = true; published = none })
          ⊎ ((t : Settings) × ((parse_sats value).1 ≡ true)
              × (validate candidate ≡ (t, []))
              × (on_dynamic_option h name value ≡ record {
                handler = record h { settings = t };
                rejected = false;
                published = some t;
              }))
    go false notes e n = inl (rw e)
    go true [] e n = inr ((validate candidate).0, e, ground (arith, n), rw (e, n))
    go true (x ∷ xs) e n = inl (rw (e, n))

-- What `setconfig` does: it refuses, changes nothing and publishes nothing, or the text was a
-- clean amount, that amount is in effect as it was given, the two other amounts are as before, and
-- the settings are published.
pub on_dynamic_option-Outcome :
    (h : Handler) (name : Name) (value : List ℕ)
    → Outcome h name value (on_dynamic_option h name value)
on_dynamic_option-Outcome h name value = elim (dynamic_cases h name value) [
  | inl e ↦ rw e (refused refl refl refl)
  | inr (t, clean, e, r) ↦
      let s = set_field h.settings name (parse_sats value).0 in
      let same : SameFields s t = validate_silent s t e in
      rw r (
        accepted refl clean (field_of_set h.settings t name _ same)
          (λ other ne. field_of_others h.settings t name other _ same ne) refl)
]

set_field_small :
    (s : Settings) (name : Name) (a : Amount)
    → IsSettled s
    → s.max_channel < 2 ^ 52
    → a < 2 ^ 52
    → ((set_field s name a).min_channel < 2 ^ 64) × ((set_field s name a).max_channel < 2 ^ 52)
set_field_small s min_onchain a v x h = grind (arith, v.room)
set_field_small s min_channel_name a v x h = omega arith
set_field_small s max_channel_name a v x h = grind (arith, v.room)

-- At runtime settled settings are replaced by such settings only.
pub on_dynamic_option-IsSettled :
    (h : Handler) (name : Name) (value : List ℕ)
    → IsSettled h.settings
    → h.settings.max_channel < 2 ^ 52
    → (parse_sats value).0 < 2 ^ 52
    → IsSettled (on_dynamic_option h name value).handler.settings
on_dynamic_option-IsSettled h name value v exact small = elim (dynamic_cases h name value) [
  | inl e ↦ rw e v
  | inr (t, clean, e, r) ↦
      let s = set_field h.settings name (parse_sats value).0 in
      let (m, x) = set_field_small h.settings name (parse_sats value).0 v exact small in
      rw r (IsValid-IsSettled t (silent-IsValid s t m x e))
]

-- Neither does a runtime option that is small take the largest channel past what a double holds.
pub on_dynamic_option-max :
    (h : Handler) (name : Name) (value : List ℕ)
    → h.settings.max_channel < 2 ^ 52
    → (parse_sats value).0 < 2 ^ 52
    → (on_dynamic_option h name value).handler.settings.max_channel < 2 ^ 52
on_dynamic_option-max h name value exact small = elim (dynamic_cases h name value) [
  | inl e ↦ rw e exact
  | inr (t, clean, e, r) ↦
      let s = set_field h.settings name (parse_sats value).0 in
      rw r (go name t (validate_silent s t e))
]
  where
    go :
        (name : Name) (t : Settings)
        → SameFields (set_field h.settings name (parse_sats value).0) t
        → t.max_channel < 2 ^ 52
    go min_onchain t f = omega arith
    go min_channel_name t f = omega arith
    go max_channel_name t f = omega arith

pub on_dynamic_option-ended :
    (h : Handler) (name : Name) (value : List ℕ)
    → (on_dynamic_option h name value).handler.options_ended ≡ h.options_ended
unfolding on_dynamic_option
on_dynamic_option-ended h name value = ground arith
