-- ===== src/Ev/Semaphore.antt =====
-- Ev/Semaphore.cpp: a semaphore that runs at most `max` actions at once. An action is a number, and
-- the actions that run, with the order in which they were started, are kept beside the fields.
pub mod Fair
use clboss.Base.{
  ℕ, zero, suc, ◌+◌, ◌-◌, ◌≤◌, ◌<◌, ◌≡◌, ◌≢◌, refl, sym, ap, ◌∙◌, ◌⊎◌, inl, inr, Bool, List, [],
  ◌∷◌, ◌++◌, Option, none, some, arith, ltb, ◌==◌, if◌then◌else◌, length, length-append,
}
use mathlib.Core.List.{append-nil, append_assoc}

pub record Semaphore : Type 0 where
  pub remaining : ℕ
  pub blocked : List ℕ
  pub running : List ℕ
  pub started : List ℕ

pub create : ℕ → Semaphore
create max = record { remaining = max; blocked = []; running = []; started = [] }

-- Start an action. It calls `unblock` when it ends, well or not.
pub handle : ℕ → Semaphore → Semaphore
handle action s = record s {
  running = s.running ++ action ∷ [];
  started = s.started ++ action ∷ [];
}

-- `none` is the failed assertion that nothing remains.
pub unblock : Semaphore → Option Semaphore
unblock s = elim s.blocked [
  | [] ↦ some (record s { remaining = s.remaining + 1 })
  | next ∷ blocked ↦
      if s.remaining == 0 then some (handle next (record s { blocked = blocked })) else none
]

pub run : ℕ → Semaphore → Semaphore
run action s =
    if ltb 0 s.remaining
    then handle action (record s { remaining = s.remaining - 1 })
    else record s { blocked = s.blocked ++ action ∷ [] }

-- A running action is asked for by its place in the list.
pub remove : ℕ → List ℕ → Option (List ℕ)
remove i [] = none
remove zero (a ∷ rest) = some rest
remove (suc i) (a ∷ rest) = elim (remove i rest) [ none ↦ none | some left ↦ some (a ∷ left) ]

pub data Event : Type 0 where
  arrives : ℕ → Event
  ends : ℕ → Event

-- What happens to a semaphore: an action arrives, or one of those that run ends.
pub step : Event → Semaphore → Option Semaphore
step (arrives action) s = some (run action s)
step (ends i) s = elim (remove i s.running) [
  | none ↦ some s
  | some running ↦ unblock (record s { running = running })
]

pub steps : List Event → Semaphore → Option Semaphore
steps [] s = some s
steps (e ∷ es) s = elim (step e s) [ none ↦ none | some next ↦ steps es next ]

abbrev pub arrivals : List Event → List ℕ
arrivals [] = []
arrivals (arrives action ∷ es) = action ∷ arrivals es
arrivals (ends i ∷ es) = arrivals es
