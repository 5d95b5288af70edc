-- ===== src/Creator/Manager/Guard.antt =====
-- When a cycle of channel creation is started, by the flag `cycle_running` of the manager.
use clboss.Base.{ℕ, ◌+◌, ◌-◌, ◌≡◌, Bool, false, List, [], ◌∷◌, arith, ◌==◌, if◌then◌else◌}
use clboss.Creator.Settings.{Settings}
use clboss.Creator.Manager.{
  Manager, OptionValue, boolean, text_true, text_false, other, on_init, on_amount_settings,
  on_option, on_request, on_cycle_end,
}

-- What can happen to the manager, besides what changes no field of it.
pub data Event : Type 0 where
  init : Bool → Event
  amount_settings : Settings → Event
  option : OptionValue → Event
  request cycle_end : Event

-- The manager, and how many cycles run. A cycle can end only if one runs.
pub step : Event → Manager × ℕ → Manager × ℕ
step (init offline) (m, n) = (on_init offline m, n)
step (amount_settings s) (m, n) = (on_amount_settings s m, n)
step (option v) (m, n) = ((on_option v m).1, n)
step request (m, n) = ((on_request m).1, if (on_request m).0 then n + 1 else n)
step cycle_end (m, n) = if n == 0 then (m, n) else (on_cycle_end m, n - 1)

pub run : List Event → Manager × ℕ → Manager × ℕ
run [] s = s
run (e ∷ es) s = run es (step e s)

abbrev Guarded : Manager × ℕ → Type 0
Guarded s = s.1 ≡ (if s.0.cycle_running then 1 else 0)

step-Guarded : (e : Event) (s : Manager × ℕ) → Guarded s → Guarded (step e s)
unfolding step on_init on_amount_settings on_option on_request on_cycle_end
step-Guarded (init offline) s g = g
step-Guarded (amount_settings a) s g = g
step-Guarded (option (boolean b)) s g = g
step-Guarded (option text_true) s g = g
step-Guarded (option text_false) s g = g
step-Guarded (option other) s g = g
step-Guarded request (m, n) g = ground arith
step-Guarded cycle_end (m, n) g = ground arith

runs-Guarded : (es : List Event) (s : Manager × ℕ) → Guarded s → Guarded (run es s)
unfolding run
runs-Guarded [] s g = g
runs-Guarded (e ∷ es) s g = runs-Guarded es (step e s) (step-Guarded e s g)

-- From a manager without a cycle, after any sequence of messages and ends of cycles, at most one
-- cycle runs, and the flag tells whether one does.
pub run-Guarded :
    (es : List Event) (m : Manager)
    → m.cycle_running ≡ false
    → (run es (m, 0)).1 ≡ (if (run es (m, 0)).0.cycle_running then 1 else 0)
run-Guarded es m h = runs-Guarded es (m, 0) (ground arith)
