-- ===== src/Session/Running/Examples.antt =====
-- A node that cannot listen on its port, and one that restarts.
use booster.Common.{◌≡◌, refl, true, some, List, [], ◌∷◌, Bytes}
use booster.Common.Steps.{run_each}
use booster.Session.Running.{
  stopped, restarting, returned, closing, over, Runner, started, Event, restarts, hears_run_close,
  hears_restart, routine_returns, routines_end, hears_error, routine_returned, run_close_heard,
  waited, error_heard, run_step, runs,
}
use booster.Session.Running.Ends.{runs-stopped, race, race-IsStuck}

abbrev in_use : Bytes
in_use = 98 ∷ []

abbrev failing : List Event
failing = routine_returns in_use ∷ hears_run_close ∷ routines_end ∷ hears_error ∷ []

-- The error of the routine is lost.
runs-stopped_example : stopped ≡ stopped
unfolding run_each started run_step routine_returned run_close_heard waited error_heard
runs-stopped_example =
    runs-stopped failing
      (record started { main = returned stopped; round = over; context_done = true }) stopped refl
      refl

-- A second round has begun, and one of its routines has failed.
abbrev again : List Event
again =
    restarts
    ∷ hears_restart
    ∷ routine_returns []
    ∷ routines_end
    ∷ hears_error
    ∷ routine_returns in_use
    ∷ []

race-IsStuck_example :
    (r : Runner) × (runs (race in_use) started ≡ some r)
    × ((es : List Event) (t : Runner)
        → runs es r ≡ some t
        → (t.main ≡ restarting) × (t.round ≡ closing in_use))
race-IsStuck_example = race-IsStuck in_use
