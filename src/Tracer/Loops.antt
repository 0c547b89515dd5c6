-- ===== src/Tracer/Loops.antt =====
-- How many loops of a tracer listen.
use booster.Common.{ℕ, ◌+◌, ◌≤◌, List, [], ◌∷◌}
use booster.Tracer.{
  Tracer, Status, running, stopped, Signal, refreshes, stops, Step, starts, Reachable, started,
  steps,
}

-- The calls of Close that wait.
abbrev pub stops_in : List Signal → ℕ
stops_in [] = 0
stops_in (refreshes ∷ ss) = stops_in ss
stops_in (stops ∷ ss) = stops_in ss + 1

-- Close and Run take turns at the status.
abbrev pub open_runs : Status → ℕ
open_runs running = 1
open_runs stopped = 0

-- The calls of Run that set the status although it was running again by then.
abbrev pub late_starts : {t t' : Tracer} → Step t t' → ℕ
late_starts {t} (starts some_) = open_runs t.status
late_starts step = 0

abbrev pub overlaps : {t : Tracer} → Reachable t → ℕ
overlaps started = 0
overlaps (steps before step) = overlaps before + late_starts step

abbrev pub IsBounded : ℕ → Tracer → Type 0
IsBounded n t = t.loops ≤ stops_in t.waiting + open_runs t.status + n
