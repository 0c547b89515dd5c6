-- ===== src/Tracer/Examples.antt =====
-- A tracer that is stopped twice before it runs again, and one that two calls run at once.
use booster.Common.{refl, [], ◌∷◌, ◌≡◌, arith}
use booster.Tracer.{
  Tracer, Reachable, started, steps, begins, starts, stops, running, new_tracer, run_begins,
  run_starts, close_tracer, received,
}
use booster.Tracer.Loops.{overlaps}

-- Both calls have read the status before one of them sets it.
abbrev both_run : Tracer
both_run = run_starts (run_starts (run_begins (run_begins new_tracer).1).1)

both_run-Reachable : Reachable both_run
unfolding run_begins run_starts new_tracer
both_run-Reachable =
    steps (steps (steps (steps started begins) begins) (starts (omega arith)))
      (starts (omega arith))

both_loop : (both_run.loops ≡ 2) × (both_run.waiting ≡ []) × (overlaps both_run-Reachable ≡ 1)
unfolding run_begins run_starts new_tracer both_run-Reachable
both_loop = (refl, refl, refl)

abbrev run_again : Tracer
run_again =
    run_starts (run_begins (close_tracer (close_tracer (run_starts (run_begins new_tracer).1)))).1

-- Both calls of Close end the loops of the run that came after them.
abbrev deaf : Tracer
deaf =
    received stops
      (record (received stops (record run_again { waiting = stops ∷ [] })) { waiting = [] })

deaf_runs : (deaf.status ≡ running) × (deaf.loops ≡ 0)
unfolding received run_begins run_starts close_tracer new_tracer
deaf_runs = (refl, refl)
