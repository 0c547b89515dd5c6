-- ===== src/Session/Running.antt =====
-- booster/booster.go: Run, run, Close and Restart, as steps of their goroutines. The channels stop and
-- restart have no buffer. The four routines that run starts return with an error when they want to,
-- and each of them returns after the context has ended.
pub mod Ends
mod Examples
use booster.Common.{
  ℕ, zero, suc, ◌+◌, Bool, true, false, Option, none, some, List, [], ◌∷◌, if◌then◌else◌, Bytes,
}
use booster.Common.Steps.{run_each, run_each-keeps}

-- What Run returns: `booster: stopped`, or the error of run.
pub data RunError : Type 0 where
  stopped : RunError
  routine : Bytes → RunError

-- Run is in its `select`; in `<-errc` after a stop or a restart; or it has returned.
pub data Main : Type 0 where
  selecting stopping restarting : Main
  returned : RunError → Main

-- run is in its `<-errc`; in Close, with the error that it got; in `wg.Wait()`; in the send of the
-- error to Run; or it is over.
pub data Round : Type 0 where
  serving : Round
  closing winding offering : Bytes → Round
  over : Round

-- `closers` and `restarters` count the other calls of Close and Restart that wait; that of the
-- goroutine that traps the interrupt signal is a call of Close.
pub record Runner : Type 0 where
  pub main : Main
  pub round : Round
  pub context_done : Bool
  pub closers : ℕ
  pub restarters : ℕ

unfoldable pub started : Runner
started = record {
  main = selecting;
  round = serving;
  context_done = false;
  closers = 0;
  restarters = 0;
}

pub data Event : Type 0 where
  closes restarts hears_close hears_run_close hears_restart : Event
  routine_returns : Bytes → Event
  routines_end hears_error : Event

-- `err := <-errc` and the test of `ctx.Err()` in run
unfoldable pub routine_returned : Bytes → Runner → Option Runner
routine_returned e r = elim r.round [
  | serving ↦
      some
        (if r.context_done then record r { round = winding e } else record r { round = closing e })
  | _ ↦ none
]

-- `case <-b.stop:`, where another goroutine sends, or run does.
unfoldable pub close_heard : Runner → Option Runner
close_heard r = elim r.main [
  | selecting ↦ elim r.closers [
    | zero ↦ none
    | suc n ↦ some (record r { closers = n; main = stopping; context_done = true })
  ]
  | _ ↦ none
]

unfoldable pub run_close_heard : Runner → Option Runner
run_close_heard r = elim r.main [
  | selecting ↦ elim r.round [
    | closing e ↦ some (record r { round = winding e; main = stopping; context_done = true })
    | _ ↦ none
  ]
  | _ ↦ none
]

-- `case <-b.restart:`
unfoldable pub restart_heard : Runner → Option Runner
restart_heard r = elim r.main [
  | selecting ↦ elim r.restarters [
    | zero ↦ none
    | suc n ↦ some (record r { restarters = n; main = restarting; context_done = true })
  ]
  | _ ↦ none
]

-- `wg.Wait()`
unfoldable pub waited : Runner → Option Runner
waited r = elim r.round [ winding e ↦ some (record r { round = offering e }) | _ ↦ none ]

-- `case err := <-errc:` and the two `<-errc` of Run; after a restart the loop goes round.
abbrev pub heard : Bytes → Main → Runner → Option Runner
heard e selecting r =
    some (record r { round = over; main = returned (routine e); context_done = true })
heard e stopping r = some (record r { round = over; main = returned stopped })
heard e restarting r = some (record r { round = serving; main = selecting; context_done = false })
heard e (returned x) r = none

unfoldable pub error_heard : Runner → Option Runner
error_heard r = elim r.round [ offering e ↦ heard e r.main r | _ ↦ none ]

unfoldable pub run_step : Event → Runner → Option Runner
run_step closes r = some (record r { closers = r.closers + 1 })
run_step restarts r = some (record r { restarters = r.restarters + 1 })
run_step hears_close r = close_heard r
run_step hears_run_close r = run_close_heard r
run_step hears_restart r = restart_heard r
run_step (routine_returns e) r = routine_returned e r
run_step routines_end r = waited r
run_step hears_error r = error_heard r

abbrev pub runs : List Event → Runner → Option Runner
runs = run_each run_step
