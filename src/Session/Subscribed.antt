-- ===== src/Session/Subscribed.antt =====
-- booster/booster.go, booster/handlers.go, booster/network.go: UpdateRoot, serveNet, ServeStatus and
-- TraceNodes around their subscriptions, as steps of the goroutines. `errc` has no buffer.
pub mod Returns
mod Examples
use booster.Common.{Bool, true, false, Option, none, some, List, [], ◌∷◌, if◌then◌else◌, Bytes}
use booster.Common.Steps.{run_each, run_each-keeps}
use booster.PubSub.Pipeline.{Pipe, Holder, free, Reader, ended, subscribed, Action, range_ends, act}

pub data Serving : Type 0 where
  updating_root serving_net serving_status tracing_nodes : Serving

-- The service is in its `select`, in a call of `cancel`, in `<-errc` after the context is done, or it
-- has returned. `none` is the error of the context.
pub data Stage : Type 0 where
  selecting : Stage
  cancelling : Option Bytes → Stage
  draining : Stage
  returned : Option Bytes → Stage

-- `posted` is the error that PostRun sends on errc.
pub record Served : Type 0 where
  pub pipe : Pipe
  pub stage : Stage
  pub posted : Option Bytes
  pub context_done : Bool

unfoldable pub serving : Served
serving = record { pipe = subscribed; stage = selecting; posted = none; context_done = false }

pub data Event : Type 0 where
  pipe_acts : Action → Event
  context_ends hears_error hears_done cancel_returns : Event

-- `if err != nil { errc <- err }`
abbrev pub post_run : Reader → Option Bytes → Option Bytes
post_run (ended e) posted = e
post_run r posted = posted

abbrev pub posts : Action → Served → Served
posts range_ends s = record s { posted = post_run s.pipe.reader s.posted }
posts a s = s

-- The subscription goes on, and PostRun follows its end.
unfoldable pub pipe_acted : Action → Served → Option Served
pipe_acted a s = elim (act a s.pipe) [
  | none ↦ none
  | some p ↦ some (posts a (record s { pipe = p }))
]

-- Where the services go with the error that they receive from errc in their `select`.
abbrev pub failed : Serving → Option Bytes → Stage
failed updating_root e = cancelling e
failed serving_net e = returned e
failed serving_status e = returned e
failed tracing_nodes e = returned e

-- And with the one that they receive after the context is done, which is dropped.
abbrev pub drained : Serving → Stage
drained serving_status = cancelling none
drained k = returned none

-- `case err := <-errc:` and `<-errc`
unfoldable pub error_heard : Serving → Served → Option Served
error_heard k s = elim s.posted [
  | none ↦ none
  | some e ↦ elim s.stage [
    | selecting ↦ some (record s { posted = none; stage = failed k (some e) })
    | draining ↦ some (record s { posted = none; stage = drained k })
    | _ ↦ none
  ]
]

-- What follows `case <-ctx.Done():`
abbrev pub stopping : Serving → Stage
stopping serving_status = draining
stopping k = cancelling none

unfoldable pub done_heard : Serving → Served → Option Served
done_heard k s = elim s.stage [
  | selecting ↦ if s.context_done then some (record s { stage = stopping k }) else none
  | _ ↦ none
]

abbrev pub after_cancel : Serving → Option Bytes → Stage
after_cancel serving_net e = draining
after_cancel k e = returned e

-- `cancel` is Unsub, an action of the subscription; it returns once the place is given up and the
-- lock is free.
unfoldable pub cancel_ended : Serving → Served → Option Served
cancel_ended k s = elim s.stage [
  | cancelling e ↦ elim s.pipe.holder [
    | free ↦ if s.pipe.in_place then none else some (record s { stage = after_cancel k e })
    | _ ↦ none
  ]
  | _ ↦ none
]

unfoldable pub serve_step : Serving → Event → Served → Option Served
serve_step k (pipe_acts a) s = pipe_acted a s
serve_step k context_ends s = some (record s { context_done = true })
serve_step k hears_error s = error_heard k s
serve_step k hears_done s = done_heard k s
serve_step k cancel_returns s = cancel_ended k s

abbrev pub serves : Serving → List Event → Served → Option Served
serves k = run_each (serve_step k)
