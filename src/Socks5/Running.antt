-- ===== src/Socks5/Running.antt =====
-- socks5/socks5.go: Run, Close and ListenAndServe, as steps of Run, of the goroutine that calls
-- ListenAndServe, and of the goroutine that accepts. Their channels have no buffer. A connection's
-- Handle is a goroutine that nobody waits for.
pub mod Ends
pub mod Stops
mod Examples
use booster.Common.{ℕ, zero, suc, ◌+◌, Bool, true, false, Option, none, some, if◌then◌else◌, Bytes}

-- What ListenAndServe returns: the error of net.Listen, `cannot accept conn`, or the context's error.
pub data ServeError : Type 0 where
  listen_failed cannot_accept : Bytes → ServeError
  cancelled : ServeError

-- What Run returns: `socks5: stopped`, or the error of ListenAndServe.
pub data RunError : Type 0 where
  stopped : RunError
  failed : ServeError → RunError

-- Run is in its `select`, or in `<-errc` after a stop; or it has returned.
pub data Main : Type 0 where
  selecting stopping : Main
  returned : RunError → Main

-- ListenAndServe is in net.Listen; in its `select`; in `<-errc` after the context has ended; in the
-- send of its error to Run; or it is over.
pub data Serving : Type 0 where
  listening waiting leaving : Serving
  offering : ServeError → Serving
  over : Serving

-- The accept loop has not been started; is in Accept; sends its error; or is over.
pub data Accepting : Type 0 where
  absent accepting : Accepting
  refusing : Bytes → Accepting
  gone : Accepting

-- `closers` counts the calls of Close that wait, `handled` the connections that Handle was called on.
pub record Server : Type 0 where
  pub main : Main
  pub serving : Serving
  pub loop : Accepting
  pub is_open : Bool
  pub context_done : Bool
  pub ticking : Bool
  pub handled : ℕ
  pub closers : ℕ

unfoldable pub started : Server
started = record {
  main = selecting;
  serving = listening;
  loop = absent;
  is_open = false;
  context_done = false;
  ticking = true;
  handled = 0;
  closers = 0;
}

pub data Event : Type 0 where
  closes hears_stop : Event
  listens : Option Bytes → Event
  accepts : Event
  accept_fails : Bytes → Event
  hears_done hears_accept hears_error : Event

-- `case <-s.stop:`
unfoldable pub stop_heard : Server → Option Server
stop_heard s = elim s.main [
  | selecting ↦ elim s.closers [
    | zero ↦ none
    | suc n ↦ some (record s { closers = n; main = stopping; context_done = true; ticking = false })
  ]
  | _ ↦ none
]

-- net.Listen returns; its error, if there is one, is passed on.
unfoldable pub listened : Option Bytes → Server → Option Server
listened e s = elim s.serving [
  | listening ↦ elim e [
    | none ↦ some (record s { serving = waiting; loop = accepting; is_open = true })
    | some x ↦ some (record s { serving = offering (listen_failed x) })
  ]
  | _ ↦ none
]

-- `go s.Handle(ctx, conn)`; a listener that is closed accepts nothing.
unfoldable pub accepted : Server → Option Server
accepted s = elim s.loop [
  | accepting ↦ if s.is_open then some (record s { handled = s.handled + 1 }) else none
  | _ ↦ none
]

unfoldable pub accept_failed : Bytes → Server → Option Server
accept_failed e s = elim s.loop [ accepting ↦ some (record s { loop = refusing e }) | _ ↦ none ]

-- `case <-ctx.Done():`
unfoldable pub done_heard : Server → Option Server
done_heard s = elim s.serving [
  | waiting ↦
      if s.context_done then some (record s { serving = leaving; is_open = false }) else none
  | _ ↦ none
]

-- `case err := <-errc:` and the `<-errc` of ListenAndServe; when it returns, the listener is closed.
abbrev pub refusal_heard : Bytes → Serving → Server → Option Server
refusal_heard e waiting s =
    some (record s { serving = offering (cannot_accept e); loop = gone; is_open = false })
refusal_heard e leaving s =
    some (record s { serving = offering cancelled; loop = gone; is_open = false })
refusal_heard e _ s = none

unfoldable pub accept_heard : Server → Option Server
accept_heard s = elim s.loop [ refusing e ↦ refusal_heard e s.serving s | _ ↦ none ]

-- `case err := <-errc:` and the `<-errc` of Run; when it returns, its context is ended.
abbrev pub served : ServeError → Main → Server → Option Server
served e selecting s =
    some (record s { serving = over; main = returned (failed e); context_done = true })
served e stopping s = some (record s { serving = over; main = returned stopped })
served e (returned x) s = none

unfoldable pub error_heard : Server → Option Server
error_heard s = elim s.serving [ offering e ↦ served e s.main s | _ ↦ none ]

unfoldable pub server_step : Event → Server → Option Server
server_step closes s = some (record s { closers = s.closers + 1 })
server_step hears_stop s = stop_heard s
server_step (listens e) s = listened e s
server_step accepts s = accepted s
server_step (accept_fails e) s = accept_failed e s
server_step hears_done s = done_heard s
server_step hears_accept s = accept_heard s
server_step hears_error s = error_heard s
