-- ===== src/Node/Dispatcher/Gateway.antt =====
-- node/dispatcher.go: DialContext of socks5Dialer, as steps of the call and of the goroutine that
-- dials. The channels errc and connc have no buffer. What the package's dialer answers is open.
pub mod Leaks
mod Examples
use booster.Common.{ℕ, Bool, true, false, Option, none, some, if◌then◌else◌, Bytes}

pub data Answer : Type 0 where
  cancelled : Answer
  failed : Bytes → Answer
  connected : ℕ → Answer

-- DialContext is in its `select`, or it has returned.
pub data Caller : Type 0 where
  selecting : Caller
  returned : Answer → Caller

-- The goroutine is in Dial, in one of its two sends, or it is over.
pub data Dialling : Type 0 where
  dialling : Dialling
  sending_error : Bytes → Dialling
  sending_conn : ℕ → Dialling
  over : Dialling

pub record Call : Type 0 where
  pub caller : Caller
  pub dial : Dialling
  pub context_done : Bool

unfoldable pub called : Call
called = record { caller = selecting; dial = dialling; context_done = false }

pub data Event : Type 0 where
  context_ends : Event
  dial_fails : Bytes → Event
  dial_connects : ℕ → Event
  hears_done hears_error hears_conn : Event

-- `conn, err := d.dialer.Dial(network, address)`
unfoldable pub dialled : Dialling → Call → Option Call
dialled sends c = elim c.dial [ dialling ↦ some (record c { dial = sends }) | _ ↦ none ]

-- `case <-ctx.Done():`
unfoldable pub done_heard : Call → Option Call
done_heard c = elim c.caller [
  | selecting ↦ if c.context_done then some (record c { caller = returned cancelled }) else none
  | _ ↦ none
]

-- `case err := <-errc:`
unfoldable pub error_heard : Call → Option Call
error_heard c = elim c.caller [
  | selecting ↦ elim c.dial [
    | sending_error e ↦ some (record c { caller = returned (failed e); dial = over })
    | _ ↦ none
  ]
  | _ ↦ none
]

-- `case conn := <-connc:`
unfoldable pub conn_heard : Call → Option Call
conn_heard c = elim c.caller [
  | selecting ↦ elim c.dial [
    | sending_conn n ↦ some (record c { caller = returned (connected n); dial = over })
    | _ ↦ none
  ]
  | _ ↦ none
]

unfoldable pub call_step : Event → Call → Option Call
call_step context_ends c = some (record c { context_done = true })
call_step (dial_fails e) c = dialled (sending_error e) c
call_step (dial_connects n) c = dialled (sending_conn n) c
call_step hears_done c = done_heard c
call_step hears_error c = error_heard c
call_step hears_conn c = conn_heard c
