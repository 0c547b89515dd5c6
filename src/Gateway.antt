-- ===== src/Gateway.antt =====
-- cmd/monitor-gateway/commands/start.go: the start command, and the handler of a websocket
-- connection as steps of its goroutines.
pub mod Crashes
mod Examples
use booster.Common.{
  ℕ, zero, suc, Bool, true, false, not, ◌&&◌, Option, none, some, List, [], ◌∷◌, if◌then◌else◌,
  Bytes, ◌=ᵇ◌,
}
use booster.Common.Steps.{run_each}
use booster.Common.Int.{ℤ, pos}
use booster.Common.Result.{Result, ok, err}
use booster.Node.State.{Environment}
use booster.Session.Services.{monitor_node, monitor_net}
use booster.Session.Nets.{Error, Networks, new_booster}

pub record Monitor : Type 0 where
  pub target : Bytes
  pub feature : Bytes
  pub booster_node : Bytes

abbrev node_feature : Bytes
node_feature = b'n' ∷ b'o' ∷ b'd' ∷ b'e' ∷ []

abbrev net_feature : Bytes
net_feature = b'n' ∷ b'e' ∷ b't' ∷ []

-- `localhost:4884`
abbrev default_target : Bytes
default_target =
    b'l' ∷ b'o' ∷ b'c' ∷ b'a' ∷ b'l' ∷ b'h' ∷ b'o' ∷ b's' ∷ b't' ∷ b':' ∷ b'4' ∷ b'8' ∷ b'8' ∷ b'4'
    ∷ []

-- `switch m.feature`
unfoldable pub asked : Bytes → ℤ
asked f =
    if f =ᵇ node_feature then monitor_node else if f =ᵇ net_feature then monitor_net else pos 0

module _ (env : Environment) (itoa : ℤ → Bytes) where
  abbrev monitored : Bytes → Bytes → Result Error Bytes × Networks → Result Error Monitor × Networks
  monitored t f (ok id, nets) = (ok (record { target = t; feature = f; booster_node = id }), nets)
  monitored t f (err e, nets) = (err e, nets)

  -- newMonitor; it panics with the error of New.
  unfoldable pub new_monitor : Bytes → Bytes → ℤ → ℤ → Networks → Result Error Monitor × Networks
  new_monitor t f pp bp nets = monitored t f (new_booster env itoa pp bp nets)

  abbrev addr : List Bytes → Bytes
  addr [] = default_target
  addr (a ∷ args) = a

  -- The start command, up to the server; it has one argument at most.
  unfoldable pub start : List Bytes → Bytes → ℤ → ℤ → Networks → Result Error Monitor × Networks
  start args feature pport bport nets = new_monitor feature (addr args) bport pport nets

-- `count` is the WaitGroup's, which panics below zero; `crashed` is a panic of a goroutine, which ends
-- the process. `monitoring` is the goroutine of Monitor, `reading` that of the reads. The ticker puts
-- its ticks into a channel of one place until it is stopped, and `pinging` is the writing of a ping.
pub record Handler : Type 0 where
  pub count : ℕ
  pub crashed : Bool
  pub monitoring : Bool
  pub reading : Bool
  pub ticking : Bool
  pub ticked : Bool
  pub pinging : Bool
  pub conn_open : Bool
  pub cancelled : Bool
  pub returned : Bool

-- A handler whose call of Monitor has succeeded, or failed: then `fail` and `wg.Done()` were called.
unfoldable pub handling : Bool → Handler
handling succeeded = record {
  count = if succeeded then 1 else 0;
  crashed = false;
  monitoring = succeeded;
  reading = true;
  ticking = true;
  ticked = false;
  pinging = false;
  conn_open = succeeded;
  cancelled = not succeeded;
  returned = false;
}

-- The end of the reads; what the ticker and the goroutine that pings do; what Monitor's goroutine
-- does: it hears the end of the context, or it gets what is no packet with a payload from the
-- connection, or the connection ends; and the end of `wg.Wait()`.
pub data Event : Type 0 where
  read_fails ticks takes_tick ping_written ping_fails : Event
  hears_done packet_refused stream_ends wait_ends : Event

-- `fail`
abbrev fail : Handler → Handler
fail h = record h { conn_open = false; cancelled = true }

-- `wg.Done()`
unfoldable pub done : Handler → Handler
done h = elim h.count [ zero ↦ record h { crashed = true } | suc n ↦ record h { count = n } ]

-- PostRun, which Monitor's goroutine calls before it returns.
abbrev post_run : Handler → Handler
post_run h = done (fail (record h { monitoring = false }))

-- At the end of its connection, Monitor's goroutine reads the module of a nil packet, and panics. The
-- handler returns with its deferred calls.
unfoldable pub acts : Event → Handler → Option Handler
acts read_fails h = if h.reading then some (fail (record h { reading = false })) else none
acts ticks h = if h.ticking then some (record h { ticked = true }) else none
acts takes_tick h =
    if h.ticked && not h.pinging then some (record h { ticked = false; pinging = true }) else none
acts ping_written h = if h.pinging && h.conn_open then some (record h { pinging = false }) else none
acts ping_fails h = if h.pinging then some (done (fail (record h { pinging = false }))) else none
acts hears_done h = if h.monitoring && h.cancelled then some (post_run h) else none
acts packet_refused h = if h.monitoring then some (post_run h) else none
acts stream_ends h = if h.monitoring then some (record h { crashed = true }) else none
acts wait_ends h = elim h.count [
  | zero ↦ if h.returned then none else some (record (fail h) { returned = true; ticking = false })
  | suc n ↦ none
]

-- Nothing follows a crash.
unfoldable pub handler_step : Event → Handler → Option Handler
handler_step e h = if h.crashed then none else acts e h

abbrev pub handles : List Event → Handler → Option Handler
handles = run_each handler_step
