-- ===== src/PubSub/Pipeline.antt =====
-- pubsub/channel.go with the goroutine of pubsub.Sub: one subscription, as its goroutines run side
-- by side. The lock is that of the channel's topic; another topic has another lock. A schedule is the
-- list of what the goroutines do, one after the other.
pub mod Accounts
pub mod Orders
pub mod Refines
pub mod Waits
mod Examples
use booster.Common.{
  ℕ, zero, suc, ◌+◌, Bool, true, false, not, ◌&&◌, Option, none, some, List, [], ◌∷◌, ◌++◌,
  if◌then◌else◌, Bytes,
}
use booster.Common.Steps.{run_each, run_each-keeps}
use booster.Common.Result.{Result, ok, err}

-- Who has the lock of the topic: nobody, Pub in `c.sendc <- m`, or Unsub in stop, before and after
-- `c.stopc <- struct{}{}`.
pub data Holder : Type 0 where
  free : Holder
  handing : Bytes → Holder
  asking finishing : Holder

-- The goroutine of Sub: it waits for a message, with the error of the last Run; it runs the command
-- on one; it calls Unsub, for the error of Run; or it is done, and PostRun got the error.
pub data Reader : Type 0 where
  ranging : Option Bytes → Reader
  running : Bytes → Reader
  failing : Bytes → Reader
  ended : Option Bytes → Reader

-- `looping` is the goroutine of run, `out_open` tells that the output channel is not closed, and
-- `in_place` that the topic has the channel. `pending` has the messages of the goroutines that send,
-- `timers` counts those of them that wait in stop. `accepted`, `delivered` and `dropped` record what
-- became of the messages.
pub record Pipe : Type 0 where
  pub active : Bool
  pub looping : Bool
  pub out_open : Bool
  pub in_place : Bool
  pub holder : Holder
  pub reader : Reader
  pub timers : ℕ
  pub pending : List Bytes
  pub accepted : List Bytes
  pub delivered : List Bytes
  pub dropped : List Bytes

-- A subscription right after Sub.
unfoldable pub subscribed : Pipe
subscribed = record {
  active = true;
  looping = true;
  out_open = true;
  in_place = true;
  holder = free;
  reader = ranging none;
  timers = 0;
  pending = [];
  accepted = [];
  delivered = [];
  dropped = [];
}

pub data Action : Type 0 where
  publishes : Bytes → Action
  hears_message : Action
  delivers expires : ℕ → Action
  hears_timer unsubscribes hears_unsub deactivates closes_out : Action
  run_returns : Option Bytes → Action
  unsub_returns range_ends : Action

-- One of the goroutines that send is taken out, with its message.
unfoldable pub take_out {ℓ} : {A : Type ℓ} → ℕ → List A → Option (A × List A)
take_out i [] = none
take_out zero (m ∷ ms) = some (m, ms)
take_out (suc i) (m ∷ ms) = elim (take_out i ms) [ none ↦ none | some (x, r) ↦ some (x, m ∷ r) ]

-- Pub at this channel: a channel that is not active, or no longer there, is passed over.
unfoldable pub pub_begins : Bytes → Pipe → Option Pipe
pub_begins m p = elim p.holder [
  | free ↦ some (if p.in_place && p.active then record p { holder = handing m } else p)
  | _ ↦ none
]

-- `case m := <-c.sendc: go send(m)`
unfoldable pub message_heard : Pipe → Option Pipe
message_heard p = elim p.holder [
  | handing m ↦
      if p.looping
      then some (record p {
        holder = free;
        pending = p.pending ++ m ∷ [];
        accepted = p.accepted ++ m ∷ [];
      })
      else none
  | _ ↦ none
]

-- `case c.out() <- m:`
unfoldable pub put_out : ℕ → Pipe → Option Pipe
put_out i p = elim p.reader [
  | ranging e ↦
      if p.out_open
      then elim (take_out i p.pending) [
        | none ↦ none
        | some (m, rest) ↦
            some
              (record p { pending = rest; delivered = p.delivered ++ m ∷ []; reader = running m })
      ]
      else none
  | _ ↦ none
]

-- `case <-time.After(time.Second): c.stop()`, or the same after a panic, up to the send on stopc.
unfoldable pub expired : ℕ → Pipe → Option Pipe
expired i p = elim (take_out i p.pending) [
  | none ↦ none
  | some (m, rest) ↦
      let left : Pipe = record p { pending = rest; dropped = p.dropped ++ m ∷ [] } in
      some (if p.active then record left { timers = p.timers + 1 } else left)
]

-- `case <-c.stopc: return`, where the send is that of a timer, or that of Unsub.
unfoldable pub timer_heard : Pipe → Option Pipe
timer_heard p = elim p.timers [
  | zero ↦ none
  | suc n ↦ if p.looping then some (record p { timers = n; looping = false }) else none
]

unfoldable pub unsub_heard : Pipe → Option Pipe
unsub_heard p = elim p.holder [
  | asking ↦ if p.looping then some (record p { holder = finishing; looping = false }) else none
  | _ ↦ none
]

-- Unsub, up to the send on stopc; it is done with a channel that is not active or not there.
unfoldable pub unsub_begins : Pipe → Option Pipe
unsub_begins p = elim p.holder [
  | free ↦ some (
      if not p.in_place
      then p
      else if p.active
      then record p { holder = asking }
      else record p { in_place = false })
  | _ ↦ none
]

-- `c.setIsActive(false)`, in the call of stop that was heard.
unfoldable pub deactivated : Pipe → Option Pipe
deactivated p = if not p.looping && p.active then some (record p { active = false }) else none

abbrev let_go : Holder → Pipe → Pipe
let_go finishing p = record p { holder = free; in_place = false }
let_go h p = p

-- `closeChanSafe(c.ch)`, the end of that call, after which Unsub gives up the place and the lock.
unfoldable pub out_closed : Pipe → Option Pipe
out_closed p =
    if not p.active && p.out_open
    then some (let_go p.holder (record p { out_open = false }))
    else none

-- The command's Run returns.
unfoldable pub run_ends : Option Bytes → Pipe → Option Pipe
run_ends e p = elim p.reader [
  | running m ↦ some (record p { reader = elim e [ none ↦ ranging none | some x ↦ failing x ] })
  | _ ↦ none
]

-- The Unsub of the goroutine of Sub returns, when it or another call has given up the place.
unfoldable pub unsub_ends : Pipe → Option Pipe
unsub_ends p = elim p.reader [
  | failing x ↦ elim p.holder [
    | free ↦ if p.in_place then none else some (record p { reader = ranging (some x) })
    | _ ↦ none
  ]
  | _ ↦ none
]

-- The range over the output channel ends, and PostRun is called.
unfoldable pub range_over : Pipe → Option Pipe
range_over p = elim p.reader [
  | ranging e ↦ if p.out_open then none else some (record p { reader = ended e })
  | _ ↦ none
]

unfoldable pub act : Action → Pipe → Option Pipe
act (publishes m) p = pub_begins m p
act hears_message p = message_heard p
act (delivers i) p = put_out i p
act (expires i) p = expired i p
act hears_timer p = timer_heard p
act unsubscribes p = unsub_begins p
act hears_unsub p = unsub_heard p
act deactivates p = deactivated p
act closes_out p = out_closed p
act (run_returns e) p = run_ends e p
act unsub_returns p = unsub_ends p
act range_ends p = range_over p

-- A schedule, as far as its steps can be taken.
abbrev pub schedule : List Action → Pipe → Option Pipe
schedule = run_each act
