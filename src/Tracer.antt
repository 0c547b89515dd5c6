-- ===== src/Tracer.antt =====
-- tracer/tracer.go: the nodes that are pinged until they answer. `loops` counts the goroutines of
-- Run that listen, or are about to. `refreshc` and `stopc` have no buffer, so a call that sends on one
-- waits until a loop receives: `waiting` has these calls, from their change of the state on. Run reads
-- the status and sets it under two locks: `starting` counts the calls between the two.
pub mod Loops
mod Examples
use booster.Common.{
  ◌≡◌, ℕ, suc, ◌+◌, ◌-◌, ◌==◌, ◌<◌, Bool, true, false, Option, none, some, List, [], ◌∷◌, ◌++◌,
  if◌then◌else◌, Bytes,
}
use booster.Common.Result.{Result, ok, err}
use booster.Common.Dict.{Dict, insert, delete}

pub data Status : Type 0 where
  running stopped : Status

-- What the waiting calls send.
pub data Signal : Type 0 where
  refreshes stops : Signal

pub data Error : Type 0 where
  already_running : Error

-- A Pinger is its id. `pinged` has the ids of each round of pings that was started.
pub record Tracer : Type 0 where
  pub conns : Dict Bytes
  pub status : Status
  pub starting : ℕ
  pub loops : ℕ
  pub waiting : List Signal
  pub pinged : List (List Bytes)

unfoldable pub new_tracer : Tracer
new_tracer = record {
  conns = [];
  status = stopped;
  starting = 0;
  loops = 0;
  waiting = [];
  pinged = [];
}

-- The test of Run: it fails if the status is running, and goes on else.
unfoldable pub run_begins : Tracer → Result Error (Unit {0}) × Tracer
run_begins t = elim t.status [
  | running ↦ (err already_running, t)
  | stopped ↦ (ok tt, record t { starting = t.starting + 1 })
]

-- The rest of Run, after the test: the status is set and a loop is started.
unfoldable pub run_starts : Tracer → Tracer
run_starts t = record t { status = running; starting = t.starting - 1; loops = t.loops + 1 }

abbrev wait : Signal → Tracer → Tracer
wait s t = record t { waiting = t.waiting ++ s ∷ [] }

-- Trace, Untrace and Close, up to the send.
unfoldable pub trace_node : Bytes → Tracer → Tracer
trace_node id t = wait refreshes (record t { conns = insert id id t.conns })

unfoldable pub untrace : Bytes → Tracer → Tracer
untrace id t = wait refreshes (record t { conns = delete id t.conns })

unfoldable pub close_tracer : Tracer → Tracer
close_tracer t = wait stops (record t { status = stopped })

abbrev pub ids : Dict Bytes → List Bytes
ids [] = []
ids ((k, p) ∷ m) = p ∷ ids m

-- `cancel = ping()`
unfoldable pub ping_all : Tracer → Tracer
ping_all t = record t { pinged = t.pinged ++ ids t.conns ∷ [] }

-- A loop receives what a call sends.
unfoldable pub received : Signal → Tracer → Tracer
received refreshes t = ping_all t
received stops t = record t { loops = t.loops - 1 }

-- A call or a part of one, what a loop receives from the call between two parts of the queue, or the end of the
-- refresh rate in a loop.
pub data Step (t : Tracer) : Tracer → Type 0 where
  begins : Step t (run_begins t).1
  starts : 0 < t.starting → Step t (run_starts t)
  traces : (id : Bytes) → Step t (trace_node id t)
  untraces : (id : Bytes) → Step t (untrace id t)
  closes : Step t (close_tracer t)
  receives :
      (before after : List Signal) (s : Signal)
      → 0 < t.loops
      → t.waiting ≡ before ++ s ∷ after
      → Step t (received s (record t { waiting = before ++ after }))
  ticks : 0 < t.loops → Step t (ping_all t)

pub data Reachable : Tracer → Type 0 where
  started : Reachable new_tracer
  steps : {t t' : Tracer} → Reachable t → Step t t' → Reachable t'
