-- ===== src/Session/Subscribed/Returns.antt =====
-- When a service returns.
use booster.Common.{◌≡◌, ◌⊎◌, Option, none, some, List, [], ◌∷◌, Bytes}
use booster.PubSub.Pipeline.{Reader, ranging, running, failing, ended, run_returns}
use booster.Session.Subscribed.{
  Serving, updating_root, serving_net, serving_status, tracing_nodes, Stage, selecting, cancelling,
  draining, returned, Served, Event, pipe_acts,
}

-- The command's Run fails with the error in one of the events.
abbrev pub Fails : Bytes → List Event → Type 0
Fails x [] = ⊥
Fails x (pipe_acts (run_returns (some e)) ∷ es) = (x ≡ e) ⊎ Fails x es
Fails x (e ∷ es) = Fails x es

module _ (E : Bytes → Type 0) where
  abbrev OfError : Option Bytes → Type 0
  OfError none = Unit {0}
  OfError (some x) = E x

  abbrev OfReader : Reader → Type 0
  OfReader (ranging e) = OfError e
  OfReader (running m) = Unit {0}
  OfReader (failing x) = E x
  OfReader (ended e) = OfError e

  abbrev OfEvent : Event → Type 0
  OfEvent (pipe_acts (run_returns e)) = OfError e
  OfEvent e = Unit {0}

  abbrev OneError : Option Bytes → Type 0
  OneError none = (x : Bytes) × E x
  OneError (some x) = E x

  -- A service gets so far only with one of the errors.
  abbrev OfStage : Serving → Stage → Type 0
  OfStage k selecting = Unit {0}
  OfStage k draining = Unit {0}
  OfStage updating_root (cancelling e) = OfError e
  OfStage tracing_nodes (cancelling e) = OfError e
  OfStage serving_net (cancelling e) = Unit {0}
  OfStage serving_status (cancelling e) = OneError e
  OfStage updating_root (returned e) = OfError e
  OfStage tracing_nodes (returned e) = OfError e
  OfStage k (returned e) = OneError e

  abbrev Knows : Serving → Served → Type 0
  Knows k s = OfReader s.pipe.reader × OfError s.posted × OfStage k s.stage

-- What a service that has returned owes to the function of its subscription.
abbrev pub Owed : List Event → Serving → Option Bytes → Type 0
Owed es k (some x) = Fails x es
Owed es updating_root none = Unit {0}
Owed es tracing_nodes none = Unit {0}
Owed es k none = (x : Bytes) × Fails x es
