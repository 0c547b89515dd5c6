-- ===== src/Socks5/Running/Examples.antt =====
-- A server on a port that is taken, and one that is stopped while a connection is open.
use booster.Common.{not, ◌≡◌, refl, true, false, ◌≤◌, ◌⊎◌, some, none, [], ◌∷◌, Bytes}
use booster.Common.Steps.{run_each}
use booster.Socks5.Running.{
  listen_failed, failed, stopped, stopping, returned, over, waiting, leaving, accepting, refusing,
  Server, started, closes, hears_stop, listens, accepts, accept_fails, hears_done, hears_error,
  stop_heard, listened, accepted, accept_failed, done_heard, error_heard, server_step,
}
use booster.Socks5.Running.Ends.{IsOver, is_stopped, run_each-IsOver}
use booster.Socks5.Running.Stops.{CanStep, run_each-stops}

abbrev in_use : Bytes
in_use = 98 ∷ []

abbrev taken_port : Server
taken_port = record started {
  main = returned (failed (listen_failed in_use));
  serving = over;
  context_done = true;
}

run_each-IsOver_example :
    IsOver taken_port × (true ≡ not (is_stopped (failed (listen_failed in_use))))
unfolding run_each server_step started listened error_heard
run_each-IsOver_example =
    run_each-IsOver (listens (some in_use) ∷ hears_error ∷ []) taken_port
      (failed (listen_failed in_use)) refl refl

abbrev stopped_server : Server
stopped_server = record started {
  main = stopping;
  serving = waiting;
  loop = accepting;
  is_open = true;
  context_done = true;
  ticking = false;
  handled = 1;
}

abbrev leaving_server : Server
leaving_server = record stopped_server {
  serving = leaving;
  loop = refusing in_use;
  is_open = false;
}

run_each-stops_example : (2 ≤ 5) × ((stopping ≡ returned stopped) ⊎ CanStep leaving_server)
unfolding run_each server_step started listened accepted stop_heard accept_failed done_heard
run_each-stops_example =
    run_each-stops (closes ∷ listens none ∷ accepts ∷ hears_stop ∷ [])
      (accept_fails in_use ∷ hears_done ∷ []) stopped_server leaving_server refl refl refl
