-- ===== src/Session/Subscribed/Examples.antt =====
-- The function of a subscription fails while its service is told to end.
use booster.Common.{◌≡◌, refl, false, true, none, some, List, [], ◌∷◌, Bytes}
use booster.Common.Steps.{run_each}
use booster.PubSub.Pipeline.{
  Pipe, subscribed, publishes, hears_message, delivers, run_returns, unsubscribes, hears_unsub,
  deactivates, closes_out, unsub_returns, range_ends, ended, act, unsub_begins, unsub_heard,
  deactivated, out_closed,
}
use booster.Session.Subscribed.{
  Served, serving, updating_root, returned, Event, pipe_acts, context_ends, hears_error, hears_done,
  cancel_returns, serves, serve_step, pipe_acted, done_heard, cancel_ended,
}

abbrev message : Bytes
message = 7 ∷ []

abbrev broken : Bytes
broken = 1 ∷ []

-- Unsub, up to the end of stop.
abbrev cancels : List Event → List Event
cancels es =
    pipe_acts unsubscribes
    ∷ pipe_acts hears_unsub
    ∷ pipe_acts deactivates
    ∷ pipe_acts closes_out
    ∷ cancel_returns
    ∷ es

abbrev failing_late : List Event
failing_late =
    pipe_acts (publishes message)
    ∷ pipe_acts hears_message
    ∷ pipe_acts (delivers 0)
    ∷ context_ends
    ∷ hears_done
    ∷ pipe_acts (run_returns (some broken))
    ∷ cancels (pipe_acts unsub_returns ∷ pipe_acts range_ends ∷ hears_error ∷ [])

abbrev over : Pipe
over = record subscribed {
  active = false;
  looping = false;
  out_open = false;
  in_place = false;
  reader = ended (some broken);
  accepted = message ∷ [];
  delivered = message ∷ [];
}

abbrev ended_late : Served
ended_late = record { pipe = over; stage = returned none; posted = none; context_done = true }

-- UpdateRoot returns when the context ends.
root_stops :
    serves updating_root (context_ends ∷ hears_done ∷ cancels []) serving
    ≡ some (record {
      pipe = record over {
        reader = booster.PubSub.Pipeline.ranging none;
        accepted = [];
        delivered = [];
      };
      stage = returned none;
      posted = none;
      context_done = true;
    })
unfolding run_each serving serve_step pipe_acted done_heard cancel_ended subscribed act unsub_begins
    unsub_heard deactivated out_closed
root_stops = refl
