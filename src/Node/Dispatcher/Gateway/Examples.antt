-- ===== src/Node/Dispatcher/Gateway/Examples.antt =====
-- A dial that is answered after the context has ended.
use booster.Common.{refl, true, [], ◌∷◌}
use booster.Common.Steps.{run_each}
use booster.Node.Dispatcher.Gateway.{
  cancelled, returned, sending_conn, Call, called, context_ends, dial_connects, hears_done, dialled,
  done_heard, call_step,
}
use booster.Node.Dispatcher.Gateway.Leaks.{IsLeft, run_each-IsLeft}

abbrev given_up : Call
given_up = record called { caller = returned cancelled; context_done = true }

abbrev late : Call
late = record given_up { dial = sending_conn 3 }

run_each-IsLeft_example : IsLeft cancelled (sending_conn 3)
unfolding run_each called call_step dialled done_heard
run_each-IsLeft_example =
    run_each-IsLeft (context_ends ∷ hears_done ∷ []) (dial_connects 3 ∷ []) given_up late cancelled
      refl refl refl
