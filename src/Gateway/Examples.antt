-- ===== src/Gateway/Examples.antt =====
-- A browser that goes away, and the arguments of the command.
use booster.Common.{◌≡◌, ◌⊎◌, List, ◌≤◌, refl, true, false, some, [], ◌∷◌, Bytes}
use booster.Common.Int.{pos}
use booster.Common.Result.{ok}
use booster.Common.Dict.{lookup}
use booster.Node.State.{Environment}
use booster.Network.State.{new_net}
use booster.Session.Nets.{new_booster, set_net}
use booster.Gateway.{
  handling, Handler, Event, read_fails, ticks, takes_tick, ping_fails, hears_done, acts, done,
  handles, handler_step, new_monitor, start, asked,
}
use booster.Common.Steps.{run_each}

-- The browser goes away; a ping fails before Monitor's goroutine hears that the context is done.
abbrev going : List Event
going = read_fails ∷ ticks ∷ takes_tick ∷ ping_fails ∷ []

abbrev waits_no_more : Handler
waits_no_more = record (handling true) {
  count = 0;
  reading = false;
  conn_open = false;
  cancelled = true;
}

late_crash : (t : Handler) × (handles (hears_done ∷ []) waits_no_more ≡ some t) × (t.crashed ≡ true)
unfolding run_each handler_step handling acts done
late_crash = (record waits_no_more { monitoring = false; crashed = true }, refl, refl)

abbrev env : Environment
env = record { resolve = some; digest = λ image. image }

abbrev net : Bytes
net = b'n' ∷ b'e' ∷ b't' ∷ []

-- `h:1`
abbrev address : Bytes
address = b'h' ∷ b':' ∷ b'1' ∷ []

-- The monitor is told to dial the feature, and to ask for the address.
start_swaps :
    (start env (λ n. b'1' ∷ []) (address ∷ []) net (pos 1080) (pos 4884) []).0
    ≡ ok (record { target = net; feature = address; booster_node = b'1' ∷ b'1' ∷ [] })
unfolding start new_monitor new_booster set_net lookup booster.Node.State.new new_net
    mathlib.Core.List.flatten booster.Node.State.join_host_port
start_swaps = refl

asks_nothing : asked address ≡ pos 0
unfolding asked booster.Common.◌=ᵇ◌
asks_nothing = refl
