-- ===== src/Session/Wired/Examples.antt =====
-- A node that wires with the node that says hello, and has no other connection.
use booster.Common.{◌≡◌, refl, sym, ap, [], ◌∷◌, arith}
use booster.Common.Result.{ok}
use booster.Common.Dict.{lookup}
use mathlib.Core.List.{append-nil}
use booster.Packet.Stream.{eof}
use booster.Packet.Codec.{blank}
use booster.Packet.Decoder.Reads.{stream}
use booster.Network.State.{put_conn}
use booster.Session.{World, dial_context, new_conn}
use booster.Session.Wire.{wire_to}
use booster.Session.Hello.{dial_context-hello}
use booster.Session.Wired.{Ended, wire_to_ends}
use booster.Session.Examples.{
  outside, idle, local_net, remote, dialled, hello_packet, hello-IsPacket, hello_read,
  remote_resolved,
}

abbrev alone : World
alone = record idle { net = record local_net { outgoing = [] } }

dial_alone :
    (s' : World) × (dial_context outside (b'h' ∷ []) alone ≡ (ok dialled, s'))
    × (s'.net ≡ alone.net)
unfolding new_conn
dial_alone =
    dial_context-hello outside alone (b'h' ∷ []) (b'9' ∷ []) (b'8' ∷ []) hello_packet remote
      (blank 200) [] eof hello-IsPacket (omega arith) hello_read
      (ap (λ bs. ok (blank 200, stream bs eof)) (sym (append-nil _))) remote_resolved

wire_to_ends_example :
    Ended dialled (put_conn dialled dial_alone.0.net) (wire_to outside (b'h' ∷ []) alone)
unfolding lookup
wire_to_ends_example =
    wire_to_ends outside (b'h' ∷ []) alone dial_alone.0 dialled dial_alone.1 refl
      (ap (λ n. lookup remote.id n.outgoing) dial_alone.2)
