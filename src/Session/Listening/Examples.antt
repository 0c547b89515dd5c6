-- ===== src/Session/Listening/Examples.antt =====
-- A peer that hangs up before it gets the hello, between two that do not.
use booster.Common.{◌≡◌, [], ◌∷◌, ◌++◌, map, arith}
use booster.Common.Result.{ok, err}
use booster.Packet.Stream.{Reader, eof}
use booster.Packet.Codec.{blank}
use booster.Packet.Decoder.Reads.{stream}
use booster.Network.Messages.Examples.{proto-Marshals}
use booster.Session.{Error}
use booster.Session.Examples.{outside, idle, hello_packet, hello_made}
use booster.Session.Listening.{accept_each}
use booster.Session.Listening.Accepting.{handlers, accept_each-broken}

abbrev silent : Reader
silent = stream [] eof

accept_each-broken_example :
    let end_ =
      accept_each outside
        (b'9' ∷ [])
        (b'8' ∷ [])
        (map ok ((blank 200, silent) ∷ []) ++ ok (blank 3, silent) ∷ ok (blank 200, silent) ∷ [])
        idle in
    ((e : Error) × (end_.0 ≡ err e)) × (end_.1.services ≡ idle.services ++ handlers 9 1)
unfolding booster.Packet.Wire.wire_modules
accept_each-broken_example =
    accept_each-broken outside (b'9' ∷ []) (b'8' ∷ []) hello_packet hello_made proto-Marshals
      ((blank 200, silent) ∷ []) (blank 3) silent (ok (blank 200, silent) ∷ []) idle
      (omega arith, tt) (omega arith)
