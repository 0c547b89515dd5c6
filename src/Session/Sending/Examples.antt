-- ===== src/Session/Sending/Examples.antt =====
-- A node that takes no more bytes.
use booster.Common.{◌≡◌, refl}
use booster.Common.Result.{err}
use booster.Packet.Codec.{blank}
use booster.Network.State.{connection_closed}
use booster.Session.{joined, network_error, send_timeout, peer_send}
use booster.Session.Sending.{send_late, send_late_lem, lost}
use booster.Session.Examples.{outside, idle, remote, entry, entry_there, hello_packet}

-- No byte goes out any more.
abbrev stuck : booster.Link.Conn → booster.Link.Conn
stuck c = record c { outgoing = blank 0 }

send_late_lem_example :
    let after = send_late outside stuck remote.id idle in
    (after.0 ≡ err send_timeout)
    × (after.1.net ≡ lost remote.id entry idle.net)
    × ((peer_send outside hello_packet (joined remote.id) after.1).0
        ≡ err (network_error connection_closed))
send_late_lem_example =
    send_late_lem outside stuck remote.id idle entry 7 hello_packet entry_there refl refl refl
