-- ===== src/Session/Tunnels/Examples.antt =====
-- The event of a tunnel to `w`, forwarded by one node and handled by another.
use booster.Common.{ℕ, ◌≡◌, refl, some, none, [], ◌∷◌, ◌++◌, arith, Bytes}
use booster.Common.Int.{pos}
use booster.Common.Result.{ok}
use booster.Common.Dict.{lookup, insert}
use booster.Packet.Types.{Packet}
use booster.Packet.Stream.{eof}
use booster.Packet.Codec.{blank}
use booster.Packet.Decoder.Reads.{stream}
use booster.Protocol.{module_payload}
use booster.Protocol.Payloads.{
  PayloadProxyUpdate, proxy_update, proxy_update_type, message_proxy_update,
}
use booster.Protocol.Examples.{wires, wires-AreFaithful}
use booster.Node.State.{Node}
use booster.Node.Counts.{IsNode, count}
use booster.Network.Updates.{tally}
use booster.Network.Messages.{encode_default}
use booster.Network.Messages.Exchanged.{payload_codecs}
use booster.Network.Messages.Exchanged.Examples.{json}
use booster.Network.Messages.Examples.{proto, proto-Marshals, header_module}
use booster.Link.{open_conn, recv}
use booster.Session.{raw}
use booster.Session.Config.{default_net_config}
use booster.Session.Handlers.{forward, handle_tunnel}
use booster.Session.Tunnels.{outgoing_event, handle_tunnel-forward}
use booster.Session.Examples.{outside, idle, remote, entry, entry_there}

abbrev event : PayloadProxyUpdate
event = record { node_id = []; target = b'w' ∷ []; operation = pos 1 }

abbrev event_packet : Packet
event_packet = record {
  metadata = record { encoding = 1; compression = 1; encryption = 1 };
  modules =
      (b'H' ∷ b'E' ∷ [], header_module 10 (module_payload ∷ []))
      ∷ (
        module_payload,
        record { id = module_payload; size = 5; payload = 0 ∷ 1 ∷ 1 ∷ b'l' ∷ b'w' ∷ [] },
      )
      ∷ [];
}

event_made :
    encode_default proto
      (payload_codecs wires json proxy_update_type)
      (some (proxy_update (outgoing_event idle event)))
      message_proxy_update
    ≡ ok event_packet
unfolding encode_default booster.Network.Messages.network_encode
    booster.Network.Messages.header_bytes booster.Network.Messages.payload_bytes
    booster.Protocol.encode_header booster.Protocol.new_header booster.Packet.Types.add_module
    booster.Packet.Types.new_module lookup insert booster.Common.◌=ᵇ◌
    booster.Protocol.Encoder.payload_encoders booster.Protocol.Encoder.encode_proxy_update
event_made = refl

entry-IsNode : IsNode entry.remote_node
entry-IsNode = record { is_map = tt; tunnels = tt }

handle_tunnel-forward_example :
    let sent = forward outside (raw 3) event idle in
    let incoming = stream ((sent.1.links 3).outgoing.written ++ []) eof in
    (sent.0 ≡ ok tt)
    × ((recv (open_conn (blank 0, incoming) default_net_config)).0 ≡ ok event_packet)
    × (n : Node) × (lookup remote.id
          (handle_tunnel outside remote.id event_packet idle).1.net.outgoing
        ≡ some (record entry { remote_node = n }))
    × IsNode n
    × ((k : Bytes) → count n k ≡ tally (event ∷ []) k (count entry.remote_node k))
unfolding booster.Packet.Wire.wire_modules
handle_tunnel-forward_example =
    handle_tunnel-forward outside idle idle event 3 event_packet remote.id entry (stream [] eof)
      (blank 0) 200 [] eof proto-Marshals wires-AreFaithful event_made (omega arith) refl
      entry_there entry-IsNode
