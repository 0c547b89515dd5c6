-- ===== src/Protocol/Encoder.antt =====
-- protocol/encoder.go: the payloads as bytes. `int64(x)` keeps an `int`, and `int32(x)` an
-- Operation or a MonitorFeature, which are int32 themselves.
use booster.Common.{ℕ, Option, none, some, List, [], ◌∷◌, ◌==◌, if◌then◌else◌, Bytes}
use booster.Common.Result.{Result, ok, err}
use booster.Common.Int.{int32}
use booster.Protocol.Payloads.{
  Payload, ProtocolTunnel, PayloadNode, hello, connect, disconnect, heartbeat, monitor, ctrl, node,
  bandwidth, proxy_update, network_update, message_hello, message_connect, message_disconnect,
  message_heartbeat, message_monitor, message_ctrl, message_node_status,
  message_network_usage_update, message_proxy_update, message_network_update,
}
use booster.Protocol.Internal.{Wires, Wire, InternalTunnel, InternalNode}

pub data Error : Type 0 where
  conversion_fail marshal_failed bad_timestamp : Error

-- `return proto.Marshal(p)`
abbrev pub marshalled : {T : Type 0} → Wire T → T → Result Error Bytes
marshalled w t = elim (w.marshal t) [ none ↦ err marshal_failed | some raw ↦ ok raw ]

unfoldable pub internal_tunnels : List ProtocolTunnel → List InternalTunnel
internal_tunnels [] = []
internal_tunnels (t ∷ ts) =
    record { id = t.id; target = t.target; copies = int32 t.copies } ∷ internal_tunnels ts

unfoldable pub node_to_internal : PayloadNode → InternalNode
unfolding internal_tunnels
node_to_internal d = record {
  id = d.id;
  baddr = d.baddr;
  paddr = d.paddr;
  active = d.active;
  tunnels = internal_tunnels d.tunnels;
}

module _ (w : Wires) where
  unfoldable pub encode_hello : Payload → Result Error Bytes
  encode_hello (hello d) = marshalled w.of_hello (record { pport = d.pport; bport = d.bport })
  encode_hello v = err conversion_fail

  unfoldable pub encode_ctrl : Payload → Result Error Bytes
  encode_ctrl (ctrl d) = marshalled w.of_ctrl (record { operation = d.operation })
  encode_ctrl v = err conversion_fail

  unfoldable pub encode_bandwidth : Payload → Result Error Bytes
  encode_bandwidth (bandwidth d) = marshalled w.of_bandwidth (record {
    node_id = d.node_id;
    tot = d.tot;
    bandwidth = d.bandwidth;
    direction = d.direction;
  })
  encode_bandwidth v = err conversion_fail

  unfoldable pub encode_monitor : Payload → Result Error Bytes
  encode_monitor (monitor d) = marshalled w.of_monitor (record { feature = d.feature })
  encode_monitor v = err conversion_fail

  unfoldable pub encode_connect : Payload → Result Error Bytes
  encode_connect (connect d) = marshalled w.of_connect (record { target = d.target })
  encode_connect v = err conversion_fail

  unfoldable pub encode_disconnect : Payload → Result Error Bytes
  encode_disconnect (disconnect d) = marshalled w.of_disconnect (record { id = d.id })
  encode_disconnect v = err conversion_fail

  unfoldable pub encode_node : Payload → Result Error Bytes
  encode_node (node d) = marshalled w.of_node (node_to_internal d)
  encode_node v = err conversion_fail

  unfoldable pub encode_heartbeat : Payload → Result Error Bytes
  encode_heartbeat (heartbeat d) = elim (w.timestamp_proto d.ttl) [
    | none ↦ err bad_timestamp
    | some t ↦ marshalled w.of_heartbeat (record { id = d.id; ttl = some t; hops = int32 d.hops })
  ]
  encode_heartbeat v = err conversion_fail

  unfoldable pub encode_proxy_update : Payload → Result Error Bytes
  encode_proxy_update (proxy_update d) =
      marshalled w.of_proxy_update
        (record { node_id = d.node_id; target = d.target; operation = d.operation })
  encode_proxy_update v = err conversion_fail

  unfoldable pub encode_network_update : Payload → Result Error Bytes
  encode_network_update (network_update d) = marshalled w.of_network_update (record {
    node_id = d.node_id;
    remote_node = some (node_to_internal d.remote_node);
    operation = d.operation;
  })
  encode_network_update v = err conversion_fail

  -- The map PayloadEncoders.
  unfoldable pub payload_encoders : ℕ → Option (Payload → Result Error Bytes)
  payload_encoders m =
      if m == message_hello
      then some encode_hello
      else if m == message_connect
      then some encode_connect
      else if m == message_disconnect
      then some encode_disconnect
      else if m == message_heartbeat
      then some encode_heartbeat
      else if m == message_monitor
      then some encode_monitor
      else if m == message_ctrl
      then some encode_ctrl
      else if m == message_node_status
      then some encode_node
      else if m == message_network_usage_update
      then some encode_bandwidth
      else if m == message_proxy_update
      then some encode_proxy_update
      else if m == message_network_update
      then some encode_network_update
      else none
