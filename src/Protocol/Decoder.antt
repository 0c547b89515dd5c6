-- ===== src/Protocol/Decoder.antt =====
-- protocol/decoder.go: the payloads read from bytes. `v` of a decoder is known by the type that it
-- points to.
use booster.Common.{ℕ, Option, none, some, List, [], ◌∷◌, ◌==◌, if◌then◌else◌, Bytes}
use booster.Common.Result.{Result, ok, err}
use booster.Protocol.Payloads.{
  Payload, PayloadType, type_of, ProtocolTunnel, PayloadNode, hello, connect, disconnect, heartbeat,
  monitor, ctrl, node, bandwidth, proxy_update, network_update, message_hello, message_connect,
  message_disconnect, message_heartbeat, message_monitor, message_ctrl, message_node_status,
  message_network_usage_update, message_proxy_update, message_network_update,
}
use booster.Protocol.Internal.{Wires, Wire, InternalTunnel, InternalNode}

pub data Error : Type 0 where
  unmarshal_failed bad_timestamp wrong_type : Error
  -- a nil message is read
  panic : Error

pub PayloadType-discrete : Discrete PayloadType
PayloadType-discrete = hlevel

-- set: the payload goes where v points to, if that has its type.
unfoldable pub set_payload : Payload → PayloadType → Result Error Payload
unfolding PayloadType-discrete
set_payload s v = elim (PayloadType-discrete v (type_of s)) [ yes e ↦ ok s | no e ↦ err wrong_type ]

-- `if err := proto.Unmarshal(p, payload); err != nil { return err }`
abbrev pub unmarshalled :
    {T : Type 0} → Wire T → Bytes → (T → Result Error Payload) → Result Error Payload
unmarshalled w raw f = elim (w.unmarshal raw) [ none ↦ err unmarshal_failed | some t ↦ f t ]

unfoldable pub tunnels_from : List InternalTunnel → List ProtocolTunnel
tunnels_from [] = []
tunnels_from (t ∷ ts) = record { id = t.id; target = t.target; copies = t.copies } ∷ tunnels_from ts

unfoldable pub node_from_internal : InternalNode → PayloadNode
unfolding tunnels_from
node_from_internal d = record {
  id = d.id;
  baddr = d.baddr;
  paddr = d.paddr;
  active = d.active;
  tunnels = tunnels_from d.tunnels;
}

module _ (w : Wires) (v : PayloadType) where
  unfoldable pub decode_hello : Bytes → Result Error Payload
  decode_hello p =
      unmarshalled w.of_hello p
        λ d. set_payload (hello (record { bport = d.bport; pport = d.pport })) v

  unfoldable pub decode_ctrl : Bytes → Result Error Payload
  decode_ctrl p =
      unmarshalled w.of_ctrl p λ d. set_payload (ctrl (record { operation = d.operation })) v

  unfoldable pub decode_bandwidth : Bytes → Result Error Payload
  decode_bandwidth p = unmarshalled w.of_bandwidth p λ d.
      set_payload
        (bandwidth (record {
          node_id = d.node_id;
          tot = d.tot;
          bandwidth = d.bandwidth;
          direction = d.direction;
        }))
        v

  unfoldable pub decode_monitor : Bytes → Result Error Payload
  decode_monitor p =
      unmarshalled w.of_monitor p λ d. set_payload (monitor (record { feature = d.feature })) v

  unfoldable pub decode_connect : Bytes → Result Error Payload
  decode_connect p =
      unmarshalled w.of_connect p λ d. set_payload (connect (record { target = d.target })) v

  unfoldable pub decode_disconnect : Bytes → Result Error Payload
  decode_disconnect p =
      unmarshalled w.of_disconnect p λ d. set_payload (disconnect (record { id = d.id })) v

  unfoldable pub decode_node : Bytes → Result Error Payload
  decode_node p = unmarshalled w.of_node p λ d. set_payload (node (node_from_internal d)) v

  unfoldable pub decode_heartbeat : Bytes → Result Error Payload
  decode_heartbeat p = unmarshalled w.of_heartbeat p λ d. elim d.ttl [
    | none ↦ err bad_timestamp
    | some s ↦ elim (w.timestamp s) [
      | none ↦ err bad_timestamp
      | some t ↦ set_payload (heartbeat (record { id = d.id; hops = d.hops; ttl = t })) v
    ]
  ]

  unfoldable pub decode_proxy_update : Bytes → Result Error Payload
  decode_proxy_update p = unmarshalled w.of_proxy_update p λ d.
      set_payload
        (proxy_update (record { node_id = d.node_id; target = d.target; operation = d.operation }))
        v

  -- nodeFromInternal reads the tunnels of a nil node, if the message has no node.
  unfoldable pub decode_network_update : Bytes → Result Error Payload
  decode_network_update p = unmarshalled w.of_network_update p λ d. elim d.remote_node [
    | none ↦ err panic
    | some n ↦
        set_payload
          (network_update (record {
            node_id = d.node_id;
            remote_node = node_from_internal n;
            operation = d.operation;
          }))
          v
  ]

  -- The map PayloadDecoders.
  unfoldable pub payload_decoders : ℕ → Option (Bytes → Result Error Payload)
  payload_decoders m =
      if m == message_hello
      then some decode_hello
      else if m == message_connect
      then some decode_connect
      else if m == message_disconnect
      then some decode_disconnect
      else if m == message_heartbeat
      then some decode_heartbeat
      else if m == message_monitor
      then some decode_monitor
      else if m == message_ctrl
      then some decode_ctrl
      else if m == message_node_status
      then some decode_node
      else if m == message_network_usage_update
      then some decode_bandwidth
      else if m == message_proxy_update
      then some decode_proxy_update
      else if m == message_network_update
      then some decode_network_update
      else none
