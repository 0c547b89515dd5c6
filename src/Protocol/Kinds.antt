-- ===== src/Protocol/Kinds.antt =====
-- For each kind of payload, what its decoder makes of what its encoder wrote.
use booster.Common.{
  ◌≡◌, refl, sym, ap, ◌∙◌, inl, inr, some, List, [], ◌∷◌, arith, Option-cases, Bytes,
}
use booster.Common.Result.{Result, ok}
use booster.Common.Int.{int32}
use booster.Protocol.Payloads.{
  Payload, type_of, ProtocolTunnel, PayloadNode, hello, connect, disconnect, heartbeat, monitor,
  ctrl, node, bandwidth, proxy_update, network_update,
}
use booster.Protocol.Internal.{Wires, Wire, AreFaithful, IsFaithful, InternalHeartbeat}
use booster.Protocol.Encoder.{
  internal_tunnels, node_to_internal, marshalled, encode_hello, encode_ctrl, encode_bandwidth,
  encode_monitor, encode_connect, encode_disconnect, encode_node, encode_heartbeat,
  encode_proxy_update, encode_network_update,
}
use booster.Protocol.Decoder.{
  set_payload, unmarshalled, tunnels_from, node_from_internal, decode_hello, decode_ctrl,
  decode_bandwidth, decode_monitor, decode_connect, decode_disconnect, decode_node,
  decode_heartbeat, decode_proxy_update, decode_network_update, payload_decoders,
}

-- The fields that protobuf keeps in 32 bits.
abbrev pub narrow_tunnels : List ProtocolTunnel → List ProtocolTunnel
narrow_tunnels [] = []
narrow_tunnels (t ∷ ts) = record t { copies = int32 t.copies } ∷ narrow_tunnels ts

abbrev pub narrow_node : PayloadNode → PayloadNode
narrow_node n = record n { tunnels = narrow_tunnels n.tunnels }

-- What arrives of a payload.
abbrev pub narrow : Payload → Payload
narrow (heartbeat d) = heartbeat (record d { hops = int32 d.hops })
narrow (node d) = node (narrow_node d)
narrow (network_update d) = network_update (record d { remote_node = narrow_node d.remote_node })
narrow v = v

set_payload-type : (s : Payload) → set_payload s (type_of s) ≡ ok s
unfolding set_payload
set_payload-type (hello p) = refl
set_payload-type s = refl

tunnels_from-internal :
    (ts : List ProtocolTunnel) → tunnels_from (internal_tunnels ts) ≡ narrow_tunnels ts
unfolding tunnels_from internal_tunnels
tunnels_from-internal [] = refl
tunnels_from-internal (t ∷ ts) =
    ap (λ r. record t { copies = int32 t.copies } ∷ r) (tunnels_from-internal ts)

node_from_internal-node_to_internal :
    (n : PayloadNode) → node_from_internal (node_to_internal n) ≡ narrow_node n
unfolding node_from_internal node_to_internal
node_from_internal-node_to_internal n =
    ap (λ ts. record n { tunnels = ts }) (tunnels_from-internal n.tunnels)

-- What unmarshalled runs on bytes that came from marshalled.
unmarshalled-marshalled :
    {T : Type 0} (w : Wire T) (laws : IsFaithful w) (t : T) (raw : Bytes)
    (f : T → Result booster.Protocol.Decoder.Error Payload)
    → marshalled w t ≡ ok raw
    → unmarshalled w raw f ≡ f t
unmarshalled-marshalled w laws t raw f h = elim (Option-cases (w.marshal t)) [
  | inl e ↦ absurd (ground arith)
  | inr (raw', e) ↦
      let same : raw' ≡ raw = ground arith in
      rw (unmarshalled, laws.back t raw (e ∙ ap some same)) refl
]

module _ (w : Wires) (laws : AreFaithful w) where
  pub decode-encode_hello :
      (v : Payload) (raw : Bytes)
      → encode_hello w v ≡ ok raw
      → decode_hello w (type_of v) raw ≡ ok (narrow v)
  unfolding encode_hello decode_hello set_payload
  decode-encode_hello (hello d) raw h =
      unmarshalled-marshalled w.of_hello laws.hello (record { pport = d.pport; bport = d.bport })
        raw _ h
  decode-encode_hello v raw h = absurd (ground arith)

  pub decode-encode_ctrl :
      (v : Payload) (raw : Bytes)
      → encode_ctrl w v ≡ ok raw
      → decode_ctrl w (type_of v) raw ≡ ok (narrow v)
  unfolding encode_ctrl decode_ctrl set_payload
  decode-encode_ctrl (ctrl d) raw h =
      unmarshalled-marshalled w.of_ctrl laws.ctrl (record { operation = d.operation }) raw _ h
  decode-encode_ctrl v raw h = absurd (ground arith)

  pub decode-encode_bandwidth :
      (v : Payload) (raw : Bytes)
      → encode_bandwidth w v ≡ ok raw
      → decode_bandwidth w (type_of v) raw ≡ ok (narrow v)
  unfolding encode_bandwidth decode_bandwidth set_payload
  decode-encode_bandwidth (bandwidth d) raw h =
      unmarshalled-marshalled w.of_bandwidth laws.bandwidth
        (record {
          node_id = d.node_id;
          tot = d.tot;
          bandwidth = d.bandwidth;
          direction = d.direction;
        })
        raw _ h
  decode-encode_bandwidth v raw h = absurd (ground arith)

  pub decode-encode_monitor :
      (v : Payload) (raw : Bytes)
      → encode_monitor w v ≡ ok raw
      → decode_monitor w (type_of v) raw ≡ ok (narrow v)
  unfolding encode_monitor decode_monitor set_payload
  decode-encode_monitor (monitor d) raw h =
      unmarshalled-marshalled w.of_monitor laws.monitor (record { feature = d.feature }) raw _ h
  decode-encode_monitor v raw h = absurd (ground arith)

  pub decode-encode_connect :
      (v : Payload) (raw : Bytes)
      → encode_connect w v ≡ ok raw
      → decode_connect w (type_of v) raw ≡ ok (narrow v)
  unfolding encode_connect decode_connect set_payload
  decode-encode_connect (connect d) raw h =
      unmarshalled-marshalled w.of_connect laws.connect (record { target = d.target }) raw _ h
  decode-encode_connect v raw h = absurd (ground arith)

  pub decode-encode_disconnect :
      (v : Payload) (raw : Bytes)
      → encode_disconnect w v ≡ ok raw
      → decode_disconnect w (type_of v) raw ≡ ok (narrow v)
  unfolding encode_disconnect decode_disconnect set_payload
  decode-encode_disconnect (disconnect d) raw h =
      unmarshalled-marshalled w.of_disconnect laws.disconnect (record { id = d.id }) raw _ h
  decode-encode_disconnect v raw h = absurd (ground arith)

  pub decode-encode_proxy_update :
      (v : Payload) (raw : Bytes)
      → encode_proxy_update w v ≡ ok raw
      → decode_proxy_update w (type_of v) raw ≡ ok (narrow v)
  unfolding encode_proxy_update decode_proxy_update set_payload
  decode-encode_proxy_update (proxy_update d) raw h =
      unmarshalled-marshalled w.of_proxy_update laws.proxy_update
        (record { node_id = d.node_id; target = d.target; operation = d.operation }) raw _ h
  decode-encode_proxy_update v raw h = absurd (ground arith)

  pub decode-encode_node :
      (v : Payload) (raw : Bytes)
      → encode_node w v ≡ ok raw
      → decode_node w (type_of v) raw ≡ ok (narrow v)
  unfolding encode_node decode_node set_payload
  decode-encode_node (node d) raw h =
      unmarshalled-marshalled w.of_node laws.node (node_to_internal d) raw _ h
      ∙ ap (λ n. ok (node n)) (node_from_internal-node_to_internal d)
  decode-encode_node v raw h = absurd (ground arith)

  pub decode-encode_network_update :
      (v : Payload) (raw : Bytes)
      → encode_network_update w v ≡ ok raw
      → decode_network_update w (type_of v) raw ≡ ok (narrow v)
  unfolding encode_network_update decode_network_update set_payload
  decode-encode_network_update (network_update d) raw h =
      unmarshalled-marshalled w.of_network_update laws.network_update
        (record {
          node_id = d.node_id;
          remote_node = some (node_to_internal d.remote_node);
          operation = d.operation;
        })
        raw _ h
      ∙ ap (λ n. ok (network_update (record d { remote_node = n })))
          (node_from_internal-node_to_internal d.remote_node)
  decode-encode_network_update v raw h = absurd (ground arith)

  pub decode-encode_heartbeat :
      (v : Payload) (raw : Bytes)
      → encode_heartbeat w v ≡ ok raw
      → decode_heartbeat w (type_of v) raw ≡ ok (narrow v)
  unfolding encode_heartbeat decode_heartbeat set_payload
  decode-encode_heartbeat (heartbeat d) raw h = elim (Option-cases (w.timestamp_proto d.ttl)) [
    | inl e ↦ absurd (ground arith)
    | inr (s, e) ↦
        let sent : InternalHeartbeat = record { id = d.id; ttl = some s; hops = int32 d.hops } in
        let is : encode_heartbeat w (heartbeat d) ≡ marshalled w.of_heartbeat sent =
          rw (encode_heartbeat, e) refl in
        unmarshalled-marshalled w.of_heartbeat laws.heartbeat sent raw _ (sym is ∙ h)
        ∙ rw (laws.time d.ttl s e) refl
  ]
  decode-encode_heartbeat v raw h = absurd (ground arith)
