-- ===== src/Protocol/RoundTrip.antt =====
-- The payload decoders read back what the payload encoders wrote.
use booster.Common.{
  ℕ, ◌≡◌, refl, ap, ◌∙◌, Bool, true, false, Option, none, some, arith, ◌==◌, if◌then◌else◌, Bytes,
}
use booster.Common.Result.{Result, ok}
use booster.Protocol.Payloads.{
  message_network_update, message_proxy_update, message_network_usage_update, message_node_status,
  message_ctrl, message_monitor, message_heartbeat, message_disconnect, message_connect,
  message_hello, Payload, type_of,
}
use booster.Protocol.Internal.{Wires, AreFaithful}
use booster.Protocol.Encoder.{
  internal_tunnels, node_to_internal, marshalled, encode_hello, encode_ctrl, encode_bandwidth,
  encode_monitor, encode_connect, encode_disconnect, encode_node, encode_heartbeat,
  encode_proxy_update, encode_network_update, payload_encoders,
}
use booster.Protocol.Decoder.{
  set_payload, unmarshalled, tunnels_from, node_from_internal, decode_hello, decode_ctrl,
  decode_bandwidth, decode_monitor, decode_connect, decode_disconnect, decode_node,
  decode_heartbeat, decode_proxy_update, decode_network_update, payload_decoders,
}
use booster.Protocol.Kinds.{
  narrow, decode-encode_hello, decode-encode_ctrl, decode-encode_bandwidth, decode-encode_monitor,
  decode-encode_connect, decode-encode_disconnect, decode-encode_proxy_update, decode-encode_node,
  decode-encode_network_update, decode-encode_heartbeat,
}

abbrev Encode : Type 0
Encode = Payload → Result booster.Protocol.Encoder.Error Bytes

abbrev Decode : Type 0
Decode = Bytes → Result booster.Protocol.Decoder.Error Payload

module _ (w : Wires) (laws : AreFaithful w) where
  module _ (v : Payload) (raw : Bytes) where
    -- The decoder of a kind goes with its encoder.
    pub record Paired (enc : Option Encode) (dec : Option Decode) : Type 0 where
      pub decoder :
          (f : Encode)
          → enc ≡ some f
          → f v ≡ ok raw
          → (g : Decode) × (dec ≡ some g) × (g raw ≡ ok (narrow v))

    paired :
        {f : Encode} {g : Decode}
        → (f v ≡ ok raw → g raw ≡ ok (narrow v))
        → Paired (some f) (some g)
    paired {f} {g} back = record {
      decoder = λ f' e h. (g, refl, back (ap (λ o. elim o [ none ↦ f' v | some x ↦ x v ]) e ∙ h));
    }

    neither : Paired none none
    neither = record { decoder = λ f e h. absurd (ground arith) }

    either :
        (b : Bool) {e e' : Option Encode} {d d' : Option Decode}
        → Paired e d
        → Paired e' d'
        → Paired (if b then e else e') (if b then d else d')
    either true p q = p
    either false p q = q

    kinds-Paired : (msg : ℕ) → Paired (payload_encoders w msg) (payload_decoders w (type_of v) msg)
    unfolding payload_encoders payload_decoders
    kinds-Paired msg = either (msg == message_hello) (paired (decode-encode_hello w laws v raw)) (
        either (msg == message_connect) (paired (decode-encode_connect w laws v raw)) (
          either (msg == message_disconnect) (paired (decode-encode_disconnect w laws v raw)) (
            either (msg == message_heartbeat) (paired (decode-encode_heartbeat w laws v raw)) (
              either (msg == message_monitor) (paired (decode-encode_monitor w laws v raw)) (
                either (msg == message_ctrl) (paired (decode-encode_ctrl w laws v raw)) (
                  either (msg == message_node_status) (paired (decode-encode_node w laws v raw)) (
                    either (msg == message_network_usage_update)
                      (paired (decode-encode_bandwidth w laws v raw))
                      (either (msg == message_proxy_update)
                        (paired (decode-encode_proxy_update w laws v raw))
                        (either (msg == message_network_update)
                          (paired (decode-encode_network_update w laws v raw)) neither)))))))))

    -- What a payload encoder made of a value is read by the decoder of the same message, into a
    -- variable of the value's type, as that value with its tunnels' copies and its hops cut to 32
    -- bits. The protobuf package keeps its laws.
    pub payload_decoders-payload_encoders :
        (msg : ℕ) (f : Encode)
        → payload_encoders w msg ≡ some f
        → f v ≡ ok raw
        → (g : Decode) × (payload_decoders w (type_of v) msg ≡ some g) × (g raw ≡ ok (narrow v))
    payload_decoders-payload_encoders msg = (kinds-Paired msg).decoder
