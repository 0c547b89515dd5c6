-- ===== src/Protocol/Typing.antt =====
-- What a decoder of a message can give.
use booster.Common.{
  ℕ, ◌≡◌, refl, sym, ap, subst, ◌∙◌, Bool, true, false, Option, none, some, Option-cases, inl, inr,
  arith, ◌==◌, if◌then◌else◌, Bytes,
}
use booster.Common.Result.{Result, ok, err}
use booster.Protocol.Payloads.{
  Payload, PayloadType, type_of, hello_type, connect_type, disconnect_type, heartbeat_type,
  monitor_type, ctrl_type, node_type, bandwidth_type, proxy_update_type, network_update_type,
  message_hello, message_connect, message_disconnect, message_heartbeat, message_monitor,
  message_ctrl, message_node_status, message_network_usage_update, message_proxy_update,
  message_network_update,
}
use booster.Protocol.Internal.{Wires, Wire}
use booster.Protocol.Decoder.{
  Error, wrong_type, unmarshalled, set_payload, PayloadType-discrete, decode_hello, decode_connect,
  decode_disconnect, decode_heartbeat, decode_monitor, decode_ctrl, decode_node, decode_bandwidth,
  decode_proxy_update, decode_network_update, payload_decoders,
}

-- The type of the payload that a message carries; a notification has none.
abbrev pub carried : ℕ → Option PayloadType
carried m =
    if m == message_hello
    then some hello_type
    else if m == message_connect
    then some connect_type
    else if m == message_disconnect
    then some disconnect_type
    else if m == message_heartbeat
    then some heartbeat_type
    else if m == message_monitor
    then some monitor_type
    else if m == message_ctrl
    then some ctrl_type
    else if m == message_node_status
    then some node_type
    else if m == message_network_usage_update
    then some bandwidth_type
    else if m == message_proxy_update
    then some proxy_update_type
    else if m == message_network_update
    then some network_update_type
    else none

abbrev Decoder : Type 0
Decoder = Bytes → Result Error Payload

module _ (v : PayloadType) where
  abbrev IsOf : PayloadType → Result Error Payload → Type 0
  IsOf t (ok pl) = (type_of pl ≡ t) × (t ≡ v)
  IsOf t (err e) = Unit {0}

  decided-IsOf :
      (s : Payload) (d : Dec (v ≡ type_of s))
      → IsOf (type_of s) (elim d [ yes e ↦ ok s | no e ↦ err wrong_type ])
  decided-IsOf s (yes e) = (refl, sym e)
  decided-IsOf s (no e) = tt

  set_payload-IsOf : (s : Payload) → IsOf (type_of s) (set_payload s v)
  unfolding set_payload
  set_payload-IsOf s = decided-IsOf s (PayloadType-discrete v (type_of s))

  unmarshalled-IsOf :
      {T : Type 0} (w : Wire T) (raw : Bytes) (t : PayloadType) (f : T → Result Error Payload)
      → ((d : T) → IsOf t (f d))
      → IsOf t (unmarshalled w raw f)
  unmarshalled-IsOf w raw t f h = elim (Option-cases (w.unmarshal raw)) [
    | inl e ↦ rw (e, unmarshalled) tt
    | inr (d, e) ↦ rw (e, unmarshalled) (h d)
  ]

  module _ (w : Wires) where
    decode_hello-IsOf : (raw : Bytes) → IsOf hello_type (decode_hello w v raw)
    unfolding decode_hello
    decode_hello-IsOf raw = unmarshalled-IsOf w.of_hello raw hello_type _ λ d. set_payload-IsOf _

    decode_heartbeat-IsOf : (raw : Bytes) → IsOf heartbeat_type (decode_heartbeat w v raw)
    unfolding decode_heartbeat
    decode_heartbeat-IsOf raw = unmarshalled-IsOf w.of_heartbeat raw heartbeat_type _ λ d.
        elim (Option-cases d.ttl) [
          | inl e ↦ rw e tt
          | inr (s, e) ↦ elim (Option-cases (w.timestamp s)) [
            | inl e' ↦ rw (e, e') tt
            | inr (t, e') ↦ rw (e, e') (set_payload-IsOf _)
          ]
        ]

    decode_connect-IsOf : (raw : Bytes) → IsOf connect_type (decode_connect w v raw)
    unfolding decode_connect
    decode_connect-IsOf raw =
        unmarshalled-IsOf w.of_connect raw connect_type _ λ d. set_payload-IsOf _

    decode_disconnect-IsOf : (raw : Bytes) → IsOf disconnect_type (decode_disconnect w v raw)
    unfolding decode_disconnect
    decode_disconnect-IsOf raw =
        unmarshalled-IsOf w.of_disconnect raw disconnect_type _ λ d. set_payload-IsOf _

    decode_monitor-IsOf : (raw : Bytes) → IsOf monitor_type (decode_monitor w v raw)
    unfolding decode_monitor
    decode_monitor-IsOf raw =
        unmarshalled-IsOf w.of_monitor raw monitor_type _ λ d. set_payload-IsOf _

    decode_ctrl-IsOf : (raw : Bytes) → IsOf ctrl_type (decode_ctrl w v raw)
    unfolding decode_ctrl
    decode_ctrl-IsOf raw = unmarshalled-IsOf w.of_ctrl raw ctrl_type _ λ d. set_payload-IsOf _

    decode_node-IsOf : (raw : Bytes) → IsOf node_type (decode_node w v raw)
    unfolding decode_node
    decode_node-IsOf raw = unmarshalled-IsOf w.of_node raw node_type _ λ d. set_payload-IsOf _

    decode_bandwidth-IsOf : (raw : Bytes) → IsOf bandwidth_type (decode_bandwidth w v raw)
    unfolding decode_bandwidth
    decode_bandwidth-IsOf raw =
        unmarshalled-IsOf w.of_bandwidth raw bandwidth_type _ λ d. set_payload-IsOf _

    decode_proxy_update-IsOf : (raw : Bytes) → IsOf proxy_update_type (decode_proxy_update w v raw)
    unfolding decode_proxy_update
    decode_proxy_update-IsOf raw =
        unmarshalled-IsOf w.of_proxy_update raw proxy_update_type _ λ d. set_payload-IsOf _

    decode_network_update-IsOf :
        (raw : Bytes) → IsOf network_update_type (decode_network_update w v raw)
    unfolding decode_network_update
    decode_network_update-IsOf raw =
        unmarshalled-IsOf w.of_network_update raw network_update_type _ λ d.
          elim (Option-cases d.remote_node) [
            | inl e ↦ rw e tt
            | inr (n, e) ↦ rw e (set_payload-IsOf _)
          ]

  -- The payloads of a decoder are of a type, which is the one that v points to.
  record Typed (dec : Option Decoder) (o : Option PayloadType) : Type 0 where
    decoded :
        (g : Decoder) (raw : Bytes) (pl : Payload)
        → dec ≡ some g
        → g raw ≡ ok pl
        → (type_of pl ≡ v) × (o ≡ some (type_of pl))

  typed :
      {g : Decoder} (t : PayloadType) → ((raw : Bytes) → IsOf t (g raw)) → Typed (some g) (some t)
  typed {g} t h = record {
    decoded = λ g' raw pl e e'.
        let q =
          subst (IsOf t) (ap (λ o. elim o [ none ↦ g raw | some x ↦ x raw ]) e ∙ e') (h raw) in
        (q.0 ∙ q.1, ap some (sym q.0));
  }

  untyped : Typed none none
  untyped = record { decoded = λ g raw pl e e'. absurd (ground arith) }

  either :
      (b : Bool) {d d' : Option Decoder} {o o' : Option PayloadType}
      → Typed d o
      → Typed d' o'
      → Typed (if b then d else d') (if b then o else o')
  either true p q = p
  either false p q = q

  module _ (w : Wires) where
    payload_decoders-Typed : (m : ℕ) → Typed (payload_decoders w v m) (carried m)
    unfolding payload_decoders
    payload_decoders-Typed m = either (m == message_hello) (typed _ (decode_hello-IsOf w)) (
        either (m == message_connect) (typed _ (decode_connect-IsOf w)) (
          either (m == message_disconnect) (typed _ (decode_disconnect-IsOf w)) (
            either (m == message_heartbeat) (typed _ (decode_heartbeat-IsOf w)) (
              either (m == message_monitor) (typed _ (decode_monitor-IsOf w)) (
                either (m == message_ctrl) (typed _ (decode_ctrl-IsOf w)) (
                  either (m == message_node_status) (typed _ (decode_node-IsOf w)) (
                    either (m == message_network_usage_update) (typed _ (decode_bandwidth-IsOf w)) (
                      either (m == message_proxy_update) (typed _ (decode_proxy_update-IsOf w)) (
                        either (m == message_network_update)
                          (typed _ (decode_network_update-IsOf w)) untyped)))))))))

    -- A payload that the decoder of a message reads into a variable is of the variable's type, and
    -- that is the type of the payloads which this message carries: a decoder never gives a payload
    -- of another type, whatever the protobuf package reads.
    pub payload_decoders-type_of :
        (m : ℕ) (g : Decoder) (raw : Bytes) (pl : Payload)
        → payload_decoders w v m ≡ some g
        → g raw ≡ ok pl
        → (type_of pl ≡ v) × (carried m ≡ some (type_of pl))
    payload_decoders-type_of m = (payload_decoders-Typed m).decoded
