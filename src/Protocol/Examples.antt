-- ===== src/Protocol/Examples.antt =====
-- A protobuf package that can be run: a message is its fields, of the kinds below.
use booster.Common.{
  drop, drop-append, ◌++◌, length, take, take-append, ◌∙◌, zero, suc, ◌≡◌, refl, sym, ap, Option,
  none, some, [], ◌∷◌, Bytes, arith, ℕ,
}
use booster.Common.Result.{Result, ok}
use booster.Common.Int.{negsuc, ℤ, int32, pos}
use booster.Protocol.Payloads.{heartbeat, heartbeat_type, Payload, type_of, connect}
use booster.Protocol.Internal.{
  InternalCtrl, InternalProxyUpdate, InternalDisconnect, InternalHello, InternalHeartbeat, Wires,
  Wire, AreFaithful, IsFaithful, InternalConnect,
}
use booster.Protocol.Encoder.{encode_heartbeat, payload_encoders}
use booster.Protocol.Decoder.{decode_heartbeat, payload_decoders}
use booster.Protocol.RoundTrip.{payload_decoders-payload_encoders}
use booster.Protocol.Kinds.{narrow, decode-encode_heartbeat}
use booster.Protocol.Typing.{carried, payload_decoders-type_of}

-- The kind is not marshalled.
abbrev pub refusing : {T : Type 0} → Wire T
refusing = record { marshal = λ t. none; unmarshal = λ raw. none }

refusing-IsFaithful : {T : Type 0} → IsFaithful (refusing {T = T})
refusing-IsFaithful = record { back = λ t raw h. absurd (ground arith) }

abbrev pub connect_wire : Wire InternalConnect
connect_wire = record {
  marshal = λ t. some t.target;
  unmarshal = λ raw. some (record { target = raw });
}

or_else : Bytes → Option Bytes → Bytes
or_else d none = d
or_else d (some a) = a

connect_wire-IsFaithful : IsFaithful connect_wire
unfolding or_else
connect_wire-IsFaithful = record {
  back = λ t raw h. ap (λ r. some (record { target = r })) (ap (or_else []) (sym h));
}

abbrev write_int : ℤ → Bytes → Bytes
write_int (pos n) raw = 0 ∷ n ∷ raw
write_int (negsuc n) raw = 1 ∷ n ∷ raw

abbrev write_heartbeat : Bytes → ℤ → Option ℕ → Option Bytes
write_heartbeat id hops none = none
write_heartbeat id hops (some t) = some (write_int hops (t ∷ id))

abbrev heartbeat_from : ℤ → Bytes → Option InternalHeartbeat
heartbeat_from hops [] = none
heartbeat_from hops (t ∷ id) = some (record { id = id; hops = hops; ttl = some t })

abbrev read_heartbeat : Bytes → Option InternalHeartbeat
read_heartbeat (zero ∷ n ∷ raw) = heartbeat_from (pos n) raw
read_heartbeat (suc s ∷ n ∷ raw) = heartbeat_from (negsuc n) raw
read_heartbeat raw = none

abbrev pub heartbeat_wire : Wire InternalHeartbeat
heartbeat_wire = record {
  marshal = λ t. write_heartbeat t.id t.hops t.ttl;
  unmarshal = read_heartbeat;
}

read-write_heartbeat :
    (id : Bytes) (hops : ℤ) (ttl : Option ℕ) (raw : Bytes)
    → write_heartbeat id hops ttl ≡ some raw
    → read_heartbeat raw ≡ some (record { id = id; hops = hops; ttl = ttl })
unfolding or_else
read-write_heartbeat id hops none raw h = absurd (ground arith)
read-write_heartbeat id (pos n) (some t) raw h = ap read_heartbeat (ap (or_else []) (sym h))
read-write_heartbeat id (negsuc n) (some t) raw h = ap read_heartbeat (ap (or_else []) (sym h))

abbrev split_hello : Bytes → Option InternalHello
split_hello [] = none
split_hello (n ∷ raw) = some (record { bport = take n raw; pport = drop n raw })

abbrev pub hello_wire : Wire InternalHello
hello_wire = record {
  marshal = λ t. some (length t.bport ∷ (t.bport ++ t.pport));
  unmarshal = split_hello;
}

hello_wire-IsFaithful : IsFaithful hello_wire
unfolding or_else
hello_wire-IsFaithful = record {
  back = λ t raw h.
      ap (λ r. split_hello (or_else [] r)) (sym h)
      ∙ rw (take-append t.bport t.pport, drop-append t.bport t.pport) refl;
}

abbrev pub disconnect_wire : Wire InternalDisconnect
disconnect_wire = record { marshal = λ t. some t.id; unmarshal = λ raw. some (record { id = raw }) }

disconnect_wire-IsFaithful : IsFaithful disconnect_wire
unfolding or_else
disconnect_wire-IsFaithful = record {
  back = λ t raw h. ap (λ r. some (record { id = or_else [] r })) (sym h);
}

abbrev update_from : ℤ → Bytes → Option InternalProxyUpdate
update_from operation [] = none
update_from operation (n ∷ raw) =
    some (record { node_id = take n raw; target = drop n raw; operation = operation })

abbrev read_update : Bytes → Option InternalProxyUpdate
read_update (zero ∷ n ∷ raw) = update_from (pos n) raw
read_update (suc s ∷ n ∷ raw) = update_from (negsuc n) raw
read_update raw = none

abbrev write_update : Bytes → Bytes → ℤ → Bytes
write_update node_id target operation = write_int operation (length node_id ∷ (node_id ++ target))

abbrev pub proxy_update_wire : Wire InternalProxyUpdate
proxy_update_wire = record {
  marshal = λ t. some (write_update t.node_id t.target t.operation);
  unmarshal = read_update;
}

read-write_update :
    (node_id target : Bytes) (operation : ℤ)
    → read_update (write_update node_id target operation)
      ≡ some (record { node_id = node_id; target = target; operation = operation })
read-write_update node_id target (pos n) =
    rw (take-append node_id target, drop-append node_id target) refl
read-write_update node_id target (negsuc n) =
    rw (take-append node_id target, drop-append node_id target) refl

proxy_update_wire-IsFaithful : IsFaithful proxy_update_wire
unfolding or_else
proxy_update_wire-IsFaithful = record {
  back = λ t raw h.
      ap (λ r. read_update (or_else [] r)) (sym h)
      ∙ read-write_update t.node_id t.target t.operation;
}

abbrev write_ctrl : ℤ → Option Bytes
write_ctrl (pos n) = some (n ∷ [])
write_ctrl (negsuc n) = none

abbrev read_ctrl : Bytes → Option InternalCtrl
read_ctrl (n ∷ []) = some (record { operation = pos n })
read_ctrl bs = none

abbrev ctrl_wire : Wire InternalCtrl
ctrl_wire = record { marshal = λ t. write_ctrl t.operation; unmarshal = read_ctrl }

read-write_ctrl :
    (z : ℤ) (bs : Bytes) → write_ctrl z ≡ some bs → read_ctrl bs ≡ some (record { operation = z })
read-write_ctrl (pos n) bs h = let is : n ∷ [] ≡ bs = ground arith in rw (← is) refl
read-write_ctrl (negsuc n) bs h = absurd (ground arith)

abbrev pub wires : Wires
wires = record {
  of_hello = hello_wire;
  of_connect = connect_wire;
  of_disconnect = disconnect_wire;
  of_heartbeat = heartbeat_wire;
  of_monitor = refusing;
  of_ctrl = ctrl_wire;
  of_node = refusing;
  of_bandwidth = refusing;
  of_proxy_update = proxy_update_wire;
  of_network_update = refusing;
  timestamp_proto = some;
  timestamp = some;
}

pub wires-AreFaithful : AreFaithful wires
wires-AreFaithful = record {
  hello = hello_wire-IsFaithful;
  connect = connect_wire-IsFaithful;
  disconnect = disconnect_wire-IsFaithful;
  heartbeat = record { back = λ t raw h. read-write_heartbeat t.id t.hops t.ttl raw h };
  monitor = refusing-IsFaithful;
  ctrl = record { back = λ t bs h. read-write_ctrl t.operation bs h };
  node = refusing-IsFaithful;
  bandwidth = refusing-IsFaithful;
  proxy_update = proxy_update_wire-IsFaithful;
  network_update = refusing-IsFaithful;
  time = λ t s h. sym h;
}

abbrev pub request : Payload
request = connect (record { target = b'h' ∷ b':' ∷ b'1' ∷ [] })

abbrev beat : Payload
beat = heartbeat (record { id = 7 ∷ []; hops = pos 0x80000001; ttl = 60 })

beat_encoded : encode_heartbeat wires beat ≡ ok (1 ∷ 0x7ffffffe ∷ 60 ∷ 7 ∷ [])
unfolding encode_heartbeat int32
beat_encoded = refl

-- The hops are past the range of an int32.
payload_decoders-payload_encoders_example :
    (g : Bytes → Result booster.Protocol.Decoder.Error Payload) × (payload_decoders wires
        (type_of beat)
        4
      ≡ some g)
    × (g (1 ∷ 0x7ffffffe ∷ 60 ∷ 7 ∷ []) ≡ ok (narrow beat))
unfolding payload_encoders
payload_decoders-payload_encoders_example =
    payload_decoders-payload_encoders wires wires-AreFaithful beat (1 ∷ 0x7ffffffe ∷ 60 ∷ 7 ∷ []) 4
      (encode_heartbeat wires) refl beat_encoded

payload_decoders-type_of_example :
    (type_of (narrow beat) ≡ heartbeat_type) × (carried 4 ≡ some (type_of (narrow beat)))
unfolding payload_decoders
payload_decoders-type_of_example =
    payload_decoders-type_of (type_of beat) wires 4 (decode_heartbeat wires (type_of beat))
      (1 ∷ 0x7ffffffe ∷ 60 ∷ 7 ∷ []) (narrow beat) refl
      (decode-encode_heartbeat wires wires-AreFaithful beat (1 ∷ 0x7ffffffe ∷ 60 ∷ 7 ∷ [])
        beat_encoded)
