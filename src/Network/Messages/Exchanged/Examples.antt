-- ===== src/Network/Messages/Exchanged/Examples.antt =====
-- A request that crosses a connection.
use booster.Common.{◌=ᵇ◌, ◌≡◌, refl, none, some, [], ◌∷◌, ◌++◌, arith}
use booster.Common.Result.{ok}
use booster.Packet.Types.{new_module, add_module, Packet}
use booster.Packet.Stream.{Reader, eof}
use booster.Packet.Codec.{blank}
use booster.Packet.Decoder.Reads.{stream}
use booster.Protocol.{new_header, encode_header, module_payload}
use booster.Protocol.Payloads.{Payload, type_of}
use booster.Protocol.Kinds.{narrow}
use booster.Protocol.Examples.{wires, wires-AreFaithful, request}
use booster.Network.Messages.{
  payload_bytes, header_bytes, network_encode, Codecs, encode_default, network_decode,
}
use booster.Network.Messages.Examples.{proto, proto-Marshals, header_module}
use booster.Network.Messages.Exchanged.{payload_codecs, exchange_lem}
use booster.Session.Config.{default_net_config}
use booster.Link.{open_conn, send_packet, recv}
use booster.Common.Dict.{insert, lookup}
use booster.Protocol.Encoder.{encode_connect, payload_encoders}

-- JSON is not used.
abbrev pub json : Codecs Payload
json = record {
  json_message = λ m. none;
  json_header = λ raw. none;
  json_value = λ v. none;
  json_read = λ raw. none;
  payload_encoders = λ m. none;
  payload_decoders = λ m. none;
}

abbrev connect_packet : Packet
connect_packet = record {
  metadata = record { encoding = 1; compression = 1; encryption = 1 };
  modules =
      (b'H' ∷ b'E' ∷ [], header_module 2 (module_payload ∷ []))
      ∷ (
        module_payload,
        record { id = module_payload; size = 3; payload = b'h' ∷ b':' ∷ b'1' ∷ [] },
      )
      ∷ [];
}

connect_made :
    encode_default proto (payload_codecs wires json (type_of request)) (some request) 2
    ≡ ok connect_packet
unfolding encode_default network_encode header_bytes payload_bytes encode_header new_header
    add_module new_module lookup insert ◌=ᵇ◌ payload_encoders encode_connect
connect_made = refl

abbrev quiet : Reader
quiet = stream [] eof

exchange_lem_example :
    let sender = send_packet connect_packet (open_conn (blank 200, quiet) default_net_config) in
    let incoming = stream (sender.1.outgoing.written ++ 9 ∷ []) eof in
    let receiver = open_conn (blank 0, incoming) default_net_config in
    (sender.0 ≡ ok tt)
    × (recv receiver ≡ (ok connect_packet, record receiver { incoming = stream (9 ∷ []) eof }))
    × (network_decode proto
          (payload_codecs wires json (type_of request))
          connect_packet
          module_payload
        ≡ ok (narrow request))
unfolding booster.Packet.Wire.wire_modules
exchange_lem_example =
    exchange_lem proto proto-Marshals wires wires-AreFaithful json request 2 connect_packet quiet
      (blank 0) 200 (9 ∷ []) eof connect_made (omega arith)
