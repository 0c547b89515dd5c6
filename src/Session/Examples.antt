-- ===== src/Session/Examples.antt =====
-- Sessions of two nodes at the hosts `h` and `l`.
use booster.Common.{
  ap, ◌∙◌, sym, ℕ, ◌≡◌, refl, Option, none, some, List, [], ◌∷◌, ◌++◌, arith, false, true, Bytes,
  ◌==◌, if◌then◌else◌, All,
}
use booster.Common.Result.{err, ok}
use booster.Common.Dict.{lookup, insert}
use booster.Packet.Types.{Packet}
use booster.Packet.Stream.{eof}
use booster.Packet.Codec.{blank}
use booster.Packet.Wire.{wire}
use booster.Packet.Decoder.Reads.{stream}
use booster.Protocol.{version, Header, module_payload}
use booster.Protocol.Payloads.{hello_type, message_hello}
use booster.Protocol.Examples.{wires, wires-AreFaithful}
use booster.Node.State.{Node, Environment}
use booster.Network.State.{already_present, Conn, Network}
use mathlib.Core.List.{append-nil}
use booster.Packet.Decoder.RoundTrip.{IsPacket}
use booster.Network.Messages.Delivered.{encode_default-IsPacket}
use booster.Network.Messages.{network_decode, read_header, encode_default}
use booster.Network.Messages.Exchanged.{payload_codecs, exchange_lem}
use booster.Network.Messages.Exchanged.Examples.{json}
use booster.Network.Messages.Examples.{proto, proto-Marshals, header_module}
use booster.Link.{open_conn}
use booster.Session.{
  network_error, dial_context, Outside, World, raw, send_hello, recv_hello, new_conn,
}
use booster.Session.Config.{default_net_config}
use booster.Session.Hello.{greeting, dial_context-hello, recv_hello-send_hello}
use booster.Session.Wire.{wire_to}
use booster.Session.Refusals.{wire_to-present, removal}

abbrev pub hello_packet : Packet
hello_packet = record {
  metadata = record { encoding = 1; compression = 1; encryption = 1 };
  modules =
      (b'H' ∷ b'E' ∷ [], header_module 1 (module_payload ∷ []))
      ∷ (module_payload, record { id = module_payload; size = 3; payload = 1 ∷ b'8' ∷ b'9' ∷ [] })
      ∷ [];
}

abbrev pub outside : Outside
outside = record {
  pb = proto;
  wires = wires;
  json = λ v. json;
  node_env = record { resolve = some; digest = λ image. image };
  dial = λ target. ok (blank 200, stream (wire default_net_config.tag_set hello_packet) eof);
  host = λ h. b'h' ∷ [];
  close_handle = λ h. none;
}

-- The node that the hello introduces: ports 8 and 9.
abbrev pub remote : Node
remote = record {
  id = b'h' ∷ b'8' ∷ b'9' ∷ [];
  baddr = b'h' ∷ b':' ∷ b'8' ∷ [];
  paddr = b'h' ∷ b':' ∷ b'9' ∷ [];
  is_local = false;
  to_be_traced = false;
  stopped = false;
  active = false;
  tunnels = [];
}

abbrev pub entry : Conn
entry = record {
  conn = some 7;
  id = remote.id;
  booster_id = b'b' ∷ [];
  remote_node = record remote { active = true; to_be_traced = true };
}

abbrev pub local_net : Network
local_net = record {
  booster_id = b'b' ∷ [];
  local_node = record remote { id = b'l' ∷ []; is_local = true };
  outgoing = (remote.id, entry) ∷ [];
  published = [];
  traced = [];
}

abbrev quiet : booster.Link.Conn
quiet = open_conn (blank 200, stream [] eof) default_net_config

abbrev pub idle : World
idle = record {
  net = local_net;
  links = λ k. quiet;
  next = 9;
  now = 0;
  tunnel_events = [];
  services = [];
}

pub hello_made :
    encode_default proto
      (payload_codecs wires json hello_type)
      (some (greeting (b'9' ∷ []) (b'8' ∷ [])))
      message_hello
    ≡ ok hello_packet
unfolding encode_default booster.Network.Messages.network_encode
    booster.Network.Messages.header_bytes booster.Network.Messages.payload_bytes
    booster.Protocol.encode_header booster.Protocol.new_header booster.Packet.Types.add_module
    booster.Packet.Types.new_module lookup insert booster.Common.◌=ᵇ◌
    booster.Protocol.Encoder.payload_encoders booster.Protocol.Encoder.encode_hello
hello_made = refl

-- The other side has what was sent.
abbrev listening : World
listening = record idle {
  links = λ k.
      open_conn
        (
          blank 0,
          stream
              (((send_hello outside (b'9' ∷ []) (b'8' ∷ []) (raw 3) idle).1.links
                  3).outgoing.written
                ++ 5 ∷ [])
              eof,
        )
        default_net_config;
}

recv_hello-send_hello_example :
    ((send_hello outside (b'9' ∷ []) (b'8' ∷ []) (raw 3) idle).0 ≡ ok tt)
    × ((recv_hello outside 4 listening).0 ≡ ok (new_conn outside 4 remote listening))
    × ((recv_hello outside 4 listening).1.net ≡ local_net)
unfolding booster.Packet.Wire.wire_modules booster.Node.State.new booster.Node.State.join_host_port
    mathlib.Core.List.flatten
recv_hello-send_hello_example =
    recv_hello-send_hello outside idle listening (b'9' ∷ []) (b'8' ∷ []) 3 4 hello_packet remote
      (stream [] eof) (blank 0) 200 (5 ∷ []) eof proto-Marshals wires-AreFaithful hello_made
      (omega arith) refl refl refl

abbrev pub dialled : Conn
dialled = record { conn = some 9; id = remote.id; booster_id = b'b' ∷ []; remote_node = remote }

pub hello_read :
    network_decode proto (payload_codecs wires json hello_type) hello_packet module_payload
    ≡ ok (greeting (b'9' ∷ []) (b'8' ∷ []))
unfolding booster.Packet.Wire.wire_modules
hello_read =
    (exchange_lem proto proto-Marshals wires wires-AreFaithful json
      (greeting (b'9' ∷ []) (b'8' ∷ [])) message_hello hello_packet (stream [] eof) (blank 0) 200 []
      eof hello_made (omega arith)).2

pub remote_resolved :
    booster.Node.State.new outside.node_env (b'h' ∷ []) (b'9' ∷ []) (b'8' ∷ []) false ≡ ok remote
unfolding booster.Node.State.new booster.Node.State.join_host_port mathlib.Core.List.flatten
remote_resolved = refl

pub hello-IsPacket : IsPacket hello_packet
hello-IsPacket =
    (encode_default-IsPacket proto proto-Marshals (payload_codecs wires json hello_type)
      (some (greeting (b'9' ∷ []) (b'8' ∷ []))) message_hello hello_packet hello_made).0

dial_is :
    (s' : World) × (dial_context outside (b'h' ∷ []) idle ≡ (ok dialled, s')) × (s'.net ≡ local_net)
unfolding new_conn
dial_is =
    dial_context-hello outside idle (b'h' ∷ []) (b'9' ∷ []) (b'8' ∷ []) hello_packet remote
      (blank 200) [] eof hello-IsPacket (omega arith) hello_read
      (ap (λ bs. ok (blank 200, stream bs eof)) (sym (append-nil _))) remote_resolved

pub entry_there : lookup remote.id local_net.outgoing ≡ some entry
unfolding lookup booster.Common.◌=ᵇ◌
entry_there = refl

wire_to-present_example :
    let after = wire_to outside (b'h' ∷ []) idle in
    (after.0 ≡ err (network_error (already_present remote.id)))
    × (after.1.net.outgoing ≡ dial_is.0.net.outgoing)
    × (after.1.net.published ≡ dial_is.0.net.published ++ removal dial_is.0.net remote ∷ [])
wire_to-present_example =
    wire_to-present outside (b'h' ∷ []) idle dial_is.0 dialled entry 7 dial_is.1 refl
      (ap (λ n. lookup remote.id n.outgoing) dial_is.2 ∙ entry_there) refl
