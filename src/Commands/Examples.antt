-- ===== src/Commands/Examples.antt =====
-- A node that is told to restart.
use booster.Common.{◌≡◌, refl, sym, ap, some, none, Option, [], ◌∷◌, arith, Bytes}
use booster.Common.Int.{pos}
use booster.Common.Result.{ok}
use booster.Common.Dict.{lookup, insert}
use booster.Packet.Types.{Packet}
use booster.Protocol.{module_payload}
use booster.Protocol.Payloads.{ctrl, ctrl_type, message_ctrl}
use booster.Protocol.Examples.{wires, wires-AreFaithful}
use booster.Network.Messages.{encode_default}
use booster.Network.Messages.Exchanged.{payload_codecs}
use booster.Network.Messages.Examples.{proto-Marshals, header_module}
use booster.Session.{World, raw, dial_context, new_conn}
use booster.Session.Config.{default_net_config}
use booster.Session.Hello.{dial_context-hello_link}
use booster.Packet.Stream.{eof}
use booster.Packet.Codec.{blank}
use booster.Packet.Decoder.Reads.{stream}
use booster.Link.{open_conn, consume, consumed}
use booster.Link.Delivery.{finished}
use mathlib.Core.List.{append-nil}
use booster.Session.Handlers.{handle_packets}
use booster.Session.Examples.{
  outside, idle, remote, dialled, hello_packet, hello-IsPacket, hello_read, remote_resolved,
}
use booster.Commands.{operation_from_string, restart_word, arguments, default_addr, ctrl_command}
use booster.Commands.Performed.{Performed, ctrl_command_lem}

abbrev ctrl_packet : Packet
ctrl_packet = record {
  metadata = record { encoding = 1; compression = 1; encryption = 1 };
  modules =
      (b'H' ∷ b'E' ∷ [], header_module message_ctrl (module_payload ∷ []))
      ∷ (module_payload, record { id = module_payload; size = 1; payload = 2 ∷ [] })
      ∷ [];
}

ctrl_made :
    encode_default outside.pb
      (payload_codecs wires (outside.json ctrl_type) ctrl_type)
      (some (ctrl (record { operation = pos 2 })))
      message_ctrl
    ≡ ok ctrl_packet
unfolding encode_default booster.Network.Messages.network_encode
    booster.Network.Messages.header_bytes booster.Network.Messages.payload_bytes
    booster.Protocol.encode_header booster.Protocol.new_header booster.Packet.Types.add_module
    booster.Packet.Types.new_module lookup insert booster.Common.◌=ᵇ◌
    booster.Protocol.Encoder.payload_encoders booster.Protocol.Encoder.encode_ctrl
ctrl_made = refl

abbrev address : Bytes
address = b'h' ∷ []

dial_made :
    (s1 : World) × (dial_context outside address idle ≡ (ok dialled, s1))
    × (s1.net ≡ idle.net)
    × (s1.links 9 ≡ open_conn (blank 200, stream [] eof) default_net_config)
unfolding new_conn
dial_made =
    dial_context-hello_link outside idle address (b'9' ∷ []) (b'8' ∷ []) hello_packet remote
      (blank 200) [] eof hello-IsPacket (omega arith) hello_read
      (ap (λ bs. ok (blank 200, stream bs eof)) (sym (append-nil _))) remote_resolved

ctrl_command_lem_example :
    let client = ctrl_command outside address restart_word idle in
    let c =
      (consume (
        open_conn
          (blank 0, stream (client.1.links 9).outgoing.written eof)
          default_net_config)).1 in
    let node = handle_packets outside (raw 5) (ctrl_packet ∷ []) idle in
    (client.0 ≡ ok tt)
    × (consumed 2 c ≡ some (ctrl_packet ∷ [], finished c))
    × (node.0 ≡ ok tt)
    × Performed restart_word idle node.1
unfolding operation_from_string booster.Common.◌=ᵇ◌ booster.Packet.Wire.wire_modules
ctrl_command_lem_example =
    ctrl_command_lem outside (λ h. refl) proto-Marshals wires-AreFaithful (pos 2) ctrl_packet
      ctrl_made address restart_word idle dial_made.0 idle dialled (stream [] eof) (blank 0) 200 2
      (raw 5) refl dial_made.1 dial_made.3 (omega arith) (omega arith)

one_argument : arguments (restart_word ∷ []) ≡ some (default_addr, restart_word)
unfolding arguments
one_argument = refl
