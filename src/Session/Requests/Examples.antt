-- ===== src/Session/Requests/Examples.antt =====
-- Requests for a node that is connected.
use booster.Common.{
  ap, ◌∙◌, sym, ℕ, ◌≡◌, refl, Option, none, some, List, [], ◌∷◌, ◌++◌, arith, false, true, Bytes,
  ◌==◌, if◌then◌else◌, All,
}
use booster.Common.Result.{ok}
use booster.Common.Dict.{lookup}
use booster.Packet.Types.{Packet}
use booster.Protocol.{version, Header, module_payload}
use booster.Protocol.Payloads.{disconnect, disconnect_type, hello_type}
use booster.Protocol.Examples.{wires}
use booster.Network.Messages.{network_decode, read_header, encode_default}
use booster.Network.Messages.Exchanged.{payload_codecs}
use booster.Network.Messages.Exchanged.Examples.{json}
use booster.Network.Messages.Examples.{proto, header_module}
use booster.Session.{payload_of, raw, joined}
use booster.Session.Handlers.{handle_disconnect, handle_packets}
use booster.Session.Requests.{handle_packets-lookup, IsHarmless}
use booster.Session.Disconnected.{handle_disconnect_lem, disconnected, hung_up}
use booster.Session.Examples.{outside, idle, local_net, remote, entry, entry_there, hello_packet}

-- A request to disconnect the node.
abbrev farewell : Packet
farewell = record {
  metadata = record { encoding = 1; compression = 1; encryption = 1 };
  modules =
      (b'H' ∷ b'E' ∷ [], header_module 3 (module_payload ∷ []))
      ∷ (module_payload, record { id = module_payload; size = 3; payload = remote.id })
      ∷ [];
}

farewell_read :
    payload_of outside disconnect_type farewell idle
    ≡ (ok (disconnect (record { id = remote.id })), idle)
unfolding payload_of booster.Network.Messages.network_decode read_header
    booster.Packet.Types.find_module lookup booster.Common.◌=ᵇ◌ booster.Protocol.decode_header
    booster.Network.Messages.validate_packet booster.Protocol.is_version_supported
    booster.Network.Messages.all_present booster.Network.Messages.payload_decoder
    booster.Protocol.Decoder.payload_decoders booster.Protocol.Decoder.decode_disconnect
    booster.Protocol.Decoder.set_payload
farewell_read = refl

handle_disconnect_lem_example :
    (handle_disconnect outside (joined remote.id) farewell idle).1.net
    ≡ hung_up (joined remote.id) (disconnected remote.id entry local_net)
handle_disconnect_lem_example =
    handle_disconnect_lem outside (joined remote.id) 7 farewell idle remote.id entry farewell_read
      entry_there refl λ h. refl

abbrev hello_head : Header
hello_head = record {
  id = 1;
  protocol_version = version;
  sent_at = 4;
  modules = module_payload ∷ [];
}

hello_header : read_header proto (payload_codecs wires json hello_type) hello_packet ≡ ok hello_head
unfolding read_header booster.Packet.Types.find_module lookup booster.Common.◌=ᵇ◌
    booster.Protocol.decode_header
hello_header = refl

hello-IsHarmless : IsHarmless outside hello_packet
hello-IsHarmless = record {
  asks = λ head h.
      let same : ok hello_head ≡ ok head = sym hello_header ∙ h in
      (λ e. ground (arith, same, e), λ e. ground (arith, same, e));
}

handle_packets-lookup_example :
    lookup remote.id (handle_packets outside (raw 3) (hello_packet ∷ []) idle).1.net.outgoing
    ≡ some entry
handle_packets-lookup_example =
    handle_packets-lookup outside 3 7 (hello_packet ∷ []) idle remote.id entry refl
      (hello-IsHarmless, tt) entry_there
