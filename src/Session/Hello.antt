-- ===== src/Session/Hello.antt =====
-- The handshake of two nodes: SendHello on the one side, RecvHello on the other.
use booster.Common.{ℕ, ◌≤◌, ◌≡◌, refl, ap, ◌∙◌, some, false, ◌++◌, Bytes, length, arith, suc}
use booster.Common.Result.{ok}
use booster.Packet.Types.{Packet}
use booster.Packet.Stream.{Reader, Writer, IoError}
use booster.Packet.Wire.{wire}
use booster.Packet.Codec.{blank}
use booster.Packet.Decoder.Reads.{stream}
use booster.Protocol.Payloads.{Payload, hello, hello_type, message_hello}
use booster.Protocol.Internal.{AreFaithful}
use booster.Node.State.{Node}
use booster.Network.Messages.{encode_default}
use booster.Network.Messages.Headers.{Marshals}
use booster.Network.Messages.Exchanged.{payload_codecs, exchange_lem, default-TagsFit}
use booster.Link.Delivery.{recv-wire}
use booster.Network.Messages.{network_decode}
use booster.Protocol.{module_payload}
use booster.Packet.Decoder.RoundTrip.{IsPacket}
use booster.Link.{open_conn, send_packet, recv}
use booster.Session.{
  Outside, World, raw, compose, payload_of, on_link, update_link, peer_send, send_hello, recv_hello,
  dial_context, lifted, link_error, new_conn, introduced,
}
use booster.Session.Config.{default_net_config}

-- The hello of a node.
abbrev pub greeting : Bytes → Bytes → Payload
greeting pport bport = hello (record { bport = bport; pport = pport })

pub link-update_link : (h : ℕ) (c : booster.Link.Conn) (s : World) → (update_link h c s).links h ≡ c
link-update_link h c s = ground arith

-- A node that sends its hello over a fresh connection, and a node that reads the connection's other
-- end: the one sends, and the other gets a connection to a node with the ports of the first, at the
-- host of the connection's remote address. The hello is encoded, the connection takes its bytes,
-- the node's addresses are resolved, and the protobuf package keeps its laws.
pub recv_hello-send_hello :
    (o : Outside) (s t : World) (pport bport : Bytes) (h k : ℕ) (p : Packet) (n : Node)
    (rd : Reader) (wr : Writer) (room : ℕ) (rest : Bytes) (f : IoError)
    → Marshals o.pb
    → AreFaithful o.wires
    → encode_default o.pb
        (payload_codecs o.wires (o.json hello_type) hello_type)
        (some (greeting pport bport))
        message_hello
      ≡ ok p
    → length (wire default_net_config.tag_set p) ≤ room
    → s.links h ≡ open_conn (blank room, rd) default_net_config
    → booster.Node.State.new o.node_env (o.host k) pport bport false ≡ ok n
    → t.links k
      ≡ open_conn
          (wr, stream (((send_hello o pport bport (raw h) s).1.links h).outgoing.written ++ rest) f)
          default_net_config
    → ((send_hello o pport bport (raw h) s).0 ≡ ok tt)
      × ((recv_hello o k t).0 ≡ ok (new_conn o k n t))
      × ((recv_hello o k t).1.net ≡ t.net)
unfolding send_hello recv_hello compose payload_of on_link peer_send introduced new_conn
recv_hello-send_hello o s t pport bport h k p n rd wr room rest f laws faithful made fits fresh
      resolved other =
    let (all_sent, received, decoded) =
      exchange_lem o.pb laws o.wires faithful (o.json hello_type) (greeting pport bport)
        message_hello p rd wr room rest f made fits in
    let sender = send_packet p (open_conn (blank room, rd) default_net_config) in
    let sending : send_hello o pport bport (raw h) s ≡ on_link h (send_packet p) s =
      rw (send_hello, made) refl in
    let wrote : (send_hello o pport bport (raw h) s).1.links h ≡ sender.1 =
      ap (λ r. r.1.links h) sending
      ∙ link-update_link h (send_packet p (s.links h)).1 s
      ∙ ap (λ c. (send_packet p c).1) fresh in
    let incoming = λ (c : booster.Link.Conn).
      open_conn (wr, stream (c.outgoing.written ++ rest) f) default_net_config in
    let got : recv (t.links k) ≡ (ok p, record (incoming sender.1) { incoming = stream rest f }) =
      ap recv (other ∙ ap incoming wrote) ∙ received in
    let heard : recv_hello o k t ≡ (
      ok (new_conn o k n t),
      update_link k (record (incoming sender.1) { incoming = stream rest f }) t,
    ) =
      rw (recv_hello, got, decoded, resolved) refl in
    (
      ap (λ r. r.0) sending
          ∙ ap (λ c. lifted link_error (send_packet p c).0) fresh
          ∙ ap (lifted link_error) all_sent,
      ap (λ r. r.0) heard,
      ap (λ r. r.1.net) heard,
    )

-- A dialled node whose first packet is its hello.
pub dial_context-hello_link :
    (o : Outside) (s : World) (target pport bport : Bytes) (p : Packet) (n : Node) (wr : Writer)
    (rest : Bytes) (f : IoError)
    → IsPacket p
    → length p.modules ≤ 255
    → network_decode o.pb (payload_codecs o.wires (o.json hello_type) hello_type) p module_payload
      ≡ ok (greeting pport bport)
    → o.dial target ≡ ok (wr, stream (wire default_net_config.tag_set p ++ rest) f)
    → booster.Node.State.new o.node_env (o.host s.next) pport bport false ≡ ok n
    → (s' : World) × (dial_context o target s ≡ (ok (new_conn o s.next n s), s'))
      × (s'.net ≡ s.net)
      × (s'.links s.next ≡ open_conn (wr, stream rest f) default_net_config)
unfolding dial_context recv_hello payload_of on_link introduced new_conn
dial_context-hello_link o s target pport bport p n wr rest f good few decoded dials resolved =
    let c =
      open_conn (wr, stream (wire default_net_config.tag_set p ++ rest) f) default_net_config in
    let s1 : World = update_link s.next c (record s { next = suc s.next }) in
    let got : recv (s1.links s.next) ≡ (ok p, open_conn (wr, stream rest f) default_net_config) =
      ap recv (link-update_link s.next c (record s { next = suc s.next }))
      ∙ recv-wire p default_net_config wr rest f default-TagsFit good few in
    (
      update_link s.next (open_conn (wr, stream rest f) default_net_config) s1,
      rw (dial_context, dials, got, decoded, resolved) refl,
      refl,
      link-update_link s.next (open_conn (wr, stream rest f) default_net_config) s1,
    )

pub dial_context-hello :
    (o : Outside) (s : World) (target pport bport : Bytes) (p : Packet) (n : Node) (wr : Writer)
    (rest : Bytes) (f : IoError)
    → IsPacket p
    → length p.modules ≤ 255
    → network_decode o.pb (payload_codecs o.wires (o.json hello_type) hello_type) p module_payload
      ≡ ok (greeting pport bport)
    → o.dial target ≡ ok (wr, stream (wire default_net_config.tag_set p ++ rest) f)
    → booster.Node.State.new o.node_env (o.host s.next) pport bport false ≡ ok n
    → (s' : World) × (dial_context o target s ≡ (ok (new_conn o s.next n s), s')) × (s'.net ≡ s.net)
dial_context-hello o s target pport bport p n wr rest f good few decoded dials resolved =
    let (s', is, same, link) =
      dial_context-hello_link o s target pport bport p n wr rest f good few decoded dials
        resolved in
    (s', is, same)
