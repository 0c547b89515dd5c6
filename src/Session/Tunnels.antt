-- ===== src/Session/Tunnels.antt =====
-- A tunnel event on its way: ServeStatus of one node forwards it, HandleTunnel of another takes it.
mod Examples
use booster.Common.{
  ℕ, ◌≤◌, ◌≡◌, refl, sym, ap, subst, ◌∙◌, some, none, ◌++◌, [], ◌∷◌, ◌==◌, if◌then◌else◌, Bytes,
  length, arith, ◌=ᵇ◌, =ᵇ_refl,
}
use booster.Common.Result.{Result, ok, err, resume, ◌>>=◌}
use booster.Common.Dict.{lookup, insert, lookup-insert}
use booster.Packet.Types.{Packet}
use booster.Packet.Stream.{Reader, Writer, IoError}
use booster.Packet.Wire.{wire}
use booster.Packet.Codec.{blank}
use booster.Packet.Decoder.Reads.{stream}
use booster.Protocol.Payloads.{
  Payload, PayloadProxyUpdate, proxy_update, proxy_update_type, message_proxy_update,
}
use booster.Protocol.Internal.{AreFaithful}
use booster.Node.State.{Node}
use booster.Node.Counts.{IsNode, count}
use booster.Network.State.{Conn, update_node}
use booster.Network.Updates.{tally, update_node-count}
use booster.Network.Messages.{encode_default}
use booster.Network.Messages.Headers.{Marshals}
use booster.Network.Messages.Exchanged.{payload_codecs, exchange_lem}
use booster.Link.{open_conn, send_packet, recv}
use booster.Session.{
  Outside, World, raw, compose, payload_of, on_link, update_link, peer_send, lifted, link_error,
}
use booster.Session.Config.{default_net_config}
use booster.Session.Wire.{update_conn}
use booster.Session.Handlers.{forward, handle_tunnel, with_conn}
use booster.Session.Hello.{link-update_link}
use booster.Session.Wired.{update_conn-net}

-- What goes out of an event: the id of the local node is put in.
abbrev pub outgoing_event : World → PayloadProxyUpdate → PayloadProxyUpdate
outgoing_event s pl = record pl { node_id = s.net.local_node.id }

-- A tunnel event of one node's proxy, forwarded over a connection that takes its bytes, comes to
-- the other end as a packet. When the other node handles it, for a connection of its network, that
-- connection's node is well formed again, and it counts as many tunnels to each target as the event
-- makes of the count before. The event is encoded, and the protobuf package keeps its laws.
pub handle_tunnel-forward :
    (o : Outside) (s t : World) (pl : PayloadProxyUpdate) (h : ℕ) (p : Packet) (id : Bytes)
    (c : Conn) (rd : Reader) (wr : Writer) (room : ℕ) (rest : Bytes) (f : IoError)
    → Marshals o.pb
    → AreFaithful o.wires
    → encode_default o.pb
        (payload_codecs o.wires (o.json proxy_update_type) proxy_update_type)
        (some (proxy_update (outgoing_event s pl)))
        message_proxy_update
      ≡ ok p
    → length (wire default_net_config.tag_set p) ≤ room
    → s.links h ≡ open_conn (blank room, rd) default_net_config
    → lookup id t.net.outgoing ≡ some c
    → IsNode c.remote_node
    → let sent = forward o (raw h) pl s in
      let incoming = stream ((sent.1.links h).outgoing.written ++ rest) f in
      (sent.0 ≡ ok tt)
      × ((recv (open_conn (wr, incoming) default_net_config)).0 ≡ ok p)
      × (n : Node) × (lookup id (handle_tunnel o id p t).1.net.outgoing
          ≡ some (record c { remote_node = n }))
      × IsNode n
      × ((k : Bytes) → count n k ≡ tally (pl ∷ []) k (count c.remote_node k))
unfolding forward compose peer_send on_link handle_tunnel payload_of
handle_tunnel-forward o s t pl h p id c rd wr room rest f laws faithful made fits fresh there good =
    let (all_sent, received, decoded) =
      exchange_lem o.pb laws o.wires faithful (o.json proxy_update_type)
        (proxy_update (outgoing_event s pl)) message_proxy_update p rd wr room rest f made fits in
    let sender = send_packet p (open_conn (blank room, rd) default_net_config) in
    let sending : forward o (raw h) pl s ≡ on_link h (send_packet p) s = rw (forward, made) refl in
    let wrote : (forward o (raw h) pl s).1.links h ≡ sender.1 =
      ap (λ r. r.1.links h) sending
      ∙ link-update_link h (send_packet p (s.links h)).1 s
      ∙ ap (λ x. (send_packet p x).1) fresh in
    let incoming = λ (x : booster.Link.Conn).
      open_conn (wr, stream (x.outgoing.written ++ rest) f) default_net_config in
    let r = update_node o.node_env (outgoing_event s pl) (c.remote_node, t.tunnel_events) in
    let handled : (handle_tunnel o id p t).1
        ≡ update_conn o id (λ c'. record c' { remote_node = r.1 })
            (record t { tunnel_events = r.2 }) =
      rw (handle_tunnel, decoded, with_conn, there) refl in
    let stored : lookup id (handle_tunnel o id p t).1.net.outgoing
        ≡ some (record c { remote_node = r.1 }) =
      ap (λ (x : World). lookup id x.net.outgoing) handled
      ∙ ap (λ n. lookup id n.outgoing)
          (update_conn-net o id (λ c'. record c' { remote_node = r.1 }) c
            (record t { tunnel_events = r.2 }) there)
      ∙ lookup-insert id id (record c { remote_node = r.1 }) t.net.outgoing
      ∙ rw (=ᵇ_refl id) refl in
    (
      ap (λ x. x.0) sending
          ∙ ap (λ x. lifted link_error (send_packet p x).0) fresh
          ∙ ap (lifted link_error) all_sent,
      ap (λ x. (recv (incoming x)).0) wrote ∙ ap (λ x. x.0) received,
      r.1,
      stored,
      (update_node-count o.node_env (outgoing_event s pl) c.remote_node t.tunnel_events [] good).0,
      λ k.
          (update_node-count o.node_env (outgoing_event s pl) c.remote_node t.tunnel_events k
            good).1,
    )
