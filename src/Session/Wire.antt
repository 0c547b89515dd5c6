-- ===== src/Session/Wire.antt =====
-- booster/booster.go, booster/network.go: Wire, which joins a node to the network, and the messages
-- that it sends.
use booster.Common.{ℕ, ◌+◌, true, Option, none, some, [], ◌∷◌, ◌++◌, Bytes}
use booster.Common.Int.{pos, ◌+ℤ◌}
use booster.Common.Result.{◌>>=◌, ◌>>◌, pure}
use booster.Common.Dict.{lookup, insert}
use booster.Packet.Types.{Packet}
use booster.Protocol.{message_notify}
use booster.Protocol.Payloads.{
  PayloadHeartbeat, heartbeat, node, hello_type, message_heartbeat, message_node_status,
}
use booster.Node.State.{Node, set_is_active}
use booster.Network.State.{Conn, add_conn, conn_close, build_protocol_node}
use booster.Network.Messages.{encode_default}
use booster.Network.Messages.Exchanged.{payload_codecs}
use booster.Session.{
  Outside, World, Session, joined, handling_wired, message_error, network_error, lift, lifted,
  failing, modify, compose, peer_close, peer_send, close_side, dial_context,
}

-- HeartbeatTTL, as New sets it, in nanoseconds.
abbrev pub heartbeat_ttl : ℕ
heartbeat_ttl = 8000000000

abbrev first_heartbeat : Option PayloadHeartbeat → PayloadHeartbeat
first_heartbeat none = record {
  id = b'h' ∷ b'e' ∷ b'a' ∷ b'r' ∷ b't' ∷ b'b' ∷ b'e' ∷ b'a' ∷ b't' ∷ [];
  hops = pos 0;
  ttl = 0;
}
first_heartbeat (some pl) = pl

module _ (o : Outside) where
  unfoldable pub compose_heartbeat : Option PayloadHeartbeat → Session Packet
  compose_heartbeat pl s =
      let payload = first_heartbeat pl in
      compose o
        (heartbeat (record payload { hops = payload.hops +ℤ pos 1; ttl = s.now + heartbeat_ttl }))
        message_heartbeat s

  unfoldable pub compose_node : Node → Session Packet
  compose_node n = compose o (node (build_protocol_node n)) message_node_status

  -- EncodeDefault of MessageNotify; no codec is used, for there is no payload.
  unfoldable pub compose_notify : Session Packet
  compose_notify = lift message_error (
      encode_default o.pb (payload_codecs o.wires (o.json hello_type) hello_type) none
        message_notify)

  -- Close of a connection that AddConn did not take.
  unfoldable pub close_conn : Conn → Session (Unit {0})
  close_conn c s =
      let r = conn_close o.close_handle c s.net in
      (lifted network_error r.0, close_side o c.conn (record s { net = r.2 }))

  unfoldable pub join : Conn → Session (Unit {0})
  join c s = let r = add_conn c s.net in (lifted network_error r.0, record s { net = r.1 })

  -- A change of the connection under an id.
  abbrev pub update_conn : Bytes → (Conn → Conn) → World → World
  update_conn id f s = elim (lookup id s.net.outgoing) [
    | none ↦ s
    | some c ↦ record s { net = record s.net { outgoing = insert id (f c) s.net.outgoing } }
  ]

  -- `conn.RemoteNode.SetIsActive(true); conn.RemoteNode.ToBeTraced = true`
  abbrev pub wired : Conn → Conn
  wired c = record c {
    remote_node = record (set_is_active true c.remote_node) { to_be_traced = true };
  }

  -- What Wire sends.
  unfoldable pub introduce : Bytes → Session (Unit {0})
  introduce id = do
    p ← compose_notify
    peer_send o p (joined id)
    p' ← compose_heartbeat none
    peer_send o p' (joined id)

  -- `go b.Handle(ctx, conn)`
  abbrev pub handed : Bytes → World → World
  handed id s = record s { services = s.services ++ handling_wired id ∷ [] }

  -- Wire; the result is the id of the connection. The heartbeat timer closes the connection later.
  unfoldable pub wire_to : Bytes → Session Bytes
  wire_to target = do
    conn ← dial_context o target
    failing (close_conn conn) (join conn)
    failing (peer_close o (joined conn.id)) (introduce conn.id)
    modify (update_conn conn.id wired)
    modify (handed conn.id)
    pure conn.id
