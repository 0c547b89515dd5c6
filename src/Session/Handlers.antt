-- ===== src/Session/Handlers.antt =====
-- booster/handlers.go: the packets that a connection gets, and what each of them does.
use booster.Common.{ℕ, ltb, ◌==◌, false, none, some, List, [], ◌∷◌, ◌++◌, if◌then◌else◌, Bytes}
use booster.Common.Int.{◌==ℤ◌}
use booster.Common.Result.{ok, err, ◌>>=◌, ◌>>◌, pure, raise}
use booster.Common.Dict.{Dict, lookup}
use booster.Packet.Types.{Packet}
use booster.Protocol.{message_notify}
use booster.Protocol.Payloads.{
  Payload, Operation, PayloadConnect, PayloadDisconnect, PayloadHeartbeat, PayloadCtrl,
  PayloadProxyUpdate, connect, disconnect, heartbeat, ctrl, proxy_update, connect_type,
  disconnect_type, heartbeat_type, ctrl_type, proxy_update_type, hello_type, message_connect,
  message_disconnect, message_heartbeat, message_proxy_update, message_monitor, message_ctrl,
  ctrl_stop, ctrl_restart,
}
use booster.Network.State.{Conn, update_node, close_all}
use booster.Network.Messages.{read_header}
use booster.Network.Messages.Exchanged.{payload_codecs}
use booster.Session.{
  close_side, Outside, World, Session, Peer, raw, joined, Service, status, monitoring, stop,
  restart, message_error, network_error, wrong_payload, unexpected_identifier, expired,
  unexpected_message, lift, lifted, failing, deferred, modify, compose, payload_of, peer_close,
  peer_send,
}
use booster.Session.Wire.{wire_to, compose_node, compose_heartbeat, update_conn}

-- The payload of the kind that was asked for.
abbrev pub as_connect : Payload → Session PayloadConnect
as_connect (connect pl) = pure pl
as_connect v = raise wrong_payload

abbrev pub as_disconnect : Payload → Session PayloadDisconnect
as_disconnect (disconnect pl) = pure pl
as_disconnect v = raise wrong_payload

abbrev pub as_heartbeat : Payload → Session PayloadHeartbeat
as_heartbeat (heartbeat pl) = pure pl
as_heartbeat v = raise wrong_payload

abbrev pub as_ctrl : Payload → Session PayloadCtrl
as_ctrl (ctrl pl) = pure pl
as_ctrl v = raise wrong_payload

abbrev pub as_proxy_update : Payload → Session PayloadProxyUpdate
as_proxy_update (proxy_update pl) = pure pl
as_proxy_update v = raise wrong_payload

-- `conn` of the network, and what happens to its entry.
abbrev pub with_conn : {A : Type 0} → Bytes → (Conn → Session A) → Session A
with_conn id k s = elim (lookup id s.net.outgoing) [
  | none ↦ (err (unexpected_identifier id), s)
  | some c ↦ k c s
]

abbrev pub serve : Service → Session (Unit {0})
serve service = modify (λ s. record s { services = s.services ++ service ∷ [] })

abbrev pub untraced : Conn → Conn
untraced c = record c { remote_node = record c.remote_node { to_be_traced = false } }

-- An error that is logged, or not looked at.
abbrev pub dropped : {A : Type 0} → Session A → Session (Unit {0})
dropped m s = (ok tt, (m s).1)

module _ (o : Outside) where
  unfoldable pub handle_connect : Peer → Packet → Session (Unit {0})
  handle_connect peer p = deferred (peer_close o peer) (do
    v ← payload_of o connect_type p
    pl ← as_connect v
    id ← wire_to o pl.target
    q ← with_conn id λ tc. compose_node o tc.remote_node
    peer_send o q peer)

  -- The node's connection is closed, and the node is not traced.
  unfoldable pub leave : Bytes → Session (Unit {0})
  leave id = do modify (update_conn o id untraced); dropped (peer_close o (joined id))

  -- The node of a connection, as it is, goes to the peer.
  unfoldable pub send_node : Peer → Bytes → Session (Unit {0})
  send_node peer id = do q ← with_conn id λ c. compose_node o c.remote_node; peer_send o q peer

  unfoldable pub handle_disconnect : Peer → Packet → Session (Unit {0})
  handle_disconnect peer p = deferred (peer_close o peer) (do
    v ← payload_of o disconnect_type p
    pl ← as_disconnect v
    with_conn pl.id λ c. pure tt
    leave pl.id
    send_node peer pl.id)

  -- Waits for the TTL to finish, if it is not over.
  unfoldable pub wait_until : ℕ → Session (Unit {0})
  wait_until ttl s =
      if ltb ttl s.now then (err (expired ttl s.now), s) else (ok tt, record s { now = ttl })

  unfoldable pub handle_heartbeat : Peer → Packet → Session (Unit {0})
  handle_heartbeat peer p = failing (peer_close o peer) (do
    v ← payload_of o heartbeat_type p
    pl ← as_heartbeat v
    wait_until pl.ttl
    q ← compose_heartbeat o (some pl)
    peer_send o q peer)

  abbrev node_updated : Bytes → Conn → PayloadProxyUpdate → Session (Unit {0})
  node_updated id c pl s =
      let r = update_node o.node_env pl (c.remote_node, s.tunnel_events) in
      (
        lifted network_error r.0,
        update_conn o id (λ c'. record c' { remote_node = r.1 }) (record s { tunnel_events = r.2 }),
      )

  unfoldable pub handle_tunnel : Bytes → Packet → Session (Unit {0})
  handle_tunnel id p = do
    v ← payload_of o proxy_update_type p
    pl ← as_proxy_update v
    with_conn id λ c. node_updated id c pl

  -- The network connections of the entries that are closed.
  abbrev pub shut_all : Dict Conn → World → World
  shut_all [] s = s
  shut_all ((k, c) ∷ m) s = shut_all m (close_side o c.conn s)

  -- Booster.Restart; the signals themselves do not fail.
  unfoldable pub restarted : Session (Unit {0})
  restarted = do
    modify (λ s. shut_all s.net.outgoing (record s { net = close_all o.close_handle s.net }))
    serve restart

  -- `switch pl.Operation`
  abbrev pub control : Operation → Session (Unit {0})
  control op =
      if op ==ℤ ctrl_stop then serve stop else if op ==ℤ ctrl_restart then restarted else pure tt

  unfoldable pub handle_ctrl : Peer → Packet → Session (Unit {0})
  handle_ctrl peer p =
      failing (peer_close o peer)
        (do v ← payload_of o ctrl_type p; pl ← as_ctrl v; control pl.operation)

  -- HandleTunnel needs a connection of the network.
  abbrev pub tunnelled : Peer → Packet → Session (Unit {0})
  tunnelled (joined id) p = dropped (handle_tunnel id p)
  tunnelled (raw h) p = pure tt

  -- `switch h.ID`
  unfoldable pub dispatch : Peer → Packet → ℕ → Session (Unit {0})
  dispatch peer p id =
      if id == message_connect
      then dropped (handle_connect peer p)
      else if id == message_disconnect
      then dropped (handle_disconnect peer p)
      else if id == message_heartbeat
      then dropped (handle_heartbeat peer p)
      else if id == message_proxy_update
      then tunnelled peer p
      else if id == message_notify
      then serve (status peer)
      else if id == message_monitor
      then serve (monitoring peer p)
      else if id == message_ctrl
      then dropped (handle_ctrl peer p)
      else raise (unexpected_message id)

  -- The function `handler` of Handle.
  unfoldable pub handle_packet : Peer → Packet → Session (Unit {0})
  handle_packet peer p = do
    h ←
        lift message_error
          (read_header o.pb (payload_codecs o.wires (o.json hello_type) hello_type) p)
    dispatch peer p h.id

  -- The loop of Handle, over the packets that Consume gives.
  unfoldable pub handle_packets : Peer → List Packet → Session (Unit {0})
  handle_packets peer [] = pure tt
  handle_packets peer (p ∷ ps) = do
    failing (peer_close o peer) (handle_packet peer p)
    handle_packets peer ps

  -- The function of ServeStatus: an event of the local node's tunnels goes to the peer.
  unfoldable pub forward : Peer → PayloadProxyUpdate → Session (Unit {0})
  forward peer pl s =
      (do
        q ←
            compose o (proxy_update (record pl { node_id = s.net.local_node.id }))
              message_proxy_update
        peer_send o q peer)
        s
