-- ===== src/Session/Services.antt =====
-- booster/handlers.go, booster/network.go, booster/booster.go: what the goroutines of a node do for
-- each event that they get. The subscriptions themselves succeed, and last.
use booster.Common.{ℕ, none, some, Option, List, [], ◌∷◌, if◌then◌else◌, Bytes}
use booster.Common.Int.{ℤ, pos, ◌==ℤ◌}
use booster.Common.Result.{ok, err, Result, ◌>>=◌, ◌>>◌, pure, raise}
use booster.Common.Dict.{lookup}
use booster.Packet.Types.{Packet}
use booster.Protocol.{encoding_json}
use booster.Protocol.Payloads.{
  Payload, PayloadMonitor, PayloadNetworkUpdate, PayloadProxyUpdate, monitor, monitor_type, node,
  network_update, proxy_update, type_of, message_node_status, message_network_update,
  message_proxy_update,
}
use booster.Node.State.{Node}
use booster.Network.State.{nodes, build_protocol_node, update_node}
use booster.Network.Messages.{network_encode}
use booster.Network.Messages.Exchanged.{payload_codecs}
use booster.Session.{
  Outside, World, Session, Peer, Service, node_events, net_usage, untracing, lift, message_error,
  wrong_payload, failing, payload_of, peer_close, peer_send,
}
use booster.Session.Handlers.{serve, dropped}
use booster.Session.Senders.{send_connect}

abbrev pub monitor_node : ℤ
monitor_node = pos 1

abbrev pub monitor_net : ℤ
monitor_net = pos 2

abbrev pub as_monitor : Payload → Session PayloadMonitor
as_monitor (monitor pl) = pure pl
as_monitor v = raise wrong_payload

module _ (o : Outside) where
  -- Encode as JSON, with the two other bytes of the metadata.
  unfoldable pub compose_json : Payload → ℕ → ℕ → Session Packet
  compose_json v msg other = lift message_error (
      network_encode o.pb (payload_codecs o.wires (o.json (type_of v)) (type_of v)) (some v) msg
        (record { encoding = encoding_json; compression = other; encryption = other }))

  -- `sendNode`
  unfoldable pub send_state : Peer → Node → Session (Unit {0})
  send_state peer n = do
    p ← compose_json (node (build_protocol_node n)) message_node_status 1
    peer_send o p peer

  unfoldable pub send_states : Peer → List Node → Session (Unit {0})
  send_states peer [] = pure tt
  send_states peer (n ∷ ns) = do send_state peer n; send_states peer ns

  -- serveNode, up to its subscriptions.
  unfoldable pub serve_node : Peer → Session (Unit {0})
  serve_node peer s =
      let (root, ns) = nodes s.net in
      (do send_state peer root; send_states peer ns; serve (node_events peer)) s

  -- `switch pl.Feature`; the connection is closed when the feature has been served.
  abbrev pub feature : Peer → ℤ → Session (Unit {0})
  feature peer f =
      if f ==ℤ monitor_node
      then failing (peer_close o peer) (serve_node peer)
      else if f ==ℤ monitor_net
      then serve (net_usage peer)
      else dropped (peer_close o peer)

  abbrev monitored : Peer → Packet → Session PayloadMonitor
  monitored peer p = failing (peer_close o peer) (do v ← payload_of o monitor_type p; as_monitor v)

  -- ServeMonitor, up to its subscriptions.
  unfoldable pub serve_monitor : Peer → Packet → Session (Unit {0})
  serve_monitor peer p = do pl ← monitored peer p; feature peer pl.feature

  -- The functions of the two subscriptions of serveNode.
  unfoldable pub network_event : Peer → PayloadNetworkUpdate → Session (Unit {0})
  network_event peer pl = do
    p ← compose_json (network_update pl) message_network_update 0
    peer_send o p peer

  unfoldable pub tunnel_event : Peer → PayloadProxyUpdate → Session (Unit {0})
  tunnel_event peer pl = do
    p ← compose_json (proxy_update pl) message_proxy_update 0
    peer_send o p peer

  -- The function of UpdateRoot. An error is logged.
  unfoldable pub root_event : PayloadProxyUpdate → Session (Unit {0})
  root_event pl s =
      let r = update_node o.node_env pl (s.net.local_node, s.tunnel_events) in
      (ok tt, record s { net = record s.net { local_node = r.1 }; tunnel_events = r.2 })

  abbrev reconnected :
      Bytes
      → Result booster.Session.Error Bytes × World
      → Result booster.Session.Error (Unit {0}) × World
  reconnected id (ok other, s) = serve (untracing id) s
  reconnected id (err e, s) = (ok tt, s)

  -- The function of TraceNodes, for the answer of a ping: a node that is up is told to the node
  -- itself, as a client would.
  unfoldable pub ping_answered : Bytes → Option Bytes → Session (Unit {0})
  ping_answered id (some offline) s = (ok tt, s)
  ping_answered id none s = elim (lookup id s.net.outgoing) [
    | none ↦ serve (untracing id) s
    | some c ↦ reconnected id (send_connect o s.net.local_node.baddr c.remote_node.baddr s)
  ]
