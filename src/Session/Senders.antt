-- ===== src/Session/Senders.antt =====
-- booster/senders.go: what a client asks of a node.
use booster.Common.{ℕ, Option, none, some, List, [], ◌∷◌, Bytes}
use booster.Common.Result.{ok, err, ◌>>=◌, ◌>>◌, pure, raise}
use booster.Packet.Types.{Packet, Module, find_module}
use booster.Protocol.{module_payload}
use booster.Protocol.Payloads.{
  Operation, Payload, PayloadNode, connect, disconnect, ctrl, node, node_type, message_connect,
  message_disconnect, message_ctrl,
}
use booster.Network.State.{Conn, connection_closed}
use booster.Link.{send_packet, recv}
use booster.Session.{
  Outside, Session, network_error, wrong_payload, deferred, on_link, compose, payload_of,
  dial_context,
}
use booster.Session.Wire.{close_conn}

abbrev pub as_node : Payload → Session PayloadNode
as_node (node pl) = pure pl
as_node v = raise wrong_payload

-- The network connection of a Conn, when there is one.
abbrev pub with_handle : {A : Type 0} → (ℕ → Session A) → Option ℕ → Session A
with_handle k none = raise (network_error connection_closed)
with_handle k (some h) = k h

-- Conn.Send and Conn.Recv
unfoldable pub conn_send : Packet → Conn → Session (Unit {0})
conn_send p c = with_handle (λ h. on_link h (send_packet p)) c.conn

unfoldable pub conn_recv : Conn → Session Packet
conn_recv c = with_handle (λ h. on_link h recv) c.conn

module _ (o : Outside) where
  -- Composes a request and sends it.
  abbrev pub request : Payload → ℕ → Conn → Session (Unit {0})
  request v msg conn = do p ← compose o v msg; conn_send p conn

  abbrev pub answer : Conn → Session PayloadNode
  answer conn = do p ← conn_recv conn; v ← payload_of o node_type p; as_node v

  -- Ctrl
  unfoldable pub send_ctrl : Bytes → Operation → Session (Unit {0})
  send_ctrl addr op = do
    conn ← dial_context o addr
    deferred (close_conn o conn) (request (ctrl (record { operation = op })) message_ctrl conn)

  -- Connect; the result is the id of the node.
  unfoldable pub send_connect : Bytes → Bytes → Session Bytes
  send_connect laddr raddr = do
    conn ← dial_context o laddr
    deferred (close_conn o conn) (do
      request (connect (record { target = raddr })) message_connect conn
      n ← answer conn
      pure n.id)

  -- Disconnect
  unfoldable pub send_disconnect : Bytes → Bytes → Session (Unit {0})
  send_disconnect addr id = do
    conn ← dial_context o addr
    deferred (close_conn o conn) (do
      request (disconnect (record { id = id })) message_disconnect conn
      n ← answer conn
      pure tt)

pub data MonitorEnd : Type 0 where
  run_failed : Bytes → MonitorEnd
  no_payload : booster.Packet.Types.Error → MonitorEnd
  -- a packet is read from the closed channel, and it is nil
  panic : MonitorEnd

-- The loop of Monitor, while its context lasts, over the packets that Consume gives before it closes
-- the channel.
unfoldable pub monitor_loop : (Module → Option Bytes) → List Packet → MonitorEnd
monitor_loop run [] = panic
monitor_loop run (p ∷ ps) =
    let rest = monitor_loop run ps in
    elim (find_module p module_payload) [
      | err e ↦ no_payload e
      | ok m ↦ elim (run m) [ some e ↦ run_failed e | none ↦ rest ]
    ]
