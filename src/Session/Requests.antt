-- ===== src/Session/Requests.antt =====
-- What the packets of a bare connection do to the connections of the network.
mod Examples
use booster.Common.{
  [], ◌∷◌, All, List, ◌==◌, ℕ, ◌≡◌, ◌≢◌, inl, inr, Bool, true, false, some, arith, Bytes,
  if◌then◌else◌,
}
use booster.Common.Dict.{lookup}
use booster.Packet.Types.{Packet}
use booster.Protocol.Payloads.{
  message_monitor, message_proxy_update, message_heartbeat, message_connect, hello_type, Payload,
  connect, heartbeat, connect_type, heartbeat_type, message_disconnect, message_ctrl,
}
use booster.Network.State.{Conn}
use booster.Session.{World, monitoring, status, Service, peer_close, Outside, Session, raw}
use booster.Session.Wire.{compose_heartbeat, compose_node}
use booster.Session.Handlers.{
  serve, handle_packet, handle_packets, wait_until, handle_connect, handle_heartbeat, dispatch,
  dropped, as_connect, as_heartbeat,
}
use booster.Session.Entries.{Has, Keeps-wire_to}
use booster.Session.Kept.{
  Keeps-with_conn, Keeps, Keeps-bind, Keeps-failing, Keeps-deferred, Keeps-pure, Keeps-raise,
  Keeps-compose, Keeps-payload_of, Keeps-close_link, Keeps-peer_send,
}
use booster.Protocol.{message_notify, Header}
use booster.Common.Result.{ok, Result-cases}
use booster.Network.Messages.{read_header}
use booster.Network.Messages.Exchanged.{payload_codecs}

-- The packet's header, when it can be read, asks neither to disconnect nor for control.
pub record IsHarmless (o : Outside) (p : Packet) : Type 0 where
  pub asks :
      (head : Header)
      → read_header o.pb (payload_codecs o.wires (o.json hello_type) hello_type) p ≡ ok head
      → (head.id ≢ message_disconnect) × (head.id ≢ message_ctrl)

module _ (o : Outside) (j : Bytes) (c : Conn) where
  module _ {A : Type 0} where
    Keeps-if :
        (b : Bool) {m n : Session A}
        → Keeps (Has j c) m
        → Keeps (Has j c) n
        → Keeps (Has j c) (if b then m else n)
    Keeps-if true hm hn = hm
    Keeps-if false hm hn = hn

    Keeps-else :
        (b : Bool) (m : Session A) {n : Session A}
        → b ≡ false
        → Keeps (Has j c) n
        → Keeps (Has j c) (if b then m else n)
    Keeps-else b m is hn = rw is hn

    Keeps-dropped : {m : Session A} → Keeps (Has j c) m → Keeps (Has j c) (dropped m)
    Keeps-dropped {m} hm = record { keeps = λ s held. hm.keeps s held }

  Keeps-as_connect : (v : Payload) → Keeps (Has j c) (as_connect v)
  Keeps-as_connect (connect pl) = Keeps-pure (Has j c) pl
  Keeps-as_connect v = Keeps-raise (Has j c) _

  Keeps-as_heartbeat : (v : Payload) → Keeps (Has j c) (as_heartbeat v)
  Keeps-as_heartbeat (heartbeat pl) = Keeps-pure (Has j c) pl
  Keeps-as_heartbeat v = Keeps-raise (Has j c) _

  Keeps-serve : (service : Service) → Keeps (Has j c) (serve service)
  Keeps-serve service = record { keeps = λ s held. held }

  Keeps-wait : (ttl : ℕ) → Keeps (Has j c) (wait_until o ttl)
  unfolding wait_until
  Keeps-wait ttl = record { keeps = λ s held. ground (arith, held) }

  Keeps-close_raw : (h : ℕ) → Keeps (Has j c) (peer_close o (raw h))
  unfolding peer_close
  Keeps-close_raw h = Keeps-close_link (Has j c) o h

  module _ (k h : ℕ) (up : c.conn ≡ some k) where
    handle_connect-Keeps : (p : Packet) → Keeps (Has j c) (handle_connect o (raw h) p)
    unfolding handle_connect compose_node
    handle_connect-Keeps p = Keeps-deferred (Has j c) (Keeps-close_raw h) (
        Keeps-bind (Has j c) (Keeps-payload_of (Has j c) o connect_type p) λ v.
          Keeps-bind (Has j c) (Keeps-as_connect v) λ pl.
            Keeps-bind (Has j c) (Keeps-wire_to j c o k up pl.target) λ id.
              Keeps-bind (Has j c)
                (Keeps-with_conn (Has j c) id _ λ tc. Keeps-compose (Has j c) o _ _)
                λ q. Keeps-peer_send (Has j c) o q (raw h))

    handle_heartbeat-Keeps : (p : Packet) → Keeps (Has j c) (handle_heartbeat o (raw h) p)
    unfolding handle_heartbeat compose_heartbeat
    handle_heartbeat-Keeps p = Keeps-failing (Has j c) (Keeps-close_raw h) (
        Keeps-bind (Has j c) (Keeps-payload_of (Has j c) o heartbeat_type p) λ v.
          Keeps-bind (Has j c) (Keeps-as_heartbeat v) λ pl.
            Keeps-bind (Has j c) (Keeps-wait pl.ttl) λ u.
              Keeps-bind (Has j c)
                (record { keeps = λ s held. (Keeps-compose (Has j c) o _ _).keeps s held })
                λ q. Keeps-peer_send (Has j c) o q (raw h))

    dispatch-Keeps :
        (p : Packet) (id : ℕ)
        → id ≢ message_disconnect
        → id ≢ message_ctrl
        → Keeps (Has j c) (dispatch o (raw h) p id)
    unfolding dispatch
    dispatch-Keeps p id no_disconnect no_ctrl =
        let not_disconnect : (id == message_disconnect) ≡ false = ground arith in
        let not_ctrl : (id == message_ctrl) ≡ false = ground arith in
        Keeps-if (id == message_connect) (Keeps-dropped (handle_connect-Keeps p)) (
          Keeps-else (id == message_disconnect) _ not_disconnect (
            Keeps-if (id == message_heartbeat) (Keeps-dropped (handle_heartbeat-Keeps p)) (
              Keeps-if (id == message_proxy_update) (Keeps-pure (Has j c) tt) (
                Keeps-if (id == message_notify) (Keeps-serve (status (raw h))) (
                  Keeps-if (id == message_monitor) (Keeps-serve (monitoring (raw h) p))
                    (Keeps-else (id == message_ctrl) _ not_ctrl (Keeps-raise (Has j c) _)))))))

    handle_packet-Keeps :
        (p : Packet) → IsHarmless o p → Keeps (Has j c) (handle_packet o (raw h) p)
    unfolding handle_packet
    handle_packet-Keeps p harmless =
        elim (Result-cases
          (read_header o.pb (payload_codecs o.wires (o.json hello_type) hello_type) p)) [
            | inl (e, f) ↦ record { keeps = λ s held. rw (handle_packet, f) held }
            | inr (head, f) ↦
                let (no_disconnect, no_ctrl) = harmless.asks head f in
                record {
                  keeps = λ s held.
                      rw (handle_packet, f)
                        ((dispatch-Keeps p head.id no_disconnect no_ctrl).keeps s held);
                }
          ]

    handle_packets-Keeps :
        (ps : List Packet) → All (IsHarmless o) ps → Keeps (Has j c) (handle_packets o (raw h) ps)
    unfolding handle_packets
    handle_packets-Keeps [] harmless = Keeps-pure (Has j c) tt
    handle_packets-Keeps (p ∷ ps) harmless =
        Keeps-bind (Has j c)
          (Keeps-failing (Has j c) (Keeps-close_raw h) (handle_packet-Keeps p harmless.0))
          λ u. handle_packets-Keeps ps harmless.1

-- Packets that come over a bare connection, as long as none of them asks to disconnect a node or for
-- control, leave every open connection of the network as it is, whatever they hold and whichever of
-- their handlers fail.
pub handle_packets-lookup :
    (o : Outside) (h k : ℕ) (ps : List Packet) (s : World) (id : Bytes) (c : Conn)
    → c.conn ≡ some k
    → All (IsHarmless o) ps
    → lookup id s.net.outgoing ≡ some c
    → lookup id (handle_packets o (raw h) ps s).1.net.outgoing ≡ some c
handle_packets-lookup o h k ps s id c up harmless held =
    (handle_packets-Keeps o id c k h up ps harmless).keeps s held
