-- ===== src/Session.antt =====
-- booster/booster.go, booster/receivers.go: what a booster node, whose network is under its id in
-- `Nets`, does with its connections. A network connection is a number, its handle. The calls of one
-- session follow each other; each of them sends before IOTimeout and dials before DialTimeout.
pub mod Config
pub mod Wire
pub mod Handlers
pub mod Services
pub mod Kept
pub mod Examples
pub mod Dialled
pub mod Hello
pub mod Entries
pub mod Requests
pub mod Refusals
pub mod Disconnected
pub mod Wired
pub mod Tunnels
pub mod Senders
pub mod Subscribed
pub mod Running
pub mod Nets
pub mod Listening
pub mod Sending
use booster.Common.{
  ℕ, suc, ◌==◌, ◌<◌, Bool, true, false, Option, none, some, List, [], ◌∷◌, if◌then◌else◌, Bytes,
}
use booster.Common.Result.{Result, ok, err, Exec, ◌>>=◌, ◌>>◌, pure, raise, resume}
use booster.Common.Dict.{lookup, insert}
use booster.Packet.Types.{Packet}
use booster.Packet.Stream.{Reader, Writer, closed}
use booster.Protocol.{Protobuf, module_payload}
use booster.Protocol.Payloads.{
  Payload, PayloadType, PayloadHello, PayloadProxyUpdate, hello, hello_type, type_of, message_hello,
}
use booster.Protocol.Internal.{Wires}
use booster.Node.State.{Node, Environment}
use booster.Network.State.{Conn, Network, connection_closed, close_entry, conn_close}
use booster.Network.Messages.{Codecs, encode_default, network_decode}
use booster.Network.Messages.Exchanged.{payload_codecs}
use booster.Link.{open_conn, send_packet, recv}
use booster.Session.Config.{default_net_config}

pub data Error : Type 0 where
  dial_error : Bytes → Error
  close_error : Bytes → Error
  link_error : booster.Link.Error → Error
  message_error : booster.Network.Messages.Error → Error
  network_error : booster.Network.State.Error → Error
  node_error : booster.Node.State.Error → Error
  wrong_payload : Error
  unexpected_identifier : Bytes → Error
  expired : ℕ → ℕ → Error
  unexpected_message : ℕ → Error
  cannot_tunnel : Error
  listen_error accept_error : Bytes → Error
  send_timeout : Error
  undefined_operation : Bytes → Error

-- A SendCloser: a bare network connection, or the Conn that Outgoing has under an id. AddConn puts
-- the second there, and nothing takes it away.
pub data Peer : Type 0 where
  raw : ℕ → Peer
  joined : Bytes → Peer

-- The goroutines that serve a peer, and the signals that go to Run.
pub data Service : Type 0 where
  status : Peer → Service
  monitoring : Peer → Packet → Service
  stop restart : Service
  -- the subscriptions of ServeMonitor, and a node that the tracer lets go
  node_events net_usage : Peer → Service
  untracing : Bytes → Service
  -- Handle, on a connection that was accepted
  handling : ℕ → Service
  -- Handle, on the connection of the network under an id
  handling_wired : Bytes → Service

-- `links` has the connections by their handles, `next` is the next handle.
pub record World : Type 0 where
  pub net : Network
  pub links : ℕ → booster.Link.Conn
  pub next : ℕ
  pub now : ℕ
  pub tunnel_events : List PayloadProxyUpdate
  pub services : List Service

-- The packages that the code calls: protobuf, encoding/json, net, and the node's SHA-1. `host` is
-- the host of a connection's remote address.
pub record Outside : Type 0 where
  pub pb : Protobuf
  pub wires : Wires
  pub json : PayloadType → Codecs Payload
  pub node_env : Environment
  pub dial : Bytes → Result Bytes (Writer × Reader)
  pub host : ℕ → Bytes
  pub close_handle : ℕ → Option Bytes

abbrev pub Session : Type 0 → Type 0
Session A = Exec World Error A

abbrev pub lifted : {E A : Type 0} → (E → Error) → Result E A → Result Error A
lifted f (ok a) = ok a
lifted f (err e) = err (f e)

abbrev pub lift : {E A : Type 0} → (E → Error) → Result E A → Session A
lift f r s = (lifted f r, s)

abbrev pub cleaned :
    {A : Type 0} → Session (Unit {0}) → Result Error A × World → Result Error A × World
cleaned m (ok a, s) = (ok a, s)
cleaned m (err e, s) = (err e, (m s).1)

-- `if err != nil { return fail(err) }`, where the error of the call in `fail` is dropped.
abbrev pub failing : {A : Type 0} → Session (Unit {0}) → Session A → Session A
failing cleanup m s = cleaned cleanup (m s)

-- `defer`, where the error of the deferred call is dropped.
abbrev pub deferred : {A : Type 0} → Session (Unit {0}) → Session A → Session A
deferred last m s = let r = m s in (r.0, (last r.1).1)

abbrev pub modify : (World → World) → Session (Unit {0})
modify f s = (ok tt, f s)

abbrev pub update_link : ℕ → booster.Link.Conn → World → World
update_link h c s = record s { links = λ k. if k == h then c else s.links k }

unfoldable pub on_link :
    {A : Type 0}
    → ℕ
    → (booster.Link.Conn → Result booster.Link.Error A × booster.Link.Conn)
    → Session A
on_link h f s = let r = f (s.links h) in (lifted link_error r.0, update_link h r.1 s)

-- A closed connection neither gives nor takes bytes.
abbrev pub shut : booster.Link.Conn → booster.Link.Conn
shut c = record c {
  outgoing = record c.outgoing { room = 0 };
  incoming = record { pending = []; failure = closed };
}

-- EncodeDefault of a payload
unfoldable pub compose : Outside → Payload → ℕ → Session Packet
compose o v msg =
    lift message_error
      (encode_default o.pb (payload_codecs o.wires (o.json (type_of v)) (type_of v)) (some v) msg)

-- Decode of a packet's payload, into a variable of the type.
unfoldable pub payload_of : Outside → PayloadType → Packet → Session Payload
payload_of o v p =
    lift message_error (network_decode o.pb (payload_codecs o.wires (o.json v) v) p module_payload)

module _ (o : Outside) where
  -- network.Conn.Close
  unfoldable pub close_link : ℕ → Session (Unit {0})
  close_link h s = elim (o.close_handle h) [
    | some e ↦ (err (close_error e), s)
    | none ↦ (ok tt, update_link h (shut (s.links h)) s)
  ]

  -- The handle of a Conn that Conn.Close has closed.
  abbrev pub close_side : Option ℕ → World → World
  close_side none s = s
  close_side (some h) s = (close_link h s).1

  -- Close of a SendCloser.
  unfoldable pub peer_close : Peer → Session (Unit {0})
  peer_close (raw h) s = close_link h s
  peer_close (joined id) s = elim (lookup id s.net.outgoing) [
    | none ↦ (err (network_error connection_closed), s)
    | some c ↦
        let r = conn_close o.close_handle c s.net in
        (
          lifted network_error r.0,
          close_side c.conn
              (record s { net = record r.2 { outgoing = insert id r.1 r.2.outgoing } }),
        )
  ]

  -- Send of a SendCloser.
  unfoldable pub peer_send : Packet → Peer → Session (Unit {0})
  peer_send p (raw h) s = on_link h (send_packet p) s
  peer_send p (joined id) s = elim (lookup id s.net.outgoing) [
    | none ↦ (err (network_error connection_closed), s)
    | some c ↦ elim c.conn [
      | none ↦ (err (network_error connection_closed), s)
      | some h ↦ on_link h (send_packet p) s
    ]
  ]

  unfoldable pub new_conn : ℕ → Node → World → Conn
  new_conn h node s = record {
    conn = some h;
    id = node.id;
    booster_id = s.net.booster_id;
    remote_node = node;
  }

  abbrev pub with_hello : {A : Type 0} → (PayloadHello → Session A) → Payload → Session A
  with_hello k (hello pl) = k pl
  with_hello k v = raise wrong_payload

  -- The connection to the node that introduced itself.
  unfoldable pub introduced : ℕ → PayloadHello → Session Conn
  introduced h pl = do
    node ← lift node_error (booster.Node.State.new o.node_env (o.host h) pl.pport pl.bport false)
    λ s. (ok (new_conn h node s), s)

  -- RecvHello
  unfoldable pub recv_hello : ℕ → Session Conn
  recv_hello h =
      failing (close_link h)
        (do p ← on_link h recv; v ← payload_of o hello_type p; with_hello (introduced h) v)

  abbrev pub connected : Result Bytes (Writer × Reader) → Session ℕ
  connected (err e) s = (err (dial_error e), s)
  connected (ok conn) s = (
    ok s.next,
    update_link s.next (open_conn conn default_net_config) (record s { next = suc s.next }),
  )

  -- DialContext
  unfoldable pub dial_context : Bytes → Session Conn
  dial_context target = do h ← connected (o.dial target); recv_hello h

-- SendHello. `pport` and `bport` are the ports of the local node's addresses.
unfoldable pub send_hello : Outside → Bytes → Bytes → Peer → Session (Unit {0})
send_hello o pport bport peer = do
  p ← compose o (hello (record { bport = bport; pport = pport })) message_hello
  peer_send o p peer
