-- ===== src/Session/Kept.antt =====
-- What the calls of a session leave true of the network.
use booster.Common.{ℕ, inl, inr, Option, none, some, arith, Option-cases, Bytes}
use booster.Common.Result.{Result, ok, err, resume, ◌>>=◌, pure, raise}
use booster.Common.Dict.{lookup}
use booster.Packet.Types.{Packet}
use booster.Protocol.Payloads.{PayloadHello, Payload, PayloadType, hello, hello_type}
use booster.Network.State.{Conn, Network}
use booster.Session.{
  raw, Peer, peer_send, connected, Error, Outside, World, Session, joined, lift, cleaned, failing,
  deferred, on_link, compose, payload_of, close_link, close_side, introduced, new_conn, node_error,
  recv_hello, dial_context, with_hello,
}
use booster.Packet.Stream.{Reader, Writer}
use booster.Link.{send_packet}
use booster.Session.Handlers.{with_conn}
use booster.Session.Wire.{compose_heartbeat, compose_notify, introduce}

module _ (P : Network → Type 0) where
  abbrev pub Holds : World → Type 0
  Holds s = P s.net

  -- The code leaves it true, whether it succeeds or not.
  pub record Keeps {A : Type 0} (m : Session A) : Type 0 where
    pub keeps : (s : World) → Holds s → Holds (m s).1

  module _ {A B : Type 0} where
    resume-Holds :
        (k : A → Session B) (x : Result Error A × World)
        → ((a : A) → Keeps (k a))
        → Holds x.1
        → Holds (resume k x).1
    resume-Holds k (ok a, s) hk h = (hk a).keeps s h
    resume-Holds k (err e, s) hk h = h

    pub Keeps-bind :
        {m : Session A} {k : A → Session B} → Keeps m → ((a : A) → Keeps (k a)) → Keeps (m >>= k)
    Keeps-bind {m} {k} hm hk = record { keeps = λ s h. resume-Holds k (m s) hk (hm.keeps s h) }

  module _ {A : Type 0} where
    cleaned-Holds :
        (last : Session (Unit {0})) (x : Result Error A × World)
        → Keeps last
        → Holds x.1
        → Holds (cleaned last x).1
    cleaned-Holds last (ok a, s) hl h = h
    cleaned-Holds last (err e, s) hl h = hl.keeps s h

    pub Keeps-failing :
        {last : Session (Unit {0})} {m : Session A} → Keeps last → Keeps m → Keeps (failing last m)
    Keeps-failing {last} {m} hl hm = record {
      keeps = λ s h. cleaned-Holds last (m s) hl (hm.keeps s h);
    }

    pub Keeps-deferred :
        {last : Session (Unit {0})} {m : Session A} → Keeps last → Keeps m → Keeps (deferred last m)
    Keeps-deferred {last} {m} hl hm = record { keeps = λ s h. hl.keeps (m s).1 (hm.keeps s h) }

    pub Keeps-lift : {E : Type 0} (f : E → Error) (r : Result E A) → Keeps (lift f r)
    Keeps-lift f r = record { keeps = λ s h. h }

    pub Keeps-pure : (a : A) → Keeps {A = A} (pure a)
    Keeps-pure a = record { keeps = λ s h. h }

    pub Keeps-raise : (e : Error) → Keeps {A = A} (raise e)
    Keeps-raise e = record { keeps = λ s h. h }

    pub Keeps-on_link :
        (h : ℕ) (f : booster.Link.Conn → Result booster.Link.Error A × booster.Link.Conn)
        → Keeps (on_link h f)
    unfolding on_link
    Keeps-on_link h f = record { keeps = λ s h. h }

  module _ {A : Type 0} where
    pub Keeps-with_conn :
        (id : Bytes) (k : Conn → Session A) → ((d : Conn) → Keeps (k d)) → Keeps (with_conn id k)
    Keeps-with_conn id k hk = record {
      keeps = λ s held. elim (Option-cases (lookup id s.net.outgoing)) [
        | inl e ↦ rw (with_conn, e) held
        | inr (d, e) ↦ rw (with_conn, e) ((hk d).keeps s held)
      ];
    }

  module _ (o : Outside) where
    pub Keeps-compose : (v : Payload) (msg : ℕ) → Keeps (compose o v msg)
    unfolding compose
    Keeps-compose v msg = Keeps-lift _ _

    pub Keeps-payload_of : (v : PayloadType) (p : Packet) → Keeps (payload_of o v p)
    unfolding payload_of
    Keeps-payload_of v p = Keeps-lift _ _

    pub Keeps-close_link : (h : ℕ) → Keeps (close_link o h)
    unfolding close_link
    Keeps-close_link h = record { keeps = λ s held. ground (arith, held) }

    pub close_side-Holds : (h : Option ℕ) (s : World) → Holds s → Holds (close_side o h s)
    close_side-Holds none s held = held
    close_side-Holds (some h) s held = (Keeps-close_link h).keeps s held

    Keeps-with_hello :
        {A : Type 0} (k : PayloadHello → Session A) (v : Payload)
        → ((pl : PayloadHello) → Keeps (k pl))
        → Keeps (with_hello o k v)
    Keeps-with_hello k (hello pl) h = h pl
    Keeps-with_hello k v h = Keeps-raise _

    Keeps-introduced : (h : ℕ) (pl : PayloadHello) → Keeps (introduced o h pl)
    unfolding introduced
    Keeps-introduced h pl =
        Keeps-bind {k = λ node s. (ok (new_conn o h node s), s)} (Keeps-lift node_error _)
          λ n. record { keeps = λ s held. held }

    pub Keeps-recv_hello : (h : ℕ) → Keeps (recv_hello o h)
    unfolding recv_hello
    Keeps-recv_hello h = Keeps-failing (Keeps-close_link h) (
        Keeps-bind (Keeps-on_link h _) λ p.
          Keeps-bind (Keeps-payload_of hello_type p)
            λ v. Keeps-with_hello (introduced o h) v (Keeps-introduced h))

    Keeps-connected : (r : Result Bytes (Writer × Reader)) → Keeps (connected o r)
    Keeps-connected (ok conn) = record { keeps = λ s held. held }
    Keeps-connected (err e) = record { keeps = λ s held. held }

    pub Keeps-dial_context : (target : Bytes) → Keeps (dial_context o target)
    unfolding dial_context
    Keeps-dial_context target = Keeps-bind (Keeps-connected (o.dial target)) Keeps-recv_hello

    pub Keeps-peer_send : (p : Packet) (peer : Peer) → Keeps (peer_send o p peer)
    unfolding peer_send
    Keeps-peer_send p (raw h) = Keeps-on_link h _
    Keeps-peer_send p (joined id) = record {
      keeps = λ s held. elim (Option-cases (lookup id s.net.outgoing)) [
        | inl e ↦ rw (peer_send, e) held
        | inr (d, e) ↦ elim (Option-cases d.conn) [
          | inl gone ↦ rw (peer_send, e, gone) held
          | inr (h, up) ↦ rw (peer_send, e, up) ((Keeps-on_link h (send_packet p)).keeps s held)
        ]
      ];
    }

    pub Keeps-introduce : (id : Bytes) → Keeps (introduce o id)
    unfolding introduce compose_notify compose_heartbeat
    Keeps-introduce id = Keeps-bind (Keeps-lift _ _) λ p.
        Keeps-bind (Keeps-peer_send p (joined id)) λ u.
          Keeps-bind (record { keeps = λ s held. (Keeps-compose _ _).keeps s held })
            λ q. Keeps-peer_send q (joined id)
