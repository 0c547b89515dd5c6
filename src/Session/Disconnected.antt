-- ===== src/Session/Disconnected.antt =====
-- HandleDisconnect of booster/handlers.go, over a bare connection and over one of the network.
use booster.Common.{
  ℕ, ◌≡◌, refl, ap, ◌∙◌, false, Option, none, some, [], ◌∷◌, ◌++◌, arith, Bytes, =ᵇ_refl,
  Bool-cases, Option-cases, inl, inr, if◌then◌else◌,
}
use booster.Common.Result.{ok, err}
use booster.Common.Dict.{lookup, insert, lookup-insert, insert-insert, insert_present}
use booster.Packet.Types.{Packet}
use booster.Protocol.Payloads.{disconnect, disconnect_type}
use booster.Node.State.{set_is_active}
use booster.Network.State.{Conn, Network, connection_closed, conn_close, announce, trace}
use booster.Session.{Outside, World, Peer, raw, joined, payload_of, deferred, peer_close}
use booster.Session.Wire.{compose_node, update_conn}
use booster.Session.Handlers.{with_conn, handle_disconnect, leave, send_node, untraced}
use booster.Session.Kept.{Keeps-bind, Keeps-with_conn, Keeps-compose, Keeps-peer_send}
use booster.Session.Refusals.{removal, close_side-net, peer_close-net}

-- The network after a node has been disconnected.
abbrev pub disconnected : Bytes → Conn → Network → Network
disconnected id c n = record n {
  outgoing =
      insert id
        (record c {
          conn = none;
          remote_node = record (set_is_active false c.remote_node) { to_be_traced = false };
        })
        n.outgoing;
  published = n.published ++ removal n (record c.remote_node { to_be_traced = false }) ∷ [];
}

-- The network after Close of the peer's connection, which a bare connection is no part of.
abbrev pub closed_for : Conn → Bytes → Option ℕ → Network → Network
closed_for d id none n = n
closed_for d id (some h) n = record n {
  outgoing =
      insert id (record d { conn = none; remote_node = set_is_active false d.remote_node })
        n.outgoing;
  published = n.published ++ removal n d.remote_node ∷ [];
  traced = if d.remote_node.to_be_traced then n.traced ++ d.remote_node.id ∷ [] else n.traced;
}

abbrev pub hung_up : Peer → Network → Network
hung_up (raw h) n = n
hung_up (joined id) n = elim (lookup id n.outgoing) [ none ↦ n | some d ↦ closed_for d id d.conn n ]

module _ (o : Outside) where
  leave-net :
      (k : ℕ) (s : World) (id : Bytes) (c : Conn)
      → lookup id s.net.outgoing ≡ some c
      → c.conn ≡ some k
      → o.close_handle k ≡ none
      → (leave o id s).1.net ≡ disconnected id c s.net
  unfolding leave set_is_active
  leave-net k s id c there up closes =
      let marked : World = record s {
        net = record s.net { outgoing = insert id (untraced c) s.net.outgoing };
      } in
      let is : update_conn o id untraced s ≡ marked = rw (update_conn, there) refl in
      let found : lookup id marked.net.outgoing ≡ some (untraced c) =
        lookup-insert id id (untraced c) s.net.outgoing ∙ rw (=ᵇ_refl id) refl in
      ap (λ x. (peer_close o (joined id) x).1.net) is
      ∙ peer_close-net o (untraced c) k marked id found up closes refl
      ∙ ap (λ m. record (disconnected id c s.net) { outgoing = m })
          (insert-insert id _ _ s.net.outgoing)

  module _ (closes : (h : ℕ) → o.close_handle h ≡ none) where
    conn_close-none :
        (d : Conn) (n : Network)
        → d.conn ≡ none
        → conn_close o.close_handle d n ≡ (err connection_closed, d, n)
    unfolding conn_close
    conn_close-none d n shut = ground arith

    conn_close-closed :
        (d : Conn) (h : ℕ) (id : Bytes) (n : Network)
        → d.conn ≡ some h
        → let r = conn_close o.close_handle d n in
          record r.2 { outgoing = insert id r.1 r.2.outgoing } ≡ closed_for d id (some h) n
    unfolding conn_close announce trace set_is_active
    conn_close-closed d h id n up = elim (Bool-cases d.remote_node.to_be_traced) [
      | inl t ↦ rw (conn_close, up, closes h, t) refl
      | inr t ↦ rw (conn_close, up, closes h, t) refl
    ]

    closed_for-net :
        (d : Conn) (id : Bytes) (h : Option ℕ) (s : World)
        → lookup id s.net.outgoing ≡ some d
        → d.conn ≡ h
        → (peer_close o (joined id) s).1.net ≡ closed_for d id h s.net
    unfolding peer_close
    closed_for-net d id none s there shut =
        let r = conn_close o.close_handle d s.net in
        rw (peer_close, there)
          (close_side-net o d.conn
              (record s { net = record r.2 { outgoing = insert id r.1 r.2.outgoing } })
            ∙ ap (λ x. record x.2 { outgoing = insert id x.1 x.2.outgoing })
                (conn_close-none d s.net shut)
            ∙ ap (λ m. record s.net { outgoing = m }) (insert_present id d s.net.outgoing there))
    closed_for-net d id (some h) s there up =
        let r = conn_close o.close_handle d s.net in
        rw (peer_close, there)
          (close_side-net o d.conn
              (record s { net = record r.2 { outgoing = insert id r.1 r.2.outgoing } })
            ∙ conn_close-closed d h id s.net up)

    hung_up-net : (peer : Peer) (s : World) → (peer_close o peer s).1.net ≡ hung_up peer s.net
    unfolding peer_close
    hung_up-net (raw h) s = close_side-net o (some h) s
    hung_up-net (joined id) s = elim (Option-cases (lookup id s.net.outgoing)) [
      | inl e ↦ rw (peer_close, hung_up, e) refl
      | inr (d, e) ↦ rw (hung_up, e) (closed_for-net d id d.conn s e refl)
    ]

  send_node-net : (peer : Peer) (id : Bytes) (s : World) → (send_node o peer id s).1.net ≡ s.net
  unfolding send_node compose_node
  send_node-net peer id s =
      let P = λ (m : Network). m ≡ s.net in
      (Keeps-bind P (Keeps-with_conn P id _ λ c. Keeps-compose P o _ _)
          λ q. Keeps-peer_send P o q peer).keeps
        s refl

-- A disconnect request for a node that is connected, over any connection, closes that node's
-- connection: its node is inactive and is not traced, and its removal is published. Then the
-- connection of the request is closed: a bare one is no part of the network; one of the network is
-- left without a handle, its node is inactive, is given to the tracer if it is to be traced, and has
-- its removal published, unless it was closed already. Nothing else of the network changes, also when
-- the answer cannot be sent. Connections close without an error.
pub handle_disconnect_lem :
    (o : Outside) (peer : Peer) (k : ℕ) (p : Packet) (s : World) (id : Bytes) (c : Conn)
    → payload_of o disconnect_type p s ≡ (ok (disconnect (record { id = id })), s)
    → lookup id s.net.outgoing ≡ some c
    → c.conn ≡ some k
    → ((h : ℕ) → o.close_handle h ≡ none)
    → (handle_disconnect o peer p s).1.net ≡ hung_up peer (disconnected id c s.net)
unfolding handle_disconnect leave
handle_disconnect_lem o peer k p s id c is there up closes =
    let left_ = leave-net o k s id c there up (closes k) in
    let goes : handle_disconnect o peer p s
        ≡ deferred (peer_close o peer) (send_node o peer id) (leave o id s).1 =
      rw (is, with_conn, there) refl in
    ap (λ r. r.1.net) goes
    ∙ hung_up-net o closes peer _
    ∙ ap (hung_up peer) (send_node-net o peer id (leave o id s).1 ∙ left_)
