-- ===== src/Session/Sending.antt =====
-- booster/network.go: Conn.Send of a connection of the network, when IOTimeout comes first.
mod Examples
use booster.Common.{
  ℕ, ◌≡◌, refl, ap, ◌∙◌, true, false, Option, none, some, [], ◌∷◌, ◌++◌, arith, Bytes, =ᵇ_refl,
}
use booster.Common.Result.{Result, ok, err}
use booster.Common.Dict.{lookup, insert, lookup-insert}
use booster.Packet.Types.{Packet}
use booster.Node.State.{set_is_active}
use booster.Network.State.{Conn, Network, connection_closed, conn_close, announce, trace}
use booster.Session.{
  Outside, World, Session, joined, network_error, send_timeout, update_link, close_side, peer_close,
  peer_send,
}
use booster.Session.Refusals.{removal, close_side-net}

abbrev pub down : Conn → Conn
down d = record d { conn = none; remote_node = set_is_active false d.remote_node }

-- The network after a traced node's connection has been closed.
abbrev pub lost : Bytes → Conn → Network → Network
lost id d n = record n {
  outgoing = insert id (down d) n.outgoing;
  published = n.published ++ removal n d.remote_node ∷ [];
  traced = n.traced ++ d.remote_node.id ∷ [];
}

-- `late` is what the goroutine that sends has done to the network connection until then.
module _ (o : Outside) (late : booster.Link.Conn → booster.Link.Conn) where
  abbrev closed_late : ℕ → Bytes → World → World
  closed_late h id s = (peer_close o (joined id) (update_link h (late (s.links h)) s)).1

  -- The result is an error, whatever Close returns.
  unfoldable pub send_late : Bytes → Session (Unit {0})
  send_late id s = elim (lookup id s.net.outgoing) [
    | none ↦ (err (network_error connection_closed), s)
    | some c ↦ elim c.conn [
      | none ↦ (err (network_error connection_closed), s)
      | some h ↦ (err send_timeout, closed_late h id s)
    ]
  ]

  conn_close-traced :
      (d : Conn) (k : ℕ) (n : Network)
      → d.conn ≡ some k
      → o.close_handle k ≡ none
      → d.remote_node.to_be_traced ≡ true
      → conn_close o.close_handle d n ≡ (
        ok tt,
        down d,
        record n {
          published = n.published ++ removal n d.remote_node ∷ [];
          traced = n.traced ++ d.remote_node.id ∷ [];
        },
      )
  unfolding conn_close announce trace set_is_active
  conn_close-traced d k n is_open closes traced_ = rw (conn_close, is_open, closes, traced_) refl

  -- A packet that does not get to a node in time takes the node down: Send returns an error, the
  -- node's connection is closed, its removal is published once and the node is traced, and no packet
  -- is sent to it any more. The node is marked for tracing, and its connection closes without an
  -- error.
  pub send_late_lem :
      (id : Bytes) (s : World) (d : Conn) (k : ℕ) (p : Packet)
      → lookup id s.net.outgoing ≡ some d
      → d.conn ≡ some k
      → o.close_handle k ≡ none
      → d.remote_node.to_be_traced ≡ true
      → let after = send_late id s in
        (after.0 ≡ err send_timeout)
        × (after.1.net ≡ lost id d s.net)
        × ((peer_send o p (joined id) after.1).0 ≡ err (network_error connection_closed))
  unfolding send_late peer_close peer_send
  send_late_lem id s d k p there is_open closes traced_ =
      let s1 = update_link k (late (s.links k)) s in
      let r = conn_close o.close_handle d s1.net in
      let goes : send_late id s ≡ (err send_timeout, closed_late k id s) =
        rw (send_late, there, is_open) refl in
      let net : (peer_close o (joined id) s1).1.net ≡ lost id d s.net =
        rw (peer_close, there)
          (close_side-net o d.conn
              (record s1 { net = record r.2 { outgoing = insert id r.1 r.2.outgoing } })
            ∙ ap (λ x. record x.2 { outgoing = insert id x.1 x.2.outgoing })
                (conn_close-traced d k s1.net is_open closes traced_)) in
      let found : lookup id (closed_late k id s).net.outgoing ≡ some (down d) =
        ap (λ n. lookup id n.outgoing) net
        ∙ lookup-insert id id (down d) s.net.outgoing
        ∙ rw (=ᵇ_refl id) refl in
      (
        ap (λ x. x.0) goes,
        ap (λ x. x.1.net) goes ∙ net,
        ap (λ x. (peer_send o p (joined id) x.1).0) goes ∙ rw (peer_send, found) refl,
      )
