-- ===== src/Session/Refusals.antt =====
-- booster/network.go, booster/booster.go: what Close leaves of the network, and Wire of a node that is
-- connected already.
use booster.Common.{ℕ, ◌≡◌, refl, ap, ◌∙◌, false, Option, none, some, [], ◌∷◌, ◌++◌, arith, Bytes}
use booster.Common.Result.{ok, err}
use booster.Common.Dict.{lookup, insert}
use booster.Protocol.Payloads.{disconnect, disconnect_type, node_removed}
use booster.Node.State.{Node, set_is_active}
use booster.Network.State.{
  Conn, Network, add_conn, conn_close, announce, trace, build_protocol_node, already_present,
}
use booster.Session.{
  Outside, World, joined, network_error, close_link, close_side, dial_context, peer_close,
}
use booster.Session.Wire.{close_conn, join, wire_to}
use booster.Session.Dialled.{IsFresh, dial_context-IsFresh}

-- What Close publishes of a node.
abbrev pub removal : Network → Node → booster.Protocol.Payloads.PayloadNetworkUpdate
removal n node = record {
  node_id = n.local_node.id;
  remote_node = build_protocol_node (set_is_active false node);
  operation = node_removed;
}

module _ (o : Outside) where
  pub close_side-net : (h : Option ℕ) (s : World) → (close_side o h s).net ≡ s.net
  unfolding close_link
  close_side-net none s = refl
  close_side-net (some h) s = ground arith

  -- What Close leaves of the network.
  conn_close-removal :
      (d : Conn) (k : ℕ) (n : Network)
      → d.conn ≡ some k
      → o.close_handle k ≡ none
      → d.remote_node.to_be_traced ≡ false
      → conn_close o.close_handle d n ≡ (
        ok tt,
        record d { conn = none; remote_node = set_is_active false d.remote_node },
        record n { published = n.published ++ removal n d.remote_node ∷ [] },
      )
  unfolding conn_close announce trace set_is_active
  conn_close-removal d k n is_open closes untraced_ =
      rw (conn_close, is_open, closes, untraced_) refl

  close_conn-net :
      (d : Conn) (k : ℕ) (s : World)
      → d.conn ≡ some k
      → o.close_handle k ≡ none
      → d.remote_node.to_be_traced ≡ false
      → (close_conn o d s).1.net
        ≡ record s.net { published = s.net.published ++ removal s.net d.remote_node ∷ [] }
  unfolding close_conn
  close_conn-net d k s is_open closes untraced_ =
      close_side-net d.conn (record s { net = (conn_close o.close_handle d s.net).2 })
      ∙ ap (λ r. r.2) (conn_close-removal d k s.net is_open closes untraced_)

-- Wire, of a node that is connected already, fails, and leaves the connections as they are. Yet it
-- publishes that the node was removed, for it closes the connection that it has just dialled. The
-- connection that it opens closes without an error.
pub wire_to-present :
    (o : Outside) (target : Bytes) (s s1 : World) (d c : Conn) (h : ℕ)
    → dial_context o target s ≡ (ok d, s1)
    → o.close_handle s.next ≡ none
    → lookup d.id s1.net.outgoing ≡ some c
    → c.conn ≡ some h
    → let after = wire_to o target s in
      (after.0 ≡ err (network_error (already_present d.id)))
      × (after.1.net.outgoing ≡ s1.net.outgoing)
      × (after.1.net.published ≡ s1.net.published ++ removal s1.net d.remote_node ∷ [])
unfolding wire_to join add_conn
wire_to-present o target s s1 d c h dialled closes there up =
    let opened : IsFresh s.next d = dial_context-IsFresh o target s s1 d dialled in
    let refused : wire_to o target s
        ≡ (err (network_error (already_present d.id)), (close_conn o d s1).1) =
      rw (wire_to, dialled, add_conn, there, up) refl in
    let net = close_conn-net o d s.next s1 opened.0 closes opened.1 in
    (
      ap (λ r. r.0) refused,
      ap (λ r. r.1.net.outgoing) refused ∙ ap (λ n. n.outgoing) net,
      ap (λ r. r.1.net.published) refused ∙ ap (λ n. n.published) net,
    )

module _ (o : Outside) where
  -- Close of a connection of the network that is not traced.
  pub peer_close-net :
      (d : Conn) (k : ℕ) (s : World) (id : Bytes)
      → lookup id s.net.outgoing ≡ some d
      → d.conn ≡ some k
      → o.close_handle k ≡ none
      → d.remote_node.to_be_traced ≡ false
      → (peer_close o (joined id) s).1.net ≡ record s.net {
        outgoing =
            insert id
              (record d { conn = none; remote_node = set_is_active false d.remote_node })
              s.net.outgoing;
        published = s.net.published ++ removal s.net d.remote_node ∷ [];
      }
  unfolding peer_close
  peer_close-net d k s id there is_open closes untraced_ =
      let r = conn_close o.close_handle d s.net in
      rw (peer_close, there)
        (close_side-net o d.conn
            (record s { net = record r.2 { outgoing = insert id r.1 r.2.outgoing } })
          ∙ ap (λ x. record x.2 { outgoing = insert id x.1 x.2.outgoing })
              (conn_close-removal o d k s.net is_open closes untraced_))
