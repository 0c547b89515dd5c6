-- ===== src/Session/Wired.antt =====
-- Wire, for a node that was not connected before: how it ends.
mod Examples
use booster.Common.{
  true, ℕ, ◌≡◌, refl, sym, ap, subst, ◌∙◌, ◌⊎◌, inl, inr, false, none, some, [], ◌∷◌, ◌++◌, Bytes,
  =ᵇ_refl,
}
use booster.Common.Result.{Result, ok, err, resume}
use booster.Common.Dict.{Dict, lookup, insert, lookup-insert}
use booster.Node.State.{set_is_active}
use booster.Network.State.{Conn, Network, add_conn, put_conn, announce}
use booster.Session.{Error, Outside, World, joined, cleaned, dial_context, peer_close}
use booster.Session.Wire.{join, wire_to, introduce, wired, handed, update_conn}
use booster.Session.Dialled.{IsFresh, dial_context-IsFresh}
use booster.Session.Kept.{Keeps-introduce}
use booster.Session.Refusals.{removal, peer_close-net}

-- The connection as the network holds it.
abbrev pub held : Conn → Network → Conn
held d n = record d { booster_id = n.booster_id }

-- The network after Close of the connection c, of d's node.
abbrev pub closed_net : Conn → Conn → Network → Network
closed_net d c n = record n {
  outgoing =
      insert d.id (record c { conn = none; remote_node = set_is_active false d.remote_node })
        n.outgoing;
  published = n.published ++ removal n d.remote_node ∷ [];
}

abbrev put_outgoing : Dict Conn → Network → Network
put_outgoing m n = record n { outgoing = m }

-- A connection whose node takes part in the balancing and is traced when it goes down.
abbrev pub up : Conn → Conn
up c = record c { remote_node = record c.remote_node { active = true; to_be_traced = true } }

-- How Wire ends, from the network n that has the connection of d: with the connection wired, or
-- closed.
abbrev pub Ended : Conn → Network → Result Error Bytes × World → Type 0
Ended d n after =
    ((after.0 ≡ ok d.id)
      × (after.1.net ≡ record n { outgoing = insert d.id (up (held d n)) n.outgoing }))
    ⊎ ((e : Error) × (after.0 ≡ err e) × (after.1.net ≡ closed_net d (held d n) n))

module _ (o : Outside) where
  introduce-net : (id : Bytes) (s : World) → (introduce o id s).1.net ≡ s.net
  introduce-net id s = (Keeps-introduce (λ m. m ≡ s.net) o id).keeps s refl

  pub update_conn-net :
      (id : Bytes) (f : Conn → Conn) (c : Conn) (s : World)
      → lookup id s.net.outgoing ≡ some c
      → (update_conn o id f s).net ≡ record s.net { outgoing = insert id (f c) s.net.outgoing }
  update_conn-net id f c s there = rw (update_conn, there) refl

  ends :
      (d : Conn) (k : ℕ) (n : Network) (x : Result Error (Unit {0}) × World)
      → d.conn ≡ some k
      → o.close_handle k ≡ none
      → d.remote_node.to_be_traced ≡ false
      → lookup d.id n.outgoing ≡ some (held d n)
      → x.1.net ≡ n
      → Ended d n (
          resume
            (λ u s. (ok d.id, handed o d.id (update_conn o d.id (wired o) s)))
            (cleaned (peer_close o (joined d.id)) x))
  unfolding set_is_active
  ends d k n (ok u, s) is_open closes untraced_ there same =
      let there' = ap (λ m. lookup d.id m.outgoing) same ∙ there in
      inl (
        refl,
        update_conn-net d.id (wired o) (held d n) s there'
            ∙ ap (λ (m : Network). put_outgoing (insert d.id (up (held d n)) m.outgoing) m) same,
      )
  ends d k n (err e, s) is_open closes untraced_ there same =
      let there' = ap (λ m. lookup d.id m.outgoing) same ∙ there in
      inr (
        e,
        refl,
        peer_close-net o (held d n) k s d.id there' is_open closes untraced_
            ∙ ap (λ m. closed_net d (held d n) m) same,
      )

-- Wire, of a node that was dialled and is not in the network. It ends with the node's connection
-- under its id, active and traced, and with the event of its addition; or with an error, and then
-- the connection is closed again, and the addition and the removal have been published. Nothing
-- else of the network changes. The connection that it opens closes without an error.
pub wire_to_ends :
    (o : Outside) (target : Bytes) (s s1 : World) (d : Conn)
    → dial_context o target s ≡ (ok d, s1)
    → o.close_handle s.next ≡ none
    → lookup d.id s1.net.outgoing ≡ none
    → Ended d (put_conn d s1.net) (wire_to o target s)
unfolding wire_to join add_conn put_conn announce
wire_to_ends o target s s1 d dialled closes fresh =
    let opened : IsFresh s.next d = dial_context-IsFresh o target s s1 d dialled in
    let n = put_conn d s1.net in
    let s2 : World = record s1 { net = n } in
    let is : wire_to o target s
        ≡ resume (λ u s. (ok d.id, handed o d.id (update_conn o d.id (wired o) s)))
            (cleaned (peer_close o (joined d.id)) (introduce o d.id s2)) =
      rw (wire_to, dialled, add_conn, fresh) refl in
    let there : lookup d.id n.outgoing ≡ some (held d n) =
      lookup-insert d.id d.id (held d n) s1.net.outgoing ∙ rw (=ᵇ_refl d.id) refl in
    subst (Ended d n) (sym is) (
      ends o d s.next n (introduce o d.id s2) opened.0 closes opened.1 there
        (introduce-net o d.id s2))
