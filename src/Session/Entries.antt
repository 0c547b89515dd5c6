-- ===== src/Session/Entries.antt =====
-- What dialling and wiring leave as it is: the open connection of another node.
use booster.Common.{
  sym, subst, =ᵇ_eq, Bool-cases, true, ℕ, ◌≡◌, refl, ◌∙◌, inl, inr, false, some, arith,
  Option-cases, Bytes, ◌=ᵇ◌,
}
use booster.Common.Result.{err, resume, ◌>>=◌}
use booster.Common.Dict.{Dict, lookup, insert, lookup-insert}
use booster.Network.State.{
  already_present, Conn, Network, add_conn, put_conn, announce, trace, conn_close,
}
use booster.Session.{network_error, Outside, Session, joined, failing, modify, peer_close}
use booster.Session.Wire.{wired, wire_to, close_conn, join, handed, update_conn}
use booster.Session.Kept.{
  Keeps-introduce, Holds, Keeps, Keeps-bind, Keeps-failing, Keeps-pure, Keeps-dial_context,
  close_side-Holds,
}

module _ (j : Bytes) (c : Conn) where
  -- The connection c is under j.
  abbrev pub Has : Network → Type 0
  Has n = lookup j n.outgoing ≡ some c

  module _ (o : Outside) where
    conn_close-outgoing :
        (d : Conn) (n : Network) → (conn_close o.close_handle d n).2.outgoing ≡ n.outgoing
    unfolding conn_close announce trace
    conn_close-outgoing d n = ground arith

    pub Keeps-close_conn : (d : Conn) → Keeps Has (close_conn o d)
    unfolding close_conn
    Keeps-close_conn d = record {
      keeps = λ s held.
          close_side-Holds Has o d.conn (record s { net = (conn_close o.close_handle d s.net).2 })
            (rw (conn_close-outgoing d s.net) held);
    }

    -- An entry under another id.
    module _ (id : Bytes) (other : (id =ᵇ j) ≡ false) where
      insert-Holds : (d : Conn) (m : Dict Conn) → lookup j (insert id d m) ≡ lookup j m
      insert-Holds d m = lookup-insert id j d m ∙ rw other refl

      pub Keeps-update_conn : (f : Conn → Conn) → Keeps Has (modify (update_conn o id f))
      Keeps-update_conn f = record {
        keeps = λ s held. elim (Option-cases (lookup id s.net.outgoing)) [
          | inl e ↦ rw (update_conn, e) held
          | inr (d, e) ↦ rw (update_conn, e) (insert-Holds (f d) s.net.outgoing ∙ held)
        ];
      }

      pub Keeps-close_joined : Keeps Has (peer_close o (joined id))
      unfolding peer_close
      Keeps-close_joined = record {
        keeps = λ s held. elim (Option-cases (lookup id s.net.outgoing)) [
          | inl e ↦ rw (peer_close, e) held
          | inr (d, e) ↦
              let n = (conn_close o.close_handle d s.net).2 in
              let d' = (conn_close o.close_handle d s.net).1 in
              rw (peer_close, e)
                (close_side-Holds Has o d.conn
                  (record s { net = record n { outgoing = insert id d' n.outgoing } })
                  (insert-Holds d' n.outgoing ∙ rw (conn_close-outgoing d s.net) held))
        ];
      }

    add_conn-other :
        (d : Conn) (n : Network)
        → (d.id =ᵇ j) ≡ false
        → lookup j (add_conn d n).1.outgoing ≡ lookup j n.outgoing
    unfolding add_conn put_conn announce
    add_conn-other d n other = elim (Option-cases (lookup d.id n.outgoing)) [
      | inl e ↦ rw (add_conn, e) (insert-Holds d.id other _ n.outgoing)
      | inr (old, e) ↦ elim (Option-cases old.conn) [
        | inl gone ↦ rw (add_conn, e, gone) (insert-Holds d.id other _ n.outgoing)
        | inr (h, up) ↦ rw (add_conn, e, up) refl
      ]
    ]

    pub Keeps-join : (d : Conn) → (d.id =ᵇ j) ≡ false → Keeps Has (join o d)
    unfolding join
    Keeps-join d other = record { keeps = λ s held. add_conn-other d s.net other ∙ held }

    -- AddConn refuses a connection to a node that is connected.
    Keeps-refused :
        {A : Type 0} (d : Conn) (h : ℕ) (k : Unit {0} → Session A)
        → (d.id =ᵇ j) ≡ true
        → c.conn ≡ some h
        → Keeps Has (failing (close_conn o d) (join o d) >>= k)
    unfolding join add_conn
    Keeps-refused d h k same up = record {
      keeps = λ s held.
          let there : lookup d.id s.net.outgoing ≡ some c = rw (=ᵇ_eq d.id j same) held in
          let refused : failing (close_conn o d) (join o d) s
              ≡ (err (network_error (already_present d.id)), (close_conn o d s).1) =
            rw (add_conn, there, up) refl in
          subst (λ x. Holds Has (resume k x).1) (sym refused) ((Keeps-close_conn d).keeps s held);
    }

    Keeps-handed : (id : Bytes) → Keeps Has (modify (handed o id))
    Keeps-handed id = record { keeps = λ s held. held }

    pub Keeps-wire_to : (h : ℕ) → c.conn ≡ some h → (target : Bytes) → Keeps Has (wire_to o target)
    unfolding wire_to
    Keeps-wire_to h up target = Keeps-bind Has (Keeps-dial_context Has o target) λ d.
        elim (Bool-cases (d.id =ᵇ j)) [
          | inl same ↦ Keeps-refused d h _ same up
          | inr other ↦
              Keeps-bind Has (Keeps-failing Has (Keeps-close_conn d) (Keeps-join d other)) λ u.
                Keeps-bind Has
                  (Keeps-failing Has (Keeps-close_joined d.id other) (Keeps-introduce Has o d.id))
                  λ u'.
                    Keeps-bind Has (Keeps-update_conn d.id other (wired o))
                      λ u''. Keeps-bind Has (Keeps-handed d.id) λ v. Keeps-pure Has d.id
        ]
