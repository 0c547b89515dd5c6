-- ===== src/Network/Connections.antt =====
-- What AddConn, Conn.Close and Networks.Close do to the connections of a network.
use booster.Common.{
  ℕ, ◌≡◌, refl, sym, subst, ◌∙◌, ◌≢◌, ◌⊎◌, inl, inr, false, Option, none, some, [], ◌∷◌, map, arith,
  Bool-cases, Option-cases, Bytes, ◌=ᵇ◌, =ᵇ_iff, =ᵇ_refl, =ᵇ_eq,
}
use booster.Common.Result.{ok}
use booster.Common.Dict.{Dict, lookup, insert, IsMap, lookup-insert}
use booster.Node.State.{Tunnel, copy_all, copy_tunnels, set_is_active}
use booster.Network.State.{
  Conn, Network, add_conn, conn_close, close_entry, close_each, close_all, put_conn, announce,
  trace,
}

-- The first that there is.
abbrev pub or_else : Option Tunnel → Option Tunnel → Option Tunnel
or_else none o = o
or_else (some t) o = some t

-- CopyTunnels: a target of the one node hides the same target of the other.
copy_all-lookup :
    (from into : Dict Tunnel) (k : Bytes)
    → IsMap from
    → lookup k (copy_all from into) ≡ or_else (lookup k from) (lookup k into)
unfolding copy_all lookup
copy_all-lookup [] into k h = refl
copy_all-lookup ((j, v) ∷ from) into k h =
    copy_all-lookup from (insert j v into) k h.1
    ∙ ground (arith, lookup-insert j k v into, =ᵇ_iff j k)

abbrev pub IsClosed : Option Conn → Type 0
IsClosed none = Unit {0}
IsClosed (some c) = c.conn ≡ none

module _ (close_handle : ℕ → Option Bytes) where
  lookup-insert_self :
      (key : Bytes) (c : Conn) (m : Dict Conn) → lookup key (insert key c m) ≡ some c
  lookup-insert_self key c m = lookup-insert key key c m ∙ rw (=ᵇ_refl key) refl

  -- The connection as Close leaves it in the network.
  lookup-close_entry :
      (before : Conn) (n : Network) (h : ℕ) (key : Bytes)
      → before.conn ≡ some h
      → close_handle h ≡ none
      → (old : Conn) × (lookup key (close_entry close_handle key before n).outgoing ≡ some old)
        × (old.conn ≡ none)
        × (old.remote_node.tunnels ≡ before.remote_node.tunnels)
  unfolding close_entry set_is_active conn_close
  lookup-close_entry before n h key is_open closes = (
    record before { conn = none; remote_node = set_is_active false before.remote_node },
    rw (close_entry, conn_close, is_open, closes) (lookup-insert_self key _ n.outgoing),
    refl,
    refl,
  )

  -- When an open connection is closed without an error and one is added anew under the same
  -- identifier, the addition succeeds, and the network has the new handle with all the tunnels of
  -- the old node, whose tunnels are a map; a target of the old node hides the same target of the
  -- new one.
  pub add_conn-close_entry :
      (before c : Conn) (n : Network) (h : ℕ) (target : Bytes)
      → before.conn ≡ some h
      → close_handle h ≡ none
      → IsMap before.remote_node.tunnels
      → ((add_conn c (close_entry close_handle c.id before n)).0 ≡ ok tt)
        × (c' : Conn) × (lookup c.id
              (add_conn c (close_entry close_handle c.id before n)).1.outgoing
            ≡ some c')
        × (c'.conn ≡ c.conn)
        × (lookup target c'.remote_node.tunnels
            ≡ or_else
                (lookup target before.remote_node.tunnels)
                (lookup target c.remote_node.tunnels))
  unfolding add_conn put_conn announce copy_tunnels
  add_conn-close_entry before c n h target is_open closes map =
      let n1 = close_entry close_handle c.id before n in
      let (old, e1, gone, kept) = lookup-close_entry before n h c.id is_open closes in
      let node = copy_tunnels old.remote_node c.remote_node in
      let c' : Conn = record c { booster_id = n1.booster_id; remote_node = node } in
      rw (add_conn, e1, gone)
        (
          refl,
          c',
          lookup-insert_self c.id c' n1.outgoing,
          refl,
          copy_all-lookup old.remote_node.tunnels c.remote_node.tunnels target
                (subst IsMap (sym kept) map)
              ∙ rw kept refl,
        )

  -- The connection that Close returns is closed, and a node that is not to be traced is not traced.
  conn_close-conn :
      (c : Conn) (n : Network)
      → ((h : ℕ) → close_handle h ≡ none)
      → ((conn_close close_handle c n).1.conn ≡ none)
        × (c.remote_node.to_be_traced ≡ false → (conn_close close_handle c n).2.traced ≡ n.traced)
  unfolding conn_close trace announce set_is_active
  conn_close-conn c n closes = elim (Option-cases c.conn) [
    | inl e ↦ rw (e, conn_close) (e, λ u. refl)
    | inr (h, e) ↦ rw (e, conn_close, closes h) (refl, λ u. rw u refl)
  ]

  abbrev untraced : Conn → Conn
  untraced c = record c { remote_node = record c.remote_node { to_be_traced = false } }

  close_entry-IsClosed :
      (key k : Bytes) (c : Conn) (n : Network)
      → ((h : ℕ) → close_handle h ≡ none)
      → ((k ≡ key) ⊎ IsClosed (lookup key n.outgoing))
      → IsClosed (lookup key (close_entry close_handle k (untraced c) n).outgoing)
  unfolding close_entry
  close_entry-IsClosed key k c n closes either =
      let c' = (conn_close close_handle (untraced c) n).1 in
      let shut = (conn_close-conn (untraced c) n closes).0 in
      rw (lookup-insert k key c' n.outgoing) (elim (Bool-cases (k =ᵇ key)) [
        | inl same ↦ rw same shut
        | inr other ↦
            rw other (elim either [ inl e ↦ absurd (ground (arith, =ᵇ_iff k key)) | inr was ↦ was ])
      ])

  close_entry-traced :
      (k : Bytes) (c : Conn) (n : Network)
      → ((h : ℕ) → close_handle h ≡ none)
      → (close_entry close_handle k (untraced c) n).traced ≡ n.traced
  unfolding close_entry
  close_entry-traced k c n closes = (conn_close-conn (untraced c) n closes).1 refl

  close_each-IsClosed :
      (m : Dict Conn) (n : Network) (key : Bytes)
      → ((h : ℕ) → close_handle h ≡ none)
      → (lookup key m ≢ none) ⊎ IsClosed (lookup key n.outgoing)
      → IsClosed (lookup key (close_each close_handle m n).outgoing)
        × ((close_each close_handle m n).traced ≡ n.traced)
  unfolding close_each lookup
  close_each-IsClosed [] n key closes (inl h) = absurd (h refl)
  close_each-IsClosed [] n key closes (inr h) = (h, refl)
  close_each-IsClosed ((k, c) ∷ m) n key closes either =
      let n1 = close_entry close_handle k (untraced c) n in
      let same = close_entry-traced k c n closes in
      let (shut, traced) = close_each-IsClosed m n1 key closes (elim (Bool-cases (k =ᵇ key)) [
        | inl e ↦ inr (close_entry-IsClosed key k c n closes (inl (=ᵇ_eq k key e)))
        | inr e ↦ elim either [
          | inl h ↦ inl (λ z. h (rw e z))
          | inr was ↦ inr (close_entry-IsClosed key k c n closes (inr was))
        ]
      ]) in
      (shut, traced ∙ same)

  -- Networks.Close, when every handle closes without an error: every connection is closed, and no
  -- node was given to the tracer.
  pub close_all_lem :
      (n : Network) (key : Bytes)
      → ((h : ℕ) → close_handle h ≡ none)
      → IsClosed (lookup key (close_all close_handle n).outgoing)
        × ((close_all close_handle n).traced ≡ n.traced)
  unfolding close_all
  close_all_lem n key closes =
      close_each-IsClosed n.outgoing n key closes (elim (Option-cases (lookup key n.outgoing)) [
        | inl e ↦ inr (rw e tt)
        | inr (c, e) ↦ inl (λ nothing. cc)
      ])
