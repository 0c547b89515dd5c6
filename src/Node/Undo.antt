-- ===== src/Node/Undo.antt =====
-- RemoveTunnel takes back what AddTunnel put in, entry for entry.
use booster.Node.State.{remove_tunnel, Node, Tunnel, add_tunnel}
use booster.Node.Counts.{IsNode, AllTunnels-lookup}
use booster.Common.Dict.{insert-insert, insert_new, lookup-insert, Dict, delete, insert, lookup}
use booster.Common.{
  false, true, =ᵇ_refl, ◌++◌, arith, Option-cases, inr, inl, none, some, Bytes, [], ◌∷◌, ◌≡◌,
}
use booster.Common.Int.{◌-ℤ◌, ◌==ℤ◌, +ℤ_parts, int_laws, ◌+ℤ◌, ◌≤ℤ◌, pos}
use booster.Common.Result.{ok}

insert_self : (k : Bytes) (t : Tunnel) (m : Dict Tunnel) → lookup k m ≡ some t → insert k t m ≡ m
unfolding insert lookup
insert_self k t [] h = cc
insert_self k t ((j, v) ∷ m) h = ground (arith, insert_self k t m)

delete_last :
    (k : Bytes) (t : Tunnel) (m : Dict Tunnel) → lookup k m ≡ none → delete k (m ++ (k, t) ∷ []) ≡ m
unfolding delete lookup
delete_last k t [] h = ground (arith, =ᵇ_refl k)
delete_last k t ((j, v) ∷ m) h = ground (arith, delete_last k t m)

lookup_last :
    (k : Bytes) (t : Tunnel) (m : Dict Tunnel)
    → lookup k m ≡ none
    → lookup k (m ++ (k, t) ∷ []) ≡ some t
unfolding lookup
lookup_last k t [] h = ground (arith, =ᵇ_refl k)
lookup_last k t ((j, v) ∷ m) h = ground (arith, lookup_last k t m)

-- With the map written out: the last copy goes with its entry, any other copy leaves it.
remove_last :
    (n : Node) (m : Dict Tunnel) (t : Tunnel)
    → t.copies ≡ pos 1
    → lookup t.target m ≡ none
    → remove_tunnel t.target (record n { tunnels = m ++ (t.target, t) ∷ [] })
      ≡ (ok tt, record n { tunnels = m })
unfolding remove_tunnel
remove_last n m t one h =
    rw (lookup_last t.target t m h, remove_tunnel) (rw (delete_last t.target t m h) (ground arith))

remove_copy :
    (n : Node) (m : Dict Tunnel) (k : Bytes) (u : Tunnel)
    → pos 1 ≤ℤ u.copies
    → lookup k m ≡ some u
    → remove_tunnel k (record n { tunnels = insert k (record u { copies = u.copies +ℤ pos 1 }) m })
      ≡ (ok tt, record n { tunnels = m })
unfolding remove_tunnel
remove_copy n m k u had h =
    let u' : Tunnel = record u { copies = u.copies +ℤ pos 1 } in
    let back : u.copies +ℤ pos 1 -ℤ pos 1 ≡ u.copies = omega int_laws in
    let many : (u.copies +ℤ pos 1 ==ℤ pos 1) ≡ false = ground (arith, +ℤ_parts u.copies (pos 1)) in
    let found : lookup k (insert k u' m) ≡ some u' =
      ground (arith, lookup-insert k k u' m, =ᵇ_refl k) in
    rw (found, remove_tunnel, many, back) (rw (insert-insert k u u' m, insert_self k u m h))

-- Adding a tunnel of one copy to a well-formed, active node and removing its target again gives the
-- node back, entry for entry.
remove-add_tunnel :
    (t : Tunnel) (n : Node)
    → t.copies ≡ pos 1
    → IsNode n
    → n.active ≡ true
    → remove_tunnel t.target (add_tunnel t n) ≡ (ok tt, n)
unfolding add_tunnel
remove-add_tunnel t n one h on = elim (Option-cases (lookup t.target n.tunnels)) [
  | inl e ↦
      rw (e, add_tunnel, ← on, insert_new t.target t n.tunnels e) (remove_last n n.tunnels t one e)
  | inr (u, e) ↦
      let (key, had) = AllTunnels-lookup t.target n.tunnels u h.tunnels e in
      rw (e, add_tunnel, ← on) (remove_copy n n.tunnels t.target u had e)
]
