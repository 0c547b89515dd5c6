-- ===== src/Node/Workload.antt =====
-- How tunnels come and go changes the workload of a node.
use booster.Node.State.{no_tunnel, Node, Tunnel, sum_copies, add_tunnel, remove_tunnel, workload}
use booster.Common.{
  ◌≢◌, ◌⊎◌, Option-cases, =ᵇ_eq, true, subst, inr, inl, ◌=ᵇ◌, Bool-cases, Bytes, refl, [], ◌∷◌,
  none, ◌≡◌, some, Option,
}
use booster.Common.Int.{◌-ℤ◌, ==ℤ_iff, ◌==ℤ◌, int_laws, ◌+ℤ◌, pos, ℤ}
use booster.Common.Dict.{delete_absent, IsMap, Dict, lookup, delete, insert}
use booster.Common.Result.{ok, err}

sum_copies_shift : (a b : ℤ) (m : Dict Tunnel) → sum_copies (a +ℤ b) m ≡ a +ℤ sum_copies b m
unfolding sum_copies
sum_copies_shift a b [] = refl
sum_copies_shift a b ((k, t) ∷ m) =
    let e : a +ℤ b +ℤ t.copies ≡ a +ℤ (b +ℤ t.copies) = omega int_laws in
    rw e (sum_copies_shift a (b +ℤ t.copies) m)

sum_copies_from : (wl : ℤ) (m : Dict Tunnel) → sum_copies wl m ≡ wl +ℤ sum_copies (pos 0) m
sum_copies_from wl m =
    let e : wl +ℤ pos 0 ≡ wl = omega int_laws in rw e at (sum_copies_shift wl (pos 0) m)

abbrev copies_of : Option Tunnel → ℤ
copies_of none = pos 0
copies_of (some t) = t.copies

-- The sum after a write: the old entry's copies are replaced by the new one's.
sum_copies-insert :
    (wl : ℤ) (k : Bytes) (t : Tunnel) (m : Dict Tunnel)
    → sum_copies wl (insert k t m) +ℤ copies_of (lookup k m) ≡ sum_copies wl m +ℤ t.copies
unfolding sum_copies insert lookup
sum_copies-insert wl k t [] = omega int_laws
sum_copies-insert wl k t ((j, u) ∷ m) = elim (Bool-cases (j =ᵇ k)) [
  | inl e ↦ rw e (
      let e₁ = sum_copies_from (wl +ℤ t.copies) m in
      let e₂ = sum_copies_from (wl +ℤ u.copies) m in omega int_laws)
  | inr e ↦ rw e (sum_copies-insert (wl +ℤ u.copies) k t m)
]

sum_copies-delete :
    (wl : ℤ) (k : Bytes) (m : Dict Tunnel)
    → IsMap m
    → sum_copies wl (delete k m) +ℤ copies_of (lookup k m) ≡ sum_copies wl m
unfolding sum_copies delete lookup
sum_copies-delete wl k [] h = omega int_laws
sum_copies-delete wl k ((j, u) ∷ m) h = elim (Bool-cases (j =ᵇ k)) [
  | inl e ↦
      let absent : lookup k m ≡ none = subst (λ (i : Bytes). lookup i m ≡ none) (=ᵇ_eq j k e) h.0 in
      let e₁ = sum_copies_from wl m in
      let e₂ = sum_copies_from (wl +ℤ u.copies) m in
      rw (e, delete_absent k m absent) (omega int_laws)
  | inr e ↦ rw e (sum_copies-delete (wl +ℤ u.copies) k m h.1)
]

-- Adding a tunnel of one copy raises the workload by one, whether its target is new to the node or
-- not, and makes the node active.
pub workload-add_tunnel :
    (t : Tunnel) (n : Node)
    → t.copies ≡ pos 1
    → (workload (add_tunnel t n) ≡ workload n +ℤ pos 1) × ((add_tunnel t n).active ≡ true)
unfolding workload add_tunnel
workload-add_tunnel t n one = elim (Option-cases (lookup t.target n.tunnels)) [
  | inl e ↦
      let s = rw e at (sum_copies-insert (pos 0) t.target t n.tunnels) in
      rw (e, add_tunnel) (omega int_laws, refl)
  | inr (u, e) ↦
      let u' : Tunnel = record u { copies = u.copies +ℤ pos 1 } in
      let s = rw e at (sum_copies-insert (pos 0) t.target u' n.tunnels) in
      rw (e, add_tunnel) (omega int_laws, refl)
]

remove_present :
    (target : Bytes) (n : Node) (t : Tunnel)
    → IsMap n.tunnels
    → lookup target n.tunnels ≡ some t
    → ((remove_tunnel target n).0 ≡ ok tt)
      × (workload n ≡ workload (remove_tunnel target n).1 +ℤ pos 1)
unfolding workload remove_tunnel
remove_present target n t h e = elim (Bool-cases (t.copies ==ℤ pos 1)) [
  | inl last ↦
      let one : t.copies ≡ pos 1 = (==ℤ_iff t.copies (pos 1)).0 last in
      let s = rw e at (sum_copies-delete (pos 0) target n.tunnels h) in
      rw (e, remove_tunnel, last) (refl, omega int_laws)
  | inr more ↦
      let t' : Tunnel = record t { copies = t.copies -ℤ pos 1 } in
      let s = rw e at (sum_copies-insert (pos 0) target t' n.tunnels) in
      rw (e, remove_tunnel, more) (refl, omega int_laws)
]

-- On a node whose tunnels are a map, RemoveTunnel fails and changes nothing if there is no tunnel
-- to the target, and else succeeds and lowers the workload by one.
pub workload-remove_tunnel :
    (target : Bytes) (n : Node)
    → IsMap n.tunnels
    → ((lookup target n.tunnels ≡ none)
        × (remove_tunnel target n ≡ (err (no_tunnel target n.id), n)))
      ⊎ ((lookup target n.tunnels ≢ none)
          × ((remove_tunnel target n).0 ≡ ok tt)
          × (workload n ≡ workload (remove_tunnel target n).1 +ℤ pos 1))
unfolding workload remove_tunnel
workload-remove_tunnel target n h = elim (Option-cases (lookup target n.tunnels)) [
  | inl e ↦ inl (e, rw (e, remove_tunnel))
  | inr (t, e) ↦ let (done, less) = remove_present target n t h e in inr (λ absent. cc, done, less)
]
