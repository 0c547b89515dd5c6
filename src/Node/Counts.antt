-- ===== src/Node/Counts.antt =====
-- A node is a bag of targets: AddTunnel puts one in, RemoveTunnel takes one out.
use booster.Node.State.{no_tunnel, remove_tunnel, Node, Tunnel, add_tunnel}
use booster.Common.Dict.{
  lookup-delete, delete-IsMap, lookup-insert, insert-IsMap, IsMap, Dict, delete, insert, lookup,
}
use booster.Common.{
  ◌<◌, ◌⊎◌, refl, =ᵇ_iff, arith, ◌∙◌, =ᵇ_eq, Option-cases, inr, inl, none, ◌+◌, if◌then◌else◌, ◌=ᵇ◌,
  Bool-cases, some, Bytes, [], ℕ, ◌∷◌, ◌≡◌, Option,
}
use booster.Common.Int.{ -ℤ_parts, ◌-ℤ◌, ◌==ℤ◌, +ℤ_parts, int_laws, ◌+ℤ◌, pos_part, ◌≤ℤ◌, pos}
use booster.Common.Result.{err, ok}

-- The entries of a node: a map of tunnels under their targets, each with a copy at least.
abbrev pub AllTunnels : Dict Tunnel → Type 0
AllTunnels [] = Unit {0}
AllTunnels ((k, t) ∷ m) = (k ≡ t.target) × (pos 1 ≤ℤ t.copies) × AllTunnels m

pub record IsNode (n : Node) : Type 0 where
  pub is_map : IsMap n.tunnels
  pub tunnels : AllTunnels n.tunnels

-- How many connections to a target a node counts.
abbrev count_of : Option Tunnel → ℕ
count_of none = 0
count_of (some t) = pos_part t.copies

abbrev pub count : Node → Bytes → ℕ
count n target = count_of (lookup target n.tunnels)

pub AllTunnels-lookup :
    (k : Bytes) (m : Dict Tunnel) (t : Tunnel)
    → AllTunnels m
    → lookup k m ≡ some t
    → (k ≡ t.target) × (pos 1 ≤ℤ t.copies)
unfolding lookup
AllTunnels-lookup k [] t h e = cc
AllTunnels-lookup k ((j, u) ∷ m) t (key, one, rest) e = elim (Bool-cases (j =ᵇ k)) [
  | inl same ↦
      let same' : j ≡ k = =ᵇ_eq j k same in
      let u_is_t : u ≡ t = ground arith in ground (arith, same', u_is_t)
  | inr other ↦ AllTunnels-lookup k m t rest (ground arith)
]

AllTunnels-insert :
    (m : Dict Tunnel) (k : Bytes) (t : Tunnel)
    → AllTunnels m
    → k ≡ t.target
    → pos 1 ≤ℤ t.copies
    → AllTunnels (insert k t m)
unfolding insert
AllTunnels-insert [] k t h e one = (e, one, tt)
AllTunnels-insert ((j, u) ∷ m) k t (key, had, rest) e one = elim (Bool-cases (j =ᵇ k)) [
  | inl same ↦ rw same (=ᵇ_eq j k same ∙ e, one, rest)
  | inr other ↦ rw other (key, had, AllTunnels-insert m k t rest e one)
]

AllTunnels-delete : (m : Dict Tunnel) (k : Bytes) → AllTunnels m → AllTunnels (delete k m)
unfolding delete
AllTunnels-delete [] k h = tt
AllTunnels-delete ((j, u) ∷ m) k (key, had, rest) = elim (Bool-cases (j =ᵇ k)) [
  | inl same ↦ rw same (AllTunnels-delete m k rest)
  | inr other ↦ rw other (key, had, AllTunnels-delete m k rest)
]

-- Adding a tunnel of one copy to a well-formed node keeps it well formed and counts one connection
-- more to the tunnel's target, and to no other.
pub add_tunnel-count :
    (t : Tunnel) (n : Node)
    → t.copies ≡ pos 1
    → IsNode n
    → IsNode (add_tunnel t n)
      × ((k : Bytes)
          → count (add_tunnel t n) k ≡ (if t.target =ᵇ k then count n k + 1 else count n k))
unfolding add_tunnel
add_tunnel-count t n one h = elim (Option-cases (lookup t.target n.tunnels)) [
  | inl e ↦
      rw (e, add_tunnel)
        (
          record {
            is_map = insert-IsMap t.target t n.tunnels h.is_map;
            tunnels = AllTunnels-insert n.tunnels t.target t h.tunnels refl (rw one (omega arith));
          },
          λ k. ground (arith, lookup-insert t.target k t n.tunnels, =ᵇ_iff t.target k),
        )
  | inr (u, e) ↦
      let u' : Tunnel = record u { copies = u.copies +ℤ pos 1 } in
      let (key, had) = AllTunnels-lookup t.target n.tunnels u h.tunnels e in
      rw (e, add_tunnel)
        (
          record {
            is_map = insert-IsMap t.target u' n.tunnels h.is_map;
            tunnels = AllTunnels-insert n.tunnels t.target u' h.tunnels key (omega int_laws);
          },
          λ k. ground (
            arith,
            lookup-insert t.target k u' n.tunnels,
            =ᵇ_iff t.target k,
            +ℤ_parts u.copies (pos 1),
          ),
        )
]

-- Removing a tunnel that is there keeps a node well formed and counts one connection less to its
-- target, and to no other.
remove_present-count :
    (target : Bytes) (n : Node) (t : Tunnel)
    → IsNode n
    → lookup target n.tunnels ≡ some t
    → IsNode (remove_tunnel target n).1
      × ((remove_tunnel target n).0 ≡ ok tt)
      × ((k : Bytes)
          → count n k ≡ (
              if target =ᵇ k
              then count (remove_tunnel target n).1 k + 1
              else count (remove_tunnel target n).1 k))
unfolding remove_tunnel
remove_present-count target n t h e =
    let (key, had) = AllTunnels-lookup target n.tunnels t h.tunnels e in
    elim (Bool-cases (t.copies ==ℤ pos 1)) [
      | inl last ↦
          rw (e, remove_tunnel, last)
            (
              record {
                is_map = delete-IsMap target n.tunnels h.is_map;
                tunnels = AllTunnels-delete n.tunnels target h.tunnels;
              },
              refl,
              λ k. ground (arith, lookup-delete target k n.tunnels, =ᵇ_iff target k),
            )
      | inr more ↦
          let t' : Tunnel = record t { copies = t.copies -ℤ pos 1 } in
          let two : pos 2 ≤ℤ t.copies = ground arith in
          rw (e, remove_tunnel, more)
            (
              record {
                is_map = insert-IsMap target t' n.tunnels h.is_map;
                tunnels = AllTunnels-insert n.tunnels target t' h.tunnels key (omega int_laws);
              },
              refl,
              λ k. ground (
                arith,
                lookup-insert target k t' n.tunnels,
                =ᵇ_iff target k,
                -ℤ_parts t.copies (pos 1),
              ),
            )
    ]

-- On a well-formed node, RemoveTunnel fails exactly on a target that the node counts no connection
-- to, and changes nothing then; else it takes one connection to that target out and leaves the
-- others. The node stays well formed.
pub remove_tunnel-count :
    (target : Bytes) (n : Node)
    → IsNode n
    → IsNode (remove_tunnel target n).1
      × (((count n target ≡ 0) × (remove_tunnel target n ≡ (err (no_tunnel target n.id), n)))
          ⊎ ((0 < count n target)
              × ((remove_tunnel target n).0 ≡ ok tt)
              × ((k : Bytes)
                  → count n k ≡ (
                      if target =ᵇ k
                      then count (remove_tunnel target n).1 k + 1
                      else count (remove_tunnel target n).1 k))))
remove_tunnel-count target n h = elim (Option-cases (lookup target n.tunnels)) [
  | inl e ↦
      let gone : remove_tunnel target n ≡ (err (no_tunnel target n.id), n) =
        unfold remove_tunnel in rw (e, remove_tunnel) in
      (rw gone h, inl (ground arith, gone))
  | inr (t, e) ↦
      let (good, done, counts) = remove_present-count target n t h e in
      let (key, had) = AllTunnels-lookup target n.tunnels t h.tunnels e in
      (good, inr (ground arith, done, counts))
]
