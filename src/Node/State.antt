-- ===== src/Node/State.antt =====
-- node/tunnel.go and node/node.go. A method that changes the node returns the new one. The locks
-- make each method atomic; a tunnel is held by one node, and by the closed one that it replaced.
use booster.Common.{
  none, ◌||◌, some, ◌++◌, ◌==◌, List, Option, [], false, if◌then◌else◌, ◌∷◌, Bool, Bytes, true, ℕ,
}
use booster.Common.Dict.{delete, insert, lookup, Dict}
use booster.Common.Int.{◌-ℤ◌, ◌==ℤ◌, ◌+ℤ◌, pos, ℤ}
use booster.Common.Result.{ok, err, Result}
use mathlib.Core.List.{flatten}

pub record Tunnel : Type 0 where
  pub id : Bytes
  pub target : Bytes
  pub copies : ℤ

pub record Node : Type 0 where
  pub id : Bytes
  pub baddr : Bytes
  pub paddr : Bytes
  pub is_local : Bool
  pub to_be_traced : Bool
  pub stopped : Bool
  pub active : Bool
  pub tunnels : Dict Tunnel

pub data Error : Type 0 where
  bad_baddr bad_paddr : Bytes → Error
  no_tunnel : Bytes → Bytes → Error
  not_found : Bytes → Error
  already_enstablished unreachable : Error
  closed_twice : Error

-- The images, one after the other, go through SHA-1; `digest` is that and its hexadecimal form.
abbrev pub sha1_hash : (Bytes → Bytes) → List Bytes → Bytes
sha1_hash digest images = digest (flatten images)

contains : ℕ → Bytes → Bool
contains c [] = false
contains c (b ∷ bs) = b == c || contains c bs

-- net.JoinHostPort
unfoldable pub join_host_port : Bytes → Bytes → Bytes
unfolding contains
join_host_port host port =
    if contains b':' host then (b'[' ∷ host) ++ (b']' ∷ b':' ∷ port) else host ++ (b':' ∷ port)

-- The name resolution of net.ResolveTCPAddr, and SHA-1.
pub record Environment : Type 0 where
  pub resolve : Bytes → Option Bytes
  pub digest : Bytes → Bytes

module _ (env : Environment) where
  unfoldable pub new_tunnel : Bytes → Tunnel
  new_tunnel target = record {
    id = sha1_hash env.digest (target ∷ []);
    target = target;
    copies = pos 1;
  }

  unfoldable pub new : Bytes → Bytes → Bytes → Bool → Result Error Node
  new host pport bport is_local = elim (env.resolve (join_host_port host bport)) [
    | none ↦ err (bad_baddr host)
    | some baddr ↦ elim (env.resolve (join_host_port host pport)) [
      | none ↦ err (bad_paddr host)
      | some paddr ↦ ok (record {
        id = sha1_hash env.digest (host ∷ bport ∷ pport ∷ []);
        baddr = baddr;
        paddr = paddr;
        is_local = is_local;
        to_be_traced = false;
        stopped = false;
        active = false;
        tunnels = [];
      })
    ]
  ]

-- `for k, v := range from { into[k] = v }`
unfoldable pub copy_all : Dict Tunnel → Dict Tunnel → Dict Tunnel
copy_all [] into = into
copy_all ((k, v) ∷ from) into = copy_all from (insert k v into)

unfoldable pub copy_tunnels : Node → Node → Node
unfolding copy_all
copy_tunnels n into = record into { tunnels = copy_all n.tunnels into.tunnels }

unfoldable pub sum_copies : ℤ → Dict Tunnel → ℤ
sum_copies wl [] = wl
sum_copies wl ((k, t) ∷ m) = sum_copies (wl +ℤ t.copies) m

unfoldable pub workload : Node → ℤ
unfolding sum_copies
workload n = sum_copies (pos 0) n.tunnels

unfoldable pub set_is_active : Bool → Node → Node
set_is_active active n = record n { active = active }

unfoldable pub add_tunnel : Tunnel → Node → Node
unfolding set_is_active
add_tunnel tunnel n =
    let n' = set_is_active true n in
    elim (lookup tunnel.target n'.tunnels) [
      | some t ↦
          let t' : Tunnel = record t { copies = t.copies +ℤ pos 1 } in
          record n' { tunnels = insert tunnel.target t' n'.tunnels }
      | none ↦ record n' { tunnels = insert tunnel.target tunnel n'.tunnels }
    ]

unfoldable pub remove_tunnel : Bytes → Node → Result Error (Unit {0}) × Node
remove_tunnel target n = elim (lookup target n.tunnels) [
  | none ↦ (err (no_tunnel target n.id), n)
  | some t ↦
      if t.copies ==ℤ pos 1
      then (ok tt, record n { tunnels = delete target n.tunnels })
      else let t' : Tunnel = record t { copies = t.copies -ℤ pos 1 } in
        (ok tt, record n { tunnels = insert target t' n.tunnels })
]

unfoldable pub tunnel : Bytes → Node → Result Error Tunnel
tunnel target n = elim (lookup target n.tunnels) [ none ↦ err (not_found target) | some t ↦ ok t ]

-- Closing a closed channel panics.
unfoldable pub close : Node → Result Error (Unit {0}) × Node
unfolding set_is_active
close n =
    let n' = set_is_active false n in
    if n'.stopped then (err closed_twice, n') else (ok tt, record n' { stopped = true })

-- `dial` tells whether the node's booster address can be reached.
unfoldable pub ping : (Bytes → Bool) → Node → Result Error (Unit {0})
ping dial n =
    if n.active then err already_enstablished else if dial n.baddr then ok tt else err unreachable
