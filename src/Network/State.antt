-- ===== src/Network/State.antt =====
-- Network and Conn of booster/network.go. A network is registered under its id while it is in use,
-- so that `Nets.Get(c.boosterID)` is the network that holds the connection. The order in which Go
-- ranges over a map is that of the entries here.
use booster.Common.{ℕ, false, Option, none, some, List, [], ◌∷◌, ◌++◌, if◌then◌else◌, Bytes}
use booster.Common.Result.{Result, ok, err}
use booster.Common.Dict.{Dict, lookup, insert}
use booster.Node.State.{
  Node, Tunnel, Environment, copy_tunnels, set_is_active, new_tunnel, add_tunnel, remove_tunnel,
}
use booster.Common.Int.{◌==ℤ◌}
use booster.Protocol.Payloads.{
  Operation, ProtocolTunnel, PayloadNode, PayloadNetworkUpdate, PayloadProxyUpdate, tunnel_added,
  tunnel_removed, node_added, node_removed,
}

pub data Error : Type 0 where
  already_present : Bytes → Error
  connection_closed : Error
  close_failed : Bytes → Error
  unrecognised_operation : Operation → Error
  node_error : booster.Node.State.Error → Error

-- `conn` is the handle of the network connection, none once that is closed.
pub record Conn : Type 0 where
  pub conn : Option ℕ
  pub id : Bytes
  pub booster_id : Bytes
  pub remote_node : Node

-- `published` is what went out on the topic of network updates, and `traced` the nodes that were
-- given to the tracer.
pub record Network : Type 0 where
  pub booster_id : Bytes
  pub local_node : Node
  pub outgoing : Dict Conn
  pub published : List PayloadNetworkUpdate
  pub traced : List Bytes

unfoldable pub new_net : Node → Bytes → Network
new_net n id = record {
  booster_id = id;
  local_node = n;
  outgoing = [];
  published = [];
  traced = [];
}

protocol_tunnels : Dict Tunnel → List ProtocolTunnel
protocol_tunnels [] = []
protocol_tunnels ((k, t) ∷ m) =
    record { id = t.id; target = t.target; copies = t.copies } ∷ protocol_tunnels m

unfoldable pub build_protocol_node : Node → PayloadNode
unfolding protocol_tunnels
build_protocol_node n = record {
  id = n.id;
  baddr = n.baddr;
  paddr = n.paddr;
  active = n.active;
  tunnels = protocol_tunnels n.tunnels;
}

-- `n.Pub(p, TopicNetworkUpdate)`
unfoldable pub announce : Operation → Node → Network → Network
announce op node n = record n {
  published =
      n.published
      ++ record {
        node_id = n.local_node.id;
        remote_node = build_protocol_node node;
        operation = op;
      }
        ∷ [];
}

-- `c.boosterID = n.boosterID; n.Outgoing[c.ID] = c` and the event
unfoldable pub put_conn : Conn → Network → Network
put_conn c n =
    let c' : Conn = record c { booster_id = n.booster_id } in
    announce node_added c.remote_node (record n { outgoing = insert c.id c' n.outgoing })

unfoldable pub add_conn : Conn → Network → Result Error (Unit {0}) × Network
add_conn c n = elim (lookup c.id n.outgoing) [
  | none ↦ (ok tt, put_conn c n)
  | some cc ↦ elim cc.conn [
    | some h ↦ (err (already_present c.id), n)
    | none ↦
        (ok tt, put_conn (record c { remote_node = copy_tunnels cc.remote_node c.remote_node }) n)
  ]
]

connected_nodes : Dict Conn → List Node
connected_nodes [] = []
connected_nodes ((k, c) ∷ m) = elim c.conn [
  | none ↦ connected_nodes m
  | some h ↦
      let rest = connected_nodes m in if c.remote_node.active then c.remote_node ∷ rest else rest
]

unfoldable pub nodes : Network → Node × List Node
unfolding connected_nodes
nodes n = (n.local_node, connected_nodes n.outgoing)

-- `n.Trace(c.RemoteNode)`, when the node is to be traced
unfoldable pub trace : Node → Network → Network
trace node n = if node.to_be_traced then record n { traced = n.traced ++ node.id ∷ [] } else n

-- Closing a handle is the network's; it gives an error or none.
module _ (close_handle : ℕ → Option Bytes) where
  -- Conn.Close, of the connection c; it returns the connection as it is then.
  unfoldable pub conn_close : Conn → Network → Result Error (Unit {0}) × Conn × Network
  conn_close c n = elim c.conn [
    | none ↦ (err connection_closed, c, n)
    | some h ↦ elim (close_handle h) [
      | some e ↦ (err (close_failed e), c, n)
      | none ↦
          let node = set_is_active false c.remote_node in
          let c' : Conn = record c { conn = none; remote_node = node } in
          (ok tt, c', trace node (announce node_removed node n))
    ]
  ]

  -- Conn.Close of the connection stored under a key.
  unfoldable pub close_entry : Bytes → Conn → Network → Network
  close_entry key c n =
      let r = conn_close c n in record r.2 { outgoing = insert key r.1 n.outgoing }

  unfoldable pub close_each : Dict Conn → Network → Network
  close_each [] n = n
  close_each ((key, c) ∷ m) n =
      let untraced = record c.remote_node { to_be_traced = false } in
      close_each m (close_entry key (record c { remote_node = untraced }) n)

  -- Networks.Close
  unfoldable pub close_all : Network → Network
  unfolding close_each
  close_all n = close_each n.outgoing n

-- UpdateNode: the tunnel events of a node, and the node.
node_result : Result booster.Node.State.Error (Unit {0}) → Result Error (Unit {0})
node_result (ok u) = ok u
node_result (err e) = err (node_error e)

-- The update goes out on the topic of tunnel events before the node is changed.
unfoldable pub update_node :
    Environment
    → PayloadProxyUpdate
    → Node × List PayloadProxyUpdate
    → Result Error (Unit {0}) × Node × List PayloadProxyUpdate
unfolding node_result
update_node env p (n, events) =
    let events' = events ++ record p { node_id = n.id } ∷ [] in
    if p.operation ==ℤ tunnel_removed
    then (let r = remove_tunnel p.target n in (node_result r.0, r.1, events'))
    else if p.operation ==ℤ tunnel_added
    then (ok tt, add_tunnel (new_tunnel env p.target) n, events')
    else (err (unrecognised_operation p.operation), n, events')
