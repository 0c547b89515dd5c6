-- ===== src/Protocol/Internal.antt =====
-- The generated structs of protocol/internal, and what the code calls of the protobuf package for
-- them. A nil pointer to a message is none.
use booster.Common.{ℕ, Bool, Option, some, List, Bytes, ◌≡◌}
use booster.Common.Int.{ℤ}

pub record InternalTunnel : Type 0 where
  pub id : Bytes
  pub target : Bytes
  pub copies : ℤ

pub record InternalNode : Type 0 where
  pub id : Bytes
  pub baddr : Bytes
  pub paddr : Bytes
  pub active : Bool
  pub tunnels : List InternalTunnel

pub record InternalNetworkUpdate : Type 0 where
  pub node_id : Bytes
  pub operation : ℤ
  pub remote_node : Option InternalNode

pub record InternalProxyUpdate : Type 0 where
  pub node_id : Bytes
  pub target : Bytes
  pub operation : ℤ

pub record InternalCtrl : Type 0 where
  pub operation : ℤ

pub record InternalBandwidth : Type 0 where
  pub node_id : Bytes
  pub tot : ℤ
  pub bandwidth : ℤ
  pub direction : Bytes

pub record InternalMonitor : Type 0 where
  pub feature : ℤ

pub record InternalHello : Type 0 where
  pub bport : Bytes
  pub pport : Bytes

pub record InternalConnect : Type 0 where
  pub target : Bytes

pub record InternalDisconnect : Type 0 where
  pub id : Bytes

pub record InternalHeartbeat : Type 0 where
  pub id : Bytes
  pub hops : ℤ
  pub ttl : Option ℕ

-- proto.Marshal and proto.Unmarshal for one kind of struct.
pub record Wire (T : Type 0) : Type 0 where
  pub marshal : T → Option Bytes
  pub unmarshal : Bytes → Option T

-- What was marshalled is read back by Unmarshal.
pub record IsFaithful {T : Type 0} (w : Wire T) : Type 0 where
  pub back : (t : T) (raw : Bytes) → w.marshal t ≡ some raw → w.unmarshal raw ≡ some t

-- The protobuf package. `timestamp_proto` and `timestamp` are ptypes.TimestampProto and
-- ptypes.Timestamp.
pub record Wires : Type 0 where
  pub of_hello : Wire InternalHello
  pub of_connect : Wire InternalConnect
  pub of_disconnect : Wire InternalDisconnect
  pub of_heartbeat : Wire InternalHeartbeat
  pub of_monitor : Wire InternalMonitor
  pub of_ctrl : Wire InternalCtrl
  pub of_node : Wire InternalNode
  pub of_bandwidth : Wire InternalBandwidth
  pub of_proxy_update : Wire InternalProxyUpdate
  pub of_network_update : Wire InternalNetworkUpdate
  pub timestamp_proto : ℕ → Option ℕ
  pub timestamp : ℕ → Option ℕ

-- What the code relies on in it.
pub record AreFaithful (w : Wires) : Type 0 where
  pub hello : IsFaithful w.of_hello
  pub connect : IsFaithful w.of_connect
  pub disconnect : IsFaithful w.of_disconnect
  pub heartbeat : IsFaithful w.of_heartbeat
  pub monitor : IsFaithful w.of_monitor
  pub ctrl : IsFaithful w.of_ctrl
  pub node : IsFaithful w.of_node
  pub bandwidth : IsFaithful w.of_bandwidth
  pub proxy_update : IsFaithful w.of_proxy_update
  pub network_update : IsFaithful w.of_network_update
  pub time : (t s : ℕ) → w.timestamp_proto t ≡ some s → w.timestamp s ≡ some t
