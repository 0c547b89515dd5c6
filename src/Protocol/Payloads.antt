-- ===== src/Protocol/Payloads.antt =====
-- protocol/payloads.go: what the messages carry, and the operations and messages of
-- protocol/protocol.go. A Go string is its bytes, a time is a number, an `int` is an integer.
use booster.Common.{ℕ, Bool, List, Bytes}
use booster.Common.Int.{ℤ, pos}

-- An int32 of Go.
abbrev pub Operation : Type 0
Operation = ℤ

abbrev pub tunnel_added : Operation
tunnel_added = pos 1

abbrev pub tunnel_removed : Operation
tunnel_removed = pos 2

abbrev pub ctrl_stop : Operation
ctrl_stop = pos 1

abbrev pub ctrl_restart : Operation
ctrl_restart = pos 2

abbrev pub node_added : Operation
node_added = pos 1

abbrev pub node_removed : Operation
node_removed = pos 2

abbrev pub message_hello : ℕ
message_hello = 1

abbrev pub message_connect : ℕ
message_connect = 2

abbrev pub message_disconnect : ℕ
message_disconnect = 3

abbrev pub message_heartbeat : ℕ
message_heartbeat = 4

abbrev pub message_monitor : ℕ
message_monitor = 6

abbrev pub message_ctrl : ℕ
message_ctrl = 7

abbrev pub message_node_status : ℕ
message_node_status = 8

abbrev pub message_network_usage_update : ℕ
message_network_usage_update = 9

abbrev pub message_proxy_update : ℕ
message_proxy_update = 10

abbrev pub message_network_update : ℕ
message_network_update = 11

pub record ProtocolTunnel : Type 0 where
  pub id : Bytes
  pub target : Bytes
  pub copies : ℤ

pub record PayloadNode : Type 0 where
  pub id : Bytes
  pub baddr : Bytes
  pub paddr : Bytes
  pub active : Bool
  pub tunnels : List ProtocolTunnel

pub record PayloadNetworkUpdate : Type 0 where
  pub node_id : Bytes
  pub remote_node : PayloadNode
  pub operation : Operation

pub record PayloadProxyUpdate : Type 0 where
  pub node_id : Bytes
  pub target : Bytes
  pub operation : Operation

pub record PayloadCtrl : Type 0 where
  pub operation : Operation

pub record PayloadBandwidth : Type 0 where
  pub node_id : Bytes
  pub tot : ℤ
  pub bandwidth : ℤ
  pub direction : Bytes

pub record PayloadMonitor : Type 0 where
  pub feature : ℤ

pub record PayloadHello : Type 0 where
  pub bport : Bytes
  pub pport : Bytes

pub record PayloadConnect : Type 0 where
  pub target : Bytes

pub record PayloadDisconnect : Type 0 where
  pub id : Bytes

pub record PayloadHeartbeat : Type 0 where
  pub id : Bytes
  pub hops : ℤ
  pub ttl : ℕ

-- An `interface{}` that holds one of the payloads.
pub data Payload : Type 0 where
  hello : PayloadHello → Payload
  connect : PayloadConnect → Payload
  disconnect : PayloadDisconnect → Payload
  heartbeat : PayloadHeartbeat → Payload
  monitor : PayloadMonitor → Payload
  ctrl : PayloadCtrl → Payload
  node : PayloadNode → Payload
  bandwidth : PayloadBandwidth → Payload
  proxy_update : PayloadProxyUpdate → Payload
  network_update : PayloadNetworkUpdate → Payload

-- reflect.TypeOf, for the payloads.
pub data PayloadType : Type 0 where
  hello_type connect_type disconnect_type heartbeat_type monitor_type : PayloadType
  ctrl_type node_type bandwidth_type proxy_update_type network_update_type : PayloadType

abbrev pub type_of : Payload → PayloadType
type_of (hello p) = hello_type
type_of (connect p) = connect_type
type_of (disconnect p) = disconnect_type
type_of (heartbeat p) = heartbeat_type
type_of (monitor p) = monitor_type
type_of (ctrl p) = ctrl_type
type_of (node p) = node_type
type_of (bandwidth p) = bandwidth_type
type_of (proxy_update p) = proxy_update_type
type_of (network_update p) = network_update_type
