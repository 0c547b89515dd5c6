-- ===== src/Network.antt =====
-- booster/network.go: the network of a local node and its connections to remote nodes.
pub mod State
pub mod Connections
pub mod Updates
pub mod Messages
mod Examples
