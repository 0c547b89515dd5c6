-- ===== src/Node.antt =====
-- node: the nodes of a booster network, their tunnels and the dispatcher that picks one.
pub mod State
pub mod Workload
pub mod Counts
pub mod Undo
pub mod Identity
pub mod Dispatcher
mod Examples
