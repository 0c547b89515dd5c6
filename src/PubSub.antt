-- ===== src/PubSub.antt =====
-- pubsub: topics, their subscribers and the messages that go to them.
pub mod Broker
pub mod Slots
pub mod Delivery
pub mod Limits
pub mod Pipeline
mod Examples
