-- ===== src/Node.antt =====
-- Package main of node/: the node's identity, its configuration, the connection to a coordinator and
-- the command loop of a data channel.
pub mod Identity
pub mod Config
pub mod Command
pub mod Channel
pub mod Coordination
pub mod Bridge
pub mod Session
pub mod Offer
mod Tests
