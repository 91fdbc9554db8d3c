-- ===== src/Protocol.antt =====
-- Package protocol (protocol/protocol.go): the messages between nodes and the coordinator, node ids
-- and the registration proof. The children hold the definitions and what is proved of them.
pub mod Messages
pub mod Crypto
pub mod NodeId
pub mod Registration
mod Tests
