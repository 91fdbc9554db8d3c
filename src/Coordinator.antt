-- ===== src/Coordinator.antt =====
-- Package main of coordinator/ (coordinator/main.go): the registration of nodes over a WebSocket,
-- the registry of nodes, the relay of offers and answers, and the HTTP handlers.
pub mod Handshake
pub mod State
pub mod Registry
pub mod Relay
pub mod System
pub mod Broker
pub mod Listing
pub mod Config
pub mod Command
pub mod Landing
pub mod Routes
mod Tests
