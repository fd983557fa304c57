-- ===== src/Transport.antt =====
-- src/transport.rs: NymTransport, which routes the mixnet's messages to connections.
pub mod State
pub mod Opening
pub mod Handlers
pub mod Polling
pub mod Dialing
pub mod Creation
pub mod Startup
pub mod Forwarding
pub mod Delivery
pub mod Isolation
pub mod Establishment
pub mod Handshake
pub mod Stages
pub mod Waiting
pub mod Lifetime
pub mod EndToEnd
pub mod Reporting
pub mod Interleaving
pub mod Serving
pub mod Panics
pub mod Branches
pub mod Steps
pub mod Termination
pub mod Safety
