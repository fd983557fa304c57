-- ===== src/Message.antt =====
-- src/message.rs: the messages that peers exchange over the mixnet, and how they are read from and
-- written to bytes.
pub mod ConnectionId
pub mod SubstreamId
pub mod SubstreamMessage
pub mod ConnectionMessage
pub mod TransportMessage
pub mod Wire
pub mod Encodable
pub mod RoundTrip
pub mod Totality
