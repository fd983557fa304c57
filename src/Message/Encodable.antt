-- ===== src/Message/Encodable.antt =====
-- Which messages have bytes that read back: the array types have their lengths, the nonce is a u64,
-- and a data message holds data.
use rust_libp2p_nym.Prelude.{ℕ, ◌^◌, ◌<◌, ◌≢◌, []}
use rust_libp2p_nym.Foreign.{Foreign}
use rust_libp2p_nym.Message.ConnectionId.{IsConnectionId}
use rust_libp2p_nym.Message.SubstreamId.{IsSubstreamId}
use rust_libp2p_nym.Message.SubstreamMessage.{SubstreamMessage, SubstreamMessageType, payload}
use rust_libp2p_nym.Message.TransportMessage.{TransportMessage}
use rust_libp2p_nym.Message.Wire.{
  Message, connection_request, connection_response, transport_message,
}

abbrev pub HasData : SubstreamMessageType → Type 0
HasData (payload message) = message ≢ []
HasData other = Unit

abbrev pub IsSubstreamMessage : SubstreamMessage → Type 0
IsSubstreamMessage m = IsSubstreamId m.substream_id × HasData m.message_type

abbrev pub IsU64 : ℕ → Type 0
IsU64 n = n < 2 ^ 64

pub record IsTransportMessage (m : TransportMessage) : Type 0 where
  pub nonce : IsU64 m.nonce
  pub message : IsSubstreamMessage m.message
  pub id : IsConnectionId m.id

module _ ⦃f : Foreign⦄ where
  abbrev pub IsEncodable : Message → Type 0
  IsEncodable (connection_request m) = IsConnectionId m.id
  IsEncodable (connection_response m) = IsConnectionId m.id
  IsEncodable (transport_message m) = IsTransportMessage m
