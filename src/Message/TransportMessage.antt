-- ===== src/Message/TransportMessage.antt =====
-- src/message.rs: TransportMessage, a substream's message with its nonce on a connection, and its
-- bytes: the nonce in big-endian order, the connection's ID, and the substream's message.
use rust_libp2p_nym.Prelude.{
  ℕ, ◌+◌, List, ◌++◌, length, ltb, ◌==◌, if◌then◌else◌, ok, err, ◌>>=◌, slice, slice_from,
}
use rust_libp2p_nym.Prelude.Bytes.{to_be_bytes, from_be_bytes}
use rust_libp2p_nym.Foreign.{Foreign}
use rust_libp2p_nym.Error.{Result, Error}
use rust_libp2p_nym.Message.ConnectionId
use rust_libp2p_nym.Message.ConnectionId.{ConnectionId, connection_id_length}
use rust_libp2p_nym.Message.SubstreamMessage
use rust_libp2p_nym.Message.SubstreamMessage.{SubstreamMessage}

abbrev pub nonce_bytes_len : ℕ
nonce_bytes_len = 8

abbrev pub min_connection_message_len : ℕ
min_connection_message_len = connection_id_length + nonce_bytes_len

pub record TransportMessage : Type 0 where
  pub nonce : ℕ
  pub message : SubstreamMessage
  pub id : ConnectionId

unfoldable pub to_bytes : TransportMessage → List ℕ
to_bytes m =
    to_be_bytes nonce_bytes_len m.nonce ++ (m.id.bytes ++ SubstreamMessage.to_bytes m.message)

module _ ⦃f : Foreign⦄ where
  -- `.try_into().map_err(|_| Error::InvalidNonce)?`: a vector becomes an array of 8 bytes.
  unfoldable pub decode_nonce : List ℕ → Result ℕ
  decode_nonce bytes =
      if length bytes == nonce_bytes_len then ok (from_be_bytes bytes) else err Error.invalid_nonce

  unfoldable pub try_from_bytes : List ℕ → Result TransportMessage
  try_from_bytes bytes =
      if ltb (length bytes) (min_connection_message_len + 1)
      then err Error.transport_message_bytes_too_short
      else do
        nonce_bytes ← slice bytes 0 nonce_bytes_len
        nonce ← decode_nonce nonce_bytes
        id_bytes ← slice bytes nonce_bytes_len min_connection_message_len
        id ← ConnectionId.from_bytes id_bytes
        rest ← slice_from bytes min_connection_message_len
        message ← SubstreamMessage.try_from_bytes rest
        ok (record { nonce = nonce; message = message; id = id })
