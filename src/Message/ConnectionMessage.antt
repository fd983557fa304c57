-- ===== src/Message/ConnectionMessage.antt =====
-- src/message.rs: ConnectionMessage, which opens a connection, and its bytes: the connection's ID, a
-- byte that says whether a recipient follows, the recipient, and the peer's ID.
use rust_libp2p_nym.Prelude.{
  ℕ, ◌+◌, List, [], ◌∷◌, ◌++◌, Option, none, some, length, ltb, ◌==◌, if◌then◌else◌, ok, err, ◌>>=◌,
  map_err, slice, slice_from, index, copy_from_slice,
}
use rust_libp2p_nym.Foreign.{Foreign}
use rust_libp2p_nym.Error.{Result, Error}
use rust_libp2p_nym.Message.ConnectionId
use rust_libp2p_nym.Message.ConnectionId.{ConnectionId, connection_id_length}

module _ ⦃f : Foreign⦄ where
  open f use {
    Recipient, PeerId, recipient_len, recipient_to_bytes, recipient_try_from_bytes,
    peer_id_to_bytes, peer_id_from_bytes,
  }

  pub record ConnectionMessage : Type 0 where
    pub peer_id : PeerId
    pub id : ConnectionId
    pub recipient : Option Recipient

  -- The prefix byte and the recipient.
  abbrev pub recipient_bytes : Option Recipient → List ℕ
  recipient_bytes none = 0 ∷ []
  recipient_bytes (some r) = 1 ∷ recipient_to_bytes r

  unfoldable pub to_bytes : ConnectionMessage → List ℕ
  to_bytes m = m.id.bytes ++ (recipient_bytes m.recipient ++ peer_id_to_bytes m.peer_id)

  unfoldable pub decode_recipient : List ℕ → ℕ → Result (Option Recipient)
  decode_recipient bytes prefix =
      if prefix == 0
      then ok none
      else if prefix == 1
      then (if ltb (length bytes) (connection_id_length + 1 + recipient_len)
          then err Error.connection_message_bytes_no_recipient
          else (do
            source ←
                slice bytes (connection_id_length + 1) (connection_id_length + 1 + recipient_len)
            array ← copy_from_slice recipient_len source
            r ← map_err Error.invalid_recipient_bytes (recipient_try_from_bytes array)
            ok (some r)))
      else err Error.invalid_recipient_prefix_byte

  unfoldable pub decode_peer_id : List ℕ → Option Recipient → Result PeerId
  decode_peer_id bytes (some r) =
      if ltb (length bytes) (connection_id_length + recipient_len + 2)
      then err Error.connection_message_bytes_no_peer_id
      else do
        rest ← slice_from bytes (connection_id_length + 1 + recipient_len)
        map_err Error.invalid_peer_id_bytes (peer_id_from_bytes rest)
  decode_peer_id bytes none =
      if ltb (length bytes) (connection_id_length + 2)
      then err Error.connection_message_bytes_no_peer_id
      else do
        rest ← slice_from bytes (connection_id_length + 1)
        map_err Error.invalid_peer_id_bytes (peer_id_from_bytes rest)

  unfoldable pub try_from_bytes : List ℕ → Result ConnectionMessage
  try_from_bytes bytes =
      if ltb (length bytes) (connection_id_length + 1)
      then err Error.connection_message_bytes_too_short
      else do
        id_bytes ← slice bytes 0 connection_id_length
        id ← ConnectionId.from_bytes id_bytes
        prefix ← index bytes connection_id_length
        recipient ← decode_recipient bytes prefix
        peer_id ← decode_peer_id bytes recipient
        ok (record { peer_id = peer_id; id = id; recipient = recipient })
