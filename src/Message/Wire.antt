-- ===== src/Message/Wire.antt =====
-- src/message.rs: Message, its tag byte and its bytes, what travels in and out, and the parser of
-- inbound data.
use rust_libp2p_nym.Prelude.{
  ℕ, List, ◌∷◌, length, ltb, ◌==◌, if◌then◌else◌, ok, err, ◌>>=◌, slice_from, index,
}
use rust_libp2p_nym.Foreign.{Foreign}
use rust_libp2p_nym.Error.{Result, Error}
use rust_libp2p_nym.Message.ConnectionMessage
use rust_libp2p_nym.Message.ConnectionMessage.{ConnectionMessage}
use rust_libp2p_nym.Message.TransportMessage
use rust_libp2p_nym.Message.TransportMessage.{TransportMessage}

module _ ⦃f : Foreign⦄ where
  pub data Message : Type 0 where
    connection_request : ConnectionMessage → Message
    connection_response : ConnectionMessage → Message
    transport_message : TransportMessage → Message

  unfoldable pub to_bytes : Message → List ℕ
  to_bytes (connection_request msg) = 0 ∷ ConnectionMessage.to_bytes msg
  to_bytes (connection_response msg) = 1 ∷ ConnectionMessage.to_bytes msg
  to_bytes (transport_message msg) = 2 ∷ TransportMessage.to_bytes msg

  -- Each arm of the match reads `&bytes[1..]`.
  unfoldable pub decode_body : List ℕ → ℕ → Result Message
  decode_body bytes tag =
      if tag == 0
      then (do
        rest ← slice_from bytes 1
        msg ← ConnectionMessage.try_from_bytes rest
        ok (connection_request msg))
      else if tag == 1
      then (do
        rest ← slice_from bytes 1
        msg ← ConnectionMessage.try_from_bytes rest
        ok (connection_response msg))
      else if tag == 2
      then (do
        rest ← slice_from bytes 1
        msg ← TransportMessage.try_from_bytes rest
        ok (transport_message msg))
      else err Error.invalid_message_bytes

  unfoldable pub try_from_bytes : List ℕ → Result Message
  try_from_bytes bytes =
      if ltb (length bytes) 2
      then err Error.invalid_message_bytes
      else do tag ← index bytes 0; decode_body bytes tag

  pub record InboundMessage : Type 0 where
    pub message : Message

  pub record OutboundMessage : Type 0 where
    pub message : Message
    pub recipient : f.Recipient

  unfoldable pub parse_message_data : List ℕ → Result InboundMessage
  parse_message_data bytes =
      if ltb (length bytes) 2
      then err Error.invalid_message_bytes
      else do msg ← try_from_bytes bytes; ok (record { message = msg })
