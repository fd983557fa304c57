-- ===== src/Message/SubstreamMessage.antt =====
-- src/message.rs: SubstreamMessageType and SubstreamMessage, and their bytes: the substream's ID, one
-- byte for the type, and the data, if there is any.
use rust_libp2p_nym.Prelude.{
  ℕ, ◌+◌, List, [], ◌∷◌, ◌++◌, length, ltb, ◌==◌, if◌then◌else◌, ok, err, ◌>>=◌, slice, slice_from,
  index,
}
use rust_libp2p_nym.Foreign.{Foreign}
use rust_libp2p_nym.Error.{Result, Error}
use rust_libp2p_nym.Message.SubstreamId
use rust_libp2p_nym.Message.SubstreamId.{SubstreamId, substream_id_length}

-- `payload` is the source's `Data(Vec<u8>)`.
pub data SubstreamMessageType : Type 0 where
  open_request open_response close : SubstreamMessageType
  payload : List ℕ → SubstreamMessageType

abbrev pub to_u8 : SubstreamMessageType → ℕ
to_u8 open_request = 0
to_u8 open_response = 1
to_u8 close = 2
to_u8 (payload message) = 3

pub record SubstreamMessage : Type 0 where
  pub substream_id : SubstreamId
  pub message_type : SubstreamMessageType

abbrev pub new_with_data : SubstreamId → List ℕ → SubstreamMessage
new_with_data id message = record { substream_id = id; message_type = payload message }

abbrev pub new_close : SubstreamId → SubstreamMessage
new_close id = record { substream_id = id; message_type = close }

-- What follows the type byte.
abbrev pub data_of : SubstreamMessageType → List ℕ
data_of (payload message) = message
data_of other = []

unfoldable pub to_bytes : SubstreamMessage → List ℕ
to_bytes m = m.substream_id.bytes ++ to_u8 m.message_type ∷ data_of m.message_type

module _ ⦃f : Foreign⦄ where
  unfoldable pub decode_type : List ℕ → ℕ → Result SubstreamMessageType
  decode_type bytes tag =
      if tag == 0
      then ok open_request
      else if tag == 1
      then ok open_response
      else if tag == 2
      then ok close
      else if tag == 3
      then (if ltb (length bytes) (substream_id_length + 2)
          then err Error.invalid_substream_message_bytes
          else (do message ← slice_from bytes (substream_id_length + 1); ok (payload message)))
      else err Error.invalid_substream_message_type

  unfoldable pub try_from_bytes : List ℕ → Result SubstreamMessage
  try_from_bytes bytes =
      if ltb (length bytes) (substream_id_length + 1)
      then err Error.invalid_substream_message_bytes
      else do
        id_bytes ← slice bytes 0 substream_id_length
        id ← SubstreamId.from_bytes id_bytes
        tag ← index bytes substream_id_length
        message_type ← decode_type bytes tag
        ok (record { substream_id = id; message_type = message_type })
