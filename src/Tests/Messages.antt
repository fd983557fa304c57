-- ===== src/Tests/Messages.antt =====
-- The theorems on the encodings, at concrete messages and bytes.
use rust_libp2p_nym.Prelude.{
  Bool, true, ltb, ◌&&◌, ℕ, ◌≡◌, refl, List, [], ◌∷◌, none, All, ok, err, Ensures, arith,
}
use rust_libp2p_nym.Prelude.Bytes.{IsByte}
use rust_libp2p_nym.Error.{Error}
use rust_libp2p_nym.Message.ConnectionMessage
use rust_libp2p_nym.Message.SubstreamMessage.{new_with_data}
use rust_libp2p_nym.Message.ConnectionMessage.{ConnectionMessage}
use rust_libp2p_nym.Message.Wire
use rust_libp2p_nym.Message.Wire.{
  Message, connection_request, connection_response, transport_message, InboundMessage,
  parse_message_data,
}
use rust_libp2p_nym.Message.Encodable.{IsEncodable}
use rust_libp2p_nym.Message.RoundTrip.{parse_message_data-to_bytes, empty_data_is_refused}
use rust_libp2p_nym.Message.Totality.{parse_message_data-Ensures, parse_message_data-canonical}
use rust_libp2p_nym.Tests.World.{foreign, codec_laws}
use rust_libp2p_nym.Tests.Data.{cid, sid, numbered}

parse_message_data-to_bytes_example :
    parse_message_data (Wire.to_bytes (transport_message (numbered 258)))
    ≡ ok (record { message = transport_message (numbered 258) })
parse_message_data-to_bytes_example =
    parse_message_data-to_bytes codec_laws (transport_message (numbered 258))
      (record { nonce = omega arith; message = (refl, λ e. absurd (cc e)); id = refl })

-- A transport message whose nonce is cut off.
parse_message_data-Ensures_example :
    Ensures
      (λ (inbound : InboundMessage). IsEncodable inbound.message)
      (parse_message_data (2 ∷ 0 ∷ 0 ∷ 1 ∷ []))
parse_message_data-Ensures_example =
    parse_message_data-Ensures (2 ∷ 0 ∷ 0 ∷ 1 ∷ [])
      (omega arith, (omega arith, (omega arith, (omega arith, tt))))

abbrev response : ConnectionMessage
response = record { peer_id = 7; recipient = none; id = cid }

abbrev are_bytes : List ℕ → Bool
are_bytes [] = true
are_bytes (b ∷ bytes) = ltb b 256 && are_bytes bytes

are_bytes_lem : (bytes : List ℕ) → are_bytes bytes ≡ true → All IsByte bytes
are_bytes_lem [] e = tt
are_bytes_lem (b ∷ bytes) e = (ground arith, are_bytes_lem bytes (ground arith))

written : are_bytes (Wire.to_bytes (connection_response response)) ≡ true
unfolding Wire.to_bytes
written = unfold ConnectionMessage.to_bytes in refl

parse_message_data-canonical_example :
    parse_message_data (Wire.to_bytes (connection_response response))
    ≡ ok (record { message = connection_response response })
parse_message_data-canonical_example =
    parse_message_data-canonical codec_laws (Wire.to_bytes (connection_response response))
      (record { message = connection_response response })
      (are_bytes_lem (Wire.to_bytes (connection_response response)) written)
      (parse_message_data-to_bytes codec_laws (connection_response response) refl)

empty_data_is_refused_example :
    parse_message_data (
      Wire.to_bytes
        (transport_message (record { nonce = 1; message = new_with_data sid []; id = cid })))
    ≡ err Error.invalid_substream_message_bytes
empty_data_is_refused_example = empty_data_is_refused 1 sid cid (omega arith) refl refl
