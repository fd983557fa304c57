-- ===== src/Message/RoundTrip.antt =====
-- src/message.rs: what `to_bytes` writes, `parse_message_data` reads back; and what it does not.
mod Substream
mod Transport
mod Connection
use rust_libp2p_nym.Prelude.{
  ℕ, ◌≤◌, ◌≡◌, refl, List, [], ◌∷◌, arith, length, ltb_ge, ok, err, slice_from, index,
  slice_from_behind, get_elem?,
}
use rust_libp2p_nym.Foreign.{Foreign, CodecLaws}
use rust_libp2p_nym.Error.{Error}
use rust_libp2p_nym.Message.ConnectionId.{ConnectionId, IsConnectionId}
use rust_libp2p_nym.Message.SubstreamId.{SubstreamId, IsSubstreamId}
use rust_libp2p_nym.Message.SubstreamMessage.{new_with_data}
use rust_libp2p_nym.Message.ConnectionMessage
use rust_libp2p_nym.Message.TransportMessage
use rust_libp2p_nym.Message.TransportMessage.{TransportMessage}
use rust_libp2p_nym.Message.Wire
use rust_libp2p_nym.Message.Wire.{
  Message, connection_request, connection_response, transport_message, decode_body,
  parse_message_data,
}
use rust_libp2p_nym.Message.Encodable.{IsU64, IsEncodable}
use Substream.{empty_substream_bytes}
use Transport.{length-transport_bytes, transport_header, transport_round_trip}
use Connection.{length-connection_bytes, connection_round_trip}

module _ ⦃f : Foreign⦄ where
  -- Whatever the tag, the body is read from behind it.
  tagged_body :
      (tag : ℕ) (body : List ℕ)
      → 1 ≤ length body
      → Wire.try_from_bytes (tag ∷ body) ≡ decode_body (tag ∷ body) tag
  unfolding Wire.try_from_bytes index get_elem?
  tagged_body tag body h = rw (ltb_ge (length (tag ∷ body)) 2 (omega arith))

  behind_tag : (tag : ℕ) (body : List ℕ) → slice_from {E = Error} (tag ∷ body) 1 ≡ ok body
  behind_tag tag body = slice_from_behind 0 1 [] tag body refl refl

  wire_round_trip :
      (laws : CodecLaws) (m : Message)
      → IsEncodable m
      → (Wire.try_from_bytes (Wire.to_bytes m) ≡ ok m) × (2 ≤ length (Wire.to_bytes m))
  unfolding Wire.to_bytes decode_body
  wire_round_trip laws (connection_request m) h =
      let body = ConnectionMessage.to_bytes m in
      let long = length-connection_bytes m h in
      (rw (tagged_body 0 body long, behind_tag 0 body, connection_round_trip laws m h), omega arith)
  wire_round_trip laws (connection_response m) h =
      let body = ConnectionMessage.to_bytes m in
      let long = length-connection_bytes m h in
      (rw (tagged_body 1 body long, behind_tag 1 body, connection_round_trip laws m h), omega arith)
  wire_round_trip laws (transport_message m) h =
      let body = TransportMessage.to_bytes m in
      let long = length-transport_bytes m in
      (rw (tagged_body 2 body long, behind_tag 2 body, transport_round_trip m h), omega arith)

  -- Every message whose identifiers are 32-byte arrays, whose nonce is a u64 and whose data, if it
  -- is a data message, is not empty, is read back by `parse_message_data` from its bytes; the
  -- conversions of Recipient and PeerId are taken to invert each other.
  pub parse_message_data-to_bytes :
      (laws : CodecLaws) (m : Message)
      → IsEncodable m
      → parse_message_data (Wire.to_bytes m) ≡ ok (record { message = m })
  unfolding parse_message_data
  parse_message_data-to_bytes laws m h =
      let (reads, long) = wire_round_trip laws m h in
      rw (ltb_ge (length (Wire.to_bytes m)) 2 long, reads)

  -- A data message with no data is written as bytes that `parse_message_data` refuses, whatever its
  -- nonce and its identifiers.
  pub empty_data_is_refused :
      (nonce : ℕ) (sid : SubstreamId) (cid : ConnectionId)
      → IsU64 nonce
      → IsSubstreamId sid
      → IsConnectionId cid
      → let m : TransportMessage = record {
        nonce = nonce;
        message = new_with_data sid [];
        id = cid;
      } in
        parse_message_data (Wire.to_bytes (transport_message m))
        ≡ err Error.invalid_substream_message_bytes
  unfolding parse_message_data Wire.to_bytes decode_body
  empty_data_is_refused nonce sid cid hn hs hc =
      let m : TransportMessage = record {
        nonce = nonce;
        message = new_with_data sid [];
        id = cid;
      } in
      let body = TransportMessage.to_bytes m in
      let long = length-transport_bytes m in
      rw (
        ltb_ge (length (2 ∷ body)) 2 (omega arith),
        tagged_body 2 body long,
        behind_tag 2 body,
        transport_header m hn hc hs,
        empty_substream_bytes sid hs,
      )
