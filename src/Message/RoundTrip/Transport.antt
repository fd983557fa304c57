-- ===== src/Message/RoundTrip/Transport.antt =====
-- src/message.rs: TransportMessage to bytes and back.
use rust_libp2p_nym.Prelude.{
  ℕ, ◌≤◌, ◌≡◌, ◌++◌, arith, length, length-append, ltb_ge, ok, ◌>>=◌, slice_front, slice_middle,
  slice_from_back, append_assoc,
}
use rust_libp2p_nym.Prelude.Bytes.{to_be_bytes, length-to_be_bytes, from_be_bytes-to_be_bytes}
use rust_libp2p_nym.Foreign.{Foreign}
use rust_libp2p_nym.Message.ConnectionId
use rust_libp2p_nym.Message.ConnectionId.{IsConnectionId}
use rust_libp2p_nym.Message.SubstreamMessage
use rust_libp2p_nym.Message.SubstreamId.{IsSubstreamId}
use rust_libp2p_nym.Message.TransportMessage
use rust_libp2p_nym.Message.TransportMessage.{TransportMessage, decode_nonce}
use rust_libp2p_nym.Message.Encodable.{IsTransportMessage, IsU64}
use rust_libp2p_nym.Message.RoundTrip.Substream.{length-to_bytes, substream_round_trip}

pub length-transport_bytes : (m : TransportMessage) → 1 ≤ length (TransportMessage.to_bytes m)
unfolding TransportMessage.to_bytes
length-transport_bytes m = omega (
  arith,
  length-append (to_be_bytes 8 m.nonce) (m.id.bytes ++ SubstreamMessage.to_bytes m.message),
  length-to_be_bytes 8 m.nonce,
)

module _ ⦃f : Foreign⦄ where
  decode_nonce-to_be_bytes : (n : ℕ) → IsU64 n → decode_nonce (to_be_bytes 8 n) ≡ ok n
  unfolding decode_nonce
  decode_nonce-to_be_bytes n h =
      ground (arith, length-to_be_bytes 8 n, from_be_bytes-to_be_bytes 8 n (omega arith))

  -- The header reads back, and what the body reads as decides.
  pub transport_header :
      (m : TransportMessage)
      → IsU64 m.nonce
      → IsConnectionId m.id
      → IsSubstreamId m.message.substream_id
      → TransportMessage.try_from_bytes (TransportMessage.to_bytes m) ≡ (
          SubstreamMessage.try_from_bytes (SubstreamMessage.to_bytes m.message) >>= λ message.
          ok (record { nonce = m.nonce; message = message; id = m.id }))
  unfolding TransportMessage.try_from_bytes TransportMessage.to_bytes
  transport_header m fits array inner =
      let nonce = to_be_bytes 8 m.nonce in
      let id = m.id.bytes in
      let sub = SubstreamMessage.to_bytes m.message in
      rw (
        ltb_ge (length (nonce ++ (id ++ sub))) 41 (
            omega (
              arith,
              length-append nonce (id ++ sub),
              length-append id sub,
              length-to_be_bytes 8 m.nonce,
              length-to_bytes m.message inner,
            )),
        slice_front 8 nonce (id ++ sub) (length-to_be_bytes 8 m.nonce),
        decode_nonce-to_be_bytes m.nonce fits,
        slice_middle 8 40 nonce id sub (length-to_be_bytes 8 m.nonce) (omega arith),
        ConnectionId.from_bytes_array m.id array,
        ← append_assoc nonce id sub,
        slice_from_back 40 (nonce ++ id) sub
            (omega (arith, length-append nonce id, length-to_be_bytes 8 m.nonce)),
      )

  pub transport_round_trip :
      (m : TransportMessage)
      → IsTransportMessage m
      → TransportMessage.try_from_bytes (TransportMessage.to_bytes m) ≡ ok m
  transport_round_trip m v =
      rw (transport_header m v.nonce v.id v.message.0, substream_round_trip m.message v.message)
