-- ===== src/Message/RoundTrip/Substream.antt =====
-- src/message.rs: SubstreamMessage to bytes and back, and the data message that does not come back.
use rust_libp2p_nym.Prelude.{
  ℕ, ◌≤◌, ◌≡◌, ◌≢◌, refl, List, [], ◌∷◌, ◌++◌, arith, length, length-append, ltb_ge, ltb_lt, ok,
  err, slice_front, slice_from_behind, index_behind,
}
use rust_libp2p_nym.Foreign.{Foreign}
use rust_libp2p_nym.Error.{Error}
use rust_libp2p_nym.Message.SubstreamId
use rust_libp2p_nym.Message.SubstreamId.{SubstreamId, IsSubstreamId}
use rust_libp2p_nym.Message.SubstreamMessage
use rust_libp2p_nym.Message.SubstreamMessage.{
  SubstreamMessage, SubstreamMessageType, open_request, open_response, close, payload, to_u8,
  data_of, new_with_data, decode_type,
}
use rust_libp2p_nym.Message.Encodable.{HasData, IsSubstreamMessage}

pub length-to_bytes :
    (m : SubstreamMessage)
    → IsSubstreamId m.substream_id
    → 33 ≤ length (SubstreamMessage.to_bytes m)
unfolding SubstreamMessage.to_bytes
length-to_bytes m h =
    omega
      (arith, length-append m.substream_id.bytes (to_u8 m.message_type ∷ data_of m.message_type))

pos_length : (xs : List ℕ) → xs ≢ [] → 1 ≤ length xs
pos_length [] h = absurd (h refl)
pos_length (x ∷ xs) h = omega arith

module _ ⦃f : Foreign⦄ where
  decode_type-to_u8 :
      (id : SubstreamId) (t : SubstreamMessageType)
      → IsSubstreamId id
      → HasData t
      → decode_type (id.bytes ++ to_u8 t ∷ data_of t) (to_u8 t) ≡ ok t
  unfolding decode_type
  decode_type-to_u8 id open_request h k = refl
  decode_type-to_u8 id open_response h k = refl
  decode_type-to_u8 id close h k = refl
  decode_type-to_u8 id (payload message) h k = rw (
    ltb_ge (length (id.bytes ++ 3 ∷ message)) 34
        (omega (arith, length-append id.bytes (3 ∷ message), pos_length message k)),
    slice_from_behind 32 33 id.bytes 3 message h refl,
  )

  pub substream_round_trip :
      (m : SubstreamMessage)
      → IsSubstreamMessage m
      → SubstreamMessage.try_from_bytes (SubstreamMessage.to_bytes m) ≡ ok m
  unfolding SubstreamMessage.try_from_bytes SubstreamMessage.to_bytes
  substream_round_trip m (h, k) =
      let t = m.message_type in
      let id = m.substream_id in
      rw (
        ltb_ge (length (id.bytes ++ to_u8 t ∷ data_of t)) 33
            (omega (arith, length-append id.bytes (to_u8 t ∷ data_of t))),
        slice_front 32 id.bytes (to_u8 t ∷ data_of t) h,
        SubstreamId.from_bytes_array id h,
        index_behind 32 id.bytes (to_u8 t) (data_of t) h,
        decode_type-to_u8 id t h k,
      )

  -- Without data the type byte is the last one, and the reader wants one more.
  pub empty_substream_bytes :
      (id : SubstreamId)
      → IsSubstreamId id
      → SubstreamMessage.try_from_bytes (SubstreamMessage.to_bytes (new_with_data id []))
        ≡ err Error.invalid_substream_message_bytes
  unfolding SubstreamMessage.try_from_bytes SubstreamMessage.to_bytes decode_type
  empty_substream_bytes id h =
      let exact : length (id.bytes ++ 3 ∷ []) ≡ 33 =
        omega (arith, length-append id.bytes (3 ∷ [])) in
      rw (
        ltb_ge (length (id.bytes ++ 3 ∷ [])) 33 (omega arith),
        slice_front 32 id.bytes (3 ∷ []) h,
        SubstreamId.from_bytes_array id h,
        index_behind 32 id.bytes 3 [] h,
        ltb_lt (length (id.bytes ++ 3 ∷ [])) 34 (omega arith),
      )
