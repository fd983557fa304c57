-- ===== src/Message/RoundTrip/Connection.antt =====
-- src/message.rs: ConnectionMessage to bytes and back, with and without a recipient.
use rust_libp2p_nym.Prelude.{
  ◌+◌, ◌≤◌, ◌≡◌, refl, ◌∷◌, ◌++◌, Option, none, some, arith, length, length-append, ltb_ge, ok,
  slice_front, slice_from_back, slice_from_behind, slice_behind, index_behind, copy_from_slice_fits,
  append_assoc,
}
use rust_libp2p_nym.Foreign.{Foreign, CodecLaws}
use rust_libp2p_nym.Message.ConnectionId
use rust_libp2p_nym.Message.ConnectionId.{ConnectionId, IsConnectionId}
use rust_libp2p_nym.Message.ConnectionMessage
use rust_libp2p_nym.Message.ConnectionMessage.{
  ConnectionMessage, decode_recipient, decode_peer_id, recipient_bytes,
}

module _ ⦃f : Foreign⦄ where
  pub length-connection_bytes :
      (m : ConnectionMessage) → IsConnectionId m.id → 1 ≤ length (ConnectionMessage.to_bytes m)
  unfolding ConnectionMessage.to_bytes
  length-connection_bytes m h = omega (
    arith,
    length-append m.id.bytes (recipient_bytes m.recipient ++ f.peer_id_to_bytes m.peer_id),
  )

  module _ (laws : CodecLaws) where
    open f use {Recipient, PeerId, recipient_len, recipient_to_bytes, peer_id_to_bytes}

    response_round_trip :
        (peer : PeerId) (id : ConnectionId)
        → IsConnectionId id
        → let m : ConnectionMessage = record { peer_id = peer; id = id; recipient = none } in
          ConnectionMessage.try_from_bytes (ConnectionMessage.to_bytes m) ≡ ok m
    unfolding ConnectionMessage.try_from_bytes ConnectionMessage.to_bytes decode_recipient
        decode_peer_id
    response_round_trip peer id h =
        let p = peer_id_to_bytes peer in
        let long : 34 ≤ length (id.bytes ++ 0 ∷ p) =
          omega (arith, length-append id.bytes (0 ∷ p), laws.peer_id_nonempty peer) in
        rw (
          ltb_ge (length (id.bytes ++ 0 ∷ p)) 33 (omega arith),
          slice_front 32 id.bytes (0 ∷ p) h,
          ConnectionId.from_bytes_array id h,
          index_behind 32 id.bytes 0 p h,
          ltb_ge (length (id.bytes ++ 0 ∷ p)) 34 long,
          slice_from_behind 32 33 id.bytes 0 p h refl,
          laws.peer_id_round_trip peer,
        )

    request_round_trip :
        (peer : PeerId) (id : ConnectionId) (r : Recipient)
        → IsConnectionId id
        → let m : ConnectionMessage = record { peer_id = peer; id = id; recipient = some r } in
          ConnectionMessage.try_from_bytes (ConnectionMessage.to_bytes m) ≡ ok m
    unfolding ConnectionMessage.try_from_bytes ConnectionMessage.to_bytes decode_recipient
        decode_peer_id
    request_round_trip peer id r h =
        let p = peer_id_to_bytes peer in
        let rb = recipient_to_bytes r in
        let bytes = id.bytes ++ 1 ∷ (rb ++ p) in
        let long : 34 + recipient_len ≤ length bytes = omega (
          arith,
          length-append id.bytes (1 ∷ (rb ++ p)),
          length-append rb p,
          laws.recipient_length r,
          laws.peer_id_nonempty peer,
        ) in
        rw (
          ltb_ge (length bytes) 33 (omega arith),
          slice_front 32 id.bytes (1 ∷ (rb ++ p)) h,
          ConnectionId.from_bytes_array id h,
          index_behind 32 id.bytes 1 (rb ++ p) h,
          ltb_ge (length bytes) (33 + recipient_len) (omega arith),
          slice_behind 32 33 (33 + recipient_len) id.bytes 1 rb p h refl
              (omega (arith, laws.recipient_length r)),
          copy_from_slice_fits recipient_len rb (laws.recipient_length r),
          laws.recipient_round_trip r,
          ltb_ge (length bytes) (32 + recipient_len + 2) (omega arith),
          ← append_assoc id.bytes (1 ∷ rb) p,
          slice_from_back (33 + recipient_len) (id.bytes ++ 1 ∷ rb) p
              (omega (arith, length-append id.bytes (1 ∷ rb), laws.recipient_length r)),
          laws.peer_id_round_trip peer,
        )

    connection_parts_round_trip :
        (peer : PeerId) (id : ConnectionId) (r : Option Recipient)
        → IsConnectionId id
        → let m : ConnectionMessage = record { peer_id = peer; id = id; recipient = r } in
          ConnectionMessage.try_from_bytes (ConnectionMessage.to_bytes m) ≡ ok m
    connection_parts_round_trip peer id none h = response_round_trip peer id h
    connection_parts_round_trip peer id (some r) h = request_round_trip peer id r h

    pub connection_round_trip :
        (m : ConnectionMessage)
        → IsConnectionId m.id
        → ConnectionMessage.try_from_bytes (ConnectionMessage.to_bytes m) ≡ ok m
    connection_round_trip m h = connection_parts_round_trip m.peer_id m.id m.recipient h
