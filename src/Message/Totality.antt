-- ===== src/Message/Totality.antt =====
-- src/message.rs on bytes that a peer chose: the parser never indexes out of range, and what it
-- accepts is well formed.
use rust_libp2p_nym.Prelude.{
  ℕ, zero, suc, ◌+◌, ◌-◌, ◌≤◌, ◌^◌, ◌<◌, subst, ◌≡◌, ◌≢◌, List, [], ◌∷◌, Option, none, some, arith,
  length, Bool, true, false, inl, inr, take, drop, length-take, length-drop, ltb, ◌==◌,
  if◌then◌else◌, Bool-cases, ltb-false, ltb_ge, get_elem?, ◌⊎◌, ok, err, index, slice_prefix,
  slice_in_range, slice_from_in_range, index_in_range, copy_from_slice_fits, map_err, Ensures,
  Ensures-bind, All,
}
use rust_libp2p_nym.Prelude.Bytes.{IsByte, from_be_bytes, from_be_bytes-lt}
use rust_libp2p_nym.Foreign.{Foreign, CodecLaws}
use rust_libp2p_nym.Message.RoundTrip.{parse_message_data-to_bytes}
use rust_libp2p_nym.Error.{Error, Result}
use rust_libp2p_nym.Message.ConnectionId
use rust_libp2p_nym.Message.ConnectionId.{ConnectionId, IsConnectionId}
use rust_libp2p_nym.Message.SubstreamId
use rust_libp2p_nym.Message.SubstreamMessage
use rust_libp2p_nym.Message.SubstreamMessage.{
  SubstreamMessage, SubstreamMessageType, open_request, open_response, close, payload, decode_type,
}
use rust_libp2p_nym.Message.TransportMessage
use rust_libp2p_nym.Message.TransportMessage.{TransportMessage, decode_nonce}
use rust_libp2p_nym.Message.ConnectionMessage
use rust_libp2p_nym.Message.ConnectionMessage.{ConnectionMessage, decode_recipient, decode_peer_id}
use rust_libp2p_nym.Message.Wire
use rust_libp2p_nym.Message.Wire.{
  Message, connection_request, connection_response, transport_message, decode_body,
  parse_message_data, InboundMessage,
}
use rust_libp2p_nym.Message.Encodable.{HasData, IsSubstreamMessage, IsTransportMessage, IsEncodable}

nonempty : (xs : List ℕ) → 1 ≤ length xs → xs ≢ []
nonempty [] h e = absurd (omega arith)
nonempty (x ∷ xs) h e = cc

All-take : (P : ℕ → Type 0) (n : ℕ) (xs : List ℕ) → All P xs → All P (take n xs)
unfolding take
All-take P zero xs h = tt
All-take P (suc n) [] h = tt
All-take P (suc n) (x ∷ xs) h = (h.0, All-take P n xs h.1)

module _ ⦃f : Foreign⦄ where
  -- To split on the length check at the head of a parser.
  Ensures-checked :
      {A : Type 0} (P : A → Type 0) (n bound : ℕ) (e : Error) (m : Result A)
      → (bound ≤ n → Ensures P m)
      → Ensures P (if ltb n bound then err e else m)
  Ensures-checked P n bound e m h = elim (Bool-cases (ltb n bound)) [
    | inl short ↦ rw short tt
    | inr long ↦ rw long (h (ltb-false n bound long))
  ]

  Ensures-if :
      {A : Type 0} (P : A → Type 0) (b : Bool) (x y : Result A)
      → Ensures P x
      → Ensures P y
      → Ensures P (if b then x else y)
  Ensures-if P true x y h k = h
  Ensures-if P false x y h k = k

  decode_type-Ensures : (bytes : List ℕ) (tag : ℕ) → Ensures HasData (decode_type bytes tag)
  unfolding decode_type
  decode_type-Ensures bytes tag = Ensures-if HasData (tag == 0) _ _ tt (
      Ensures-if HasData (tag == 1) _ _ tt (
        Ensures-if HasData (tag == 2) _ _ tt (
          Ensures-if HasData (tag == 3) _ _
            (Ensures-checked HasData (length bytes) 34 _ _ λ h.
              rw (slice_from_in_range bytes 33 (omega arith))
                (nonempty (drop 33 bytes) (omega (arith, length-drop 33 bytes))))
            tt)))

  substream_Ensures :
      (bytes : List ℕ) → Ensures IsSubstreamMessage (SubstreamMessage.try_from_bytes bytes)
  unfolding SubstreamMessage.try_from_bytes
  substream_Ensures bytes = Ensures-checked IsSubstreamMessage (length bytes) 33 _ _ λ h.
      let id = take 32 bytes in
      let array : length id ≡ 32 = omega (arith, length-take 32 bytes) in
      let (tag, e) = index_in_range {E = Error} bytes 32 (omega arith) in
      rw
        (
          slice_prefix 32 bytes (omega arith),
          SubstreamId.from_bytes_array (record { bytes = id }) array,
          e,
        )
        (Ensures-bind HasData IsSubstreamMessage (decode_type bytes tag) _
          (decode_type-Ensures bytes tag) λ t k. (array, k))

  transport_Ensures :
      (bytes : List ℕ)
      → All IsByte bytes
      → Ensures IsTransportMessage (TransportMessage.try_from_bytes bytes)
  unfolding TransportMessage.try_from_bytes decode_nonce
  transport_Ensures bytes all = Ensures-checked IsTransportMessage (length bytes) 41 _ _ λ h.
      let nonce = take 8 bytes in
      let eight : length nonce ≡ 8 = omega (arith, length-take 8 bytes) in
      let id = take 32 (drop 8 bytes) in
      let array : length id ≡ 32 =
        omega (arith, length-take 32 (drop 8 bytes), length-drop 8 bytes) in
      let fits =
        subst (λ n. from_be_bytes nonce < 256 ^ n) eight
          (from_be_bytes-lt nonce (All-take IsByte 8 bytes all)) in
      rw
        (
          slice_prefix 8 bytes (omega arith),
          eight,
          slice_in_range bytes 8 40 (omega arith) (omega arith),
          ConnectionId.from_bytes_array (record { bytes = id }) array,
          slice_from_in_range bytes 40 (omega arith),
        )
        (Ensures-bind IsSubstreamMessage IsTransportMessage
          (SubstreamMessage.try_from_bytes (drop 40 bytes)) _ (substream_Ensures (drop 40 bytes))
          λ m k. record { nonce = omega arith; message = k; id = array })

  open f use {recipient_len, recipient_try_from_bytes, peer_id_from_bytes}

  abbrev Anything : {A : Type 0} → A → Type 0
  Anything a = Unit

  map_err-Ensures :
      {A F : Type 0} (g : F → Error) (r : A ⊎ F) → Ensures {E = Error} Anything (map_err g r)
  map_err-Ensures g (inl a) = tt
  map_err-Ensures g (inr e) = tt

  decode_recipient-Ensures :
      (bytes : List ℕ) (prefix : ℕ) → Ensures Anything (decode_recipient bytes prefix)
  unfolding decode_recipient
  decode_recipient-Ensures bytes prefix = Ensures-if Anything (prefix == 0) _ _ tt (
      Ensures-if Anything (prefix == 1) _ _
        (Ensures-checked Anything (length bytes) (33 + recipient_len) _ _ λ h.
          let source = take recipient_len (drop 33 bytes) in
          let array : length source ≡ recipient_len =
            omega (arith, length-take recipient_len (drop 33 bytes), length-drop 33 bytes) in
          let part : 33 + recipient_len - 33 ≡ recipient_len = omega arith in
          rw
            (
              slice_in_range bytes 33 (33 + recipient_len) (omega arith) h,
              part,
              copy_from_slice_fits recipient_len source array,
            )
            (Ensures-bind Anything Anything
              (map_err Error.invalid_recipient_bytes (recipient_try_from_bytes source)) _
              (map_err-Ensures _ (recipient_try_from_bytes source)) λ r k. tt))
        tt)

  decode_peer_id-Ensures :
      (bytes : List ℕ) (r : Option f.Recipient) → Ensures Anything (decode_peer_id bytes r)
  unfolding decode_peer_id
  decode_peer_id-Ensures bytes none = Ensures-checked Anything (length bytes) 34 _ _ λ h.
      rw (slice_from_in_range bytes 33 (omega arith))
        (map_err-Ensures _ (peer_id_from_bytes (drop 33 bytes)))
  decode_peer_id-Ensures bytes (some r) =
      Ensures-checked Anything (length bytes) (32 + recipient_len + 2) _ _ λ h.
        rw (slice_from_in_range bytes (33 + recipient_len) (omega arith))
          (map_err-Ensures _ (peer_id_from_bytes (drop (33 + recipient_len) bytes)))

  connection_Ensures :
      (bytes : List ℕ)
      → Ensures
          (λ (m : ConnectionMessage). IsConnectionId m.id)
          (ConnectionMessage.try_from_bytes bytes)
  unfolding ConnectionMessage.try_from_bytes
  connection_Ensures bytes =
      Ensures-checked (λ (m : ConnectionMessage). IsConnectionId m.id) (length bytes) 33 _ _
        λ h.
          let id = take 32 bytes in
          let array : length id ≡ 32 = omega (arith, length-take 32 bytes) in
          let (tag, e) = index_in_range {E = Error} bytes 32 (omega arith) in
          rw
            (
              slice_prefix 32 bytes (omega arith),
              ConnectionId.from_bytes_array (record { bytes = id }) array,
              e,
            )
            (Ensures-bind Anything (λ (m : ConnectionMessage). IsConnectionId m.id)
              (decode_recipient bytes tag) _ (decode_recipient-Ensures bytes tag)
              λ r k.
                Ensures-bind Anything (λ (m : ConnectionMessage). IsConnectionId m.id)
                  (decode_peer_id bytes r) _ (decode_peer_id-Ensures bytes r) λ p l. array)

  wire_Ensures :
      (b c : ℕ) (bytes : List ℕ)
      → All IsByte (b ∷ c ∷ bytes)
      → Ensures IsEncodable (decode_body (b ∷ c ∷ bytes) b)
  unfolding decode_body drop
  wire_Ensures b c bytes all =
      let rest = c ∷ bytes in
      rw (slice_from_in_range (b ∷ rest) 1 (omega arith)) (
        Ensures-if IsEncodable (b == 0) _ _
          (Ensures-bind (λ (m : ConnectionMessage). IsConnectionId m.id) IsEncodable
            (ConnectionMessage.try_from_bytes rest) _ (connection_Ensures rest) λ m k. k)
          (Ensures-if IsEncodable (b == 1) _ _
            (Ensures-bind (λ (m : ConnectionMessage). IsConnectionId m.id) IsEncodable
              (ConnectionMessage.try_from_bytes rest) _ (connection_Ensures rest) λ m k. k)
            (Ensures-if IsEncodable (b == 2) _ _
              (Ensures-bind IsTransportMessage IsEncodable (TransportMessage.try_from_bytes rest) _
                (transport_Ensures rest all.1) λ m k. k)
              tt)))

  -- On any bytes `parse_message_data` returns an error or a message, and never panics: no slice or
  -- index is out of range. A message that it returns has 32-byte identifiers, a nonce that is a u64,
  -- and data in a data message.
  pub parse_message_data-Ensures :
      (bytes : List ℕ)
      → All IsByte bytes
      → Ensures
          (λ (inbound : InboundMessage). IsEncodable inbound.message)
          (parse_message_data bytes)
  unfolding parse_message_data Wire.try_from_bytes index get_elem?
  parse_message_data-Ensures [] all = tt
  parse_message_data-Ensures (b ∷ []) all = tt
  parse_message_data-Ensures (b ∷ c ∷ bytes) all =
      let long = ltb_ge (length (b ∷ c ∷ bytes)) 2 (omega arith) in
      rw long (
        Ensures-bind IsEncodable (λ (inbound : InboundMessage). IsEncodable inbound.message)
          (decode_body (b ∷ c ∷ bytes) b) _ (wire_Ensures b c bytes all) λ m k. k)

  -- What `parse_message_data` accepts can be forwarded: the message that it reads from any bytes is
  -- read again from the bytes that `to_bytes` writes for it.
  pub parse_message_data-canonical :
      (laws : CodecLaws) (bytes : List ℕ) (inbound : InboundMessage)
      → All IsByte bytes
      → parse_message_data bytes ≡ ok inbound
      → parse_message_data (Wire.to_bytes inbound.message) ≡ ok inbound
  parse_message_data-canonical laws bytes inbound all accepted =
      parse_message_data-to_bytes laws inbound.message (
        subst (Ensures (λ (i : InboundMessage). IsEncodable i.message)) accepted
          (parse_message_data-Ensures bytes all))
