-- ===== src/Substream.antt =====
-- src/substream.rs: Substream, a byte stream over one connection. The nonce and the channel to the
-- mixnet are shared with the connection and its other substreams, so an operation takes them as a Link
-- and returns what it makes of them. The proofs are in the modules below.
pub mod Reading
pub mod Count
pub mod Bounds
pub mod Nonce
pub mod Closed
use Prim.Native.String.{◌++◌ as str_append}
use rust_libp2p_nym.Prelude.{
  ℕ, ◌+◌, ◌-◌, ◌%◌, ◌^◌, min, Bool, true, false, List, [], ◌∷◌, ◌++◌, Option, none, some, String,
  length, take, drop, ltb, leb, ◌==◌, if◌then◌else◌, Outcome, ok, err, panic, stuck, ◌&&◌,
}
use rust_libp2p_nym.Foreign.{Foreign}
use rust_libp2p_nym.Channel.{Channels, Poll, ready, pending, IoError, other}
use rust_libp2p_nym.Message.ConnectionId.{ConnectionId}
use rust_libp2p_nym.Message.SubstreamId.{SubstreamId}
use rust_libp2p_nym.Message.SubstreamMessage.{SubstreamMessage, new_with_data, new_close}
use rust_libp2p_nym.Message.TransportMessage.{TransportMessage}
use rust_libp2p_nym.Message.Wire.{Message, transport_message, OutboundMessage}

-- `fetch_add(1, SeqCst)` on an AtomicU64 wraps around.
abbrev pub fetch_add : ℕ → ℕ
fetch_add n = (n + 1) % 2 ^ 64

module _ ⦃f : Foreign⦄ ⦃c : Channels⦄ where
  -- What a connection shares with its substreams: `message_nonce: Arc<AtomicU64>` and a clone of the
  -- sender of the mixnet's outbound channel.
  pub record Link : Type 0 where
    pub message_nonce : ℕ
    pub outbound_tx : c.Chan OutboundMessage

  pub record Substream : Type 0 where
    pub remote_recipient : f.Recipient
    pub connection_id : ConnectionId
    pub substream_id : SubstreamId
    pub inbound_rx : c.Chan (List ℕ)
    pub close_rx : c.Oneshot (Unit {0})
    pub closed : Bool
    pub unread_data : List ℕ

  abbrev pub new :
      f.Recipient → ConnectionId → SubstreamId → c.Chan (List ℕ) → c.Oneshot (Unit {0}) → Substream
  new recipient cid sid inbound_rx close_rx = record {
    remote_recipient = recipient;
    connection_id = cid;
    substream_id = sid;
    inbound_rx = inbound_rx;
    close_rx = close_rx;
    closed = false;
    unread_data = [];
  }

  abbrev pub stream_closed : IoError
  stream_closed = other "stream closed"

  -- The error, if the substream is closed, and the substream with its flag set.
  unfoldable pub check_closed : Substream → Option IoError × Substream
  check_closed s =
      let received = c.try_recv s.close_rx in
      let s' = record s { close_rx = received.1 } in
      if s.closed then (some stream_closed, s') else elim received.0 [
        | some u ↦ (some stream_closed, record s' { closed = true })
        | none ↦ (none, s')
      ]

  -- `buf[at..at + bytes.len()].copy_from_slice(bytes)`
  unfoldable pub copy_into : List ℕ → ℕ → List ℕ → Outcome IoError (List ℕ)
  copy_into buf at bytes =
      if leb (at + length bytes) (length buf)
      then ok (take at buf ++ (bytes ++ drop (at + length bytes) buf))
      else panic

  -- What a read returns: the poll's result, the buffer and the substream.
  pub record Read : Type 0 where
    pub result : Outcome IoError (Poll ℕ)
    pub buf : List ℕ
    pub stream : Substream

  -- The last part of `poll_read`: `filled_len` bytes of unread data are in the buffer, and `inbound`
  -- is what the channel gave.
  unfoldable pub read_inbound : Substream → List ℕ → ℕ → Poll (Option (List ℕ)) → Read
  read_inbound s buf filled_len (ready (some bytes)) =
      if filled_len == length buf
      then record {
        result = ok (ready filled_len);
        buf = buf;
        stream = record s { unread_data = s.unread_data ++ bytes };
      }
      else let remaining_len = length buf - filled_len in
        let data_len = length bytes in
        let extra = if ltb remaining_len data_len then drop remaining_len bytes else [] in
        let copied = min remaining_len data_len in
        let s' = record s { unread_data = s.unread_data ++ extra } in
        elim (copy_into buf filled_len (take copied bytes)) [
          | ok buf' ↦ record { result = ok (ready copied); buf = buf'; stream = s' }
          | _ ↦ record { result = panic; buf = buf; stream = s' }
        ]
  read_inbound s buf filled_len _ =
      if ltb 0 filled_len
      then record { result = ok (ready filled_len); buf = buf; stream = s }
      else record { result = ok pending; buf = buf; stream = s }

  -- The first part: previously unread data goes to the front of the buffer.
  unfoldable pub read_unread : Substream → List ℕ → Poll (Option (List ℕ)) → Read
  read_unread s buf inbound =
      let copy_len = min (length s.unread_data) (length buf) in
      if ltb 0 (length s.unread_data)
      then elim (copy_into buf 0 (take copy_len s.unread_data)) [
        | ok buf' ↦
            read_inbound (record s { unread_data = drop copy_len s.unread_data }) buf' copy_len
              inbound
        | _ ↦ record { result = panic; buf = buf; stream = s }
      ]
      else read_inbound s buf 0 inbound

  unfoldable pub poll_read : Substream → List ℕ → Read
  poll_read s buf =
      let checked = check_closed s in
      elim checked.0 [
        | some e ↦ record { result = err e; buf = buf; stream = checked.1 }
        | none ↦
            let polled = c.poll_recv checked.1.inbound_rx in
            read_unread (record checked.1 { inbound_rx = polled.1 }) buf polled.0
      ]

  abbrev pub framed : Substream → SubstreamMessage → ℕ → OutboundMessage
  framed s message nonce =
      let m : TransportMessage = record {
        nonce = nonce;
        message = message;
        id = s.connection_id;
      } in
      record { message = transport_message m; recipient = s.remote_recipient }

  -- `outbound_tx.send(…)` of a message whose nonce has been taken; `failure` is what the error says.
  unfoldable pub transmit : Substream → SubstreamMessage → ℕ → String → Link → Option IoError × Link
  transmit s message nonce failure l = elim (c.send (framed s message nonce) l.outbound_tx) [
    | none ↦ (some (other (str_append failure f.send_error_text)), l)
    | some outbound' ↦ (none, record l { outbound_tx = outbound' })
  ]

  -- What a call returns: the poll's result, the substream, and what it shares.
  pub record Call (A : Type 0) : Type 0 where
    pub result : Outcome IoError (Poll A)
    pub stream : Substream
    pub link : Link

  abbrev finish : {A : Type 0} → A → Substream → Option IoError × Link → Call A
  finish a s (none, l) = record { result = ok (ready a); stream = s; link = l }
  finish a s (some e, l) = record { result = err e; stream = s; link = l }

  -- `message_nonce.fetch_add(1, SeqCst)`, for the next operation.
  abbrev pub take_nonce : Link → Link
  take_nonce l = record l { message_nonce = fetch_add l.message_nonce }

  unfoldable pub poll_write : Substream → List ℕ → Link → Call ℕ
  unfolding transmit
  poll_write s buf l =
      let checked = check_closed s in
      elim checked.0 [
        | some e ↦ record { result = err e; stream = checked.1; link = l }
        | none ↦ finish (length buf) checked.1 (
            transmit checked.1 (new_with_data s.substream_id buf) l.message_nonce
              "poll_write outbound_tx error: " (take_nonce l))
      ]

  unfoldable pub poll_flush : Substream → Link → Call (Unit {0})
  poll_flush s l =
      let checked = check_closed s in
      elim checked.0 [
        | some e ↦ record { result = err e; stream = checked.1; link = l }
        | none ↦ record { result = ok (ready tt); stream = checked.1; link = l }
      ]

  -- The nonce is taken before the flag is looked at.
  unfoldable pub poll_close : Substream → Link → Call (Unit {0})
  unfolding transmit
  poll_close s l =
      if s.closed
      then record { result = err stream_closed; stream = s; link = take_nonce l }
      else let s' = record s { closed = true } in
        finish tt s' (
          transmit s' (new_close s.substream_id) l.message_nonce "poll_close outbound_rx error: "
            (take_nonce l))
