-- ===== src/Mixnet/Address.antt =====
-- src/mixnet.rs: `get_self_address`, and what `initialize_mixnet` returns and hands to its task.
use rust_libp2p_nym.Prelude.{
  ℕ, zero, suc, Option, none, some, inl, inr, ok, err, panic, stuck, ◌>>=◌, length, map_err, String,
}
use rust_libp2p_nym.Prelude.Exec.{Exec}
use rust_libp2p_nym.Prelude.Exec
use rust_libp2p_nym.Foreign.{Foreign}
use rust_libp2p_nym.Channel.{Channels}
use rust_libp2p_nym.Error.{Result, Error}
use rust_libp2p_nym.Message.Wire.{InboundMessage, OutboundMessage}
use rust_libp2p_nym.Mixnet.{parse_nym_message, sent_or, Task}
use rust_libp2p_nym.Mixnet.Client.{
  WsMessage, binary, ServerResponse, received, self_address, error, other_response, ClientRequest,
  Frame, Websocket,
}

module _ ⦃f : Foreign⦄ ⦃w : Websocket⦄ where
  -- The match on the response: an address is returned, and `none` is the loop's `continue`.
  abbrev pub address_in : ServerResponse → Result (Option f.Recipient)
  address_in (self_address recipient) = ok (some recipient)
  address_in (error e) = err (Error.nym_message_error (f.nym_error_to_string e))
  address_in (received bytes) = ok none
  address_in other_response = ok none

  -- The body of the loop on what the stream yields.
  abbrev pub read_frame : Frame → Result (Option f.Recipient)
  read_frame (inl raw_message) = parse_nym_message raw_message >>= address_in
  read_frame (inr e) = err (Error.websocket_stream_error e)

  -- The loop ends on an address and on an error, and otherwise goes on with `rest`.
  abbrev pub return_or :
      Result (Option f.Recipient)
      → w.Socket
      → (w.Socket → Result f.Recipient × w.Socket)
      → Result f.Recipient × w.Socket
  return_or (ok (some recipient)) s rest = (ok recipient, s)
  return_or (ok none) s rest = rest s
  return_or (err e) s rest = (err e, s)
  return_or panic s rest = (panic, s)
  return_or stuck s rest = (stuck, s)

  -- `while let Some(raw_message) = ws_stream.next().await`, with fuel.
  unfoldable pub address_loop : ℕ → Exec w.Socket Error f.Recipient
  address_loop zero s = (stuck, s)
  address_loop (suc fuel) s =
      let rest = λ (s' : w.Socket). address_loop fuel s' in
      let yielded = w.next s in
      elim yielded.0 [
        | none ↦ (err Error.recv_error, yielded.1)
        | some frame ↦ return_or (read_frame frame) yielded.1 rest
      ]

  -- The request's frame.
  abbrev pub address_request : WsMessage
  address_request = binary (w.serialize ClientRequest.self_address_request)

  unfoldable pub get_self_address : Exec w.Socket Error f.Recipient
  get_self_address s =
      Exec.continue (sent_or (w.send_message address_request s))
        λ (_ : Unit {0}) (s' : w.Socket). address_loop (suc (length (w.incoming s'))) s'

  module _ ⦃c : Channels⦄ where
    -- What `initialize_mixnet` returns, and the task that it spawns.
    pub record Initialized : Type 0 where
      pub recipient : f.Recipient
      pub inbound_rx : c.Chan InboundMessage
      pub outbound_tx : c.Chan OutboundMessage
      pub task : Task

    unfoldable pub initialize_mixnet : String → Option (c.Chan (Unit {0})) → Result Initialized
    initialize_mixnet uri notify_inbound_tx = do
      ws_stream ← map_err Error.websocket_stream_error (w.connect_async uri)
      let started = get_self_address ws_stream
      recipient ← started.0
      ok (record {
        recipient = recipient;
        inbound_rx = c.unbounded_channel;
        outbound_tx = c.unbounded_channel;
        task = record {
          socket = started.1;
          notify_inbound_tx = notify_inbound_tx;
          inbound_tx = c.unbounded_channel;
          outbound_rx = c.unbounded_channel;
        };
      })
