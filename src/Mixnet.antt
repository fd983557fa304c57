-- ===== src/Mixnet.antt =====
-- src/mixnet.rs: what the task between the transport and the Nym client does with one message.
use rust_libp2p_nym.Prelude.{ℕ, List, Option, none, some, inl, inr, Outcome, ok, err, map_err}
use rust_libp2p_nym.Prelude.Exec.{Exec, pure, raise, continue, ◌>>=◌, ◌>>◌}
use rust_libp2p_nym.Foreign.{Foreign}
use rust_libp2p_nym.Channel.{Channels}
use rust_libp2p_nym.Error.{Result, Error}
use rust_libp2p_nym.Message.Wire
use rust_libp2p_nym.Message.Wire.{InboundMessage, OutboundMessage, parse_message_data}
use rust_libp2p_nym.Mixnet.Client.{
  WsMessage, text, binary, other_ws_message, ServerResponse, received, self_address, error,
  other_response, ClientRequest, Frame, Websocket,
}
pub mod Client
pub mod Address
pub mod Answer
pub mod Inbound
pub mod Run
pub mod Turns
pub mod Delivery
pub mod EndToEnd

module _ ⦃f : Foreign⦄ ⦃w : Websocket⦄ where
  -- What `deserialize` returns, as `parse_nym_message` passes it on.
  abbrev pub deserialized : List ℕ → Result ServerResponse
  deserialized bytes =
      map_err (λ e. Error.nym_message_error (f.nym_error_to_string e)) (w.deserialize bytes)

  unfoldable pub parse_nym_message : WsMessage → Result ServerResponse
  parse_nym_message (text str) = deserialized (w.into_bytes str)
  parse_nym_message (binary bytes) = deserialized bytes
  parse_nym_message other_ws_message = err Error.unknown_nym_message

  -- The match on the response in `handle_inbound`.
  abbrev pub msg_bytes : ServerResponse → Result (List ℕ)
  msg_bytes (received bytes) = ok bytes
  msg_bytes (error e) = err (Error.nym_message_error (f.nym_error_to_string e))
  msg_bytes (self_address r) = err Error.unexpected_nym_message
  msg_bytes other_response = err Error.unexpected_nym_message

  -- The result of a send on the socket, with the error converted.
  abbrev pub sent_or : Option f.WsError × w.Socket → Result (Unit {0}) × w.Socket
  sent_or (none, s) = (ok tt, s)
  sent_or (some e, s) = (err (Error.websocket_stream_error e), s)

  -- The frame that carries a message to the Nym client.
  abbrev pub packet : f.Recipient → List ℕ → WsMessage
  packet recipient message = binary (w.serialize (ClientRequest.send recipient message none))

  unfoldable pub write_bytes : f.Recipient → List ℕ → w.Socket → Result (Unit {0}) × w.Socket
  write_bytes recipient message s = sent_or (w.send_message (packet recipient message) s)

  module _ ⦃c : Channels⦄ where
    -- What the task of `initialize_mixnet` holds. `inbound_tx` is its end of the channel to the
    -- transport, and `outbound_rx` that of the channel from it.
    pub record Task : Type 0 where
      pub socket : w.Socket
      pub notify_inbound_tx : Option (c.Chan (Unit {0}))
      pub inbound_tx : c.Chan InboundMessage
      pub outbound_rx : c.Chan OutboundMessage

    abbrev pub Step : Type 0 → Type 0
    Step A = Exec Task Error A

    abbrev pub lift : {A : Type 0} → Result A → Step A
    lift result t = (result, t)

    -- `inbound_tx.send(data).map_err(..)`
    unfoldable pub send_inbound : InboundMessage → Step (Unit {0})
    send_inbound message t = elim (c.send message t.inbound_tx) [
      | none ↦ (err (Error.inbound_send_error f.send_error_text), t)
      | some inbound' ↦ (ok tt, record t { inbound_tx = inbound' })
    ]

    unfoldable pub handle_inbound : WsMessage → Step (Unit {0})
    handle_inbound msg = do
      res ← lift (parse_nym_message msg)
      bytes ← lift (msg_bytes res)
      message ← lift (parse_message_data bytes)
      send_inbound message

    -- `if let Some(notify_tx) = notify_inbound_tx { notify_tx.send(()).map_err(..)? }`
    unfoldable pub notify : Step (Unit {0})
    notify t = elim t.notify_inbound_tx [
      | none ↦ (ok tt, t)
      | some notify_tx ↦ elim (c.send tt notify_tx) [
        | none ↦ (err (Error.inbound_send_error f.send_error_text), t)
        | some notify' ↦ (ok tt, record t { notify_inbound_tx = some notify' })
      ]
    ]

    abbrev pub handle_frame : Frame → Step (Unit {0})
    handle_frame (inl msg) = handle_inbound msg
    handle_frame (inr e) = raise (Error.websocket_stream_error e)

    -- `check_inbound`, when the stream has yielded something or has ended.
    unfoldable pub check_inbound : Step (Unit {0})
    check_inbound t =
        let yielded = w.next t.socket in
        let t' = record t { socket = yielded.1 } in
        elim yielded.0 [
          | none ↦ (err Error.websocket_stream_read_none, t')
          | some res ↦ continue (notify t') λ _. handle_frame res
        ]

    -- `check_outbound`, behind `outbound_rx.recv().await`, whose result is an argument.
    unfoldable pub check_outbound : Option OutboundMessage → Step (Unit {0})
    check_outbound none t = (err Error.recv_error, t)
    check_outbound (some message) t =
        let wrote = write_bytes message.recipient (Wire.to_bytes message.message) t.socket in
        (wrote.0, record t { socket = wrote.1 })
