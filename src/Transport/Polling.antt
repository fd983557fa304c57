-- ===== src/Transport/Polling.antt =====
-- src/transport.rs: `handle_inbound` and `poll`.
use rust_libp2p_nym.Prelude.{
  ℕ, zero, suc, some, Outcome, ok, err, panic, stuck, length, if◌then◌else◌,
}
use rust_libp2p_nym.Prelude.Exec.{pure, raise, ◌>>=◌, ◌>>◌}
use rust_libp2p_nym.Foreign.{Foreign}
use rust_libp2p_nym.Channel.{Channels, Poll, ready, pending}
use rust_libp2p_nym.Error.{Error}
use rust_libp2p_nym.Message.ConnectionId.{ConnectionId_key}
use rust_libp2p_nym.Message.ConnectionMessage.{ConnectionMessage}
use rust_libp2p_nym.Message.Wire.{
  Message, connection_request, connection_response, transport_message,
}
use rust_libp2p_nym.Connection.{Connection}
use rust_libp2p_nym.Transport.State.{
  InboundTransportEvent, connection_requested, connection_responded, message_handled,
  TransportEvent, incoming, listener_error, NymTransport, Method,
}
use rust_libp2p_nym.Transport.Handlers.{
  handle_connection_request, handle_connection_response, handle_transport_message,
}

module _ ⦃f : Foreign⦄ ⦃c : Channels⦄ where
  -- The upgrade's channel is new, so its receiver is there.
  unfoldable pub upgrade : ConnectionMessage → Connection → Method InboundTransportEvent
  upgrade msg conn =
      let sent : f.PeerId × Connection = (msg.peer_id, conn) in
      if c.oneshot_send sent c.oneshot_channel
      then pure
          (connection_requested (record { connection_tx = c.sent_into sent c.oneshot_channel }))
      else raise Error.connection_send_error

  unfoldable pub handle_inbound : Message → Method InboundTransportEvent
  unfolding upgrade
  handle_inbound (connection_request msg) = do
    conn ← handle_connection_request msg
    upgrade msg conn
  handle_inbound (connection_response msg) = do
    handle_connection_response msg
    pure connection_responded
  handle_inbound (transport_message msg) = do handle_transport_message msg; pure message_handled

  -- What `poll` returns, with the transport.
  abbrev pub Polled : Type 0
  Polled = Outcome Error (Poll TransportEvent) × NymTransport

  -- The `match` on the result of `handle_inbound`: a request and an error are returned as events, and
  -- otherwise the loop goes on with `rest`. A panic in a handler is the loop's.
  abbrev pub settle :
      Outcome Error InboundTransportEvent × NymTransport → (NymTransport → Polled) → Polled
  settle (ok (connection_requested u), t) rest =
      (ok (ready (incoming t.listener_id u t.listen_addr t.listen_addr)), t)
  settle (ok connection_responded, t) rest = rest t
  settle (ok message_handled, t) rest = rest t
  settle (err e, t) rest = (ok (ready (listener_error t.listener_id e)), t)
  settle (panic, t) rest = (panic, t)
  settle (stuck, t) rest = (stuck, t)

  -- The message has been taken off the stream.
  abbrev pub received : NymTransport → NymTransport
  received t = record t { inbound_stream = (c.poll_recv t.inbound_stream).1 }

  -- `while let Poll::Ready(Some(msg)) = self.inbound_stream.poll_next_unpin(cx)`, with fuel.
  unfoldable pub poll_loop : ℕ → f.Waker → Method (Poll TransportEvent)
  poll_loop zero cx t = (stuck, t)
  poll_loop (suc fuel) cx t =
      let rest = λ (t' : NymTransport). poll_loop fuel cx t' in
      elim (c.poll_recv t.inbound_stream).0 [
        | ready (some msg) ↦ settle (handle_inbound msg.message (received t)) rest
        | _ ↦ (ok pending, record (received t) { waker = some cx })
      ]

  unfoldable pub poll : f.Waker → Method (Poll TransportEvent)
  poll cx t =
      let polled = c.poll_recv t.poll_chan in
      let t' = record t { poll_chan = polled.1 } in
      elim polled.0 [
        | ready (some event) ↦ (ok (ready event), t')
        | _ ↦ poll_loop (suc (length (c.contents t.inbound_stream))) cx t'
      ]
