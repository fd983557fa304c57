-- ===== src/Transport/Handlers.antt =====
-- src/transport.rs: the handlers of connection requests, connection responses and transport messages.
-- `wake` is an effect on the executor, of which only the taking of the waker is kept.
use rust_libp2p_nym.Prelude.{Option, none, some, ok, err, if◌then◌else◌}
use rust_libp2p_nym.Prelude.HashMap
use rust_libp2p_nym.Prelude.HashMap.{HashMap}
use rust_libp2p_nym.Prelude.Exec.{pure, raise, gets, modify, ◌>>=◌, ◌>>◌}
use rust_libp2p_nym.Foreign.{Foreign}
use rust_libp2p_nym.Channel.{Channels}
use rust_libp2p_nym.Error.{Error}
use rust_libp2p_nym.Message.ConnectionId.{ConnectionId, ConnectionId_key}
use rust_libp2p_nym.Message.SubstreamMessage.{SubstreamMessage}
use rust_libp2p_nym.Message.TransportMessage.{TransportMessage}
use rust_libp2p_nym.Message.ConnectionMessage.{ConnectionMessage}
use rust_libp2p_nym.Message.Wire.{Message, connection_response}
use rust_libp2p_nym.Queue
use rust_libp2p_nym.Queue.{MessageQueue, set_connection_message_received, try_push, pop}
use rust_libp2p_nym.Connection
use rust_libp2p_nym.Connection.{Connection, PendingConnection}
use rust_libp2p_nym.Transport.State.{NymTransport, Method, peer_id}
use rust_libp2p_nym.Transport.Opening.{drain, handle_message_queue_on_connection_initiation}

module _ ⦃f : Foreign⦄ ⦃c : Channels⦄ where
  -- The connection, and the transport's end of the channel into it.
  abbrev pub create_connection_types :
      f.PeerId → f.Recipient → ConnectionId → Connection × c.Chan SubstreamMessage
  create_connection_types peer recipient id =
      (Connection.new peer recipient id c.unbounded_channel, c.unbounded_channel)

  -- `self.connections.insert(id, conn_tx)`
  abbrev pub insert_connection :
      ConnectionId → c.Chan SubstreamMessage → NymTransport → NymTransport
  insert_connection id ch t = record t { connections = HashMap.insert id ch t.connections }

  -- `if let Some(waker) = self.waker.take() { waker.wake(); }`
  abbrev pub wake : NymTransport → NymTransport
  wake t = record t { waker = none }

  -- The channel to the dial's future holds the connection, and the waker is taken.
  abbrev pub hand_over : ConnectionId → c.Oneshot Connection → NymTransport → NymTransport
  hand_over id tx t = wake (record t { dialled = HashMap.insert id tx t.dialled })

  -- The pending dial is removed, its connection is stored and opened, and then sent to the dialer.
  unfoldable pub resolve_dial : ConnectionMessage → PendingConnection Connection → Method (Unit {0})
  resolve_dial msg dial = do
    let made = create_connection_types msg.peer_id dial.remote_recipient msg.id
    modify (insert_connection msg.id made.1)
    handle_message_queue_on_connection_initiation msg.id
    if c.oneshot_send made.0 dial.connection_tx
        then modify (hand_over msg.id (c.sent_into made.0 dial.connection_tx))
        else raise Error.connection_send_error

  unfoldable pub handle_connection_response : ConnectionMessage → Method (Unit {0})
  unfolding resolve_dial
  handle_connection_response msg t = elim (HashMap.get msg.id t.connections) [
    | some tx ↦ (err Error.connection_already_established, t)
    | none ↦ elim (HashMap.get msg.id t.pending_dials) [
      | some dial ↦
          resolve_dial msg dial (record t { pending_dials = HashMap.remove msg.id t.pending_dials })
      | none ↦ (err Error.no_connection_for_response, t)
    ]
  ]

  unfoldable pub send_outbound : Message → f.Recipient → Method (Unit {0})
  send_outbound message recipient t =
      elim (c.send (record { message = message; recipient = recipient }) t.outbound_tx) [
        | none ↦ (err (Error.outbound_send_error f.send_error_text), t)
        | some outbound' ↦ (ok tt, record t { outbound_tx = outbound' })
      ]

  abbrev pub response_to : ConnectionMessage → NymTransport → ConnectionMessage
  response_to msg t = record { peer_id = peer_id t; recipient = none; id = msg.id }

  -- The request is accepted: the connection is stored and opened, and the response is sent.
  unfoldable pub accept : ConnectionMessage → f.Recipient → Method Connection
  unfolding send_outbound
  accept msg recipient = do
    let made = create_connection_types msg.peer_id recipient msg.id
    modify (insert_connection msg.id made.1)
    handle_message_queue_on_connection_initiation msg.id
    response ← gets (response_to msg)
    send_outbound (connection_response response) recipient
    modify wake
    pure made.0

  unfoldable pub handle_connection_request : ConnectionMessage → Method Connection
  unfolding accept
  handle_connection_request msg t = elim msg.recipient [
    | none ↦ (err Error.none_recipient_in_connection_request, t)
    | some recipient ↦ elim (HashMap.get msg.id t.connections) [
      | some tx ↦ (err Error.connection_id_exists, t)
      | none ↦ accept msg recipient t
    ]
  ]

  -- The queue of a connection, or a new one.
  abbrev pub queue_of : Option MessageQueue → MessageQueue
  queue_of (some q) = q
  queue_of none = Queue.new

  -- The message is the next one: it is sent to its connection, and the queued ones behind it. The
  -- waker that `self.waker.clone().take()` takes is a clone.
  unfoldable pub forward : TransportMessage → MessageQueue → Method (Unit {0})
  unfolding drain
  forward msg q t = elim (HashMap.get msg.id t.connections) [
    | none ↦ (err Error.no_connection_for_transport_message, t)
    | some inbound_tx ↦ elim (c.send msg.message inbound_tx) [
      | none ↦ (err (Error.inbound_send_error f.send_error_text), t)
      | some inbound_tx' ↦ drain msg.id q inbound_tx' t
    ]
  ]

  unfoldable pub handle_transport_message : TransportMessage → Method (Unit {0})
  unfolding forward
  handle_transport_message msg t =
      let q = queue_of (HashMap.get msg.id t.message_queues) in
      let pushed = try_push q msg in
      let t' = record t { message_queues = HashMap.insert msg.id pushed.1 t.message_queues } in
      elim pushed.0 [ none ↦ (ok tt, t') | some msg' ↦ forward msg' pushed.1 t' ]
