-- ===== src/Transport/Opening.antt =====
-- src/transport.rs: the loop that hands queued messages to a connection, and what opens the queue of a
-- connection.
use rust_libp2p_nym.Prelude.{ℕ, zero, suc, none, some, Outcome, ok, err, panic, stuck, length}
use rust_libp2p_nym.Prelude.HashMap
use rust_libp2p_nym.Prelude.HashMap.{HashMap}
use rust_libp2p_nym.Foreign.{Foreign}
use rust_libp2p_nym.Channel.{Channels}
use rust_libp2p_nym.Error.{Error}
use rust_libp2p_nym.Message.ConnectionId.{ConnectionId, ConnectionId_key}
use rust_libp2p_nym.Message.SubstreamMessage.{SubstreamMessage}
use rust_libp2p_nym.Queue
use rust_libp2p_nym.Queue.{MessageQueue, set_connection_message_received, try_push, pop}
use rust_libp2p_nym.Transport.State.{NymTransport, Method}

module _ ⦃f : Foreign⦄ ⦃c : Channels⦄ where
  -- `while let Some(msg) = queue.pop()` with the send to the connection, with fuel. The queue and the
  -- channel are the loop's state, and come back also behind an error.
  unfoldable pub forward_queued :
      ℕ
      → MessageQueue
      → c.Chan SubstreamMessage
      → Outcome Error (Unit {0}) × MessageQueue × c.Chan SubstreamMessage
  forward_queued zero q ch = (stuck, q, ch)
  forward_queued (suc fuel) q ch =
      let rest = λ (ch' : c.Chan SubstreamMessage). forward_queued fuel (pop q).1 ch' in
      elim (pop q).0 [
        | none ↦ (ok tt, (pop q).1, ch)
        | some msg ↦ elim (c.send msg.message ch) [
          | none ↦ (err (Error.inbound_send_error f.send_error_text), (pop q).1, ch)
          | some ch' ↦ rest ch'
        ]
      ]

  abbrev pub store :
      ConnectionId → MessageQueue → c.Chan SubstreamMessage → NymTransport → NymTransport
  store id q ch t = record t {
    message_queues = HashMap.insert id q t.message_queues;
    connections = HashMap.insert id ch t.connections;
  }

  -- The loop on the queue and the channel of one connection. Each round takes a message off the queue.
  unfoldable pub drain : ConnectionId → MessageQueue → c.Chan SubstreamMessage → Method (Unit {0})
  drain id q ch t =
      let (result, q', ch') = forward_queued (suc (length q.queue)) q ch in
      (result, store id q' ch' t)

  unfoldable pub open_queue :
      ConnectionId → MessageQueue → c.Chan SubstreamMessage → Method (Unit {0})
  open_queue id q ch t = elim (set_connection_message_received q) [
    | ok q' ↦ drain id q' ch t
    | err e ↦ (err e, t)
    | panic ↦ (panic, t)
    | stuck ↦ (stuck, t)
  ]

  -- A connection without a queue gets a new one, which holds nothing to forward.
  unfoldable pub create_open_queue : ConnectionId → Method (Unit {0})
  create_open_queue id t = elim (set_connection_message_received Queue.new) [
    | ok q' ↦ (ok tt, record t { message_queues = HashMap.insert id q' t.message_queues })
    | err e ↦ (err e, t)
    | panic ↦ (panic, t)
    | stuck ↦ (stuck, t)
  ]

  unfoldable pub handle_message_queue_on_connection_initiation : ConnectionId → Method (Unit {0})
  unfolding open_queue create_open_queue
  handle_message_queue_on_connection_initiation id t = elim (HashMap.get id t.connections) [
    | none ↦ (err Error.no_connection_for_transport_message, t)
    | some inbound_tx ↦ elim (HashMap.get id t.message_queues) [
      | some q ↦ open_queue id q inbound_tx t
      | none ↦ create_open_queue id t
    ]
  ]
