-- ===== src/Transport/Panics.antt =====
-- src/transport.rs: a peer that numbers a message 0 makes the transport panic.
use rust_libp2p_nym.Prelude.{
  ◌≡◌, ◌≢◌, refl, sym, ap, ◌∙◌, none, some, Option, err, panic, arith, [],
}
use rust_libp2p_nym.Prelude.HashMap
use rust_libp2p_nym.Foreign.{Foreign}
use rust_libp2p_nym.Channel.{Channels}
use rust_libp2p_nym.Error.{Error}
use rust_libp2p_nym.Message.TransportMessage.{TransportMessage}
use rust_libp2p_nym.Message.ConnectionMessage.{ConnectionMessage}
use rust_libp2p_nym.Message.ConnectionId.{ConnectionId_key}
use rust_libp2p_nym.Queue
use rust_libp2p_nym.Queue.{MessageQueue, try_push, set_connection_message_received}
use rust_libp2p_nym.Transport.State.{NymTransport}
use rust_libp2p_nym.Transport.Opening.{open_queue, handle_message_queue_on_connection_initiation}
use rust_libp2p_nym.Transport.Handlers.{
  insert_connection, forward, accept, handle_transport_message, handle_connection_request,
}
use rust_libp2p_nym.Transport.Delivery.{queued, handle_passed}
use rust_libp2p_nym.Transport.Branches.{request_lem}

try_push_zero :
    (m : TransportMessage)
    → m.nonce ≡ 0
    → try_push Queue.new m ≡ (some m, record { next_expected_nonce = 1; queue = [] })
unfolding try_push
try_push_zero m e = ground arith

set_twice :
    {E : Type 0} (q : MessageQueue)
    → q.next_expected_nonce ≢ 0
    → set_connection_message_received {E = E} q ≡ panic
unfolding set_connection_message_received
set_twice q h = ground arith

module _ ⦃f : Foreign⦄ ⦃c : Channels⦄ where
  initiation_panics :
      (msg : ConnectionMessage) (q : MessageQueue) (t : NymTransport)
      → HashMap.get msg.id t.message_queues ≡ some q
      → q.next_expected_nonce ≢ 0
      → (handle_message_queue_on_connection_initiation msg.id
          (insert_connection msg.id c.unbounded_channel t)).0
        ≡ panic
  unfolding handle_message_queue_on_connection_initiation open_queue
  initiation_panics msg q t e h =
      let k = HashMap.get-insert_self msg.id c.unbounded_channel t.connections in
      rw (handle_message_queue_on_connection_initiation, k)
        (rw e (rw (open_queue, set_twice q h) refl))

  accept_panics :
      (msg : ConnectionMessage) (recipient : f.Recipient) (t : NymTransport)
      → (handle_message_queue_on_connection_initiation msg.id
          (insert_connection msg.id c.unbounded_channel t)).0
        ≡ panic
      → (accept msg recipient t).0 ≡ panic
  unfolding accept
  accept_panics msg recipient t e = rw (accept, e) refl

  handle_zero :
      (m : TransportMessage) (t : NymTransport)
      → m.nonce ≡ 0
      → HashMap.get m.id t.connections ≡ none
      → HashMap.get m.id t.message_queues ≡ none
      → handle_transport_message m t ≡ (err Error.no_connection_for_transport_message, queued m t)
  unfolding forward queued
  handle_zero m t e k fresh =
      handle_passed m t
        (rw fresh (ap (λ (r : Option TransportMessage × MessageQueue). r.0) (try_push_zero m e)))
      ∙ rw (forward, k) refl

  request_panics :
      (msg : ConnectionMessage) (recipient : f.Recipient) (q : MessageQueue) (t : NymTransport)
      → msg.recipient ≡ some recipient
      → HashMap.get msg.id t.connections ≡ none
      → HashMap.get msg.id t.message_queues ≡ some q
      → q.next_expected_nonce ≢ 0
      → (handle_connection_request msg t).0 ≡ panic
  request_panics msg recipient q t r k e h =
      rw (request_lem msg recipient t r k)
        (accept_panics msg recipient t (initiation_panics msg q t e h))

  queued_zero :
      (m : TransportMessage) (t : NymTransport)
      → m.nonce ≡ 0
      → HashMap.get m.id t.message_queues ≡ none
      → HashMap.get m.id (queued m t).message_queues
        ≡ some (record { next_expected_nonce = 1; queue = [] })
  unfolding queued
  queued_zero m t e fresh =
      HashMap.get-insert_self m.id _ t.message_queues
      ∙ rw fresh (ap (λ (r : Option TransportMessage × MessageQueue). some r.1) (try_push_zero m e))

  queued_connections :
      (m : TransportMessage) (t : NymTransport) → (queued m t).connections ≡ t.connections
  unfolding queued
  queued_connections m t = refl

  -- A message with the nonce 0 arrives on a connection that the transport does not know. It is refused
  -- with an error, but the queue counts it; and the connection request, when it comes, makes the
  -- transport panic.
  pub zero_nonce_panics :
      (m : TransportMessage) (msg : ConnectionMessage) (recipient : f.Recipient) (t : NymTransport)
      → m.nonce ≡ 0
      → m.id ≡ msg.id
      → msg.recipient ≡ some recipient
      → HashMap.get m.id t.connections ≡ none
      → HashMap.get m.id t.message_queues ≡ none
      → ((handle_transport_message m t).0 ≡ err Error.no_connection_for_transport_message)
        × ((handle_connection_request msg (handle_transport_message m t).1).0 ≡ panic)
  zero_nonce_panics m msg recipient t e same r k fresh = rw (handle_zero m t e k fresh) (
    refl,
    request_panics msg recipient (record { next_expected_nonce = 1; queue = [] }) (queued m t) r
        (ap (HashMap.get msg.id) (queued_connections m t)
          ∙ ap (λ id. HashMap.get id t.connections) (sym same)
          ∙ k)
        (ap (λ id. HashMap.get id (queued m t).message_queues) (sym same) ∙ queued_zero m t e fresh)
        (omega arith),
  )
