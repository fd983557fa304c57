-- ===== src/Transport/Establishment.antt =====
-- src/transport.rs: a connection request establishes the connection and opens its queue.
use rust_libp2p_nym.Prelude.{
  ◌≡◌, refl, sym, ap, ◌∙◌, true, [], ◌∷◌, ◌++◌, append-nil, none, some, Option-cases, ok, inl, inr,
  length,
}
use rust_libp2p_nym.Prelude.HashMap
use rust_libp2p_nym.Foreign.{Foreign}
use rust_libp2p_nym.Channel.{Channels, ChannelLaws}
use rust_libp2p_nym.Message.SubstreamMessage.{SubstreamMessage}
use rust_libp2p_nym.Message.ConnectionMessage.{ConnectionMessage}
use rust_libp2p_nym.Message.ConnectionId.{ConnectionId, ConnectionId_key}
use rust_libp2p_nym.Message.Wire.{connection_response, OutboundMessage}
use rust_libp2p_nym.Queue
use rust_libp2p_nym.Queue.{MessageQueue, set_connection_message_received}
use rust_libp2p_nym.Queue.Delivery.{pop_all}
use rust_libp2p_nym.Connection
use rust_libp2p_nym.Transport.State.{NymTransport}
use rust_libp2p_nym.Transport.Opening.{
  drain, open_queue, create_open_queue, handle_message_queue_on_connection_initiation,
}
use rust_libp2p_nym.Transport.Handlers.{
  queue_of, insert_connection, accept, handle_connection_request, response_to, send_outbound, wake,
}
use rust_libp2p_nym.Transport.Branches.{request_lem}
use rust_libp2p_nym.Transport.Forwarding.{Forwarded}
use rust_libp2p_nym.Transport.Delivery.{Serves, drain_lem, store-Serves}

-- The queue behind the connection message, with the nonce 1 expected next.
abbrev pub expecting_first : MessageQueue → MessageQueue
expecting_first q = record q { next_expected_nonce = 1 }

set_connection_message_received_lem :
    {E : Type 0} (q : MessageQueue)
    → q.next_expected_nonce ≡ 0
    → set_connection_message_received {E = E} q ≡ ok (expecting_first q)
unfolding set_connection_message_received
set_connection_message_received_lem q e = rw e refl

module _ ⦃f : Foreign⦄ ⦃c : Channels⦄ where
  module _ (laws : ChannelLaws) where
    -- What opening the queue of the connection `id` leaves of `t`.
    abbrev pub Opens : ConnectionId → MessageQueue → c.Chan SubstreamMessage → NymTransport → Type 0
    Opens id q ch t =
        let popped = pop_all (length q.queue) (expecting_first q) in
        let r = handle_message_queue_on_connection_initiation id t in
        (ch' : c.Chan SubstreamMessage) × (r.0 ≡ ok tt)
        × Serves r.1 id ch' popped.1
        × (r.1.outbound_tx ≡ t.outbound_tx)
        × (r.1.keypair ≡ t.keypair)
        × (r.1.pending_dials ≡ t.pending_dials)
        × Forwarded ch ch' popped.0

    initiation_held :
        (id : ConnectionId) (q : MessageQueue) (ch : c.Chan SubstreamMessage) (t : NymTransport)
        → HashMap.get id t.connections ≡ some ch
        → HashMap.get id t.message_queues ≡ some q
        → q.next_expected_nonce ≡ 0
        → handle_message_queue_on_connection_initiation id t ≡ drain id (expecting_first q) ch t
    unfolding handle_message_queue_on_connection_initiation open_queue
    initiation_held id q ch t e k z =
        rw (handle_message_queue_on_connection_initiation, e)
          (rw k (rw (open_queue, set_connection_message_received_lem q z) refl))

    initiation_new :
        (id : ConnectionId) (ch : c.Chan SubstreamMessage) (t : NymTransport)
        → HashMap.get id t.connections ≡ some ch
        → HashMap.get id t.message_queues ≡ none
        → handle_message_queue_on_connection_initiation id t ≡ (
          ok tt,
          record t {
            message_queues = HashMap.insert id (expecting_first Queue.new) t.message_queues;
          },
        )
    unfolding handle_message_queue_on_connection_initiation create_open_queue
    initiation_new id ch t e k =
        rw (handle_message_queue_on_connection_initiation, e)
          (rw k (rw (create_open_queue, set_connection_message_received_lem Queue.new refl) refl))

    initiation_lem :
        (id : ConnectionId) (ch : c.Chan SubstreamMessage) (t : NymTransport)
        → HashMap.get id t.connections ≡ some ch
        → c.is_open ch ≡ true
        → (queue_of (HashMap.get id t.message_queues)).next_expected_nonce ≡ 0
        → Opens id (queue_of (HashMap.get id t.message_queues)) ch t
    initiation_lem id ch t e o z = elim (Option-cases (HashMap.get id t.message_queues)) [
      | inl fresh ↦
          rw (fresh, initiation_new id ch t e fresh)
            (unfold pop_all in
              (
                ch,
                refl,
                record {
                  connection = e;
                  opened = o;
                  queue =
                      ap queue_of
                        (HashMap.get-insert_self id (expecting_first Queue.new) t.message_queues);
                },
                refl,
                refl,
                refl,
                record { contents = sym (append-nil _); still_open = o },
              ))
      | inr (q, held) ↦
          let (ch', drained, done) = drain_lem laws id (expecting_first q) ch t o in
          rw
            (
              held,
              initiation_held id q ch t e held
                  (ap (λ o. (queue_of o).next_expected_nonce) (sym held) ∙ z),
              drained,
            )
            (ch', refl, store-Serves laws id _ ch' t done.still_open, refl, refl, refl, done)
    ]

    pub initiation_of_insert :
        (id : ConnectionId) (t : NymTransport)
        → (queue_of (HashMap.get id t.message_queues)).next_expected_nonce ≡ 0
        → Opens id
            (queue_of (HashMap.get id t.message_queues))
            c.unbounded_channel
            (insert_connection id c.unbounded_channel t)
    initiation_of_insert id t z =
        initiation_lem id c.unbounded_channel (insert_connection id c.unbounded_channel t)
          (HashMap.get-insert_self id c.unbounded_channel t.connections) laws.is_open-new z

    abbrev pub initiated : ConnectionId → NymTransport → NymTransport
    initiated id t =
        (handle_message_queue_on_connection_initiation id
          (insert_connection id c.unbounded_channel t)).1

    abbrev pub response : ConnectionMessage → f.Recipient → NymTransport → OutboundMessage
    response msg recipient t = record {
      message = connection_response (response_to msg t);
      recipient = recipient;
    }

    accept_lem :
        (msg : ConnectionMessage) (recipient : f.Recipient) (t : NymTransport)
        (out : c.Chan OutboundMessage)
        → (handle_message_queue_on_connection_initiation msg.id
            (insert_connection msg.id c.unbounded_channel t)).0
          ≡ ok tt
        → c.send (response msg recipient (initiated msg.id t)) (initiated msg.id t).outbound_tx
          ≡ some out
        → accept msg recipient t ≡ (
          ok (Connection.new msg.peer_id recipient msg.id c.unbounded_channel),
          wake (record (initiated msg.id t) { outbound_tx = out }),
        )
    unfolding accept send_outbound
    accept_lem msg recipient t out done sent = rw (accept, done) (rw (send_outbound, sent) refl)

    -- A connection request with a recipient arrives, for an id that is not connected and whose queue
    -- has not seen a connection message, and the mixnet's task is there. Then the request is
    -- accepted: the response is sent to the recipient, and the connection is established, with the
    -- queue that pops what had come too early and a channel that holds the payloads of that and
    -- nothing else.
    pub handle_connection_request-Serves :
        (msg : ConnectionMessage) (recipient : f.Recipient) (t : NymTransport)
        → msg.recipient ≡ some recipient
        → HashMap.get msg.id t.connections ≡ none
        → (queue_of (HashMap.get msg.id t.message_queues)).next_expected_nonce ≡ 0
        → c.is_open t.outbound_tx ≡ true
        → let q = queue_of (HashMap.get msg.id t.message_queues) in
          let popped = pop_all (length q.queue) (expecting_first q) in
          let r = handle_connection_request msg t in
          (ch : c.Chan SubstreamMessage) × (r.0
            ≡ ok (Connection.new msg.peer_id recipient msg.id c.unbounded_channel))
          × Serves r.1 msg.id ch popped.1
          × Forwarded c.unbounded_channel ch popped.0
          × (c.contents r.1.outbound_tx ≡ c.contents t.outbound_tx ++ response msg recipient t ∷ [])
    handle_connection_request-Serves msg recipient t e k z o =
        let (ch, done, s, outbound, keypair, _, w) = initiation_of_insert msg.id t z in
        let (out, sent, contents, _) =
          laws.send_open (response msg recipient (initiated msg.id t))
            (initiated msg.id t).outbound_tx (ap c.is_open outbound ∙ o) in
        rw (request_lem msg recipient t e k, accept_lem msg recipient t out done sent)
          (
            ch,
            refl,
            record { connection = s.connection; opened = s.opened; queue = s.queue },
            w,
            contents
                ∙ ap (λ x. c.contents x ++ response msg recipient (initiated msg.id t) ∷ [])
                    outbound
                ∙ ap
                    (λ x.
                      c.contents t.outbound_tx
                      ++ record {
                        message =
                            connection_response
                              (record { peer_id = f.peer_id_of x; recipient = none; id = msg.id });
                        recipient = recipient;
                      }
                        ∷ [])
                    keypair,
          )
