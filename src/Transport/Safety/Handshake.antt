-- ===== src/Transport/Safety/Handshake.antt =====
-- src/transport.rs: connection requests and responses keep the invariant and do not panic.
use rust_libp2p_nym.Prelude.{
  ◌≡◌, ◌≢◌, refl, ◌∙◌, none, Option-cases, inl, inr, err, Bool, true, false, if◌then◌else◌,
}
use rust_libp2p_nym.Prelude.HashMap
use rust_libp2p_nym.Prelude.Exec.{modify, raise}
use rust_libp2p_nym.Prelude.Steps.{Safe, continue-Safe}
use rust_libp2p_nym.Foreign.{Foreign}
use rust_libp2p_nym.Channel.{Channels, ChannelLaws}
use rust_libp2p_nym.Error.{Error}
use rust_libp2p_nym.Message.SubstreamMessage.{SubstreamMessage}
use rust_libp2p_nym.Message.ConnectionMessage.{ConnectionMessage}
use rust_libp2p_nym.Message.ConnectionId.{ConnectionId, ConnectionId_key}
use rust_libp2p_nym.Message.Wire.{Message}
use rust_libp2p_nym.Queue.{set_connection_message_received}
use rust_libp2p_nym.Connection.{Connection, PendingConnection}
use rust_libp2p_nym.Transport.State.{NymTransport}
use rust_libp2p_nym.Transport.Opening.{
  open_queue, create_open_queue, handle_message_queue_on_connection_initiation,
}
use rust_libp2p_nym.Transport.Handlers.{
  hand_over, insert_connection, resolve_dial, handle_connection_response, send_outbound, accept,
  handle_connection_request,
}
use rust_libp2p_nym.Transport.Branches.{
  set_cases, request_without_recipient, request_connected, request_lem, undialled,
  response_connected, response_unasked, response_lem,
}
use rust_libp2p_nym.Transport.Delivery.{Untouched, drain-Untouched}
use rust_libp2p_nym.Transport.Establishment.{initiation_of_insert}
use rust_libp2p_nym.Transport.Safety.{IsHeldBack, one-IsHeldBack}

module _ ⦃f : Foreign⦄ ⦃c : Channels⦄ where
  insert-Untouched :
      (id own : ConnectionId) (ch : c.Chan SubstreamMessage) (t : NymTransport)
      → own ≢ id
      → Untouched id t (insert_connection own ch t)
  insert-Untouched id own ch t ne = record {
    connection = HashMap.get-insert_ne own id ch t.connections ne;
    queue = refl;
  }

  Untouched-refl : (id : ConnectionId) (t : NymTransport) → Untouched id t t
  Untouched-refl id t = record { connection = refl; queue = refl }

  Untouched-trans :
      (id : ConnectionId) (t t' t'' : NymTransport)
      → Untouched id t t'
      → Untouched id t' t''
      → Untouched id t t''
  Untouched-trans id t t' t'' u v = record {
    connection = v.connection ∙ u.connection;
    queue = v.queue ∙ u.queue;
  }

  -- Opening the queue of one connection leaves the others alone.
  initiation-Untouched :
      (id own : ConnectionId) (t : NymTransport)
      → own ≢ id
      → Untouched id t (handle_message_queue_on_connection_initiation own t).1
  unfolding handle_message_queue_on_connection_initiation open_queue create_open_queue
      set_connection_message_received
  initiation-Untouched id own t ne = elim (Option-cases (HashMap.get own t.connections)) [
    | inl e ↦ rw (handle_message_queue_on_connection_initiation, e) (Untouched-refl id t)
    | inr (ch, e) ↦ elim (Option-cases (HashMap.get own t.message_queues)) [
      | inl k ↦
          rw (handle_message_queue_on_connection_initiation, e)
            (rw k (record {
              connection = refl;
              queue = HashMap.get-insert_ne own id _ t.message_queues ne;
            }))
      | inr (q, k) ↦
          rw (handle_message_queue_on_connection_initiation, e)
            (rw k (elim (set_cases {E = Error} q) [
              | inl (q', set) ↦ rw (open_queue, set) (drain-Untouched id own q' ch t ne)
              | inr set ↦ rw (open_queue, set) (Untouched-refl id t)
            ]))
    ]
  ]

  module _ (laws : ChannelLaws) where
    -- What `accept` and `resolve_dial` begin with.
    initiation-Safe :
        (id : ConnectionId) (t : NymTransport)
        → HashMap.get id t.connections ≡ none
        → IsHeldBack t
        → Safe IsHeldBack (
            handle_message_queue_on_connection_initiation id
              (insert_connection id c.unbounded_channel t))
    initiation-Safe id t e h =
        let inserted = insert_connection id c.unbounded_channel t in
        let (ch, done, s, _, _, _, _) = initiation_of_insert laws id t (h id e) in
        record {
          calm = λ x. absurd (cc (done, x));
          kept =
              one-IsHeldBack id t (handle_message_queue_on_connection_initiation id inserted).1
                (λ other ne.
                  Untouched-trans other t inserted _
                    (insert-Untouched other id c.unbounded_channel t ne)
                    (initiation-Untouched other id inserted ne))
                (λ k. absurd (cc (s.connection, k))) h;
        }

    send_outbound-Safe :
        (message : Message) (recipient : f.Recipient) (t : NymTransport)
        → IsHeldBack t
        → Safe IsHeldBack (send_outbound message recipient t)
    unfolding send_outbound
    send_outbound-Safe message recipient t h =
        elim (Option-cases
          (c.send (record { message = message; recipient = recipient }) t.outbound_tx)) [
            | inl e ↦ rw (send_outbound, e) (record { calm = λ x. absurd (cc x); kept = h })
            | inr (ch, e) ↦ rw (send_outbound, e) (record { calm = λ x. absurd (cc x); kept = h })
          ]

    accept-Safe :
        (msg : ConnectionMessage) (recipient : f.Recipient) (t : NymTransport)
        → HashMap.get msg.id t.connections ≡ none
        → IsHeldBack t
        → Safe IsHeldBack (accept msg recipient t)
    unfolding accept
    accept-Safe msg recipient t e h =
        continue-Safe IsHeldBack (handle_message_queue_on_connection_initiation msg.id _) _
          (initiation-Safe msg.id t e h)
          λ _ _ k.
            continue-Safe IsHeldBack (send_outbound _ _ _) _ (send_outbound-Safe _ _ _ k)
              λ _ _ k'. record { calm = λ x. absurd (cc x); kept = k' }

    pub refused :
        {A : Type 0} (t : NymTransport) (e : Error)
        → IsHeldBack t
        → Safe IsHeldBack {A = A} (err e, t)
    refused t e h = record { calm = λ x. absurd (cc x); kept = h }

    pub handle_connection_request-Safe :
        (msg : ConnectionMessage) (t : NymTransport)
        → IsHeldBack t
        → Safe IsHeldBack (handle_connection_request msg t)
    handle_connection_request-Safe msg t h = elim (Option-cases msg.recipient) [
      | inl e ↦ rw (request_without_recipient msg t e) (refused t _ h)
      | inr (r, e) ↦ elim (Option-cases (HashMap.get msg.id t.connections)) [
        | inl k ↦ rw (request_lem msg r t e k) (accept-Safe msg r t k h)
        | inr (ch, k) ↦ rw (request_connected msg r t ch e k) (refused t _ h)
      ]
    ]

    answer-Safe :
        (i : ConnectionId) (tx : c.Oneshot Connection) (sent : Bool) (t : NymTransport)
        → IsHeldBack t
        → Safe {E = Error} IsHeldBack
            ((if sent then modify (hand_over i tx) else raise Error.connection_send_error) t)
    answer-Safe i tx true t h = record { calm = λ x. absurd (cc x); kept = h }
    answer-Safe i tx false t h = refused t _ h

    resolve_dial-Safe :
        (msg : ConnectionMessage) (d : PendingConnection Connection) (t : NymTransport)
        → HashMap.get msg.id t.connections ≡ none
        → IsHeldBack t
        → Safe IsHeldBack (resolve_dial msg d t)
    unfolding resolve_dial
    resolve_dial-Safe msg d t e h =
        continue-Safe IsHeldBack (handle_message_queue_on_connection_initiation msg.id _) _
          (initiation-Safe msg.id t e h)
          λ _ _ k. answer-Safe msg.id _ (c.oneshot_send _ d.connection_tx) _ k

    pub handle_connection_response-Safe :
        (msg : ConnectionMessage) (t : NymTransport)
        → IsHeldBack t
        → Safe IsHeldBack (handle_connection_response msg t)
    handle_connection_response-Safe msg t h =
        elim (Option-cases (HashMap.get msg.id t.connections)) [
          | inr (ch, e) ↦ rw (response_connected msg t ch e) (refused t _ h)
          | inl e ↦ elim (Option-cases (HashMap.get msg.id t.pending_dials)) [
            | inl k ↦ rw (response_unasked msg t e k) (refused t _ h)
            | inr (d, k) ↦
                rw (response_lem msg d t e k) (resolve_dial-Safe msg d (undialled msg t) e h)
          ]
        ]
