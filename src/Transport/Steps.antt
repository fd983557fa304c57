-- ===== src/Transport/Steps.antt =====
-- src/transport.rs: the handlers of inbound messages end, and leave alone what does not concern them.
use rust_libp2p_nym.Prelude.{
  Bool, true, false, if◌then◌else◌, suc, refl, Option-cases, arith, inl, inr, Outcome, ok, err,
  length,
}
use rust_libp2p_nym.Prelude.HashMap
use rust_libp2p_nym.Prelude.Exec.{modify, raise}
use rust_libp2p_nym.Prelude.Steps.{Steps, continue-Steps}
use rust_libp2p_nym.Foreign.{Foreign}
use rust_libp2p_nym.Channel.{Channels}
use rust_libp2p_nym.Error.{Error}
use rust_libp2p_nym.Message.SubstreamMessage.{SubstreamMessage}
use rust_libp2p_nym.Message.TransportMessage.{TransportMessage}
use rust_libp2p_nym.Message.ConnectionMessage.{ConnectionMessage}
use rust_libp2p_nym.Message.ConnectionId.{ConnectionId, ConnectionId_key}
use rust_libp2p_nym.Message.Wire.{
  Message, InboundMessage, connection_request, connection_response, transport_message,
}
use rust_libp2p_nym.Queue.{MessageQueue, set_connection_message_received}
use rust_libp2p_nym.Connection.{Connection, PendingConnection}
use rust_libp2p_nym.Transport.State.{NymTransport}
use rust_libp2p_nym.Transport.Opening.{
  drain, open_queue, create_open_queue, handle_message_queue_on_connection_initiation,
}
use rust_libp2p_nym.Transport.Handlers.{
  hand_over, queue_of, insert_connection, resolve_dial, handle_connection_response, send_outbound,
  accept, handle_connection_request, forward, handle_transport_message,
}
use rust_libp2p_nym.Transport.Delivery.{try_push_cases, queued, handle_held, handle_passed}
use rust_libp2p_nym.Transport.Branches.{
  set_cases, forward_queued_returns, request_without_recipient, request_connected, request_lem,
  undialled, response_connected, response_unasked, response_lem,
}
use rust_libp2p_nym.Transport.Polling.{upgrade, handle_inbound}

module _ ⦃f : Foreign⦄ ⦃c : Channels⦄ where
  -- What no handler touches: the stream of inbound messages, the addresses, the listener and the key.
  abbrev pub Fixed : Type 0
  Fixed = c.Chan InboundMessage × f.Recipient × f.Multiaddr × f.ListenerId × f.Keypair

  abbrev pub fixed : NymTransport → Fixed
  fixed t = (t.inbound_stream, t.self_address, t.listen_addr, t.listener_id, t.keypair)

  abbrev returned_with : {A : Type 0} → A → NymTransport → Outcome Error A × NymTransport
  returned_with a t = (ok a, t)

  refused : {A : Type 0} (t : NymTransport) (e : Error) → Steps fixed {A = A} (err e, t) t
  refused t e = record { ends = λ x. absurd (cc x); same = refl }

  returned : {A : Type 0} (a : A) (t : NymTransport) → Steps fixed (returned_with a t) t
  returned a t = record { ends = λ x. absurd (cc x); same = refl }

  inserted :
      {A : Type 0} (id : ConnectionId) (t : NymTransport) {r : Outcome Error A × NymTransport}
      → Steps fixed r (insert_connection id c.unbounded_channel t)
      → Steps fixed r t
  inserted id t h = record { ends = h.ends; same = h.same }

  upgrade-Steps :
      (msg : ConnectionMessage) (conn : Connection) (t : NymTransport)
      → Steps fixed (upgrade msg conn t) t
  unfolding upgrade
  upgrade-Steps msg conn t = record { ends = ground arith; same = ground arith }

  drain-Steps :
      (id : ConnectionId) (q : MessageQueue) (ch : c.Chan SubstreamMessage) (t : NymTransport)
      → Steps fixed (drain id q ch t) t
  unfolding drain
  drain-Steps id q ch t = record {
    ends = elim (forward_queued_returns (suc (length q.queue)) q ch (omega arith)) [
      | inl e ↦ λ x. absurd (cc (e, x))
      | inr e ↦ λ x. absurd (cc (e, x))
    ];
    same = refl;
  }

  open_queue-Steps :
      (id : ConnectionId) (q : MessageQueue) (ch : c.Chan SubstreamMessage) (t : NymTransport)
      → Steps fixed (open_queue id q ch t) t
  unfolding open_queue
  open_queue-Steps id q ch t = elim (set_cases {E = Error} q) [
    | inl (q', e) ↦ rw (open_queue, e) (drain-Steps id _ ch t)
    | inr e ↦ rw (open_queue, e) (record { ends = λ x. absurd (cc x); same = refl })
  ]

  initiation-Steps :
      (id : ConnectionId) (t : NymTransport)
      → Steps fixed (handle_message_queue_on_connection_initiation id t) t
  unfolding handle_message_queue_on_connection_initiation create_open_queue
      set_connection_message_received
  initiation-Steps id t = elim (Option-cases (HashMap.get id t.connections)) [
    | inl e ↦
        rw (handle_message_queue_on_connection_initiation, e)
          (record { ends = λ x. absurd (cc x); same = refl })
    | inr (ch, e) ↦ elim (Option-cases (HashMap.get id t.message_queues)) [
      | inl k ↦
          rw (handle_message_queue_on_connection_initiation, e)
            (rw k (record { ends = λ x. absurd (cc x); same = refl }))
      | inr (q, k) ↦
          rw (handle_message_queue_on_connection_initiation, e) (rw k (open_queue-Steps id q ch t))
    ]
  ]

  send_outbound-Steps :
      (message : Message) (recipient : f.Recipient) (t : NymTransport)
      → Steps fixed (send_outbound message recipient t) t
  unfolding send_outbound
  send_outbound-Steps message recipient t = record { ends = ground arith; same = ground arith }

  forward-Steps :
      (m : TransportMessage) (q : MessageQueue) (t : NymTransport) → Steps fixed (forward m q t) t
  unfolding forward
  forward-Steps m q t = elim (Option-cases (HashMap.get m.id t.connections)) [
    | inl e ↦ rw (forward, e) (record { ends = λ x. absurd (cc x); same = refl })
    | inr (ch, e) ↦ elim (Option-cases (c.send m.message ch)) [
      | inl shut ↦ rw (forward, e) (rw shut (record { ends = λ x. absurd (cc x); same = refl }))
      | inr (ch', sent) ↦ rw (forward, e) (rw sent (drain-Steps m.id q ch' t))
    ]
  ]

  handle_transport_message-Steps :
      (m : TransportMessage) (t : NymTransport) → Steps fixed (handle_transport_message m t) t
  unfolding queued
  handle_transport_message-Steps m t =
      elim (try_push_cases (queue_of (HashMap.get m.id t.message_queues)) m) [
        | inl held ↦ rw (handle_held m t held) (record { ends = λ x. absurd (cc x); same = refl })
        | inr passed ↦
            let h = forward-Steps m _ (queued m t) in
            rw (handle_passed m t passed) (record { ends = h.ends; same = h.same })
      ]

  accept-Steps :
      (msg : ConnectionMessage) (recipient : f.Recipient) (t : NymTransport)
      → Steps fixed (accept msg recipient t) t
  unfolding accept
  accept-Steps msg recipient t =
      continue-Steps fixed t (handle_message_queue_on_connection_initiation msg.id _) _
        (inserted msg.id t (initiation-Steps msg.id _))
        λ _.
          continue-Steps fixed _ (send_outbound _ _ _) _ (send_outbound-Steps _ _ _)
            λ _. record { ends = λ x. absurd (cc x); same = refl }

  handle_connection_request-Steps :
      (msg : ConnectionMessage) (t : NymTransport) → Steps fixed (handle_connection_request msg t) t
  handle_connection_request-Steps msg t = elim (Option-cases msg.recipient) [
    | inl e ↦ rw (request_without_recipient msg t e) (refused t _)
    | inr (r, e) ↦ elim (Option-cases (HashMap.get msg.id t.connections)) [
      | inl k ↦ rw (request_lem msg r t e k) (accept-Steps msg r t)
      | inr (ch, k) ↦ rw (request_connected msg r t ch e k) (refused t _)
    ]
  ]

  answer-Steps :
      (i : ConnectionId) (tx : c.Oneshot Connection) (sent : Bool) (t : NymTransport)
      → Steps {E = Error} fixed
          ((if sent then modify (hand_over i tx) else raise Error.connection_send_error) t)
          t
  answer-Steps i tx true t = record { ends = λ x. absurd (cc x); same = refl }
  answer-Steps i tx false t = refused t _

  resolve_dial-Steps :
      (msg : ConnectionMessage) (d : PendingConnection Connection) (t : NymTransport)
      → Steps fixed (resolve_dial msg d t) t
  unfolding resolve_dial
  resolve_dial-Steps msg d t =
      continue-Steps fixed t (handle_message_queue_on_connection_initiation msg.id _) _
        (inserted msg.id t (initiation-Steps msg.id _))
        λ _. answer-Steps msg.id _ (c.oneshot_send _ d.connection_tx) _

  handle_connection_response-Steps :
      (msg : ConnectionMessage) (t : NymTransport)
      → Steps fixed (handle_connection_response msg t) t
  handle_connection_response-Steps msg t = elim (Option-cases (HashMap.get msg.id t.connections)) [
    | inr (ch, e) ↦ rw (response_connected msg t ch e) (refused t _)
    | inl e ↦ elim (Option-cases (HashMap.get msg.id t.pending_dials)) [
      | inl k ↦ rw (response_unasked msg t e k) (refused t _)
      | inr (d, k) ↦
          let h = resolve_dial-Steps msg d (undialled msg t) in
          rw (response_lem msg d t e k) (record { ends = h.ends; same = h.same })
    ]
  ]

  pub handle_inbound-Steps :
      (msg : Message) (t : NymTransport) → Steps fixed (handle_inbound msg t) t
  unfolding handle_inbound
  handle_inbound-Steps (connection_request msg) t =
      continue-Steps fixed t (handle_connection_request msg t) _
        (handle_connection_request-Steps msg t) λ conn. upgrade-Steps msg conn _
  handle_inbound-Steps (connection_response msg) t =
      continue-Steps fixed t (handle_connection_response msg t) _
        (handle_connection_response-Steps msg t) λ _. returned _ _
  handle_inbound-Steps (transport_message msg) t =
      continue-Steps fixed t (handle_transport_message msg t) _
        (handle_transport_message-Steps msg t) λ _. returned _ _
