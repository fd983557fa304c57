-- ===== src/Transport/Interleaving.antt =====
-- src/transport.rs: the handlers of one connection's messages leave the other connections alone,
-- handshakes included.
use rust_libp2p_nym.Prelude.{
  ◌≡◌, ◌≢◌, refl, ap, ◌∙◌, true, false, Option, Option-cases, Bool-cases, Bool, inl, inr, Outcome,
  ok, err, panic, stuck, if◌then◌else◌,
}
use rust_libp2p_nym.Prelude.HashMap
use rust_libp2p_nym.Prelude.Exec.{Exec, continue, modify, raise}
use rust_libp2p_nym.Foreign.{Foreign}
use rust_libp2p_nym.Channel.{Channels}
use rust_libp2p_nym.Error.{Error}
use rust_libp2p_nym.Message.SubstreamMessage.{SubstreamMessage}
use rust_libp2p_nym.Message.ConnectionMessage.{ConnectionMessage}
use rust_libp2p_nym.Message.ConnectionId.{ConnectionId, ConnectionId_key}
use rust_libp2p_nym.Message.Wire.{
  Message, connection_request, connection_response, transport_message,
}
use rust_libp2p_nym.Queue
use rust_libp2p_nym.Queue.{MessageQueue, set_connection_message_received}
use rust_libp2p_nym.Connection.{Connection}
use rust_libp2p_nym.Transport.State.{NymTransport}
use rust_libp2p_nym.Transport.Opening.{
  open_queue, create_open_queue, handle_message_queue_on_connection_initiation,
}
use rust_libp2p_nym.Transport.Handlers.{
  hand_over, insert_connection, resolve_dial, handle_connection_response, send_outbound, accept,
  handle_connection_request, handle_transport_message,
}
use rust_libp2p_nym.Transport.Delivery.{
  Untouched, drain-Untouched, handle_transport_message-Untouched,
}
use rust_libp2p_nym.Transport.Branches.{
  set_cases, request_without_recipient, request_connected, request_lem, undialled,
  response_connected, response_unasked, response_lem,
}
use rust_libp2p_nym.Transport.Polling.{upgrade, handle_inbound}

module _ {S E V : Type 0} (view : S → V) where
  -- Two calls after each other keep what each keeps.
  continue_keeps :
      {A B : Type 0} (s : S) (r : Outcome E A × S) (g : A → Exec S E B)
      → view r.1 ≡ view s
      → ((a : A) → view (g a r.1).1 ≡ view r.1)
      → view (continue r g).1 ≡ view s
  continue_keeps s (ok a, t) g h k = k a ∙ h
  continue_keeps s (err e, t) g h k = h
  continue_keeps s (panic, t) g h k = h
  continue_keeps s (stuck, t) g h k = h

module _ ⦃f : Foreign⦄ ⦃c : Channels⦄ where
  -- What the tables hold for an ID.
  abbrev Entries : Type 0
  Entries = Option (c.Chan SubstreamMessage) × Option MessageQueue

  abbrev entries : ConnectionId → NymTransport → Entries
  entries id t = (HashMap.get id t.connections, HashMap.get id t.message_queues)

  entries-Untouched :
      (id : ConnectionId) (t t' : NymTransport) → entries id t' ≡ entries id t → Untouched id t t'
  entries-Untouched id t t' e = record {
    connection = ap (λ (p : Entries). p.0) e;
    queue = ap (λ (p : Entries). p.1) e;
  }

  Untouched-entries :
      (id : ConnectionId) (t t' : NymTransport) → Untouched id t t' → entries id t' ≡ entries id t
  Untouched-entries id t t' u =
      ap (λ x. (x, HashMap.get id t'.message_queues)) u.connection
      ∙ ap (λ x. (HashMap.get id t.connections, x)) u.queue

  insert_entries :
      (id own : ConnectionId) (ch : c.Chan SubstreamMessage) (t : NymTransport)
      → own ≢ id
      → entries id (insert_connection own ch t) ≡ entries id t
  insert_entries id own ch t ne =
      ap (λ x. (x, HashMap.get id t.message_queues))
        (HashMap.get-insert_ne own id ch t.connections ne)

  initiation_entries :
      (id own : ConnectionId) (t : NymTransport)
      → own ≢ id
      → entries id (handle_message_queue_on_connection_initiation own t).1 ≡ entries id t
  unfolding handle_message_queue_on_connection_initiation open_queue create_open_queue
  initiation_entries id own t ne = elim (Option-cases (HashMap.get own t.connections)) [
    | inl e ↦ rw (handle_message_queue_on_connection_initiation, e) refl
    | inr (ch, e) ↦ elim (Option-cases (HashMap.get own t.message_queues)) [
      | inl k ↦ elim (set_cases {E = Error} Queue.new) [
        | inl (q, z) ↦
            rw (handle_message_queue_on_connection_initiation, e)
              (rw k (
                rw (create_open_queue, z)
                  (ap (λ x. (HashMap.get id t.connections, x))
                    (HashMap.get-insert_ne own id q t.message_queues ne))))
        | inr z ↦
            rw (handle_message_queue_on_connection_initiation, e)
              (rw k (rw (create_open_queue, z) refl))
      ]
      | inr (q, k) ↦ elim (set_cases {E = Error} q) [
        | inl (q', z) ↦
            rw (handle_message_queue_on_connection_initiation, e)
              (rw k
                (rw (open_queue, z) (Untouched-entries id t _ (drain-Untouched id own q' ch t ne))))
        | inr z ↦
            rw (handle_message_queue_on_connection_initiation, e) (rw k (rw (open_queue, z) refl))
      ]
    ]
  ]

  send_outbound_entries :
      (id : ConnectionId) (message : Message) (recipient : f.Recipient) (t : NymTransport)
      → entries id (send_outbound message recipient t).1 ≡ entries id t
  unfolding send_outbound
  send_outbound_entries id message recipient t =
      elim (Option-cases
        (c.send (record { message = message; recipient = recipient }) t.outbound_tx)) [
          | inl e ↦ rw (send_outbound, e) refl
          | inr (ch, e) ↦ rw (send_outbound, e) refl
        ]

  abbrev opened : ConnectionId → NymTransport → NymTransport
  opened id t =
      (handle_message_queue_on_connection_initiation id
        (insert_connection id c.unbounded_channel t)).1

  accept_entries :
      (id : ConnectionId) (msg : ConnectionMessage) (recipient : f.Recipient) (t : NymTransport)
      → msg.id ≢ id
      → entries id (accept msg recipient t).1 ≡ entries id t
  unfolding accept
  accept_entries id msg recipient t ne =
      continue_keeps (entries id) (insert_connection msg.id c.unbounded_channel t)
        (handle_message_queue_on_connection_initiation msg.id _) _
        (initiation_entries id msg.id _ ne)
        (λ _.
          continue_keeps (entries id) (opened msg.id t) (send_outbound _ _ _) _
            (send_outbound_entries id _ _ (opened msg.id t)) λ _. refl)
      ∙ insert_entries id msg.id c.unbounded_channel t ne

  request_entries :
      (id : ConnectionId) (msg : ConnectionMessage) (t : NymTransport)
      → msg.id ≢ id
      → entries id (handle_connection_request msg t).1 ≡ entries id t
  request_entries id msg t ne = elim (Option-cases msg.recipient) [
    | inl e ↦ rw (request_without_recipient msg t e) refl
    | inr (recipient, e) ↦ elim (Option-cases (HashMap.get msg.id t.connections)) [
      | inl k ↦ rw (request_lem msg recipient t e k) (accept_entries id msg recipient t ne)
      | inr (ch, k) ↦ rw (request_connected msg recipient t ch e k) refl
    ]
  ]

  answer_entries :
      (id i : ConnectionId) (tx : c.Oneshot Connection) (waits : Bool) (t : NymTransport)
      → entries id
          ((if waits
              then modify {E = Error} (hand_over i tx)
              else raise Error.connection_send_error)
            t).1
        ≡ entries id t
  answer_entries id i tx true t = refl
  answer_entries id i tx false t = refl

  response_entries :
      (id : ConnectionId) (msg : ConnectionMessage) (t : NymTransport)
      → msg.id ≢ id
      → entries id (handle_connection_response msg t).1 ≡ entries id t
  unfolding resolve_dial
  response_entries id msg t ne = elim (Option-cases (HashMap.get msg.id t.connections)) [
    | inr (ch, e) ↦ rw (response_connected msg t ch e) refl
    | inl e ↦ elim (Option-cases (HashMap.get msg.id t.pending_dials)) [
      | inl k ↦ rw (response_unasked msg t e k) refl
      | inr (d, k) ↦ rw (response_lem msg d t e k) (
          continue_keeps (entries id)
            (insert_connection msg.id c.unbounded_channel (undialled msg t))
            (handle_message_queue_on_connection_initiation msg.id _) _
            (initiation_entries id msg.id _ ne)
            (λ _. answer_entries id msg.id _ (c.oneshot_send _ d.connection_tx) _)
          ∙ insert_entries id msg.id c.unbounded_channel (undialled msg t) ne)
    ]
  ]

  upgrade_entries :
      (id : ConnectionId) (msg : ConnectionMessage) (conn : Connection) (t : NymTransport)
      → entries id (upgrade msg conn t).1 ≡ entries id t
  unfolding upgrade
  upgrade_entries id msg conn t =
      elim (Bool-cases
        (c.oneshot_send {A = f.PeerId × Connection} (msg.peer_id, conn) c.oneshot_channel)) [
          | inl e ↦ rw (upgrade, e) refl
          | inr e ↦ rw (upgrade, e) refl
        ]

  -- The connection that a message belongs to.
  abbrev pub id_of : Message → ConnectionId
  id_of (connection_request msg) = msg.id
  id_of (connection_response msg) = msg.id
  id_of (transport_message msg) = msg.id

  -- Handling any message leaves the channel and the queue of every other connection as they are, a
  -- request or a response that establishes its own connection too.
  pub handle_inbound-Untouched :
      (id : ConnectionId) (msg : Message) (t : NymTransport)
      → id_of msg ≢ id
      → Untouched id t (handle_inbound msg t).1
  unfolding handle_inbound
  handle_inbound-Untouched id (connection_request msg) t ne = entries-Untouched id t _ (
      continue_keeps (entries id) t (handle_connection_request msg t) _
        (request_entries id msg t ne) λ conn. upgrade_entries id msg conn _)
  handle_inbound-Untouched id (connection_response msg) t ne = entries-Untouched id t _ (
      continue_keeps (entries id) t (handle_connection_response msg t) _
        (response_entries id msg t ne) λ _. refl)
  handle_inbound-Untouched id (transport_message msg) t ne = entries-Untouched id t _ (
      continue_keeps (entries id) t (handle_transport_message msg t) _
        (Untouched-entries id t _ (handle_transport_message-Untouched id msg t ne)) λ _. refl)
