-- ===== src/Transport/Safety/Polling.antt =====
-- src/transport.rs: a transport that is polled and dials does not panic, if no message has the nonce
-- 0.
use rust_libp2p_nym.Prelude.{
  ℕ, zero, suc, ◌≤◌, ◌≡◌, refl, sym, ap, subst, arith, inl, inr, Bool-cases, Option, Outcome, ok,
  err, panic, stuck, All,
}
use rust_libp2p_nym.Prelude.HashMap
use rust_libp2p_nym.Prelude.HashMap.{HashMap}
use rust_libp2p_nym.Message.SubstreamMessage.{SubstreamMessage}
use rust_libp2p_nym.Queue.{MessageQueue}
use rust_libp2p_nym.Prelude.Steps.{Safe, continue-Safe}
use rust_libp2p_nym.Foreign.{Foreign}
use rust_libp2p_nym.Channel.{Channels, ChannelLaws, Poll-cases}
use rust_libp2p_nym.Error.{Error}
use rust_libp2p_nym.Message.ConnectionMessage.{ConnectionMessage}
use rust_libp2p_nym.Message.ConnectionId.{ConnectionId, ConnectionId_key}
use rust_libp2p_nym.Message.Wire.{
  Message, InboundMessage, OutboundMessage, connection_request, connection_response,
  transport_message,
}
use rust_libp2p_nym.Connection.{Connection}
use rust_libp2p_nym.Transport.State.{
  NymTransport, InboundTransportEvent, connection_requested, connection_responded, message_handled,
}
use rust_libp2p_nym.Transport.Handlers.{
  handle_connection_response, handle_connection_request, handle_transport_message,
}
use rust_libp2p_nym.Transport.Polling.{
  Polled, settle, received, upgrade, handle_inbound, poll_loop, poll,
}
use rust_libp2p_nym.Transport.Dialing.{dial, multiaddress_to_nym_address, new, remove_listener}
use rust_libp2p_nym.Transport.Steps.{Fixed, handle_inbound-Steps}
use rust_libp2p_nym.Transport.Safety.{IsHeldBack, handle_transport_message-Safe}
use rust_libp2p_nym.Transport.Safety.Handshake.{
  handle_connection_request-Safe, handle_connection_response-Safe,
}

module _ ⦃f : Foreign⦄ ⦃c : Channels⦄ where
  -- The nonces of transport messages start at 1.
  abbrev pub IsCountedMessage : Message → Type 0
  IsCountedMessage (connection_request m) = Unit
  IsCountedMessage (connection_response m) = Unit
  IsCountedMessage (transport_message m) = 1 ≤ m.nonce

  -- None of the messages that wait in the stream has the nonce 0.
  abbrev pub IsCountedStream : c.Chan InboundMessage → Type 0
  IsCountedStream ch = All (λ (i : InboundMessage). IsCountedMessage i.message) (c.contents ch)

  upgrade-Safe :
      (msg : ConnectionMessage) (conn : Connection) (t : NymTransport)
      → IsHeldBack t
      → Safe IsHeldBack (upgrade msg conn t)
  unfolding upgrade
  upgrade-Safe msg conn t h =
      elim (Bool-cases
        (c.oneshot_send {A = f.PeerId × Connection} (msg.peer_id, conn) c.oneshot_channel)) [
          | inl e ↦ rw (upgrade, e) (record { calm = λ x. absurd (cc x); kept = h })
          | inr e ↦ rw (upgrade, e) (record { calm = λ x. absurd (cc x); kept = h })
        ]

  -- The transports that the program reaches from a new one, when no polled message has the nonce 0.
  -- What arrives in the stream, and the waker, are the environment's.
  pub data Reachable : NymTransport → Type 0 where
    created :
        (keypair : f.Keypair) (timeout : Option ℕ) (address : f.Recipient)
        (rx : c.Chan InboundMessage) (tx : c.Chan OutboundMessage) (id : f.ListenerId)
        {t : NymTransport}
        → new keypair timeout address rx tx id ≡ ok t
        → Reachable t
    polled :
        (cx : f.Waker) {t : NymTransport}
        → Reachable t
        → IsCountedStream t.inbound_stream
        → Reachable (poll cx t).1
    dialled :
        (id : ConnectionId) (address : f.Multiaddr) {t : NymTransport}
        → Reachable t
        → Reachable (dial id address t).1
    removed :
        (id : f.ListenerId) {t : NymTransport} → Reachable t → Reachable (remove_listener id t).1
    arrived :
        (rx : c.Chan InboundMessage) {t : NymTransport}
        → Reachable t
        → Reachable (record t { inbound_stream = rx })

  -- The parts of the transport that the invariant is about.
  abbrev pub tables :
      NymTransport
      → HashMap ConnectionId (c.Chan SubstreamMessage) × HashMap ConnectionId MessageQueue
  tables t = (t.connections, t.message_queues)

  pub tables-dial :
      (id : ConnectionId) (address : f.Multiaddr) (t : NymTransport)
      → tables (dial id address t).1 ≡ tables t
  unfolding dial multiaddress_to_nym_address
  tables-dial id address t = ground arith

  pub tables-remove_listener :
      (id : f.ListenerId) (t : NymTransport) → tables (remove_listener id t).1 ≡ tables t
  unfolding remove_listener
  tables-remove_listener id t = ground arith

  module _ (laws : ChannelLaws) where
    handle_inbound-Safe :
        (msg : Message) (t : NymTransport)
        → IsCountedMessage msg
        → IsHeldBack t
        → Safe IsHeldBack (handle_inbound msg t)
    unfolding handle_inbound
    handle_inbound-Safe (connection_request msg) t n h =
        continue-Safe IsHeldBack (handle_connection_request msg t) _
          (handle_connection_request-Safe laws msg t h) λ conn _ k. upgrade-Safe msg conn _ k
    handle_inbound-Safe (connection_response msg) t n h =
        continue-Safe IsHeldBack (handle_connection_response msg t) _
          (handle_connection_response-Safe laws msg t h)
          λ _ _ k. record { calm = λ x. absurd (cc x); kept = k }
    handle_inbound-Safe (transport_message m) t n h =
        continue-Safe IsHeldBack (handle_transport_message m t) _
          (handle_transport_message-Safe m t n h)
          λ _ _ k. record { calm = λ x. absurd (cc x); kept = k }

    settle-Safe :
        (r : Outcome Error InboundTransportEvent × NymTransport) (rest : NymTransport → Polled)
        → Safe IsHeldBack r
        → (IsHeldBack r.1 → Safe IsHeldBack (rest r.1))
        → Safe IsHeldBack (settle r rest)
    settle-Safe (ok (connection_requested u), t) rest h k = record {
      calm = λ x. absurd (cc x);
      kept = h.kept;
    }
    settle-Safe (ok connection_responded, t) rest h k = k h.kept
    settle-Safe (ok message_handled, t) rest h k = k h.kept
    settle-Safe (err e, t) rest h k = record { calm = λ x. absurd (cc x); kept = h.kept }
    settle-Safe (panic, t) rest h k = absurd (h.calm refl)
    settle-Safe (stuck, t) rest h k = record { calm = λ x. absurd (cc x); kept = h.kept }

    poll_loop-Safe :
        (fuel : ℕ) (cx : f.Waker) (t : NymTransport)
        → IsCountedStream t.inbound_stream
        → IsHeldBack t
        → Safe IsHeldBack (poll_loop fuel cx t)
    unfolding poll_loop
    poll_loop-Safe zero cx t n h = record { calm = λ x. absurd (cc x); kept = h }
    poll_loop-Safe (suc fuel) cx t n h = elim (Poll-cases (c.poll_recv t.inbound_stream).0) [
      | inl (msg, e) ↦
          let split : IsCountedMessage msg.message × IsCountedStream (received t).inbound_stream =
            subst (λ xs. All (λ (i : InboundMessage). IsCountedMessage i.message) xs)
              (laws.received msg t.inbound_stream (c.poll_recv t.inbound_stream).1
                (ap (λ p. (p, (c.poll_recv t.inbound_stream).1)) e))
              n in
          let same = ap (λ (p : Fixed). p.0) (handle_inbound-Steps msg.message (received t)).same in
          rw (poll_loop, e)
            (settle-Safe (handle_inbound msg.message (received t)) _
              (handle_inbound-Safe msg.message (received t) split.0 h)
              λ k. poll_loop-Safe fuel cx _ (subst IsCountedStream (sym same) split.1) k)
      | inr (inl e) ↦ rw (poll_loop, e) (record { calm = λ x. absurd (cc x); kept = h })
      | inr (inr e) ↦ rw (poll_loop, e) (record { calm = λ x. absurd (cc x); kept = h })
    ]

    -- Polling a transport does not panic, if no waiting message has the nonce 0 and only
    -- established connections have queues that expect another nonce than 0; and the latter still holds
    -- behind the poll.
    pub transport_poll-Safe :
        (cx : f.Waker) (t : NymTransport)
        → IsCountedStream t.inbound_stream
        → IsHeldBack t
        → Safe IsHeldBack (poll cx t)
    unfolding poll
    transport_poll-Safe cx t n h = elim (Poll-cases (c.poll_recv t.poll_chan).0) [
      | inl (event, e) ↦ rw (poll, e) (record { calm = λ x. absurd (cc x); kept = h })
      | inr (inl e) ↦ rw (poll, e) (poll_loop-Safe _ cx _ n h)
      | inr (inr e) ↦ rw (poll, e) (poll_loop-Safe _ cx _ n h)
    ]
